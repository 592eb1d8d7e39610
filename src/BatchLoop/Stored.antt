-- ===== src/BatchLoop/Stored.antt =====
-- storeRetValInPtrArg: the function that is left returns nothing.
use mem_opt.Common.{
  ℕ, ◌≡◌, refl, sym, subst, inl, inr, true, false, Option, none, some, List, [], ◌∷◌, ◌++◌, Memᴰ,
  ◌==◌, ==_ne, ==_iff, >>=-eq-some, contains, contains_of_mem, length, Bool-cases,
}
use mem_opt.Llvm.{Llvm, Value, Term, ret, br, store, alloca, is_return}
use mem_opt.ExitNodes.{return_operand, get_return_inst_list, get_return_blocks}
use mem_opt.ExitNodes.Unified.{select_blocks-complete}
use mem_opt.Loops.Fresh.{some_inj}
use mem_opt.BatchLoop.{
  store_result, store_and_split, store_and_branch, store_returns, store_ret_val_in_ptr_arg,
}
use mem_opt.BatchLoop.Returns.{term-store_and_branch, blocks-store_and_branch}

-- A terminator that returns, returns nothing.
abbrev pub IsVoid : Option Term → Type 0
IsVoid t = is_return t ≡ true → t ≡ some (ret none)

pub IsVoid-br : (t : ℕ) → IsVoid (some (br t))
unfolding is_return
IsVoid-br t h = cc

module _ (L : Llvm) where
  open L use {
    Ir, blocks, entry, term, insts, new_block, create_block, split_block, set_term, set_insts,
  }

  -- A block that is not among the returns does not return.
  unlisted :
      (s : Ir) (x : ℕ)
      → Memᴰ x (blocks s)
      → contains x (get_return_inst_list L s) ≡ false
      → IsVoid (term s x)
  unfolding get_return_inst_list get_return_blocks
  unlisted s x m out h = cc (
    out,
    contains_of_mem x (get_return_inst_list L s)
        (select_blocks-complete L is_return s (blocks s) x m h),
  )

  -- The block `b` split in front of a return of nothing.
  abbrev ended : ℕ → ℕ → Ir → Ir
  ended b i s = set_term (new_block s) (ret none) (split_block b i s)

  ended-IsVoid :
      (b i : ℕ) (s : Ir) (x : ℕ)
      → ((y : ℕ) → Memᴰ y (blocks s) → (b == y) ≡ false → IsVoid (term s y))
      → Memᴰ x (blocks (ended b i s))
      → IsVoid (term (ended b i s) x)
  ended-IsVoid b i s x others m = elim (Bool-cases (new_block s == x)) [
    | inl new ↦ λ h. simp (L.term-set_term, new)
    | inr old ↦ elim (Bool-cases (b == x)) [
      | inl here ↦
          subst IsVoid (sym (simp (L.term-set_term, L.term-split_block, old, here)))
            (IsVoid-br (new_block s))
      | inr other ↦
          subst IsVoid (sym (simp (L.term-set_term, L.term-split_block, old, other)))
            (others x (was_in (rw (L.blocks-set_term) at m) old) other)
    ]
  ]
    where
      was_in : Memᴰ x (blocks (split_block b i s)) → (new_block s == x) ≡ false → Memᴰ x (blocks s)
      was_in k old = elim ((L.blocks-split_block b i s x).0 k) [
        | inl e ↦ cc (old, (==_iff (new_block s) x).1 (sym e))
        | inr k' ↦ k'
      ]

  store_and_split-IsVoid :
      (slot idx b : ℕ) (s : Ir) (q : ℕ × Ir) (x : ℕ)
      → get_return_inst_list L s ≡ b ∷ []
      → store_and_split L slot idx b s ≡ some q
      → Memᴰ x (blocks q.1)
      → IsVoid (term q.1 x)
  unfolding store_and_split
  store_and_split-IsVoid slot idx b s q x one done =
      let (v, returned, end) = >>=-eq-some (return_operand (term s b)) _ done in
      let l = insts s b ++ store_result slot idx v in
      let s1 = set_insts b l s in
      subst (λ q. Memᴰ x (blocks q.1) → IsVoid (term q.1 x))
        (sym (some_inj (new_block s1, ended b (length (insts s1 b)) s1) q end))
        (ended-IsVoid b (length (insts s1 b)) s1 x (λ y m other.
          subst IsVoid (sym (L.term-set_insts b l s y)) (
            unlisted s y (rw (L.blocks-set_insts) at m)
              (rw (one, ==_ne y b (λ e. cc (other, (==_iff b y).1 (sym e)))) refl))))

  store_and_branch-IsVoid :
      (slot idx : ℕ) (bs : List ℕ) (s r : Ir) (x : ℕ)
      → get_return_inst_list L s ≡ bs
      → store_and_branch L slot idx (new_block s) bs (create_block none s) ≡ some r
      → Memᴰ x (blocks r)
      → IsVoid (term r x)
  unfolding is_return
  store_and_branch-IsVoid slot idx bs s r x listed done m =
      subst IsVoid
        (sym (term-store_and_branch L slot idx (new_block s) bs (create_block none s) r x done))
        (elim (Bool-cases (contains x bs)) [
          | inl here ↦ rw here (IsVoid-br (new_block s))
          | inr other ↦
              rw (other, L.term-create_block)
                (elim (Bool-cases (new_block s == x)) [
                  | inl new ↦ rw new (λ h. cc)
                  | inr old ↦ rw old (
                      unlisted s x
                        (was_in
                          (rw
                            (blocks-store_and_branch L slot idx (new_block s) bs
                              (create_block none s) r done)
                            at m)
                          old)
                        (rw listed other))
                ])
        ])
    where
      was_in :
          Memᴰ x (blocks (create_block none s)) → (new_block s == x) ≡ false → Memᴰ x (blocks s)
      was_in k old = elim ((L.blocks-create_block none s x).0 k) [
        | inl e ↦ cc (old, (==_iff (new_block s) x).1 (sym e))
        | inr k' ↦ k'
      ]

  -- Where storeRetValInPtrArg succeeds, no block of the batch function returns a value any more,
  -- however many returns there were: its type is void.
  pub store_ret_val_in_ptr_arg-IsVoid :
      (ret_arg : Value) (idx : ℕ) (s : Ir) (q : ℕ × Ir) (x : ℕ)
      → store_ret_val_in_ptr_arg L ret_arg idx s ≡ some q
      → Memᴰ x (blocks q.1)
      → IsVoid (term q.1 x)
  unfolding store_ret_val_in_ptr_arg store_returns
  store_ret_val_in_ptr_arg-IsVoid ret_arg idx s q x done m =
      let slot = L.new_slot s in
      let s1 = set_insts (entry s) (alloca slot ∷ store ret_arg slot ∷ insts s (entry s)) s in
      stored (get_return_inst_list L s1) slot s1 refl done
    where
      stored :
          (bs : List ℕ) (slot : ℕ) (s1 : Ir)
          → get_return_inst_list L s1 ≡ bs
          → store_returns L bs slot idx s1 ≡ some q
          → IsVoid (term q.1 x)
      stored [] slot s1 e h = cc
      stored (b ∷ []) slot s1 e h = store_and_split-IsVoid slot idx b s1 q x e h m
      stored (b ∷ c ∷ bs) slot s1 e h =
          let (r, branched, end) =
            >>=-eq-some
              (store_and_branch L slot idx (new_block s1) (b ∷ c ∷ bs) (create_block none s1)) _
              h in
          let same = some_inj (new_block s1, r) q end in
          subst (λ q. Memᴰ x (blocks q.1) → IsVoid (term q.1 x)) (sym same)
            (store_and_branch-IsVoid slot idx (b ∷ c ∷ bs) s1 r x e branched) m
