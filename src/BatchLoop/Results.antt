-- ===== src/BatchLoop/Results.antt =====
-- storeRetValInPtrArg: where the returned values go.
use mem_opt.Common.{
  ℕ, ◌≡◌, ◌≢◌, refl, sym, ap, ◌∙◌, subst, inl, inr, false, none, some, List, [], ◌∷◌, ◌++◌, Memᴰ,
  ◌==◌, ==_ne, ==_self, >>=-eq-some, if◌then◌else◌, contains_of_mem, Distinct, length, Bool-cases,
}
use mathlib.Core.List.Memᴰ
use mem_opt.Llvm.{
  Llvm, Value, Inst, ret, br, store, alloca, take, starts_with_phi, compute, opaque_inst,
  store_through, phi, is_return,
}
use mem_opt.ExitNodes.{return_operand, get_return_inst_list, get_return_blocks}
use mem_opt.ExitNodes.Unified.{select_blocks-complete}
use mem_opt.Loops.{append_insts}
use mem_opt.Loops.Fresh.{some_inj}
use mem_opt.BatchLoop.{
  store_result, store_and_split, store_and_branch, store_returns, store_ret_val_in_ptr_arg,
}
use mem_opt.BatchLoop.Returns.{term-store_and_branch, get_return_inst_list-set_insts}

take-length : (l : List Inst) → take (length l) l ≡ l
take-length [] = refl
take-length (i ∷ l) = ap (λ x. i ∷ x) (take-length l)

starts_with_phi-append :
    (slot idx : ℕ) (v : Value) (l : List Inst)
    → starts_with_phi l ≡ false
    → starts_with_phi (l ++ store_result slot idx v) ≡ false
starts_with_phi-append slot idx v [] h = refl
starts_with_phi-append slot idx v (alloca a ∷ l) h = h
starts_with_phi-append slot idx v (opaque_inst n ∷ l) h = h
starts_with_phi-append slot idx v (store w a ∷ l) h = h
starts_with_phi-append slot idx v (store_through w p ∷ l) h = h
starts_with_phi-append slot idx v (compute w ∷ l) h = h
starts_with_phi-append slot idx v (phi is ∷ l) h = h

module _ (L : Llvm) where
  open L use {
    Ir, entry, insts, term, new_block, create_block, split_block, new_slot, set_term, set_insts,
  }

  insts-append_insts :
      (b : ℕ) (l : List Inst) (s : Ir) (x : ℕ)
      → insts (append_insts L b l s) x ≡ (if b == x then insts s b ++ l else insts s x)
  insts-append_insts b l s x = L.insts-set_insts b (insts s b ++ l) s x

  -- A block that is not in the list keeps its instructions.
  insts-store_and_branch-other :
      (slot idx target : ℕ) (bs : List ℕ) (s r : Ir) (x : ℕ)
      → store_and_branch L slot idx target bs s ≡ some r
      → ¬ Memᴰ x bs
      → insts r x ≡ insts s x
  unfolding store_and_branch
  insts-store_and_branch-other slot idx target [] s r x h out = rw (some_inj s r h) refl
  insts-store_and_branch-other slot idx target (b ∷ bs) s r x h out =
      let (v, _, h') = >>=-eq-some (return_operand (term s b)) _ h in
      let s1 = append_insts L b (store_result slot idx v) s in
      insts-store_and_branch-other slot idx target bs (set_term b (br target) s1) r x h'
        (λ m. out (Memᴰ.tail m))
      ∙ L.insts-set_term b (br target) s1 x
      ∙ insts-append_insts b (store_result slot idx v) s x
      ∙ rw (==_ne b x (λ e. out (Memᴰ.head (sym e)))) refl

  -- A block of the list stores what it returned.
  insts-store_and_branch :
      (slot idx target : ℕ) (bs : List ℕ) (s r : Ir) (x : ℕ) (v : Value)
      → store_and_branch L slot idx target bs s ≡ some r
      → Distinct bs
      → Memᴰ x bs
      → term s x ≡ some (ret (some v))
      → insts r x ≡ insts s x ++ store_result slot idx v
  unfolding store_and_branch return_operand
  insts-store_and_branch slot idx target [] s r x v h apart m at = absurd (Memᴰ.not-nil m)
  insts-store_and_branch slot idx target (b ∷ bs) s r x v h (off, apart) m at =
      let (w, w_at, h') = >>=-eq-some (return_operand (term s b)) _ h in
      let s1 = append_insts L b (store_result slot idx w) s in
      elim (Memᴰ.cases_cons m) [
        | inl here ↦
            let returns : term s b ≡ some (ret (some v)) =
              subst (λ y. term s y ≡ some (ret (some v))) here at in
            subst (λ y. insts r y ≡ insts s y ++ store_result slot idx v) (sym here)
              (insts-store_and_branch-other slot idx target bs (set_term b (br target) s1) r b h'
                  off
                ∙ L.insts-set_term b (br target) s1 b
                ∙ insts-append_insts b (store_result slot idx w) s b
                ∙ rw (==_self b) (
                    ap (λ w. insts s b ++ store_result slot idx w)
                      (some_inj v w (sym (ap return_operand returns) ∙ w_at))))
        | inr later ↦
            let other : b ≢ x = λ e. off (subst (λ y. Memᴰ y bs) (sym e) later) in
            insts-store_and_branch slot idx target bs (set_term b (br target) s1) r x v h' apart
              later
              (L.term-set_term b (br target) s1 x
                ∙ rw (==_ne b x other) (L.term-set_insts b _ s x ∙ at))
            ∙ ap (λ l. l ++ store_result slot idx v)
                (L.insts-set_term b (br target) s1 x
                  ∙ insts-append_insts b (store_result slot idx w) s x
                  ∙ rw (==_ne b x other) refl)
      ]

  -- The one block that returns.
  split_stores :
      (slot idx b : ℕ) (s : Ir) (q : ℕ × Ir) (v : Value)
      → store_and_split L slot idx b s ≡ some q
      → term s b ≡ some (ret (some v))
      → starts_with_phi (insts s b) ≡ false
      → Memᴰ b (L.blocks s)
      → (insts q.1 b ≡ insts s b ++ store_result slot idx v) × (term q.1 b ≡ some (br q.0))
  unfolding store_and_split return_operand
  split_stores slot idx b s q v h at no_phi inside =
      let (w, w_at, h') = >>=-eq-some (return_operand (term s b)) _ h in
      let stored = insts s b ++ store_result slot idx w in
      let s1 = set_insts b stored s in
      let at1 : insts s1 b ≡ stored = L.insts-set_insts b stored s b ∙ rw (==_self b) refl in
      let old : (new_block s1 == b) ≡ false = ==_ne (new_block s1) b (λ e.
        L.new_block_fresh s1
          (subst (λ y. Memᴰ y (L.blocks s1)) (sym e) (rw (L.blocks-set_insts) inside))) in
      subst
        (λ q. (insts q.1 b ≡ insts s b ++ store_result slot idx v) × (term q.1 b ≡ some (br q.0)))
        (sym (
          some_inj
            (
              new_block s1,
              set_term (new_block s1) (ret none) (split_block b (length (insts s1 b)) s1),
            )
            q h'))
        (
          L.insts-set_term (new_block s1) (ret none) (split_block b (length (insts s1 b)) s1) b
              ∙ L.insts-split_block b (length (insts s1 b)) s1 b (
                  ap (λ l. starts_with_phi l) at1
                  ∙ starts_with_phi-append slot idx w (insts s b) no_phi)
              ∙ rw (old, ==_self b) (take-length (insts s1 b) ∙ at1)
              ∙ ap (λ w. insts s b ++ store_result slot idx w)
                  (some_inj v w (sym (ap return_operand at) ∙ w_at)),
          L.term-set_term (new_block s1) (ret none) (split_block b (length (insts s1 b)) s1) b
              ∙ rw old (L.term-split_block b (length (insts s1 b)) s1 b ∙ rw (old, ==_self b) refl),
        )

  -- The instructions in front of the stored result: those of the block, in the entry block behind the
  -- new slot for the argument.
  abbrev pub in_front : Value → Ir → ℕ → List Inst
  in_front ret_arg s b =
      if entry s == b
      then alloca (new_slot s) ∷ store ret_arg (new_slot s) ∷ insts s (entry s)
      else insts s b

  in_front-phi :
      (ret_arg : Value) (s : Ir) (b : ℕ)
      → starts_with_phi (insts s b) ≡ false
      → starts_with_phi (in_front ret_arg s b) ≡ false
  in_front-phi ret_arg s b h = elim (Bool-cases (entry s == b)) [
    | inl e ↦ rw e refl
    | inr e ↦ rw e h
  ]

  returning :
      (s : Ir) (b : ℕ) (v : Value)
      → Memᴰ b (L.blocks s)
      → term s b ≡ some (ret (some v))
      → Memᴰ b (get_return_inst_list L s)
  unfolding get_return_inst_list get_return_blocks is_return
  returning s b v inside at =
      select_blocks-complete L is_return s (L.blocks s) b inside (ap (λ t. is_return t) at)

  returns_stored :
      (bs : List ℕ) (slot idx b : ℕ) (s : Ir) (q : ℕ × Ir) (v : Value)
      → store_returns L bs slot idx s ≡ some q
      → Distinct bs
      → Memᴰ b bs
      → Memᴰ b (L.blocks s)
      → term s b ≡ some (ret (some v))
      → starts_with_phi (insts s b) ≡ false
      → (insts q.1 b ≡ insts s b ++ store_result slot idx v) × (term q.1 b ≡ some (br q.0))
  unfolding store_returns
  returns_stored [] slot idx b s q v h apart m inside at no_phi = absurd (Memᴰ.not-nil m)
  returns_stored (c ∷ []) slot idx b s q v h apart m inside at no_phi = elim (Memᴰ.cases_cons m) [
    | inl e ↦
        split_stores slot idx b s q v
          (subst (λ c. store_and_split L slot idx c s ≡ some q) (sym e) h) at no_phi inside
    | inr none_left ↦ absurd (Memᴰ.not-nil none_left)
  ]
  returns_stored (c ∷ d ∷ bs) slot idx b s q v h apart m inside at no_phi =
      let new = new_block s in
      let s1 = create_block none s in
      let (r, branched, end) = >>=-eq-some (store_and_branch L slot idx new (c ∷ d ∷ bs) s1) _ h in
      let old : (new == b) ≡ false =
        ==_ne new b (λ e. L.new_block_fresh s (subst (λ y. Memᴰ y (L.blocks s)) (sym e) inside)) in
      subst
        (λ q. (insts q.1 b ≡ insts s b ++ store_result slot idx v) × (term q.1 b ≡ some (br q.0)))
        (sym (some_inj (new, r) q end))
        (
          insts-store_and_branch slot idx new (c ∷ d ∷ bs) s1 r b v branched apart m
                (L.term-create_block none s b ∙ rw old at)
              ∙ ap (λ l. l ++ store_result slot idx v)
                  (L.insts-create_block none s b ∙ rw old refl),
          term-store_and_branch L slot idx new (c ∷ d ∷ bs) s1 r b branched
              ∙ rw (contains_of_mem b (c ∷ d ∷ bs) m) refl,
        )

  -- Where storeRetValInPtrArg succeeds on a function whose blocks are different, each block that
  -- returned a value ends by storing it at the current index of the array that the argument points
  -- to, and goes to RetBlock, however many returns there are. What stood in the block stays in front;
  -- the entry block starts with the slot for the argument. The block starts with no PHI node.
  pub store_ret_val_in_ptr_arg-stores :
      (ret_arg : Value) (idx : ℕ) (s : Ir) (q : ℕ × Ir) (b : ℕ) (v : Value)
      → store_ret_val_in_ptr_arg L ret_arg idx s ≡ some q
      → Distinct (get_return_inst_list L s)
      → Memᴰ b (L.blocks s)
      → term s b ≡ some (ret (some v))
      → starts_with_phi (insts s b) ≡ false
      → (insts q.1 b ≡ in_front ret_arg s b ++ store_result (new_slot s) idx v)
        × (term q.1 b ≡ some (br q.0))
  unfolding store_ret_val_in_ptr_arg
  store_ret_val_in_ptr_arg-stores ret_arg idx s q b v h apart inside at no_phi =
      let l = alloca (new_slot s) ∷ store ret_arg (new_slot s) ∷ insts s (entry s) in
      let s1 = set_insts (entry s) l s in
      let front : insts s1 b ≡ in_front ret_arg s b = L.insts-set_insts (entry s) l s b in
      let same : get_return_inst_list L s1 ≡ get_return_inst_list L s =
        get_return_inst_list-set_insts L (entry s) l s in
      let (stored, goes) =
        returns_stored (get_return_inst_list L s1) (new_slot s) idx b s1 q v h
          (subst (λ bs. Distinct bs) (sym same) apart)
          (subst (λ bs. Memᴰ b bs) (sym same) (returning s b v inside at))
          (rw (L.blocks-set_insts) inside) (L.term-set_insts (entry s) l s b ∙ at)
          (ap (λ l. starts_with_phi l) front ∙ in_front-phi ret_arg s b no_phi) in
      (stored ∙ ap (λ l. l ++ store_result (new_slot s) idx v) front, goes)
