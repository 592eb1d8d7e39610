-- ===== src/BatchLoop/Returns.antt =====
-- A function with several returns: the exiting block that addBatchLoop creates has no terminator.
use mem_opt.Common.{
  ℕ, ◌≡◌, ◌≢◌, refl, sym, ap, ◌∙◌, subst, Bool, true, Option, none, some, List, [], ◌∷◌, ◌++◌, Memᴰ,
  ◌==◌, >>=-eq-some, >>=-eq-none, if◌then◌else◌, contains, contains_of_mem,
}
use mem_opt.Llvm.{Llvm, Value, Inst, Term, br, store, alloca, is_return}
use mem_opt.ExitNodes.{
  return_operand, get_return_blocks, get_return_inst_list, select_blocks, branch_all,
}
use mem_opt.ExitNodes.Unified.{select_blocks-mem, branch_step, term-branch_all, blocks-branch_all}
use mem_opt.Loops.{append_insts}
use mem_opt.Loops.Fresh.{kept, some_inj}
use mem_opt.BatchLoop.{
  store_result, unify_returns, unify_return_block, store_and_branch, store_returns,
  store_ret_val_in_ptr_arg, add_batch_loop, finish_batch, marker_of,
}
use mem_opt.Annotations.{Instruction}
use mem_opt.BatchLoop.Markers.{HasMarker, marker_of-found}
use mem_opt.BatchLoop.Growth.{
  HasMarker-grown, Grows, Grows-trans, Grows-create_block, Grows-branch_all, Grows-set_insts,
  Grows-store_and_branch,
}
use mem_opt.BatchLoop.Open.{add_batch_loop-eq-none}

module _ (L : Llvm) where
  open L use {
    Ir, blocks, entry, term, insts, preds, new_block, create_block, split_block, set_term,
    set_insts,
  }

  pub term-store_and_branch :
      (slot idx target : ℕ) (bs : List ℕ) (s r : Ir) (c : ℕ)
      → store_and_branch L slot idx target bs s ≡ some r
      → term r c ≡ (if contains c bs then some (br target) else term s c)
  unfolding store_and_branch
  term-store_and_branch slot idx target [] s r c e = rw (some_inj s r e) refl
  term-store_and_branch slot idx target (b ∷ bs) s r c e =
      let (v, _, e') = >>=-eq-some (return_operand (term s b)) _ e in
      let s' = append_insts L b (store_result slot idx v) s in
      term-store_and_branch slot idx target bs (set_term b (br target) s') r c e'
      ∙ ap (λ t. if contains c bs then some (br target) else t)
          (L.term-set_term b (br target) s' c
            ∙ ap (λ t. if b == c then some (br target) else t)
                (L.term-set_insts b (insts s b ++ store_result slot idx v) s c))
      ∙ branch_step (term s c) target b c bs

  pub blocks-store_and_branch :
      (slot idx target : ℕ) (bs : List ℕ) (s r : Ir)
      → store_and_branch L slot idx target bs s ≡ some r
      → blocks r ≡ blocks s
  unfolding store_and_branch
  blocks-store_and_branch slot idx target [] s r e = rw (some_inj s r e) refl
  blocks-store_and_branch slot idx target (b ∷ bs) s r e =
      let (v, _, e') = >>=-eq-some (return_operand (term s b)) _ e in
      blocks-store_and_branch slot idx target bs
        (set_term b (br target) (append_insts L b (store_result slot idx v) s)) r e'
      ∙ (L.blocks-set_term b (br target) (append_insts L b (store_result slot idx v) s)
          ∙ L.blocks-set_insts b (insts s b ++ store_result slot idx v) s)

  returns_in : (s : Ir) (b : ℕ) → Memᴰ b (get_return_inst_list L s) → Memᴰ b (blocks s)
  unfolding get_return_inst_list get_return_blocks
  returns_in s b m = (select_blocks-mem L is_return s (blocks s) m).1

  select_blocks-set_insts :
      (test : Option Term → Bool) (b : ℕ) (l : List Inst) (s : Ir) (bs : List ℕ)
      → select_blocks L test (set_insts b l s) bs ≡ select_blocks L test s bs
  unfolding select_blocks
  select_blocks-set_insts test b l s [] = refl
  select_blocks-set_insts test b l s (x ∷ bs) =
      rw (select_blocks, L.term-set_insts, select_blocks-set_insts test b l s bs) refl

  -- Instructions that are put into a block are not among its returns.
  pub get_return_inst_list-set_insts :
      (b : ℕ) (l : List Inst) (s : Ir)
      → get_return_inst_list L (set_insts b l s) ≡ get_return_inst_list L s
  unfolding get_return_inst_list get_return_blocks
  get_return_inst_list-set_insts b l s =
      rw (L.blocks-set_insts) (select_blocks-set_insts is_return b l s (blocks s))

  module _ (b c : ℕ) (bs : List ℕ) (apart : b ≢ c) where
    b_listed : contains b (b ∷ c ∷ bs) ≡ true
    b_listed = contains_of_mem b (b ∷ c ∷ bs) (Memᴰ.head refl)

    c_listed : contains c (b ∷ c ∷ bs) ≡ true
    c_listed = contains_of_mem c (b ∷ c ∷ bs) (Memᴰ.tail (Memᴰ.head refl))

    -- A function whose blocks `b` and `c` go to the given one.
    loop-eq-none_of_joined :
        (ret_block tc idx : ℕ) (r : Ir) (m : Option (ℕ × ℕ))
        → m ≢ none
        → Memᴰ b (blocks r)
        → Memᴰ c (blocks r)
        → ((x : ℕ) → contains x (b ∷ c ∷ bs) ≡ true → term r x ≡ some (br ret_block))
        → add_batch_loop L m tc ret_block idx r ≡ none
    loop-eq-none_of_joined ret_block tc idx r none found b_in c_in joined = absurd (found refl)
    loop-eq-none_of_joined ret_block tc idx r (some (parent, i)) found b_in c_in joined =
        add_batch_loop-eq-none L ret_block parent i tc idx b c r b_in c_in apart (joined b b_listed)
          (joined c c_listed)

    -- What storeRetValInPtrArg leaves where it succeeds.
    stored_joined :
        (s : Ir) (ret_arg : Value) (idx : ℕ) (q : ℕ × Ir)
        → get_return_inst_list L s ≡ b ∷ c ∷ bs
        → store_ret_val_in_ptr_arg L ret_arg idx s ≡ some q
        → ((x : ℕ) → Memᴰ x (blocks s) → Memᴰ x (blocks q.1))
          × ((x : ℕ) → contains x (b ∷ c ∷ bs) ≡ true → term q.1 x ≡ some (br q.0))
          × Grows L s q.1
    unfolding store_ret_val_in_ptr_arg store_returns
    stored_joined s ret_arg idx q several stored =
        let slot = L.new_slot s in
        let l = alloca slot ∷ store ret_arg slot ∷ insts s (entry s) in
        let s1 = set_insts (entry s) l s in
        let new = new_block s1 in
        let s2 = create_block none s1 in
        let (r, branched, end) =
          >>=-eq-some (store_and_branch L slot idx new (b ∷ c ∷ bs) s2) _
            (rw (get_return_inst_list-set_insts (entry s) l s ∙ several) at stored) in
        subst
          (λ q.
            ((x : ℕ) → Memᴰ x (blocks s) → Memᴰ x (blocks q.1))
            × ((x : ℕ) → contains x (b ∷ c ∷ bs) ≡ true → term q.1 x ≡ some (br q.0))
            × Grows L s q.1)
          (sym (some_inj (new, r) q end))
          (
            (λ x m.
                rw (blocks-store_and_branch slot idx new (b ∷ c ∷ bs) s2 r branched)
                  (kept L none s1 x (rw (L.blocks-set_insts) m))),
            (λ x listed.
                rw (term-store_and_branch slot idx new (b ∷ c ∷ bs) s2 r x branched, listed) refl),
            Grows-trans L s s1 r
                (Grows-set_insts L (entry s) l s (λ i at. Memᴰ.tail (Memᴰ.tail at)))
                (Grows-trans L s1 s2 r (Grows-create_block L s1)
                  (Grows-store_and_branch L slot idx new (b ∷ c ∷ bs) s2 r branched)),
          )

    -- Where the list of returns starts with two different blocks, and a call in a block of the function
    -- is the marker where the batch begins, the end of doBatchTransform has undefined behaviour, whether
    -- the function returns a value or nothing: at the latest, setLoopBody reads the terminator, which is
    -- null, of the exiting block that addBatchLoop creates.
    pub finish_batch-eq-none :
        (read : Inst → Instruction) (id : ℕ) (s : Ir) (ret_arg : Option Value) (tc idx : ℕ)
        → get_return_inst_list L s ≡ b ∷ c ∷ bs
        → HasMarker L read id s
        → finish_batch L (marker_of L read id) ret_arg tc idx s ≡ none
    unfolding finish_batch unify_return_block unify_returns
    finish_batch-eq-none read id s none tc idx several marked =
        let s' = create_block none s in
        let new = new_block s in
        let r = branch_all L new (b ∷ c ∷ bs) s' in
        rw several (
          >>=-eq-none (marker_of L read id r) _ (λ at e.
            loop-eq-none_of_joined new tc idx r at
              (λ z.
                marker_of-found L read id r
                  (HasMarker-grown L read id s r
                    (Grows-trans L s s' r (Grows-create_block L s)
                      (Grows-branch_all L new (b ∷ c ∷ bs) s'))
                    marked)
                  (e ∙ ap (λ o. some o) z))
              (rw (blocks-branch_all L new (b ∷ c ∷ bs) s')
                (kept L none s b (returns_in s b (rw several (Memᴰ.head refl)))))
              (rw (blocks-branch_all L new (b ∷ c ∷ bs) s')
                (kept L none s c (returns_in s c (rw several (Memᴰ.tail (Memᴰ.head refl))))))
              (λ x listed. rw (term-branch_all L new (b ∷ c ∷ bs) s' x, listed) refl)))
    finish_batch-eq-none read id s (some ret_arg) tc idx several marked =
        >>=-eq-none (store_ret_val_in_ptr_arg L ret_arg idx s) _ (λ q stored.
          let (kept_in, joined, grows) = stored_joined s ret_arg idx q several stored in
          >>=-eq-none (marker_of L read id q.1) _ (λ at e.
            loop-eq-none_of_joined q.0 tc idx q.1 at
              (λ z.
                marker_of-found L read id q.1 (HasMarker-grown L read id s q.1 grows marked)
                  (e ∙ ap (λ o. some o) z))
              (kept_in b (returns_in s b (rw several (Memᴰ.head refl))))
              (kept_in c (returns_in s c (rw several (Memᴰ.tail (Memᴰ.head refl))))) joined))
