-- ===== src/LoopSplitter/Run.antt =====
-- The whole of `run` on a loop with a body without branches.
use mem_opt.Common.{
  ℕ, suc, ◌≤◌, ◌≡◌, ◌≢◌, refl, sym, ap, subst, inl, inr, Bool, Option, none, some, List, [], ◌∷◌,
  Memᴰ, ◌>>=◌, >>=-eq-some, if◌then◌else◌, length, arith, Option-cases, All, Distinct,
}
use mem_opt.Llvm.{Llvm, succs_of}
use mem_opt.Annotations.{
  Instruction, User, detect_exp_ptr_vars, detect_exp_ptr_uses,
  find_earliest_pointer_deref_instruction,
}
use mem_opt.LoopVariables.{LlvmLoop}
use mem_opt.Loops.{front}
use mem_opt.Loops.Fresh.{some_inj}
use mem_opt.LoopSplitter.Straight.{LeadsTo}
use mem_opt.LoopSplitter.Short.{split_loop-eq-none}
use mem_opt.LoopSplitter.Prepare.{prepare_uses, prepare_for_loop_split, split_first_loop, run}

-- Each variable has one use point at most.
length-detect_exp_ptr_uses :
    (users : ℕ → List User) (vs : List ℕ) → length (detect_exp_ptr_uses users vs) ≤ length vs
unfolding detect_exp_ptr_uses
length-detect_exp_ptr_uses users [] = omega arith
length-detect_exp_ptr_uses users (v ∷ vs) =
    elim (Option-cases (find_earliest_pointer_deref_instruction (users v))) [
      | inl e ↦
          rw (detect_exp_ptr_uses, e, length) (omega (arith, length-detect_exp_ptr_uses users vs))
      | inr (u, e) ↦
          rw (detect_exp_ptr_uses, e, length) (omega (arith, length-detect_exp_ptr_uses users vs))
    ]

module _ (L : Llvm) (parent : L.Ir → ℕ → ℕ) (prev_node : L.Ir → ℕ → Option ℕ)
    (is_gep : L.Ir → ℕ → Bool) (insert_prefetch : ℕ → Option ℕ → L.Ir → ℕ × L.Ir)
    (split_behind : ℕ → L.Ir → L.Ir) where
  length-prepare_uses :
      (us : List ℕ) (s : L.Ir) (q : List ℕ × List ℕ × L.Ir)
      → prepare_uses L parent prev_node is_gep insert_prefetch split_behind us s ≡ some q
      → length q.0 ≡ length us
  unfolding prepare_uses
  length-prepare_uses [] s q h = rw (some_inj ([], [], s) q h) refl
  length-prepare_uses (u ∷ us) s q h =
      let (prev, e, h1) = >>=-eq-some (prev_node s u) _ h in
      let made = insert_prefetch u (if is_gep s prev then some prev else none) s in
      let (r, e', h2) =
        >>=-eq-some
          (prepare_uses L parent prev_node is_gep insert_prefetch split_behind us
            (split_behind made.0 made.1))
          _ h1 in
      subst (λ x. length x.0 ≡ suc (length us)) (sym (some_inj _ q h2))
        (ap (λ n. suc n) (length-prepare_uses us (split_behind made.0 made.1) r e'))

  module _ (id : ℕ) (entry_insts : L.Ir → List Instruction) (users : L.Ir → ℕ → List User)
      (loops : L.Ir → List (LlvmLoop × Option ℕ)) (add_arrays : LlvmLoop → L.Ir → Option L.Ir) where
    -- What the preparation gives: no more end blocks than annotated variables.
    length-prepare_for_loop_split :
        (s : L.Ir) (q : ℕ × List ℕ × List ℕ × L.Ir)
        → prepare_for_loop_split L parent prev_node is_gep insert_prefetch split_behind id
            entry_insts users s
          ≡ some q
        → length q.1 ≤ q.0
    unfolding prepare_for_loop_split
    length-prepare_for_loop_split s q h =
        let (vars, e, h1) = >>=-eq-some (detect_exp_ptr_vars id (entry_insts s)) _ h in
        let uses = detect_exp_ptr_uses (users s) vars in
        let (r, e', h2) =
          >>=-eq-some (prepare_uses L parent prev_node is_gep insert_prefetch split_behind uses s) _
            h1 in
        subst (λ x. length x.1 ≤ x.0) (sym (some_inj _ q h2))
          (omega
            (arith, length-prepare_uses uses s r e', length-detect_exp_ptr_uses (users s) vars))

    -- Where prepareForLoopSplit finds a use and the first loop that LLVM finds has, with the batch
    -- arrays added, a body that leads without branches from the header's first successor to the latch's
    -- single predecessor, through blocks of the function that differ from each other, the entry block
    -- and the header, `run` has undefined behaviour: at the latest, LoopBlocks is read past its end,
    -- since pop_back leaves fewer parts than there are loops.
    pub run-eq-none :
        (fuel n_vars e : ℕ) (es points : List ℕ) (s s' s'' : L.Ir) (l : LlvmLoop) (exit : Option ℕ)
        (others : List (LlvmLoop × Option ℕ)) (first end latch : ℕ) (rest : List ℕ)
        → prepare_for_loop_split L parent prev_node is_gep insert_prefetch split_behind id
            entry_insts users s
          ≡ some (n_vars, e ∷ es, points, s')
        → loops s' ≡ (l, exit) ∷ others
        → add_arrays l s' ≡ some s''
        → Memᴰ (L.entry s'') (L.blocks s'')
        → All (λ b. Memᴰ b (L.blocks s'') × (b ≢ L.entry s'') × (b ≢ l.loop_header)) (first ∷ rest)
        → front (succs_of (L.term s'' l.loop_header)) ≡ some first
        → l.loop_latch ≡ some latch
        → L.preds s'' latch ≡ end ∷ []
        → LeadsTo (λ b. succs_of (L.term s'' b)) end (first ∷ rest)
        → Distinct (first ∷ rest)
        → length (first ∷ rest) ≤ fuel
        → run L parent prev_node is_gep insert_prefetch split_behind id entry_insts users loops
            add_arrays fuel s
          ≡ none
    unfolding run split_first_loop
    run-eq-none fuel n_vars e es points s s' s'' l exit others first end latch rest prepared found
          added entry_in inside begins has_latch one_pred line distinct enough =
        rw (prepared, ◌>>=◌)
          (rw (found, split_first_loop)
            (rw (added, ◌>>=◌)
              (rw
                (split_loop-eq-none L fuel n_vars (e ∷ es) l exit s'' first end latch rest entry_in
                  inside begins has_latch one_pred line distinct
                  (length-prepare_for_loop_split s (n_vars, e ∷ es, points, s') prepared) enough)
                refl)))
