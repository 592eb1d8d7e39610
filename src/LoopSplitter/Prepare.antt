-- ===== src/LoopSplitter/Prepare.antt =====
-- src/LoopSplitter.cpp: prepareForLoopSplit, and `run` from the start. Instructions, the prefetch
-- that insertLLVMPrefetchIntrinsic builds, LLVM's list of loops with their exit blocks, and what
-- addBatchArrayForIntermediateVars makes of the function are parameters.
use mem_opt.Common.{
  ℕ, Bool, true, false, Option, none, some, List, [], ◌∷◌, ◌>>=◌, if◌then◌else◌, length,
}
use mem_opt.Llvm.{Llvm}
use mem_opt.Annotations.{Instruction, User, detect_exp_ptr_vars, detect_exp_ptr_uses}
use mem_opt.LoopVariables.{LlvmLoop}
use mem_opt.LoopSplitter.{split_loop}

module _ (L : Llvm) (parent : L.Ir → ℕ → ℕ) (prev_node : L.Ir → ℕ → Option ℕ)
    (is_gep : L.Ir → ℕ → Bool) (insert_prefetch : ℕ → Option ℕ → L.Ir → ℕ × L.Ir)
    (split_behind : ℕ → L.Ir → L.Ir) where
  -- The loop over VarUsePoints, with EndBlocks and SplitPoints; a use that is the first instruction of
  -- its block fails the assertion.
  unfoldable pub prepare_uses : List ℕ → L.Ir → Option (List ℕ × List ℕ × L.Ir)
  prepare_uses [] s = some ([], [], s)
  prepare_uses (u ∷ us) s = prev_node s u >>= λ prev.
      let (prefetch, s1) = insert_prefetch u (if is_gep s prev then some prev else none) s in
      prepare_uses us (split_behind prefetch s1) >>= λ (ends, points, s').
      some (parent s1 prefetch ∷ ends, (if is_gep s prev then prev else u) ∷ points, s')

  module _ (id : ℕ) (entry_insts : L.Ir → List Instruction) (users : L.Ir → ℕ → List User) where
    -- The number of annotated variables, EndBlocks, SplitPoints and the function.
    unfoldable pub prepare_for_loop_split : L.Ir → Option (ℕ × List ℕ × List ℕ × L.Ir)
    unfolding prepare_uses
    prepare_for_loop_split s = detect_exp_ptr_vars id (entry_insts s) >>= λ vars.
        prepare_uses (detect_exp_ptr_uses (users s) vars) s >>= λ (ends, points, s').
        some (length vars, ends, points, s')

    module _ (loops : L.Ir → List (LlvmLoop × Option ℕ))
        (add_arrays : LlvmLoop → L.Ir → Option L.Ir) where
      -- What `run` returns, and the function.
      unfoldable pub split_first_loop :
          ℕ → ℕ → List ℕ → List (LlvmLoop × Option ℕ) → L.Ir → Option (Bool × L.Ir)
      split_first_loop fuel n_vars ends [] s = some (false, s)
      split_first_loop fuel n_vars ends ((l, exit) ∷ ls) s = add_arrays l s >>= λ s'.
          split_loop L fuel n_vars ends l exit s' >>= λ (parts, s''). some (true, s'')

      unfoldable pub run : ℕ → L.Ir → Option (Bool × L.Ir)
      unfolding prepare_for_loop_split split_first_loop
      run fuel s = prepare_for_loop_split s >>= λ (n_vars, ends, points, s'). elim ends [
        | [] ↦ some (false, s')
        | e ∷ es ↦ split_first_loop fuel n_vars (e ∷ es) (loops s') s'
      ]
