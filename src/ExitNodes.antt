-- ===== src/ExitNodes.antt =====
-- src/Util.cpp: getReturnBlocks, getReturnInstList and unifyFunctionExitNodes.
pub mod Unified
pub mod Unique
mod Examples
use mem_opt.Common.{ℕ, Bool, Option, none, some, List, [], ◌∷◌, ◌++◌, ◌>>=◌, if◌then◌else◌}
use mem_opt.Llvm.{
  Llvm, Value, Inst, Term, phi_of, phi, ret, br, unreachable, is_return, is_unreachable,
}

-- PN->addIncoming(v, b), for the node at the head of the block
abbrev pub add_incoming : Value → ℕ → List Inst → List Inst
add_incoming v b (phi l ∷ is) = phi (l ++ (v, b) ∷ []) ∷ is
add_incoming v b is = is

-- getOperand(0) of a return; a return of void has none.
unfoldable pub return_operand : Option Term → Option Value
return_operand (some (ret v)) = v
return_operand _ = none

module _ (L : Llvm) where
  open L use {Ir, blocks, insts, term, returns_void, new_block, create_block, set_term, set_insts}

  -- for (BasicBlock & BB : *F) if (test(BB.getTerminator())) result.push_back(&BB);
  unfoldable pub select_blocks : (Option Term → Bool) → Ir → List ℕ → List ℕ
  select_blocks test s [] = []
  select_blocks test s (b ∷ bs) =
      if test (term s b) then b ∷ select_blocks test s bs else select_blocks test s bs

  unfoldable pub get_return_blocks : Ir → List ℕ
  unfolding select_blocks is_return
  get_return_blocks s = select_blocks is_return s (blocks s)

  unfoldable pub get_unreachable_blocks : Ir → List ℕ
  unfolding select_blocks is_unreachable
  get_unreachable_blocks s = select_blocks is_unreachable s (blocks s)

  -- A return instruction is named by the block that it ends.
  unfoldable pub get_return_inst_list : Ir → List ℕ
  unfolding get_return_blocks
  get_return_inst_list s = get_return_blocks s

  -- BB->getInstList().pop_back(); BranchInst::Create(target, BB); for each of the blocks
  unfoldable pub branch_all : ℕ → List ℕ → Ir → Ir
  branch_all target [] s = s
  branch_all target (b ∷ bs) s = branch_all target bs (set_term b (br target) s)

  -- The unreachable blocks.
  unfoldable pub unify_unreachable : List ℕ → Ir → Ir × Option ℕ
  unfolding branch_all
  unify_unreachable [] s = (s, none)
  unify_unreachable (b ∷ []) s = (s, some b)
  unify_unreachable (a ∷ b ∷ bs) s = (
    branch_all (new_block s) (a ∷ b ∷ bs)
        (set_term (new_block s) unreachable (create_block none s)),
    some (new_block s),
  )

  -- The loop over the returning blocks where the function returns a value.
  unfoldable pub merge_returns : ℕ → List ℕ → Ir → Option Ir
  unfolding return_operand
  merge_returns new [] s = some s
  merge_returns new (b ∷ bs) s = return_operand (term s b) >>= λ v.
      merge_returns new bs (set_term b (br new) (set_insts new (add_incoming v b (insts s new)) s))

  -- The return blocks: the new block returns nothing, or the node that merges the values.
  unfoldable pub unify_returns : List ℕ → Ir → Option (Ir × Option ℕ)
  unfolding branch_all merge_returns
  unify_returns [] s = some (s, none)
  unify_returns (b ∷ []) s = some (s, some b)
  unify_returns (a ∷ b ∷ bs) s =
      let new = new_block s in
      let s' = create_block none s in
      if returns_void s
      then some (branch_all new (a ∷ b ∷ bs) (set_term new (ret none) s'), some new)
      else (merge_returns new (a ∷ b ∷ bs)
            (set_term new (ret (some (phi_of new))) (set_insts new (phi [] ∷ []) s'))
          >>= λ s''. some (s'', some new))

  -- The function, the block that returns and the unreachable block; `none` is undefined behaviour.
  unfoldable pub unify_function_exit_nodes : Ir → Option (Ir × Option ℕ × Option ℕ)
  unfolding get_return_blocks get_unreachable_blocks unify_unreachable unify_returns
  unify_function_exit_nodes s =
      let (s', unreachable_block) = unify_unreachable (get_unreachable_blocks s) s in
      unify_returns (get_return_blocks s) s' >>= λ (s'', return_block).
      some (s'', return_block, unreachable_block)
