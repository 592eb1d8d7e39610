-- ===== src/BatchLoop.antt =====
-- src/BatchMaker.cpp: unifyReturnBlock, storeRetValInPtrArg, addBatchLoop and the end of
-- doBatchTransform, on a batch function whose arguments have been replaced. `none` is undefined
-- behaviour (a null pointer is read) or a failed assertion.
pub mod Round
pub mod Open
pub mod Markers
pub mod Growth
pub mod Returns
pub mod Stored
pub mod Kept
pub mod Results
pub mod Single
mod Examples
use mem_opt.Common.{
  ℕ, zero, suc, Bool, true, false, Option, none, some, List, [], ◌∷◌, ◌++◌, ◌==◌, ◌>>=◌,
  if◌then◌else◌, length, map,
}
use mem_opt.Annotations.{Instruction, find_batch_begin_marker_instruction}
use mem_opt.Llvm.{
  Llvm, Value, Inst, Term, register, load, gep, alloca, store, store_through, compute, ret, br,
}
use mem_opt.ExitNodes.{return_operand, get_return_inst_list, branch_all}
use mem_opt.Loops.{TasForLoop, append_insts, set_successor, add_empty_loop, set_loop_body}

-- What is written in front of a return of `v`.
abbrev pub store_result : ℕ → ℕ → Value → List Inst
store_result slot idx v =
    compute (load slot)
    ∷ compute (load idx)
    ∷ compute (gep (load slot) (load idx))
    ∷ store_through v (gep (load slot) (load idx))
    ∷ []

module _ (L : Llvm) where
  open L use {
    Ir, blocks, entry, insts, term, preds, new_block, create_block, new_slot, split_block, set_term,
    set_insts,
  }

  -- The blocks that return are given. ReturnInst::Create(Ctx) makes an instruction that is in no
  -- block, so a new block has no terminator.
  unfoldable pub unify_returns : List ℕ → Ir → ℕ × Ir
  unfolding branch_all
  unify_returns [] s = (new_block s, create_block none s)
  unify_returns (b ∷ []) s = (new_block s, split_block b (length (insts s b)) s)
  unify_returns (b ∷ c ∷ bs) s =
      (new_block s, branch_all L (new_block s) (b ∷ c ∷ bs) (create_block none s))

  unfoldable pub unify_return_block : Ir → ℕ × Ir
  unfolding unify_returns
  unify_return_block s = unify_returns (get_return_inst_list L s) s

  -- The loop over the returns where there are several: each block stores its value and goes to RetBlock.
  unfoldable pub store_and_branch : ℕ → ℕ → ℕ → List ℕ → Ir → Option Ir
  unfolding return_operand
  store_and_branch slot idx target [] s = some s
  store_and_branch slot idx target (b ∷ bs) s = return_operand (term s b) >>= λ v.
      store_and_branch slot idx target bs
        (set_term b (br target) (append_insts L b (store_result slot idx v) s))

  -- The same where there is one: it is split in front of a new return of nothing.
  unfoldable pub store_and_split : ℕ → ℕ → ℕ → Ir → Option (ℕ × Ir)
  unfolding return_operand
  store_and_split slot idx b s = return_operand (term s b) >>= λ v.
      let s' = append_insts L b (store_result slot idx v) s in
      some
        (new_block s', set_term (new_block s') (ret none) (split_block b (length (insts s' b)) s'))

  unfoldable pub store_returns : List ℕ → ℕ → ℕ → Ir → Option (ℕ × Ir)
  unfolding store_and_split store_and_branch
  store_returns [] slot idx s = none
  store_returns (b ∷ []) slot idx s = store_and_split slot idx b s
  store_returns (b ∷ c ∷ bs) slot idx s =
      store_and_branch slot idx (new_block s) (b ∷ c ∷ bs) (create_block none s) >>= λ s'.
      some (new_block s, s')

  -- The argument is a value; RetAlloca is a new slot, set at the start of the function. A null RetBlock
  -- fails the assertion of doBatchTransform.
  unfoldable pub store_ret_val_in_ptr_arg : Value → ℕ → Ir → Option (ℕ × Ir)
  unfolding get_return_inst_list store_returns
  store_ret_val_in_ptr_arg ret_arg idx s =
      let slot = new_slot s in
      let s' = set_insts (entry s) (alloca slot ∷ store ret_arg slot ∷ insts s (entry s)) s in
      store_returns (get_return_inst_list L s') slot idx s'

  -- for_each(ExitingBlocks.begin(), ExitingBlocks.end(), setSuccessor(BB, UniqueExitingBlock))
  unfoldable pub redirect_all : ℕ → List ℕ → Ir → Option Ir
  unfolding set_successor
  redirect_all target [] s = some s
  redirect_all target (b ∷ bs) s = set_successor L b target 0 s >>= redirect_all target bs

  -- The unique exiting block, from the predecessors of RetBlock.
  unfoldable pub unique_exiting_block : List ℕ → ℕ → Ir → Option (ℕ × Ir)
  unfolding redirect_all
  unique_exiting_block [] ret_block s = none
  unique_exiting_block (b ∷ []) ret_block s = some (b, s)
  unique_exiting_block (b ∷ c ∷ bs) ret_block s =
      redirect_all (new_block s) (b ∷ c ∷ bs) (create_block (some ret_block) s) >>= λ s'.
      some (new_block s, s')

  -- The marker's block and position are those that findBatchBeginMarkerInstruction finds; without one
  -- the function stays as it is. `tc` is BatchSizeAlloca.
  unfoldable pub add_batch_loop : Option (ℕ × ℕ) → ℕ → ℕ → ℕ → Ir → Option (Option TasForLoop × Ir)
  unfolding unique_exiting_block add_empty_loop set_loop_body
  add_batch_loop none tc ret_block idx s = some (none, s)
  add_batch_loop (some (parent, i)) tc ret_block idx s =
      let batch_block = new_block s in
      let s1 = split_block parent (suc i) s in
      unique_exiting_block (preds s1 ret_block) ret_block s1 >>= λ (exiting, s2).
      add_empty_loop L (some parent) (some ret_block) (some tc) (some idx) s2 >>= λ (l, s3).
      set_loop_body L batch_block exiting l s3 >>= λ (l', s4). some (some l', s4)

  -- findBatchBeginMarkerInstruction over the blocks of the function: the marker's block and position.
  -- `read` is what LLVM holds of an instruction, as Annotations.antt says, and `id` the number of the
  -- annotation intrinsic. The outer `none` is a null callee that is read.
  unfoldable pub find_marker_in : (Inst → Instruction) → ℕ → List ℕ → Ir → Option (Option (ℕ × ℕ))
  unfolding find_batch_begin_marker_instruction
  find_marker_in read id [] s = some none
  find_marker_in read id (b ∷ bs) s =
      let rest = find_marker_in read id bs s in
      find_batch_begin_marker_instruction id (map read (insts s b)) >>= λ o. elim o [
        | none ↦ rest
        | some i ↦ some (some (b, i))
      ]

  abbrev pub marker_of : (Inst → Instruction) → ℕ → Ir → Option (Option (ℕ × ℕ))
  marker_of read id s = find_marker_in read id (blocks s) s

  -- The end of doBatchTransform; `ret_arg` is `none` where the function returns nothing, and
  -- `find_marker` is `marker_of`.
  unfoldable pub finish_batch :
      (Ir → Option (Option (ℕ × ℕ))) → Option Value → ℕ → ℕ → Ir → Option (Option TasForLoop × Ir)
  unfolding unify_return_block store_ret_val_in_ptr_arg add_batch_loop
  finish_batch find_marker none tc idx s =
      let (ret_block, s') = unify_return_block s in
      find_marker s' >>= λ at. add_batch_loop at tc ret_block idx s'
  finish_batch find_marker (some ret_arg) tc idx s =
      store_ret_val_in_ptr_arg ret_arg idx s >>= λ (ret_block, s').
      find_marker s' >>= λ at. add_batch_loop at tc ret_block idx s'
