-- ===== src/BlockPredication.antt =====
-- src/BlockPredication.{h,cpp}: the control flow of a function made linear. A deque of blocks is a
-- list; `none` is undefined behaviour (an iterator `end()` read, the front of an empty deque, a
-- failed cast). The PHI nodes at the heads of the blocks are moved as PhiNodes.antt says, over a view
-- of the same function by these nodes.
pub mod Conditions
pub mod Links
pub mod Tests
pub mod Simulation
pub mod Input
pub mod Order
pub mod Heads
pub mod Stages
pub mod Correct
pub mod Equivalent
mod Examples
pub mod Exits
pub mod ToyPhis
use mem_opt.Common.{
  ℕ, ◌≡◌, Bool, false, Option, none, some, List, [], ◌∷◌, ◌++◌, ◌==◌, ◌>>=◌, if◌then◌else◌, length,
  find,
}
use mem_opt.Llvm.{
  Llvm, Value, Inst, Term, int32, load, select, icmp_eq, alloca, store, compute, br, cond_br,
  succs_of, is_branch, starts_with_phi,
}
use mem_opt.PacketPath.{Cfg, PacketPaths, calculate}
use mem_opt.ExitNodes.{unify_function_exit_nodes}
use mem_opt.PhiNodes.{PhiView, move_all_phi_nodes}

-- Builder.CreateSelect and CreateStore of the select
abbrev pub select_path : Value → ℕ → ℕ → ℕ → List Inst
select_path c i j mask =
    compute (select c (int32 i) (int32 j)) ∷ store (select c (int32 i) (int32 j)) mask ∷ []

-- `ReturnBlock == &BB`, where the pointer may be null
abbrev pub is_block : Option ℕ → ℕ → Bool
is_block none b = false
is_block (some r) b = r == b

-- the traversal without the unreachable block
unfoldable pub action_blocks : Option ℕ → List ℕ → List ℕ
action_blocks u [] = []
action_blocks u (b ∷ bs) = if is_block u b then action_blocks u bs else b ∷ action_blocks u bs

-- pop_front
abbrev pub pop_front : List ℕ → Option (List ℕ)
pop_front [] = none
pop_front (b ∷ bs) = some bs

abbrev pub path_test : ℕ → ℕ → Value
path_test mask i = icmp_eq (load mask) (int32 i)

module _ (L : Llvm) where
  open L use {
    Ir, blocks, entry, insts, term, preds, rpo, new_block, create_block, new_slot, set_term,
    set_insts,
  }

  -- The nodes at the heads of the blocks: those of the function's own instructions.
  pub record IrPhis : Type 0 where
    pub view : PhiView Ir
    pub preds_eq : (s : Ir) (b : ℕ) → view.preds s b ≡ preds s b
    pub phis_eq_nil : (s : Ir) (b : ℕ) → starts_with_phi (insts s b) ≡ false → view.phis s b ≡ []

  -- What PacketPathAnalysis reads of the function.
  unfoldable pub cfg_of : Ir → Cfg
  unfolding succs_of
  cfg_of s = record {
    n_blocks = length (blocks s);
    rpo = rpo s;
    pred_size = λ b. length (preds s b);
    succs = λ b. succs_of (term s b);
  }

  -- Builder.SetInsertPoint(BI) or (BB), and the instructions in front of the terminator
  abbrev pub append_insts : ℕ → List Inst → Ir → Ir
  append_insts b is s = set_insts b (insts s b ++ is) s

  -- setPathIDCondition on the terminator of a block, and the dyn_cast before it
  unfoldable pub set_path_id_condition : List (ℕ × ℕ) → ℕ → ℕ → Option Term → Ir → Option Ir
  set_path_id_condition ids mask b (some (br t)) s =
      find t ids >>= λ i. some (append_insts b (store (int32 i) mask ∷ []) s)
  set_path_id_condition ids mask b (some (cond_br c t f)) s =
      find t ids >>= λ i. find f ids >>= λ j. some (append_insts b (select_path c i j mask) s)
  set_path_id_condition ids mask b other s = some s

  -- for (auto & BB : *F) { if (ReturnBlock == &BB) continue; ... }
  unfoldable pub set_path_conditions : List (ℕ × ℕ) → ℕ → Option ℕ → List ℕ → Ir → Option Ir
  unfolding set_path_id_condition
  set_path_conditions ids mask r [] s = some s
  set_path_conditions ids mask r (b ∷ bs) s =
      (if is_block r b then some s else set_path_id_condition ids mask b (term s b) s)
      >>= set_path_conditions ids mask r bs

  unfoldable pub insert_predicate_blocks : List ℕ → Ir → List ℕ × Ir
  insert_predicate_blocks [] s = ([], s)
  insert_predicate_blocks (a ∷ acts) s =
      let (ps, s') = insert_predicate_blocks acts (create_block (some a) s) in
      (new_block s ∷ ps, s')

  -- cast<BranchInst>(getTerminator()), BranchInst::Create(target, BI) and BI->eraseFromParent()
  unfoldable pub replace_branch : ℕ → ℕ → Ir → Option Ir
  unfolding is_branch
  replace_branch b target s = if is_branch (term s b) then some (set_term b (br target) s) else none

  -- The loop of setActionBlocksSuccessors, over the action blocks and the predicate blocks behind
  -- the first one. With no action block `ActionBlocks.size() - 1` wraps, and the loop reads past
  -- the end.
  unfoldable pub link_actions : List ℕ → List ℕ → Ir → Option Ir
  unfolding replace_branch
  link_actions [] ps s = none
  link_actions (a ∷ []) ps s = some s
  link_actions (a ∷ b ∷ acts) [] s = none
  link_actions (a ∷ b ∷ acts) (p ∷ ps) s = replace_branch a p s >>= link_actions (b ∷ acts) ps

  unfoldable pub set_action_blocks_successors : List ℕ → List ℕ → Ir → Option Ir
  unfolding link_actions
  set_action_blocks_successors acts [] s = none
  set_action_blocks_successors acts (p ∷ ps) s =
      replace_branch (entry s) p s >>= link_actions acts ps

  -- setPredBlockSuccessors
  unfoldable pub set_pred_block_successors :
      List (ℕ × ℕ) → ℕ → Option ℕ → List ℕ → List ℕ → Ir → Option Ir
  set_pred_block_successors ids mask (some r) (a ∷ []) (p ∷ []) s = some (set_term p (br r) s)
  set_pred_block_successors ids mask r (a ∷ acts) (p ∷ q ∷ ps) s = find a ids >>= λ i.
      set_pred_block_successors ids mask r acts (q ∷ ps) (
        set_term p (cond_br (path_test mask i) a q)
          (append_insts p (compute (load mask) ∷ compute (path_test mask i) ∷ []) s))
  set_pred_block_successors ids mask r acts ps s = none

  -- linearizeControlFlow up to the assertion on the numbers of blocks, with the map of the path
  -- analysis: the predicate blocks, the action blocks, and the function.
  unfoldable pub link_control_flow : List (ℕ × ℕ) → Ir → Option (List ℕ × List ℕ × Ir)
  unfolding set_path_conditions action_blocks insert_predicate_blocks set_action_blocks_successors
      set_pred_block_successors
  link_control_flow ids s0 =
      unify_function_exit_nodes L s0 >>= λ (s1, return_block, unreachable_block).
      let mask = new_slot s1 in
      let s2 = set_insts (entry s1) (alloca mask ∷ insts s1 (entry s1)) s1 in
      set_path_conditions ids mask return_block (blocks s2) s2 >>= λ s3.
      pop_front (action_blocks unreachable_block (rpo s3)) >>= λ actions.
      let (predicates, s4) = insert_predicate_blocks actions s3 in
      set_action_blocks_successors actions predicates s4 >>= λ s5.
      set_pred_block_successors ids mask return_block actions predicates s5 >>= λ s6.
      some (predicates, actions, s6)

  module _ (P : IrPhis) where
    -- The predicate blocks, and the function with its PHI nodes moved.
    unfoldable pub linearize_control_flow : List (ℕ × ℕ) → Ir → Option (List ℕ × Ir)
    unfolding link_control_flow move_all_phi_nodes
    linearize_control_flow ids s = link_control_flow ids s >>= λ (predicates, actions, s6).
        move_all_phi_nodes P.view predicates actions s6 >>= λ s7. some (predicates, s7)

    -- The constructor runs the path analysis on the function as it is, then `run` rewrites it.
    unfoldable pub run : Ir → Option (List ℕ × Ir)
    unfolding linearize_control_flow cfg_of
    run s = linearize_control_flow (calculate (cfg_of s)).ids s
