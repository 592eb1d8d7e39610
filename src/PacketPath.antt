-- ===== src/PacketPath.antt =====
-- src/PacketPathAnalysis.{h,cpp}: the mask id that each basic block gets.
pub mod Step
pub mod Bounds
pub mod Coverage
pub mod Gaps
pub mod Unique
mod Examples
use mem_opt.Common.{ℕ, suc, ◌+◌, List, [], ◌∷◌, ltb, leb, ◌==◌, if◌then◌else◌, insert}

-- What LLVM tells of the function: the size of its block list, the blocks in the order of
-- ReversePostOrderTraversal, `pred_size` and `successors`. A block is named by its address.
pub record Cfg : Type 0 where
  pub n_blocks : ℕ
  pub rpo : List ℕ
  pub pred_size : ℕ → ℕ
  pub succs : ℕ → List ℕ

-- MaskIDCounter and BlockToMaskID
pub record PacketPaths : Type 0 where
  pub counter : ℕ
  pub ids : List (ℕ × ℕ)

abbrev pub no_paths : PacketPaths
no_paths = record { counter = 0; ids = [] }

-- BlockToMaskID[b] = ++MaskIDCounter
unfoldable pub assign_fresh : ℕ → PacketPaths → PacketPaths
assign_fresh b p = record { counter = suc p.counter; ids = insert b (suc p.counter) p.ids }

-- BlockToMaskID[b] = MaskIDCounter
unfoldable pub assign_current : ℕ → PacketPaths → PacketPaths
assign_current b p = record p { ids = insert b p.counter p.ids }

-- for (auto * SuccBB : successors(*B)) BlockToMaskID[SuccBB] = ++MaskIDCounter;
unfoldable pub assign_all : List ℕ → PacketPaths → PacketPaths
assign_all [] p = p
assign_all (s ∷ ss) p = assign_all ss (assign_fresh s p)

-- The part of the loop's body that looks at the successors.
unfoldable pub assign_succs : ℕ → List ℕ → PacketPaths → PacketPaths
assign_succs preds [] p = p
assign_succs preds (s ∷ []) p =
    if preds == 1 then assign_current s p else if ltb 1 preds then assign_fresh s p else p
assign_succs preds (s ∷ t ∷ ss) p = assign_all (s ∷ t ∷ ss) p

unfoldable pub assign_join : ℕ → ℕ → PacketPaths → PacketPaths
assign_join preds b p = if ltb 1 preds then assign_fresh b p else p

module _ (c : Cfg) where
  -- The loop's body.
  unfoldable pub visit : PacketPaths → ℕ → PacketPaths
  visit p b = assign_succs (c.pred_size b) (c.succs b) (assign_join (c.pred_size b) b p)

  unfoldable pub visit_all : PacketPaths → List ℕ → PacketPaths
  visit_all p [] = p
  visit_all p (b ∷ bs) = visit_all (visit p b) bs

  unfoldable pub calculate : PacketPaths
  calculate = if leb c.n_blocks 2 then no_paths else visit_all no_paths c.rpo
