-- ===== src/Traversal.antt =====
-- src/IRLoop.cpp, LoopBodyTraverser, and visitSuccessor of src/Util.cpp: the blocks of a loop's body
-- between two blocks. The graph is LLVM's and a parameter. The recursion runs on fuel; `none` is too little of it.
pub mod Returns
pub mod Line
mod Examples
use mem_opt.Common.{
  ℕ, zero, suc, Bool, true, false, Option, none, some, List, [], ◌∷◌, ◌++◌, ◌==◌, ◌>>=◌,
  if◌then◌else◌, contains,
}

-- The loop over the successors, with the call for each that is no exit block.
unfoldable pub visit_all :
    (List ℕ → ℕ → Option (List ℕ)) → List ℕ → List ℕ → List ℕ → Option (List ℕ)
visit_all visit exit_blocks blocks [] = some blocks
visit_all visit exit_blocks blocks (b ∷ bs) =
    (if contains b exit_blocks then some blocks else visit blocks b) >>= λ blocks'.
    visit_all visit exit_blocks blocks' bs

module _ (succs preds : ℕ → List ℕ) (exit_blocks : List ℕ) where
  unfoldable pub traverse : ℕ → ℕ → List ℕ → ℕ → Option (List ℕ)
  unfolding visit_all
  traverse zero end blocks start = none
  traverse (suc n) end blocks start =
      let rest = visit_all (traverse n end) exit_blocks (blocks ++ start ∷ []) (succs start) in
      if contains start blocks then some blocks else if start == end then some blocks else rest

  -- It calls traverse for the predecessors, which goes forward from each, and does not look at the
  -- exit blocks itself.
  unfoldable pub traverse_reverse : ℕ → ℕ → List ℕ → ℕ → Option (List ℕ)
  unfolding visit_all traverse
  traverse_reverse n end blocks start =
      if contains start blocks
      then some blocks
      else if start == end
      then some blocks
      else visit_all (traverse n end) [] (blocks ++ start ∷ []) (preds start)

-- The loop of visitSuccessor over the successors: at EndBlock it returns, whatever is left of them.
unfoldable pub visit_until : (List ℕ → ℕ → Option (List ℕ)) → ℕ → List ℕ → List ℕ → Option (List ℕ)
visit_until visit end blocks [] = some blocks
visit_until visit end blocks (b ∷ bs) =
    let visited = visit (blocks ++ b ∷ []) b >>= λ blocks'. visit_until visit end blocks' bs in
    if b == end then some blocks else visited

module _ (succs : ℕ → List ℕ) (end : ℕ) where
  unfoldable pub visit_successor : ℕ → List ℕ → ℕ → Option (List ℕ)
  unfolding visit_until
  visit_successor zero blocks start = none
  visit_successor (suc n) blocks start = visit_until (visit_successor n) end blocks (succs start)
