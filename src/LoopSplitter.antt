-- ===== src/LoopSplitter.antt =====
-- src/LoopSplitter.cpp: the traversal of the loop's body and the loops that take its parts. What
-- prepareForLoopSplit and addBatchArrayForIntermediateVars do to the function comes before. `none` is
-- undefined behaviour (a null pointer or an item past the end of a vector is read), a failed
-- assertion, or a traversal that does not end.
pub mod Straight
pub mod Parts
pub mod Kept
pub mod Short
pub mod Prepare
pub mod Run
mod Examples
use mem_opt.Common.{
  ℕ, zero, suc, Bool, true, false, ◌&&◌, Option, none, some, List, [], ◌∷◌, ◌++◌, ◌==◌, ◌>>=◌,
  if◌then◌else◌, contains, length,
}
use mem_opt.Llvm.{Llvm, Term, cond_br, br, other_term, succs_of}
use mem_opt.LoopVariables.{LlvmLoop, get_loop_index_var, get_loop_trip_count}
use mem_opt.Loops.{
  IrLoop, front, set_successor, extract_loop_skeleton, construct_empty_loop, set_exit_block,
  set_loop_blocks,
}

-- Start == BodyEnd, where BodyEnd may be null
abbrev pub is_end : Option ℕ → ℕ → Bool
is_end none b = false
is_end (some e) b = b == e

-- `Blocks` and LoopBlocks
pub record Traversal : Type 0 where
  pub blocks : List ℕ
  pub loop_blocks : List (List ℕ)

-- The calls for the successors, one after the other.
unfoldable pub visit_succs :
    (ℕ → Traversal → Option Traversal) → List ℕ → Traversal → Option Traversal
visit_succs visit [] v = some v
visit_succs visit (b ∷ bs) v = visit b v >>= visit_succs visit bs

-- What traverseLoopBody does at a block before it looks at the successors.
abbrev pub enter_block : Bool → ℕ → Traversal → Traversal
enter_block true start v = record {
  blocks = [];
  loop_blocks = v.loop_blocks ++ (v.blocks ++ start ∷ []) ∷ [];
}
enter_block false start v = record v { blocks = v.blocks ++ start ∷ [] }

module _ (succs : ℕ → List ℕ) (end_blocks : List ℕ) (body_end : Option ℕ) where
  -- The fuel bounds the depth of the recursion.
  unfoldable pub traverse_loop_body : ℕ → ℕ → Traversal → Option Traversal
  unfolding visit_succs
  traverse_loop_body zero start v = none
  traverse_loop_body (suc n) start v =
      let ending = contains start end_blocks in
      let rest = visit_succs (traverse_loop_body n) (succs start) (enter_block ending start v) in
      if ending && is_end body_end start then some (enter_block ending start v) else rest

-- LoopBlocks.pop_back()
abbrev pub pop_back : List (List ℕ) → Option (List (List ℕ))
pop_back [] = none
pop_back (x ∷ []) = some []
pop_back (x ∷ y ∷ xs) = elim (pop_back (y ∷ xs)) [ none ↦ none | some zs ↦ some (x ∷ zs) ]

-- getSinglePredecessor
abbrev pub single : List ℕ → Option ℕ
single (b ∷ []) = some b
single _ = none

-- EndBlocks.push_back(BodyEnd): a null pointer equals no block.
abbrev pub end_of : Option ℕ → List ℕ
end_of none = []
end_of (some b) = b ∷ []

-- The pointer to a block, with the given address for null.
abbrev pub block_or_null : ℕ → Option ℕ → ℕ
block_or_null null none = null
block_or_null null (some b) = b

-- Loops.front().getPreHeader()
abbrev pub first_pre_header : ℕ → List IrLoop → Option ℕ
first_pre_header null [] = none
first_pre_header null (l ∷ ls) = some (block_or_null null l.pre_header)

module _ (L : Llvm) where
  open L use {null, Ir, entry, term, preds}

  -- The loop that constructs a loop for each annotated variable, and push_back(ParentLoop).
  unfoldable pub construct_loops : ℕ → ℕ → ℕ → IrLoop → Ir → List IrLoop × Ir
  unfolding construct_empty_loop
  construct_loops zero tc idx parent s = (parent ∷ [], s)
  construct_loops (suc n) tc idx parent s =
      let (l, s') = construct_empty_loop L tc idx s in
      let (ls, s'') = construct_loops n tc idx parent s' in (l ∷ ls, s'')

  -- Each loop exits to the preheader of the next, which may be null, and the last to the loop's old exit.
  unfoldable pub stitch_exits : List IrLoop → ℕ → Ir → Option Ir
  unfolding set_exit_block
  stitch_exits [] exit s = none
  stitch_exits (l ∷ []) exit s = set_exit_block L l exit s
  stitch_exits (l ∷ k ∷ ls) exit s =
      set_exit_block L l (block_or_null null k.pre_header) s >>= stitch_exits (k ∷ ls) exit

  -- The last loop of `run`: an index past the end of LoopBlocks is read if there are fewer parts.
  unfoldable pub assign_parts : List IrLoop → List (List ℕ) → Ir → Option (List IrLoop × Ir)
  unfolding set_loop_blocks
  assign_parts [] parts s = some ([], s)
  assign_parts (l ∷ ls) [] s = none
  assign_parts (l ∷ ls) (p ∷ ps) s = set_loop_blocks L p l s >>= λ (l', s').
      assign_parts ls ps s' >>= λ (ls', s''). some (l' ∷ ls', s'')

  -- The end of `run`: the body is divided, and its parts are assigned.
  unfoldable pub divide_body :
      ℕ → List ℕ → Option ℕ → ℕ → List IrLoop → Ir → Option (List IrLoop × Ir)
  divide_body fuel end_blocks body_end body_begin loops s =
      traverse_loop_body (λ b. succs_of (term s b)) (end_blocks ++ end_of body_end) body_end fuel
        body_begin (record { blocks = []; loop_blocks = [] })
      >>= λ v. pop_back v.loop_blocks >>= λ parts. assign_parts loops parts s

  -- `run` from the choice of the loop on: the number of annotated variables, EndBlocks as
  -- prepareForLoopSplit left it, and the loop with its exit block.
  unfoldable pub split_loop : ℕ → ℕ → List ℕ → LlvmLoop → Option ℕ → Ir → Option (List IrLoop × Ir)
  split_loop fuel n_vars end_blocks l exit_block s =
      front (succs_of (term s l.loop_header)) >>= λ body_begin. l.loop_latch >>= λ latch.
      exit_block >>= λ exit. get_loop_trip_count L l s >>= λ tc.
      extract_loop_skeleton L l s >>= λ parent. get_loop_index_var L l s >>= λ idx.
      let body_end = single (preds s latch) in
      let (loops, s1) = construct_loops n_vars tc idx parent s in
      first_pre_header null loops >>= λ pre. set_successor L (entry s1) pre 0 s1 >>= λ s2.
      stitch_exits loops exit s2 >>= λ s3. divide_body fuel end_blocks body_end body_begin loops s3
