-- ===== src/LoopSplitter/Kept.antt =====
-- Building and stitching the loops leaves the terminators of the body's blocks.
use mem_opt.Common.{
  ℕ, zero, suc, ◌≡◌, ◌≢◌, refl, sym, ◌∙◌, subst, some, List, [], ◌∷◌, Memᴰ, >>=-eq-some, All,
}
use mem_opt.Llvm.{Llvm}
use mem_opt.Loops.{IrLoop, set_exit_block}
use mem_opt.Loops.Fresh.{set_successor-other}
use mem_opt.Loops.EmptyLoop.{s8, header-ne, term-s8_old, in_s8, entry-s8}
use mem_opt.LoopSplitter.{block_or_null, construct_loops, stitch_exits}

some_inj : {A : Type 0} (a b : A) → some a ≡ some b → b ≡ a
some_inj a b e = cc

module _ (L : Llvm) where
  open L use {Ir, blocks, term, set_term}

  -- The loops' headers are not the block.
  abbrev pub Spares : ℕ → List IrLoop → Type 0
  Spares b ls = All (λ l. l.header ≢ b) ls

  pub stitch_exits-other :
      (ls : List IrLoop) (exit : ℕ) (s r : Ir) (b : ℕ)
      → stitch_exits L ls exit s ≡ some r
      → Spares b ls
      → term r b ≡ term s b
  unfolding stitch_exits set_exit_block
  stitch_exits-other [] exit s r b h spares = cc
  stitch_exits-other (l ∷ []) exit s r b h spares =
      set_successor-other L l.header exit 1 s r b h spares.0
  stitch_exits-other (l ∷ k ∷ ls) exit s r b h spares =
      let x = block_or_null L.null k.pre_header in
      let (s', e', h'') = >>=-eq-some (set_exit_block L l x s) _ h in
      stitch_exits-other (k ∷ ls) exit s' r b h'' spares.1
      ∙ set_successor-other L l.header x 1 s s' b e' spares.0

  -- An old block keeps its terminator, and is the header of none of the new loops.
  pub construct_loops-other :
      (n tc idx : ℕ) (parent : IrLoop) (s : Ir) (b : ℕ)
      → Memᴰ b (blocks s)
      → parent.header ≢ b
      → (term ((construct_loops L n tc idx parent s).1) b ≡ term s b)
        × Spares b ((construct_loops L n tc idx parent s).0)
  unfolding construct_loops
  construct_loops-other zero tc idx parent s b m ne = (refl, (ne, tt))
  construct_loops-other (suc n) tc idx parent s b m ne =
      let (same, spares) =
        construct_loops-other n tc idx parent (s8 L s tc idx) b (in_s8 L s tc idx b m) ne in
      (same ∙ term-s8_old L s tc idx b m, (header-ne L s tc idx b m, spares))

  pub entry-construct_loops :
      (n tc idx : ℕ) (parent : IrLoop) (s : Ir)
      → Memᴰ (L.entry s) (blocks s)
      → L.entry ((construct_loops L n tc idx parent s).1) ≡ L.entry s
  unfolding construct_loops
  entry-construct_loops zero tc idx parent s m = refl
  entry-construct_loops (suc n) tc idx parent s m =
      let same = entry-s8 L s tc idx m in
      let still = in_s8 L s tc idx (L.entry s) m in
      entry-construct_loops n tc idx parent (s8 L s tc idx)
        (subst (λ x. Memᴰ x (blocks (s8 L s tc idx))) (sym same) still)
      ∙ same
