-- ===== src/LoopSplitter/Straight.antt =====
-- The traversal of a body without branches, and what `run` makes of its parts.
use mem_opt.Common.{
  ℕ, zero, suc, ◌≤◌, ◌≡◌, ◌≢◌, refl, ap, inl, inr, true, false, some, List, [], ◌∷◌, ◌++◌, ==_ne,
  ==_self, if◌then◌else◌, contains, length, arith, Bool-cases,
}
use mathlib.Core.List.{append_assoc}
use mem_opt.LoopSplitter.{Traversal, visit_succs, enter_block, traverse_loop_body}

-- The parts that the blocks of a list fall into: each ends with an end block.
abbrev pub parts : List ℕ → List ℕ → List ℕ → List (List ℕ)
parts ends current [] = []
parts ends current (b ∷ bs) =
    let closes = (current ++ b ∷ []) ∷ parts ends [] bs in
    let goes_on = parts ends (current ++ b ∷ []) bs in if contains b ends then closes else goes_on

-- The list leads from its first block to `end` by single successors, and meets it first at its end.
abbrev pub LeadsTo : (ℕ → List ℕ) → ℕ → List ℕ → Type 0
LeadsTo succs end [] = ⊥
LeadsTo succs end (b ∷ []) = b ≡ end
LeadsTo succs end (b ∷ c ∷ bs) = (succs b ≡ c ∷ []) × (b ≢ end) × LeadsTo succs end (c ∷ bs)

module _ (succs : ℕ → List ℕ) (ends : List ℕ) (end : ℕ) (end_in : contains end ends ≡ true) where
  -- On a body without branches, and with fuel for each block, traverseLoopBody ends at BodyEnd with the
  -- parts of the body as LoopBlocks, each up to an end block, and nothing left in Blocks.
  pub traverse_loop_body-straight :
      (fuel b : ℕ) (rest : List ℕ) (v : Traversal)
      → LeadsTo succs end (b ∷ rest)
      → length (b ∷ rest) ≤ fuel
      → traverse_loop_body succs ends (some end) fuel b v
        ≡ some record { blocks = []; loop_blocks = v.loop_blocks ++ parts ends v.blocks (b ∷ rest) }
  unfolding traverse_loop_body visit_succs
  traverse_loop_body-straight zero b rest v line enough = absurd (omega (arith, enough))
  traverse_loop_body-straight (suc fuel) b [] v line enough =
      rw (line, traverse_loop_body, end_in, ==_self end) refl
  traverse_loop_body-straight (suc fuel) b (c ∷ rest) v (next, on, line) enough =
      elim (Bool-cases (contains b ends)) [
        | inl ending ↦
            rw (traverse_loop_body, ending, ==_ne b end on, next)
              (rw
                (traverse_loop_body-straight fuel c rest (enter_block true b v) line
                  (omega (arith, enough)))
                (ap (λ l. some record { blocks = []; loop_blocks = l })
                  (append_assoc v.loop_blocks ((v.blocks ++ b ∷ []) ∷ [])
                    (parts ends [] (c ∷ rest)))))
        | inr inside ↦
            rw (traverse_loop_body, inside, next)
              (rw
                (traverse_loop_body-straight fuel c rest (enter_block false b v) line
                  (omega (arith, enough)))
                refl)
      ]
