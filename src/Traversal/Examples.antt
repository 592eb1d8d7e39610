-- ===== src/Traversal/Examples.antt =====
-- The traversal of a diamond.
use mem_opt.Common.{
  ℕ, suc, ◌≡◌, ◌≢◌, refl, true, some, List, [], ◌∷◌, ◌==◌, if◌then◌else◌, contains, length, Memᴰ,
  mem_of_contains, All, All-mem,
}
use mem_opt.Traversal.{visit_all, traverse}
use mem_opt.Traversal.Returns.{Extends, traverse_lem}

-- 0 goes to 1 or 2, both go to 3, and 3 goes back to 0.
abbrev graph : List ℕ
graph = 0 ∷ 1 ∷ 2 ∷ 3 ∷ []

abbrev succs : ℕ → List ℕ
succs b = if b == 0 then 1 ∷ 2 ∷ [] else if b == 3 then 0 ∷ [] else 3 ∷ []

traverse_diamond : traverse succs succs [] 5 3 [] 0 ≡ some (0 ∷ 1 ∷ 2 ∷ [])
unfolding traverse visit_all
traverse_diamond = refl

closed : (b c : ℕ) → Memᴰ b graph → Memᴰ c (succs b) → Memᴰ c graph
closed b c m n =
    All-mem (λ x. Memᴰ c (succs x) → Memᴰ c graph) graph
      (
        within 0 (mem_of_contains 1 graph refl, (mem_of_contains 2 graph refl, tt)),
        (
          within 1 (mem_of_contains 3 graph refl, tt),
          (
            within 2 (mem_of_contains 3 graph refl, tt),
            (within 3 (mem_of_contains 0 graph refl, tt), tt),
          ),
        ),
      )
      m n
  where
    within : (x : ℕ) → All (λ y. Memᴰ y graph) (succs x) → Memᴰ c (succs x) → Memᴰ c graph
    within x h n' = All-mem (λ y. Memᴰ y graph) (succs x) h n'

traverse_lem_example :
    (r : List ℕ) × (traverse succs succs [] (suc (length graph)) 3 [] 0 ≡ some r)
    × Extends 3 [] r
    × (◌≢◌ {A = ℕ} 0 3 → contains 0 r ≡ true)
traverse_lem_example =
    traverse_lem succs succs [] graph 3 closed [] 0 (mem_of_contains 0 graph refl)
