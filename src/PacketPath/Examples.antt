-- ===== src/PacketPath/Examples.antt =====
-- Tests of the path analysis, and its theorems at small graphs.
use mem_opt.Common.{
  ℕ, ◌≤◌, ◌≡◌, ◌≢◌, refl, inr, List, [], ◌∷◌, Memᴰ, ◌==◌, if◌then◌else◌, arith, ap, subst,
  mem_of_contains, not_mem_of_contains, find, All-mem, length,
}
use mem_opt.PacketPath.{
  Cfg, calculate, visit_all, visit, assign_join, assign_succs, assign_all, assign_fresh,
  assign_current,
}
use mem_opt.PacketPath.Step.{IsMapped}
use mem_opt.PacketPath.Bounds.{IsBounded, size, calculate_bounds}
use mem_opt.PacketPath.Coverage.{calculate-succ-IsMapped, calculate-join-IsMapped}
use mem_opt.PacketPath.Gaps.{IsUnmapped, calculate-IsUnmapped}
use mem_opt.PacketPath.Unique.{IsPending, IsStructured, calculate-ids_distinct}

-- 0 goes to 1 or 2, and both go to 3.
abbrev diamond : Cfg
diamond = record {
  n_blocks = 4;
  rpo = 0 ∷ 2 ∷ 1 ∷ 3 ∷ [];
  pred_size = λ b. if b == 0 then 0 else if b == 3 then 2 else 1;
  succs = λ b. if b == 0 then 1 ∷ 2 ∷ [] else if b == 3 then [] else 3 ∷ [];
}

-- 0 goes to 1, which goes to 2 or 3, and both go to 4.
abbrev straight_entry : Cfg
straight_entry = record {
  n_blocks = 5;
  rpo = 0 ∷ 1 ∷ 3 ∷ 2 ∷ 4 ∷ [];
  pred_size = λ b. if b == 0 then 0 else if b == 4 then 2 else 1;
  succs =
      λ b. if b == 0 then 1 ∷ [] else if b == 1 then 2 ∷ 3 ∷ [] else if b == 4 then [] else 4 ∷ [];
}

calculate-diamond :
    calculate diamond
    ≡ record { counter = 3; ids = (3, 3) ∷ (3, 2) ∷ (3, 2) ∷ (2, 2) ∷ (1, 1) ∷ [] }
unfolding calculate visit_all visit assign_join assign_succs assign_all assign_fresh assign_current
calculate-diamond = refl

ids-diamond :
    (b : ℕ)
    → find b (calculate diamond).ids ≡ find b ((3, 3) ∷ (3, 2) ∷ (3, 2) ∷ (2, 2) ∷ (1, 1) ∷ [])
ids-diamond b = ap (λ p. find b p.ids) calculate-diamond

abbrev head_or_zero : List ℕ → ℕ
head_or_zero [] = 0
head_or_zero (x ∷ xs) = x

to_join :
    (later : List ℕ) (s : ℕ)
    → 3 ∷ [] ≡ s ∷ []
    → IsPending diamond later 3
    → IsPending diamond later s
to_join later s e h = subst (IsPending diamond later) (ap head_or_zero e) h

diamond-IsStructured : IsStructured diamond diamond.rpo
diamond-IsStructured = (
  λ s e one. cc,
  (
    λ s e one. to_join (1 ∷ 3 ∷ []) s e (omega arith, mem_of_contains 3 (1 ∷ 3 ∷ []) refl),
    (
      λ s e one. to_join (3 ∷ []) s e (omega arith, mem_of_contains 3 (3 ∷ []) refl),
      (λ s e one. cc, tt),
    ),
  ),
)

calculate_bounds_example :
    IsBounded (calculate diamond) × ((calculate diamond).counter ≤ size diamond diamond.rpo)
calculate_bounds_example = calculate_bounds diamond

calculate-succ-IsMapped_example : IsMapped (calculate diamond) 2
calculate-succ-IsMapped_example =
    calculate-succ-IsMapped diamond 0 2 (omega arith) (mem_of_contains 0 diamond.rpo refl)
      (inr (omega arith)) (mem_of_contains 2 (1 ∷ 2 ∷ []) refl)

calculate-join-IsMapped_example : IsMapped (calculate diamond) 3
calculate-join-IsMapped_example =
    calculate-join-IsMapped diamond 3 (omega arith) (mem_of_contains 3 diamond.rpo refl)
      (omega arith)

calculate-ids_distinct_example : ◌≢◌ {A = ℕ} 1 2
calculate-ids_distinct_example =
    calculate-ids_distinct diamond 1 2 1 2 diamond-IsStructured (omega arith) (ids-diamond 1)
      (ids-diamond 2)

-- In the second graph only the entry block leads to 1.
only_entry :
    (b : ℕ)
    → Memᴰ b straight_entry.rpo
    → Memᴰ 1 (straight_entry.succs b)
    → (straight_entry.pred_size b ≡ 0) × (length (straight_entry.succs b) ≡ 1)
only_entry b m =
    All-mem
      (λ b.
        Memᴰ 1 (straight_entry.succs b)
        → (straight_entry.pred_size b ≡ 0) × (length (straight_entry.succs b) ≡ 1))
      straight_entry.rpo
      (
        (λ _. (refl, refl)),
        (
          (λ i. absurd (not_mem_of_contains 1 (2 ∷ 3 ∷ []) refl i)),
          (
            (λ i. absurd (not_mem_of_contains 1 (4 ∷ []) refl i)),
            (
              (λ i. absurd (not_mem_of_contains 1 (4 ∷ []) refl i)),
              ((λ i. absurd (not_mem_of_contains 1 [] refl i)), tt),
            ),
          ),
        ),
      )
      m

straight-IsUnmapped : IsUnmapped (calculate straight_entry) 1
straight-IsUnmapped = calculate-IsUnmapped straight_entry 1 (omega arith) only_entry
