-- ===== src/Common/Lists.antt =====
-- Lists under native lengths, and membership by cases.
use Prim.Native.Nat.{ℕ, suc, ◌+◌}
use mathlib.Core.Path.{◌≡◌, refl}
use mathlib.Core.Logic.{◌⊎◌, inl, inr, ◌↔◌, ⊎_elim}
use mathlib.Core.List.{List, [], ◌∷◌, ◌++◌, Memᴰ}
use mathlib.Core.List.Memᴰ
use mathlib.Core.Bool.{Bool, true, false, ◌||◌}
use mem_opt.Common.Tests.{◌==◌, ==_self, ==_ne, ==_iff, Bool-cases}
use native.Mathlib.Omega.{arith}

module _ {ℓ} {A : Type ℓ} where
  abbrev pub length : List A → ℕ
  length [] = 0
  length (x ∷ xs) = suc (length xs)

  pub length-append : (xs ys : List A) → length (xs ++ ys) ≡ length xs + length ys
  length-append [] ys = omega arith
  length-append (x ∷ xs) ys = omega (arith, length-append xs ys)

  pub Memᴰ-cons : (a x : A) (xs : List A) → Memᴰ a (x ∷ xs) ↔ ((a ≡ x) ⊎ Memᴰ a xs)
  Memᴰ-cons a x xs = (Memᴰ.cases_cons, ⊎_elim Memᴰ.head Memᴰ.tail)

  -- A predicate of every item, and the absence of repeated items, as tuples.
  abbrev pub All {κ} : (A → Type κ) → List A → Type κ
  All P [] = Unit
  All P (x ∷ xs) = P x × All P xs

  pub All-mem {κ} : (P : A → Type κ) (xs : List A) {a : A} → All P xs → Memᴰ a xs → P a
  All-mem P (x ∷ xs) {a} h m = elim (Memᴰ.cases_cons m) [
    | inl e ↦ rw e h.0
    | inr m' ↦ All-mem P xs h.1 m'
  ]
  All-mem P [] h m = absurd (Memᴰ.not-nil m)

  abbrev pub Distinct : List A → Type ℓ
  Distinct [] = Unit
  Distinct (x ∷ xs) = ¬ Memᴰ x xs × Distinct xs

abbrev pub contains : ℕ → List ℕ → Bool
contains b [] = false
contains b (x ∷ xs) = b == x || contains b xs

-- contains, as membership
pub contains_of_mem : (b : ℕ) (xs : List ℕ) → Memᴰ b xs → contains b xs ≡ true
contains_of_mem b [] m = absurd (Memᴰ.not-nil m)
contains_of_mem b (x ∷ xs) m = elim (Memᴰ.cases_cons m) [
  | inl e ↦ rw (e, ==_self x) refl
  | inr m' ↦ ground (arith, contains_of_mem b xs m')
]

pub contains_of_not_mem : (b : ℕ) (xs : List ℕ) → ¬ Memᴰ b xs → contains b xs ≡ false
contains_of_not_mem b [] out = refl
contains_of_not_mem b (x ∷ xs) out =
    rw (==_ne b x (λ e. out (Memᴰ.head e))) (contains_of_not_mem b xs (λ m. out (Memᴰ.tail m)))

-- The other way round, for lists at hand.
pub mem_of_contains : (b : ℕ) (xs : List ℕ) → contains b xs ≡ true → Memᴰ b xs
mem_of_contains b [] h = cc
mem_of_contains b (x ∷ xs) h = elim (Bool-cases (b == x)) [
  | inl e ↦ Memᴰ.head ((==_iff b x).0 e)
  | inr e ↦ Memᴰ.tail (mem_of_contains b xs (rw e at h))
]

pub not_mem_of_contains : (b : ℕ) (xs : List ℕ) → contains b xs ≡ false → ¬ Memᴰ b xs
not_mem_of_contains b xs h m = cc (contains_of_mem b xs m)
