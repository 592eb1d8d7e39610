-- ===== src/Prefetch/Examples.antt =====
-- A list of the instructions that were made, newest last by their numbers, and a prefetch in it.
use mem_opt.Common.{
  Bool, false, ℕ, ◌+◌, ◌<◌, ◌≡◌, ◌≢◌, refl, Option, none, some, List, [], ◌∷◌, ◌==◌, ==_self, ==_ne,
  if◌then◌else◌, length, arith, Bool-cases, inl, inr, ==_iff,
}
use mem_opt.Prefetch.{value, int32, Made, load_of, call_of, Builder, insert_llvm_prefetch_intrinsic}

-- Each instruction with the one that it was put in front of.
abbrev MadeList : Type 0
MadeList = List (ℕ × Made)

abbrev next_number : MadeList → ℕ
next_number s = 100 + length s

abbrev ahead_of : MadeList → ℕ → List ℕ
ahead_of [] at = []
ahead_of ((b, i) ∷ s) at = if b == at then next_number s ∷ ahead_of s at else ahead_of s at

abbrev made_as : MadeList → ℕ → Option Made
made_as [] x = none
made_as ((b, i) ∷ s) x = if next_number s == x then some i else made_as s x

below_next : (s : MadeList) (x : ℕ) → made_as s x ≢ none → x < next_number s
below_next [] x h = absurd (h refl)
below_next ((b, i) ∷ s) x h = elim (Bool-cases (next_number s == x)) [
  | inl here ↦ omega (arith, (==_iff (next_number s) x).0 here)
  | inr other ↦ omega (arith, below_next s x (λ e. h (rw other e)))
]

-- What is loaded through the variable 50 is a pointer to bytes.
abbrev loads_bytes : Option Made → Bool
loads_bytes (some (load_of v)) = v == 50
loads_bytes _ = false

abbrev toy_builder : Builder
toy_builder = record {
  State = MadeList;
  operands = λ s u. if u == 20 then 40 ∷ 41 ∷ [] else 50 ∷ [];
  in_front = ahead_of;
  made = made_as;
  is_int8_pointer = λ s x. loads_bytes (made_as s x);
  prefetch_declaration = λ s. (7, s);
  create = λ i at s. (next_number s, (at, i) ∷ s);
  in_front-create = λ i at s. rw (==_self at) refl;
  made-create = λ i at s. rw (==_self (next_number s)) refl;
  made-create-other =
      λ i at s x h. rw (==_ne (next_number s) x (λ e. omega (arith, below_next s x h, e))) refl;
  is_int8_pointer-create =
      λ i at s x h. rw (==_ne (next_number s) x (λ e. omega (arith, below_next s x h, e))) refl;
  is_int8_pointer-prefetch_declaration = λ s x. refl;
  in_front-prefetch_declaration = λ s at. refl;
  made-prefetch_declaration = λ s x. refl;
}

prefetched_bytes :
    insert_llvm_prefetch_intrinsic toy_builder 21 none []
    ≡ some (
      101,
      (21, call_of 7 (value 100 ∷ int32 0 ∷ int32 3 ∷ int32 1 ∷ [])) ∷ (21, load_of 50) ∷ [],
    )
unfolding insert_llvm_prefetch_intrinsic
prefetched_bytes = refl
