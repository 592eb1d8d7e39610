-- ===== src/Users/Ends.antt =====
-- The first and the last use of a value, as searches of users() from its two ends, and sizes as sums.
use mem_opt.Common.{
  ℕ, ◌+◌, ◌%◌, ◌^◌, ◌≡◌, ◌≢◌, refl, sym, ap, ◌∙◌, Bool, true, false, Option, none, some, List, [],
  ◌∷◌, ◌++◌, if◌then◌else◌, contains, contains_of_mem, arith, Bool-cases, inl, inr, Memᴰ, ◌⊎◌,
}
use mem_opt.Users.{
  find_last_use_of_value_in_inst_type, last_match, find_first_use_of_value_in_inst_type, Ty, Tys,
  primitive, aggregate, no_types, more_types, get_type_size_in_bits, add_sizes, Loop, last_outside,
  get_pre_loop_block, is_latch,
}

abbrev pub backwards {ℓ} : {A : Type ℓ} → List A → List A
backwards [] = []
backwards (x ∷ xs) = backwards xs ++ x ∷ []

abbrev pub or_else {ℓ} : {A : Type ℓ} → Option A → Option A → Option A
or_else none d = d
or_else (some a) d = some a

or_else-none : {A : Type 0} (o : Option A) → or_else o none ≡ o
or_else-none none = refl
or_else-none (some a) = refl

or_else-if :
    {A : Type 0} (b : Bool) (a : A) (o d : Option A)
    → or_else o (if b then some a else d) ≡ or_else (or_else o (if b then some a else none)) d
or_else-if true a none d = refl
or_else-if true a (some c) d = refl
or_else-if false a none d = refl
or_else-if false a (some c) d = refl

module _ {U : Type 0} (is_inst_type : U → Bool) where
  find_last-append :
      (xs ys : List U)
      → find_last_use_of_value_in_inst_type is_inst_type (xs ++ ys)
        ≡ or_else
            (find_last_use_of_value_in_inst_type is_inst_type xs)
            (find_last_use_of_value_in_inst_type is_inst_type ys)
  unfolding find_last_use_of_value_in_inst_type
  find_last-append [] ys = refl
  find_last-append (x ∷ xs) ys = elim (Bool-cases (is_inst_type x)) [
    | inl hit ↦ rw (find_last_use_of_value_in_inst_type, hit) refl
    | inr miss ↦ rw (find_last_use_of_value_in_inst_type, miss) (find_last-append xs ys)
  ]

  last_match_lem :
      (lu : Option U) (us : List U)
      → last_match is_inst_type lu us
        ≡ or_else (find_last_use_of_value_in_inst_type is_inst_type (backwards us)) lu
  unfolding last_match find_last_use_of_value_in_inst_type
  last_match_lem lu [] = refl
  last_match_lem lu (u ∷ us) =
      last_match_lem (if is_inst_type u then some u else lu) us
      ∙ (or_else-if (is_inst_type u) u
            (find_last_use_of_value_in_inst_type is_inst_type (backwards us)) lu
          ∙ ap (λ o. or_else o lu) (sym (find_last-append (backwards us) (u ∷ []))))

  -- The first use of a value is the last use in the list of its users read backwards.
  pub find_first_use_of_value_in_inst_type_lem :
      (us : List U)
      → find_first_use_of_value_in_inst_type is_inst_type us
        ≡ find_last_use_of_value_in_inst_type is_inst_type (backwards us)
  unfolding find_first_use_of_value_in_inst_type
  find_first_use_of_value_in_inst_type_lem us =
      last_match_lem none us
      ∙ or_else-none (find_last_use_of_value_in_inst_type is_inst_type (backwards us))

-- The sum of the bits of the types that are no aggregates.
unfoldable mutual
  pub total_bits : Ty → ℕ
  total_bits (primitive n) = n
  total_bits (aggregate ts) = total_bits_of ts

  pub total_bits_of : Tys → ℕ
  total_bits_of no_types = 0
  total_bits_of (more_types t ts) = total_bits t + total_bits_of ts

mutual
  unfolding get_type_size_in_bits add_sizes total_bits total_bits_of

  size_of_type : (t : Ty) → get_type_size_in_bits t ≡ total_bits t % 2 ^ 32
  size_of_type (primitive n) = refl
  size_of_type (aggregate ts) = size_of_types ts 0 refl ∙ ap (λ n. n % 2 ^ 32) (omega arith)

  size_of_types :
      (ts : Tys) (total : ℕ)
      → total % 2 ^ 32 ≡ total
      → add_sizes ts total ≡ (total + total_bits_of ts) % 2 ^ 32
  size_of_types no_types total h = omega arith
  size_of_types (more_types t ts) total h =
      size_of_types ts ((total + get_type_size_in_bits t) % 2 ^ 32) (omega arith)
      ∙ omega (arith, size_of_type t)

-- getTypeSizeInBits adds up the bits of the primitive types below a type, modulo 2^32.
pub get_type_size_in_bits_lem : (t : Ty) → get_type_size_in_bits t ≡ total_bits t % 2 ^ 32
get_type_size_in_bits_lem t = size_of_type t

some_inj : {A : Type 0} (a b : A) → some a ≡ some b → b ≡ a
some_inj a b e = cc

true-ne-false : true ≢ false
true-ne-false e = cc

later :
    (l : Loop) (x : ℕ) (bs : List ℕ) (b : ℕ) (found : Option ℕ)
    → (found ≡ some b) ⊎ (Memᴰ b bs × ¬ Memᴰ b (l.loop_blocks) × (is_latch (l.latch) b ≡ false))
    → (found ≡ some b)
      ⊎ (Memᴰ b (x ∷ bs) × ¬ Memᴰ b (l.loop_blocks) × (is_latch (l.latch) b ≡ false))
later l x bs b found (inl e) = inl e
later l x bs b found (inr (m, out, not_latch)) = inr (Memᴰ.tail m, out, not_latch)

last_outside-mem :
    (l : Loop) (bs : List ℕ) (found : Option ℕ) (b : ℕ)
    → last_outside l bs found ≡ some b
    → (found ≡ some b) ⊎ (Memᴰ b bs × ¬ Memᴰ b (l.loop_blocks) × (is_latch (l.latch) b ≡ false))
unfolding last_outside
last_outside-mem l [] found b h = inl h
last_outside-mem l (x ∷ bs) found b h = elim (Bool-cases (is_latch (l.latch) x)) [
  | inl yes_latch ↦
      later l x bs b found (last_outside-mem l bs found b (rw (last_outside, yes_latch) at h))
  | inr outside ↦ elim (Bool-cases (contains x (l.loop_blocks))) [
    | inl inside ↦
        later l x bs b found
          (last_outside-mem l bs found b (rw (last_outside, outside, inside) at h))
    | inr free ↦ elim (last_outside-mem l bs (some x) b (rw (last_outside, outside, free) at h)) [
      | inl e ↦
          let x_b = some_inj x b e in
          inr (
            Memᴰ.head x_b,
            rw x_b (λ m. true-ne-false (sym (contains_of_mem x (l.loop_blocks) m) ∙ free)),
            rw x_b outside,
          )
      | inr (m, out, not_latch) ↦ inr (Memᴰ.tail m, out, not_latch)
    ]
  ]
]

-- The block that getPreLoopBlock finds for a loop without a preheader is a predecessor of the header
-- from outside the loop, and is not the latch.
pub get_pre_loop_block-outside :
    (l : Loop) (b : ℕ)
    → l.preheader ≡ none
    → get_pre_loop_block l ≡ some b
    → Memᴰ b (l.header_preds) × ¬ Memᴰ b (l.loop_blocks) × (is_latch (l.latch) b ≡ false)
unfolding get_pre_loop_block
get_pre_loop_block-outside l b no_header h =
    elim (last_outside-mem l (l.header_preds) none b (rw no_header at h)) [
      | inl e ↦ cc
      | inr found ↦ found
    ]
