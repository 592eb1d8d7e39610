-- ===== src/Prefetch/Inserted.antt =====
-- What stands in front of the use of a variable when its prefetch is inserted.
use mem_opt.Common.{ℕ, ◌≡◌, ◌⊎◌, true, false, some, ◌∷◌}
use mem_opt.Prefetch.{int8_pointer_to, Builder}

module _ (B : Builder) where
  open B use {State, operands, in_front, made, is_int8_pointer, create, prefetch_declaration}

  -- What the cast adds: nothing, where the loaded value is a pointer to bytes.
  abbrev pub IsCast : (ptr cast : ℕ) → State → State → ℕ → Type 0
  IsCast ptr cast s s' at =
      ((is_int8_pointer s' ptr ≡ true) × (cast ≡ ptr) × (in_front s' at ≡ in_front s at))
      ⊎ ((is_int8_pointer s' ptr ≡ false)
          × (made s' cast ≡ some (int8_pointer_to ptr))
          × (in_front s' at ≡ cast ∷ in_front s at))
