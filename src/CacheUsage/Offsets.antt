-- ===== src/CacheUsage/Offsets.antt =====
-- The byte offset of a chain of getelementptr instructions.
use mem_opt.Common.{ℕ, ◌+◌, ◌≡◌, ap, ◌∙◌, some, List, [], ◌∷◌, ◌++◌, map, arith}
use mem_opt.CacheUsage.{
  SourceType, Gep, Instruction, gep, plain, wrap, get_gep_index, get_byte_offset_relative,
  get_byte_offset_absolute,
}

abbrev pub constant_gep : SourceType × ℕ → Gep
constant_gep (t, i) = record { source_type = t; index = some i }

wrap-add : (a b : ℕ) → wrap (wrap a + b) ≡ wrap (a + b)
wrap-add a b = omega arith

module _ (element_offset : ℕ → ℕ → ℕ) (type_alloc_size : ℕ → ℕ) where
  -- The sum of the offsets that the steps have by themselves.
  abbrev pub total_offset : List (SourceType × ℕ) → ℕ
  total_offset [] = 0
  total_offset ((t, i) ∷ gs) =
      get_byte_offset_relative element_offset type_alloc_size t (wrap i) + total_offset gs

  -- The offset that getByteOffsetAbsolute computes of a chain of getelementptr instructions with
  -- constant indices is its starting offset plus the offsets of the steps, modulo 2^32; the chain ends
  -- at the first instruction of another kind.
  pub get_byte_offset_absolute-chain :
      (g : SourceType × ℕ) (gs : List (SourceType × ℕ)) (is : List Instruction) (offset : ℕ)
      → get_byte_offset_absolute element_offset type_alloc_size
          (constant_gep g)
          (map (λ h. gep (constant_gep h)) gs ++ plain ∷ is)
          offset
        ≡ some (wrap (offset + total_offset (g ∷ gs)))
  unfolding get_byte_offset_absolute get_gep_index
  get_byte_offset_absolute-chain (t, i) [] is offset = ap (λ n. some (wrap n)) (omega arith)
  get_byte_offset_absolute-chain (t, i) (h ∷ gs) is offset =
      get_byte_offset_absolute-chain h gs is
        (wrap (offset + get_byte_offset_relative element_offset type_alloc_size t (wrap i)))
      ∙ ap some (
          wrap-add (offset + get_byte_offset_relative element_offset type_alloc_size t (wrap i))
            (total_offset (h ∷ gs))
          ∙ ap (λ n. wrap n) (omega arith))
