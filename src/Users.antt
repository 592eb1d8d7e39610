-- ===== src/Users.antt =====
-- src/Util.h and src/Util.cpp: which user of a value is its first and which its last, by users(),
-- which lists the newest first; the bits of a type, and the block in front of a loop.
pub mod Ends
mod Examples
use mem_opt.Common.{
  ℕ, zero, suc, ◌+◌, ◌%◌, ◌^◌, Bool, true, false, not, ◌&&◌, Option, none, some, List, [], ◌∷◌,
  ◌++◌, ◌==◌, ◌>>=◌, if◌then◌else◌, contains,
}

module _ {U : Type 0} (is_inst_type : U → Bool) where
  -- find_if(V->users(), ...), where the cast of a user that is not found reads past the end
  unfoldable pub find_last_use_of_value_in_inst_type : List U → Option U
  find_last_use_of_value_in_inst_type [] = none
  find_last_use_of_value_in_inst_type (u ∷ us) =
      if is_inst_type u then some u else find_last_use_of_value_in_inst_type us

  -- The loop of the three functions that keep the last match, `none` for null.
  unfoldable pub last_match : Option U → List U → Option U
  last_match lu [] = lu
  last_match lu (u ∷ us) = last_match (if is_inst_type u then some u else lu) us

  unfoldable pub find_first_use_of_value_in_inst_type : List U → Option U
  unfolding last_match
  find_first_use_of_value_in_inst_type us = last_match none us

  -- The same with the test for an instruction.
  unfoldable pub find_value_first_use_in_instruction : List U → Option U
  unfolding last_match
  find_value_first_use_in_instruction us = last_match none us

-- The same for stores.
unfoldable pub find_first_use_in_store_inst : {U : Type 0} → (U → Bool) → List U → Option U
unfolding last_match
find_first_use_in_store_inst is_store us = last_match is_store none us

-- A type by what the code reads: its size in bits, or the types below an aggregate.
mutual
  pub data Ty : Type 0 where
    primitive : ℕ → Ty
    aggregate : Tys → Ty

  pub data Tys : Type 0 where
    no_types : Tys
    more_types : Ty → Tys → Tys

-- `unsigned` has 32 bits.
unfoldable mutual
  pub get_type_size_in_bits : Ty → ℕ
  get_type_size_in_bits (primitive n) = n % 2 ^ 32
  get_type_size_in_bits (aggregate ts) = add_sizes ts 0

  pub add_sizes : Tys → ℕ → ℕ
  add_sizes no_types total = total
  add_sizes (more_types t ts) total = add_sizes ts ((total + get_type_size_in_bits t) % 2 ^ 32)

-- What getPreLoopBlock reads of a loop.
pub record Loop : Type 0 where
  pub preheader : Option ℕ
  pub header_preds : List ℕ
  pub latch : Option ℕ
  pub loop_blocks : List ℕ

abbrev pub is_latch : Option ℕ → ℕ → Bool
is_latch none b = false
is_latch (some l) b = b == l

unfoldable pub last_outside : Loop → List ℕ → Option ℕ → Option ℕ
last_outside l [] found = found
last_outside l (b ∷ bs) found =
    last_outside l bs
      (if is_latch (l.latch) b then found else if contains b (l.loop_blocks) then found else some b)

unfoldable pub get_pre_loop_block : Loop → Option ℕ
unfolding last_outside
get_pre_loop_block l = elim (l.preheader) [
  | some b ↦ some b
  | none ↦ last_outside l (l.header_preds) none
]
