-- ===== src/Users/Examples.antt =====
-- The theorems at small inputs.
use mem_opt.Common.{ℕ, ◌%◌, ◌^◌, ◌≡◌, refl, false, none, some, List, [], ◌∷◌, ◌==◌, Memᴰ}
use mem_opt.Users.{
  find_last_use_of_value_in_inst_type, find_first_use_of_value_in_inst_type, primitive, aggregate,
  no_types, more_types, Ty, get_type_size_in_bits, Loop, get_pre_loop_block, last_outside, is_latch,
}
use mem_opt.Users.Ends.{
  backwards, total_bits, find_first_use_of_value_in_inst_type_lem, get_type_size_in_bits_lem,
  get_pre_loop_block-outside,
}

abbrev users : List ℕ
users = 4 ∷ 7 ∷ 4 ∷ 2 ∷ []

first_use_at_end :
    find_first_use_of_value_in_inst_type (λ u. u == 4) users
    ≡ find_last_use_of_value_in_inst_type (λ u. u == 4) (backwards users)
first_use_at_end = find_first_use_of_value_in_inst_type_lem (λ u. u == 4) users

abbrev pair_of_ints : Ty
pair_of_ints = aggregate (more_types (primitive 32) (more_types (primitive 64) no_types))

get_type_size_in_bits_example :
    get_type_size_in_bits pair_of_ints ≡ total_bits pair_of_ints % 2 ^ 32
get_type_size_in_bits_example = get_type_size_in_bits_lem pair_of_ints

-- The header is reached from the block 0, from 5 in the loop and from its latch 9.
abbrev loop : Loop
loop = record {
  preheader = none;
  header_preds = 0 ∷ 5 ∷ 9 ∷ [];
  latch = some 9;
  loop_blocks = 5 ∷ 6 ∷ 9 ∷ [];
}

pre_loop : get_pre_loop_block loop ≡ some 0
unfolding get_pre_loop_block last_outside
pre_loop = refl

get_pre_loop_block-outside_example :
    Memᴰ 0 (loop.header_preds) × ¬ Memᴰ 0 (loop.loop_blocks) × (is_latch (loop.latch) 0 ≡ false)
get_pre_loop_block-outside_example = get_pre_loop_block-outside loop 0 refl pre_loop
