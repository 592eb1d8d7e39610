-- ===== src/CacheUsage/Examples.antt =====
-- The analysis of small functions.
use mem_opt.CacheUsage.Counted.{TouchedBy, analyze-num_of_cache_lines}
use mem_opt.CacheUsage.{other_user, CacheLine}
use mem_opt.Common.{
  List, Memᴰ, ◌↔◌, Distinct, length, ℕ, ◌+◌, ◌*◌, ◌≤◌, ◌≡◌, refl, true, false, none, some, [], ◌∷◌,
  ◌++◌, map, All,
}
use mem_opt.CacheUsage.{
  struct_type, array_type, gep, plain, load_user, Alloca, Function, CacheUsageInfo, new_info, wrap,
  get_gep_index, get_byte_offset_relative, get_byte_offset_absolute, add_line, visit_user,
  visit_users, visit_allocas, collect_ptr_allocas, analyze,
}
use mem_opt.CacheUsage.Offsets.{constant_gep, total_offset, get_byte_offset_absolute-chain}
use mem_opt.CacheUsage.Collected.{collect_ptr_allocas-no_double_pointer, analyze-again}

abbrev field_offset : ℕ → ℕ → ℕ
field_offset t i = 8 * i

abbrev alloc_size : ℕ → ℕ
alloc_size t = 4

get_byte_offset_absolute-chain_example :
    get_byte_offset_absolute field_offset alloc_size
      (constant_gep (struct_type 0, 3))
      (map (λ h. gep (constant_gep h)) ((array_type 0, 5) ∷ []) ++ plain ∷ [])
      0
    ≡ some (
        wrap
          (0 + total_offset field_offset alloc_size ((struct_type 0, 3) ∷ (array_type 0, 5) ∷ [])))
get_byte_offset_absolute-chain_example =
    get_byte_offset_absolute-chain field_offset alloc_size (struct_type 0, 3)
      ((array_type 0, 5) ∷ []) [] 0

-- A variable of type T*, used to read field 20, and one of type T**.
abbrev object_var : Alloca
object_var = record {
  name = 0;
  is_pointer = true;
  to_single_value = false;
  to_pointer = false;
  users = load_user (gep (constant_gep (struct_type 0, 20)) ∷ plain ∷ []) ∷ [];
}

abbrev pointer_var : Alloca
pointer_var = record {
  name = 1;
  is_pointer = true;
  to_single_value = true;
  to_pointer = true;
  users = [];
}

collect_ptr_allocas-no_double_pointer_example :
    All (λ a. a.to_pointer ≡ false) (collect_ptr_allocas (pointer_var ∷ object_var ∷ []))
collect_ptr_allocas-no_double_pointer_example =
    collect_ptr_allocas-no_double_pointer (pointer_var ∷ object_var ∷ [])
      ((λ e. refl), ((λ e. cc), tt))

abbrev one_object : Function
one_object = record { allocas = object_var ∷ []; has_loops = false }

abbrev no_object : Function
no_object = record { allocas = []; has_loops = false }

abbrev after_first : CacheUsageInfo
after_first = record {
  ptr_allocas = object_var ∷ [];
  cache_line_size = 64;
  num_of_cache_lines = 1;
  loop_exists = none;
}

one_counted : analyze field_offset alloc_size (new_info 64) one_object ≡ some after_first
unfolding analyze collect_ptr_allocas visit_allocas visit_users visit_user add_line
    get_byte_offset_absolute get_byte_offset_relative get_gep_index new_info
one_counted = refl

other_counted : analyze field_offset alloc_size after_first no_object ≡ some after_first
unfolding analyze collect_ptr_allocas visit_allocas visit_users visit_user add_line
    get_byte_offset_absolute get_byte_offset_relative get_gep_index
other_counted = refl

analyzed_again : after_first.num_of_cache_lines ≤ after_first.num_of_cache_lines
analyzed_again =
    analyze-again field_offset alloc_size (new_info 64) after_first after_first one_object no_object
      one_counted other_counted

-- Fields 20 and 21 are in one line, field 2 is in another.
abbrev read_var : Alloca
read_var = record {
  name = 2;
  is_pointer = true;
  to_single_value = false;
  to_pointer = false;
  users =
      load_user (gep (constant_gep (struct_type 0, 20)) ∷ plain ∷ [])
      ∷ load_user (gep (constant_gep (struct_type 0, 2)) ∷ plain ∷ [])
      ∷ other_user
      ∷ load_user (gep (constant_gep (struct_type 0, 21)) ∷ plain ∷ [])
      ∷ load_user (plain ∷ [])
      ∷ [];
}

abbrev reading : Function
reading = record { allocas = pointer_var ∷ read_var ∷ []; has_loops = true }

abbrev two_lines : CacheUsageInfo
two_lines = record {
  ptr_allocas = read_var ∷ [];
  cache_line_size = 64;
  num_of_cache_lines = 2;
  loop_exists = some true;
}

reading_counted : analyze field_offset alloc_size (new_info 64) reading ≡ some two_lines
unfolding analyze collect_ptr_allocas visit_allocas visit_users visit_user add_line
    get_byte_offset_absolute get_byte_offset_relative get_gep_index new_info
reading_counted = refl

analyze-num_of_cache_lines_example :
    (lines : List CacheLine) × Distinct lines
    × ((l : CacheLine)
        → Memᴰ l lines
          ↔ TouchedBy field_offset alloc_size 64 (collect_ptr_allocas reading.allocas) l)
    × (two_lines.num_of_cache_lines ≡ length lines)
analyze-num_of_cache_lines_example =
    analyze-num_of_cache_lines field_offset alloc_size 64 reading two_lines reading_counted
