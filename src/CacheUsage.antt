-- ===== src/CacheUsage.antt =====
-- src/CacheUsageInfo.cpp and .h, with getGEPIndex of src/Util.cpp: the cache lines that a function
-- touches through its pointer variables. Types and the data layout are LLVM's: what the code asks
-- of them is a field or a parameter.
pub mod Offsets
pub mod Collected
pub mod Lines
pub mod Counted
mod Examples
use mem_opt.Common.{
  ℕ, zero, suc, ◌+◌, ◌*◌, ◌/◌, ◌%◌, ◌^◌, Bool, true, false, not, ◌&&◌, ◌||◌, Option, none, some,
  List, [], ◌∷◌, ◌++◌, ◌==◌, ◌>>=◌, if◌then◌else◌, length,
}

-- getSourceElementType(): a type that fits a register, a struct or an array of an element type.
pub data SourceType : Type 0 where
  single_value : SourceType
  struct_type : ℕ → SourceType
  array_type : ℕ → SourceType

-- The index is operand getNumIndices() as an unsigned 64-bit number, `none` if it is no constant.
pub record Gep : Type 0 where
  pub source_type : SourceType
  pub index : Option ℕ

pub data Instruction : Type 0 where
  gep : Gep → Instruction
  plain : Instruction

-- A user of a variable: a load with the instructions behind it in its block, or another one.
pub data User : Type 0 where
  load_user : List Instruction → User
  other_user : User

-- A stack variable: is its type a pointer, and to a type that fits a register, or to a pointer?
pub record Alloca : Type 0 where
  pub name : ℕ
  pub is_pointer : Bool
  pub to_single_value : Bool
  pub to_pointer : Bool
  pub users : List User

-- What analyze reads of a function: the variables of its entry block, and whether it has loops.
pub record Function : Type 0 where
  pub allocas : List Alloca
  pub has_loops : Bool

-- A member of MemoryCacheLineId: the variable and the field of its key, and the line.
pub record CacheLine : Type 0 where
  pub object : ℕ
  pub field : ℕ
  pub line : ℕ

-- `loop_exists` is `none` as long as nothing has set it.
pub record CacheUsageInfo : Type 0 where
  pub ptr_allocas : List Alloca
  pub cache_line_size : ℕ
  pub num_of_cache_lines : ℕ
  pub loop_exists : Option Bool

unfoldable pub new_info : ℕ → CacheUsageInfo
new_info n = record {
  ptr_allocas = [];
  cache_line_size = n;
  num_of_cache_lines = 0;
  loop_exists = none;
}

-- `unsigned` has 32 bits.
abbrev pub wrap : ℕ → ℕ
wrap n = n % 2 ^ 32

-- FieldIdx = CI->getZExtValue(), where the assertion holds
unfoldable pub get_gep_index : Gep → Option ℕ
get_gep_index g = g.index >>= λ i. some (wrap i)

-- std::pair's ==, for the set
abbrev pub line_eq : CacheLine → CacheLine → Bool
line_eq a b = a.object == b.object && a.field == b.field && a.line == b.line

abbrev pub has_line : CacheLine → List CacheLine → Bool
has_line l [] = false
has_line l (k ∷ ks) = line_eq l k || has_line l ks

abbrev pub insert_line : CacheLine → List CacheLine → List CacheLine
insert_line l ls = if has_line l ls then ls else l ∷ ls

-- PtrAllocas.push_back(Alloca), for each that passes
unfoldable pub collect_ptr_allocas : List Alloca → List Alloca
collect_ptr_allocas [] = []
collect_ptr_allocas (a ∷ rest) =
    let later = collect_ptr_allocas rest in
    if not (a.is_pointer) then later else if a.to_single_value then later else a ∷ later

-- getStructLayout(Ty)->getElementOffset(i) and getTypeAllocSize(Ty)
module _ (element_offset : ℕ → ℕ → ℕ) (type_alloc_size : ℕ → ℕ) where
  unfoldable pub get_byte_offset_relative : SourceType → ℕ → ℕ
  get_byte_offset_relative single_value i = 0
  get_byte_offset_relative (struct_type t) i = wrap (element_offset t i)
  get_byte_offset_relative (array_type t) i = wrap (type_alloc_size t * i)

  -- The list is what stands behind the instruction, and goes on to the end of the block.
  unfoldable pub get_byte_offset_absolute : Gep → List Instruction → ℕ → Option ℕ
  get_byte_offset_absolute g [] offset = none
  get_byte_offset_absolute g (plain ∷ is) offset =
      get_gep_index g >>= λ i. some (wrap (offset + get_byte_offset_relative (g.source_type) i))
  get_byte_offset_absolute g (gep h ∷ is) offset = get_gep_index g >>= λ i.
      get_byte_offset_absolute h is (wrap (offset + get_byte_offset_relative (g.source_type) i))

  -- MemoryCacheLineId.insert(std::make_pair(Key, AbsoluteOffset / CacheLineSize)), if the list
  -- starts with a getelementptr
  unfoldable pub add_line : ℕ → ℕ → ℕ → List Instruction → List CacheLine → Option (List CacheLine)
  add_line size object field [] ls = none
  add_line size object field (plain ∷ is) ls = some ls
  add_line size object field (gep g ∷ is) ls = get_byte_offset_absolute g is 0 >>= λ offset.
      if size == 0
      then none
      else some (insert_line (record { object = object; field = field; line = offset / size }) ls)

  -- The body of the inner loop, for a load of a double pointer
  unfoldable pub add_line_behind_pointer :
      ℕ → ℕ → List Instruction → List CacheLine → Option (List CacheLine)
  add_line_behind_pointer size object (gep g ∷ base ∷ is) ls =
      get_gep_index g >>= λ field. add_line size object field is ls
  add_line_behind_pointer size object _ ls = none

  unfoldable pub visit_user : ℕ → Alloca → User → List CacheLine → Option (List CacheLine)
  visit_user size a other_user ls = some ls
  visit_user size a (load_user is) ls =
      if a.to_pointer
      then add_line_behind_pointer size (a.name) is ls
      else add_line size (a.name) 0 is ls

  unfoldable pub visit_users : ℕ → Alloca → List User → List CacheLine → Option (List CacheLine)
  visit_users size a [] ls = some ls
  visit_users size a (u ∷ us) ls = visit_user size a u ls >>= λ ls'. visit_users size a us ls'

  unfoldable pub visit_allocas : ℕ → List Alloca → List CacheLine → Option (List CacheLine)
  visit_allocas size [] ls = some ls
  visit_allocas size (a ∷ rest) ls =
      visit_users size a (a.users) ls >>= λ ls'. visit_allocas size rest ls'

  -- The value that the C++ function returns is always false.
  unfoldable pub analyze : CacheUsageInfo → Function → Option CacheUsageInfo
  unfolding collect_ptr_allocas visit_allocas
  analyze info f =
      let allocas = info.ptr_allocas ++ collect_ptr_allocas (f.allocas) in
      visit_allocas (info.cache_line_size) allocas [] >>= λ ls. some record {
        ptr_allocas = allocas;
        cache_line_size = info.cache_line_size;
        num_of_cache_lines = length ls;
        loop_exists = if f.has_loops then some true else info.loop_exists;
      }
