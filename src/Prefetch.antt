-- ===== src/Prefetch.antt =====
-- src/Util.cpp, insertLLVMPrefetchIntrinsic: the instructions of a prefetch. A value and an
-- instruction are numbers; `none` is an operand that is not there.
pub mod Inserted
mod Examples
use mem_opt.Common.{ℕ, Bool, if◌then◌else◌, ◌≡◌, ◌≢◌, Option, none, some, List, [], ◌∷◌, ◌>>=◌}

pub data Argument : Type 0 where
  value : ℕ → Argument
  int32 : ℕ → Argument

-- What an instruction that the builder makes is.
pub data Made : Type 0 where
  load_of : ℕ → Made
  int8_pointer_to : ℕ → Made
  call_of : ℕ → List Argument → Made

-- A function by its instructions. `in_front s at` are those that stand in front of `at` in its block,
-- the nearest first.
pub record Builder : Type 1 where
  pub State : Type 0
  pub operands : State → ℕ → List ℕ
  pub in_front : State → ℕ → List ℕ
  pub made : State → ℕ → Option Made
  -- Intrinsic::getDeclaration(M, Intrinsic::prefetch)
  pub prefetch_declaration : State → ℕ × State
  -- Is the type of the value i8*?
  pub is_int8_pointer : State → ℕ → Bool
  -- CreateLoad, CreateBitCast to i8* and CreateCall, in front of the instruction `at`
  pub create : Made → (at : ℕ) → State → ℕ × State
  pub in_front-create :
      (i : Made) (at : ℕ) (s : State)
      → in_front ((create i at s).1) at ≡ (create i at s).0 ∷ in_front s at
  pub made-create :
      (i : Made) (at : ℕ) (s : State) → made ((create i at s).1) ((create i at s).0) ≡ some i
  pub made-create-other :
      (i : Made) (at : ℕ) (s : State) (x : ℕ)
      → made s x ≢ none
      → made ((create i at s).1) x ≡ made s x
  pub is_int8_pointer-create :
      (i : Made) (at : ℕ) (s : State) (x : ℕ)
      → made s x ≢ none
      → is_int8_pointer ((create i at s).1) x ≡ is_int8_pointer s x
  pub is_int8_pointer-prefetch_declaration :
      (s : State) (x : ℕ) → is_int8_pointer ((prefetch_declaration s).1) x ≡ is_int8_pointer s x
  pub in_front-prefetch_declaration :
      (s : State) (at : ℕ) → in_front ((prefetch_declaration s).1) at ≡ in_front s at
  pub made-prefetch_declaration :
      (s : State) (x : ℕ) → made ((prefetch_declaration s).1) x ≡ made s x

abbrev pub first_operand : List ℕ → Option ℕ
first_operand [] = none
first_operand (v ∷ vs) = some v

-- InsertBefore?InsertBefore:PtrAllocaUse
abbrev pub insert_point : (ptr_alloca_use : ℕ) (insert_before : Option ℕ) → ℕ
insert_point u none = u
insert_point u (some i) = i

module _ (B : Builder) where
  open B use {State, operands, is_int8_pointer, create, prefetch_declaration}

  -- CreateBitCast gives the value itself where it has the type already.
  abbrev pub create_bit_cast : (ptr at : ℕ) → State → ℕ × State
  create_bit_cast ptr at s =
      if is_int8_pointer s ptr then (ptr, s) else create (int8_pointer_to ptr) at s

  unfoldable pub insert_llvm_prefetch_intrinsic : ℕ → Option ℕ → State → Option (ℕ × State)
  insert_llvm_prefetch_intrinsic ptr_alloca_use insert_before s =
      let at = insert_point ptr_alloca_use insert_before in
      first_operand (operands s ptr_alloca_use) >>= λ v.
      let (ptr, s1) = create (load_of v) at s in
      let (cast, s2) = create_bit_cast ptr at s1 in
      let (prefetch, s3) = prefetch_declaration s2 in
      -- a read of data, to be kept in all levels of the cache
      some (create (call_of prefetch (value cast ∷ int32 0 ∷ int32 3 ∷ int32 1 ∷ [])) at s3)
