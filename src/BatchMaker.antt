-- ===== src/BatchMaker.antt =====
-- src/BatchMaker.h and src/BatchMaker.cpp: the arguments and the prototype of the batch function.
-- std::to_string is a parameter.
pub mod Prototype
mod Examples
use mem_opt.Common.{
  ℕ, zero, suc, Bool, true, false, not, Option, none, some, List, [], ◌∷◌, ◌++◌, if◌then◌else◌,
  contains, length, map,
}
use mem_opt.Text.{Text, codes}

-- LLVM's types, as far as the code makes or tests them.
pub data Ty : Type 0 where
  void_ty : Ty
  int32_ty : Ty
  pointer_to : Ty → Ty
  named_ty : ℕ → Ty

-- An argument of the old function, or of the batch function by its position.
pub data ArgRef : Type 0 where
  old_arg : ℕ → ArgRef
  batch_arg : ℕ → ArgRef

pub record TasArgAttr : Type 0 where
  pub is_batch : Bool
  pub pos_idx : ℕ
  pub ty : Ty
  pub val : Option ArgRef
  pub name : Text
  pub is_double_ptr : Bool

pub record Argument : Type 0 where
  pub id : ℕ
  pub arg_ty : Ty
  pub arg_name : Text

pub record Function : Type 0 where
  pub fn_name : Text
  pub return_ty : Ty
  pub args : List Argument

-- What createBatchedFormFnPrototype writes: BatchFuncArgList and the fields of BatchMaker.
pub record BatchMaker : Type 0 where
  pub arg_list : List TasArgAttr
  pub batch_func : Function
  pub is_ret_ty_void : Bool
  pub batch_size_arg_pos : ℕ

abbrev pub is_void : Ty → Bool
is_void void_ty = true
is_void _ = false

-- In->isPointerTy() && In->getContainedType(0)->isPointerTy()
abbrev pub is_double_pointer : Ty → Bool
is_double_pointer (pointer_to (pointer_to t)) = true
is_double_pointer _ = false

-- The type, and IsDoublePtr.
unfoldable pub set_arg_type : Bool → Ty → Ty × Bool
set_arg_type true t = (if is_double_pointer t then t else pointer_to t, is_double_pointer t)
set_arg_type false t = (t, false)

module _ (to_string : ℕ → Text) where
  -- The constructor of TASArgAttr.
  unfoldable pub tas_arg_attr : Bool → ℕ → Ty → Option ArgRef → Text → TasArgAttr
  unfolding set_arg_type
  tas_arg_attr b p t v n = record {
    is_batch = b;
    pos_idx = p;
    ty = (set_arg_type b t).0;
    val = v;
    name = if b then codes "batch_" ++ to_string p else n;
    is_double_ptr = (set_arg_type b t).1;
  }

  -- The loop over the arguments of the old function, from position i.
  unfoldable pub batch_args : List ℕ → ℕ → List Argument → List TasArgAttr
  unfolding tas_arg_attr
  batch_args args_to_batch i [] = []
  batch_args args_to_batch i (a ∷ args) =
      tas_arg_attr (contains (a.id) args_to_batch) i (a.arg_ty) (some (old_arg (a.id))) (a.arg_name)
      ∷ batch_args args_to_batch (suc i) args

  -- The last loop: the arguments of the new function by position, with their names.
  unfoldable pub set_values : ℕ → List TasArgAttr → List TasArgAttr × List Argument
  set_values i [] = ([], [])
  set_values i (attr ∷ attrs) =
      let (done, args) = set_values (suc i) attrs in
      (
        record {
          is_batch = attr.is_batch;
          pos_idx = attr.pos_idx;
          ty = attr.ty;
          val = some (batch_arg i);
          name = attr.name;
          is_double_ptr = attr.is_double_ptr;
        }
            ∷ done,
        record { id = i; arg_ty = attr.ty; arg_name = attr.name } ∷ args,
      )

  unfoldable pub create_batched_form_fn_prototype : List ℕ → Function → BatchMaker
  unfolding batch_args set_values tas_arg_attr
  create_batched_form_fn_prototype args_to_batch f =
      let n = length (f.args) in
      let size_arg = tas_arg_attr false n int32_ty none (codes "TAS_BatchSize") in
      let ret_arg =
        tas_arg_attr false (suc n) (pointer_to (f.return_ty)) none (codes "TAS_ReturnVar") in
      let attrs =
        batch_args args_to_batch 0 (f.args)
        ++ size_arg ∷ (if is_void (f.return_ty) then [] else ret_arg ∷ []) in
      let (arg_list, args) = set_values 0 attrs in
      record {
        arg_list = arg_list;
        batch_func = record {
          fn_name = f.fn_name ++ codes "_batch";
          return_ty = void_ty;
          args = args;
        };
        is_ret_ty_void = is_void (f.return_ty);
        batch_size_arg_pos = n;
      }
