-- ===== src/BatchTransform.antt =====
-- src/BatchMaker.cpp, doBatchTransform and run: the steps of the other modules, from the prototype of
-- the batch function to its loop. `none` is undefined behaviour or a failed assertion.
pub mod Arguments
pub mod Void
mod Examples
use mem_opt.Common.{ℕ, Bool, Option, none, some, List, [], ◌∷◌, ◌>>=◌, if◌then◌else◌, map}
use mem_opt.Text.{Text}
use mem_opt.Llvm.{Llvm, Value, Inst, int32, store, alloca}
use mem_opt.Annotations.{Instruction, detect_batch_parameters}
use mem_opt.BatchMaker.{
  Ty, ArgRef, TasArgAttr, Argument, Function, BatchMaker, create_batched_form_fn_prototype,
}
use mem_opt.Clones.{ValueMap, clone_basic_blocks_into}
use mem_opt.Loops.{TasForLoop}
use mem_opt.Uses.{Values, replace_old_arg_uses_with_batch_args}
use mem_opt.BatchLoop.{finish_batch, marker_of}

abbrev pub ids : List Argument → List ℕ
ids args = map (λ a. a.id) args

-- BatchFuncArgList.back()
abbrev pub last : List TasArgAttr → Option TasArgAttr
last [] = none
last (a ∷ []) = some a
last (a ∷ b ∷ attrs) = last (b ∷ attrs)

-- What LLVM gives to the steps: CloneFunctionInto, which makes the body of the batch function from the
-- old one; what an instruction is, as the search for annotations reads it; the lists of uses of the
-- same function, with the calls that change them; and the values of the arguments, as operands and by
-- their numbers, and the numbers of types.
pub record Steps (L : Llvm) : Type 0 where
  pub clone_function_into : ValueMap → L.Ir → L.Ir
  pub read : Inst → Instruction
  pub values : Values L.Ir
  pub operand_of : ArgRef → Value
  pub value_of : ArgRef → ℕ
  pub type_number : Ty → ℕ

module _ (to_string : ℕ → Text) (L : Llvm) (P : Steps L) where
  open L use {Ir, entry, insts, set_insts, new_slot}

  -- The argument for the returned values, where there are some.
  unfoldable pub return_argument : BatchMaker → Option (Option Value)
  return_argument b =
      let ret_arg = last b.arg_list >>= λ attr. attr.val >>= λ v. some (some (P.operand_of v)) in
      if b.is_ret_ty_void then some none else ret_arg

  -- The batch index variable, set to 0.
  unfoldable pub add_index : Ir → ℕ × Ir
  add_index s = (
    new_slot s,
    set_insts (entry s) (alloca (new_slot s) ∷ store (int32 0) (new_slot s) ∷ insts s (entry s)) s,
  )

  -- `id` is the number of the annotation intrinsic.
  unfoldable pub do_batch_transform :
      ℕ → List ℕ → Function → Ir → Option (BatchMaker × Option TasForLoop × Ir)
  unfolding create_batched_form_fn_prototype clone_basic_blocks_into add_index return_argument
      replace_old_arg_uses_with_batch_args finish_batch
  do_batch_transform id args_to_batch f s =
      let b = create_batched_form_fn_prototype to_string args_to_batch f in
      clone_basic_blocks_into P.clone_function_into (ids f.args) (ids b.batch_func.args) s >>= λ s1.
      let (idx, s2) = add_index s1 in
      replace_old_arg_uses_with_batch_args P.values P.value_of P.type_number b.batch_size_arg_pos
        b.arg_list idx s2
      >>= λ (tc, s3). return_argument b >>= λ ret_arg.
          finish_batch L (marker_of L P.read id) ret_arg tc idx s3 >>= λ (l, s4). some (b, l, s4)

  -- The detection reads the entry block of the old function.
  unfoldable pub run : ℕ → Function → Ir → Option (Function × Ir)
  unfolding detect_batch_parameters do_batch_transform
  run id f s = detect_batch_parameters id (map P.read (insts s (entry s))) [] >>= λ args.
      do_batch_transform id args f s >>= λ (b, l, r). some (b.batch_func, r)
