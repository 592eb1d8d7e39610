-- ===== src/BatchTransform/Examples.antt =====
-- A function of two blocks that returns a number, made a batch function.
use mem_opt.Common.{
  true, ℕ, ◌≡◌, refl, false, none, some, List, [], ◌∷◌, ◌==◌, find, if◌then◌else◌, map,
  not_mem_of_contains,
}
use mathlib.Core.List.Memᴰ
use mem_opt.Text.{Text, codes}
use mem_opt.Llvm.{Inst, register, opaque_inst, br, ret, set_succ, succs_of, is_return}
use mem_opt.Llvm.Toy.{ToyFunction, toy}
use mem_opt.Uses.{
  Values, replace_old_arg_uses_with_batch_args, args_to_replace, replace_args_uses,
  replace_arg_uses,
}
use mem_opt.Users.{find_first_use_in_store_inst, last_match}
use mem_opt.Annotations.{
  Instruction, call, store, other, detect_batch_parameters, insert_parameters, insert_stored,
  has_tag, has_tag_checked,
}
use mem_opt.ExitNodes.{get_return_inst_list, get_return_blocks, select_blocks, return_operand}
use mem_opt.BatchMaker.{
  void_ty, int32_ty, Function, set_arg_type, tas_arg_attr, batch_args, set_values,
  create_batched_form_fn_prototype,
}
use mem_opt.Clones.{pair_args, clone_basic_blocks_into}
use mem_opt.Loops.{
  set_successor, add_increment_index_op, stitch_entry, add_empty_loop, set_loop_body,
}
use mem_opt.BatchLoop.{
  find_marker_in, store_and_split, store_returns, store_ret_val_in_ptr_arg, unique_exiting_block,
  redirect_all, add_batch_loop, finish_batch,
}
use mem_opt.BatchLoop.Kept.{AllVoid}
use mem_opt.BatchTransform.{Steps, ids, return_argument, add_index, do_batch_transform, run}
use mem_opt.BatchTransform.Arguments.{positions, clone_basic_blocks_into-arguments}
use mem_opt.BatchTransform.Void.{run-IsVoid}

abbrev digits : ℕ → Text
digits n = 48 ∷ []

abbrev work : Function
work = record {
  fn_name = codes "work";
  return_ty = int32_ty;
  args =
      record { id = 7; arg_ty = int32_ty; arg_name = codes "a" }
      ∷ record { id = 9; arg_ty = int32_ty; arg_name = codes "b" }
      ∷ [];
}

abbrev marker : Text → Instruction
marker t = call (record {
  callee = some record { is_intrinsic = true; intrinsic_id = 7 };
  tag = some t;
  variable = some 30;
})

-- The argument 9 is stored in the variable 30, which is marked, and the batch begins.
abbrev read : Inst → Instruction
read (opaque_inst n) =
    if n == 4
    then store 9 30
    else if n == 5
    then marker (codes "batch_arg")
    else if n == 6
    then marker (codes "batch_begin")
    else other
read _ = other

-- No value has uses.
abbrev no_uses : Values ToyFunction
no_uses = record {
  uses = λ s v. [];
  parent = λ s u. none;
  entry = λ s. s.first;
  first_instruction = λ s. 0;
  terminator = λ s b. none;
  next_node = λ s u. none;
  is_store = λ s u. false;
  is_alloca = λ s v. false;
  gep_pointer = λ s u. none;
  pointer_operand = λ s u. 0;
  allocated_type = λ s v. none;
  type_of = λ s v. 0;
  array_type = λ ty n. ty;
  int64 = λ n. 500;
  set_use = λ u v s. s;
  replace_uses_of_with = λ u from to s. s;
  replace_all_uses_with = λ from to s. s;
  erase = λ u s. s;
  create_alloca = λ ty at s. (21, s);
  create_load = λ p at s. (22, s);
  create_gep = λ p is at s. (23, s);
  create_store = λ v p at s. s;
  uses-set_use = λ u v s w h. refl;
  parent-set_use = λ u v s w. refl;
  uses-replace_uses_of_with = λ u v t s h. refl;
  parent-replace_uses_of_with = λ u v t s w. refl;
  entry-replace_uses_of_with = λ u v t s. refl;
  uses-create_alloca = λ ty at s w. refl;
  parent-create_alloca = λ ty at s w h. refl;
  entry-create_alloca = λ ty at s. refl;
  alloca_new = λ ty at s w h. absurd (h refl);
  uses-create_load = λ p at s w h. refl;
  parent-create_load = λ p at s w h. refl;
  entry-create_load = λ p at s. refl;
  load-unused = λ p at s w h. absurd (h refl);
  uses-create_gep = λ p is at s w h hs. refl;
  parent-create_gep = λ p is at s w h. refl;
  entry-create_gep = λ p is at s. refl;
  gep-unused = λ p is at s w h. absurd (h refl);
}

abbrev toy_steps : Steps toy
toy_steps = record {
  clone_function_into = λ m s. s;
  read = read;
  values = no_uses;
  operand_of = λ a. register 3;
  value_of = λ a. 3;
  type_number = λ t. 0;
}

abbrev valued : ToyFunction
valued = record {
  layout = 0 ∷ 1 ∷ [];
  first = 0;
  code = λ b. if b == 0 then opaque_inst 4 ∷ opaque_inst 5 ∷ opaque_inst 6 ∷ [] else [];
  ends = λ b. if b == 0 then some (br 1) else some (ret (some (register 8)));
  order = [];
  void = false;
  slot = 40;
  nodes = [];
}

abbrev batched : Function × ToyFunction
batched = elim (run digits toy toy_steps 7 work valued) [ none ↦ (work, valued) | some q ↦ q ]

valued-run : run digits toy toy_steps 7 work valued ≡ some batched
unfolding run do_batch_transform replace_old_arg_uses_with_batch_args args_to_replace
    replace_args_uses replace_arg_uses find_first_use_in_store_inst last_match find_marker_in
    insert_stored has_tag has_tag_checked detect_batch_parameters insert_parameters
    create_batched_form_fn_prototype clone_basic_blocks_into pair_args set_values batch_args
    tas_arg_attr set_arg_type add_index return_argument finish_batch store_ret_val_in_ptr_arg
    store_returns store_and_split return_operand get_return_inst_list get_return_blocks
    select_blocks is_return add_batch_loop unique_exiting_block redirect_all add_empty_loop
    stitch_entry set_successor set_succ succs_of add_increment_index_op set_loop_body
valued-run = refl

run-IsVoid_example : (batched.0.return_ty ≡ void_ty) × AllVoid toy batched.1
run-IsVoid_example = run-IsVoid digits toy toy_steps 7 work valued batched valued-run refl

one_detected : detect_batch_parameters 7 (map read (toy.insts valued 0)) [] ≡ some (9 ∷ [])
unfolding detect_batch_parameters insert_parameters insert_stored has_tag_checked
one_detected = refl

clone_basic_blocks_into-arguments_example :
    (m : List (ℕ × ℕ)) × (clone_basic_blocks_into toy_steps.clone_function_into
        (ids work.args)
        (ids ((create_batched_form_fn_prototype digits (9 ∷ []) work).batch_func.args))
        valued
      ≡ some (toy_steps.clone_function_into m valued))
    × (map (λ x. find x m) (ids work.args) ≡ map (λ p. some p) (positions 0 (ids work.args)))
clone_basic_blocks_into-arguments_example =
    clone_basic_blocks_into-arguments digits toy_steps.clone_function_into (9 ∷ []) work valued
      (not_mem_of_contains 7 (9 ∷ []) refl, ((λ m. Memᴰ.not-nil m), tt))
