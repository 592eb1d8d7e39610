-- ===== src/BatchTransform/Void.antt =====
-- The batch function returns nothing: its type and its body agree.
use mem_opt.Common.{
  ℕ, ◌≡◌, refl, sym, ap, ◌∙◌, subst, false, map, Option, none, some, List, [], >>=-eq-some,
}
use mem_opt.Text.{Text}
use mem_opt.Llvm.{Llvm, Value, Inst}
use mem_opt.Annotations.{Instruction, detect_batch_parameters}
use mem_opt.BatchMaker.{Function, BatchMaker, void_ty, is_void, create_batched_form_fn_prototype}
use mem_opt.BatchMaker.Prototype.{create_batched_form_fn_prototype-signature}
use mem_opt.Clones.{clone_basic_blocks_into}
use mem_opt.Loops.{TasForLoop}
use mem_opt.Loops.Fresh.{some_inj}
use mem_opt.Uses.{replace_old_arg_uses_with_batch_args}
use mem_opt.BatchLoop.{store_ret_val_in_ptr_arg, finish_batch, marker_of}
use mem_opt.BatchLoop.Markers.{marker_of-mem}
use mem_opt.BatchLoop.Stored.{store_ret_val_in_ptr_arg-IsVoid}
use mem_opt.BatchLoop.Kept.{AllVoid, AllVoid-add_batch_loop}
use mem_opt.BatchTransform.{Steps, ids, last, add_index, return_argument, do_batch_transform, run}

module _ (L : Llvm) where
  open L use {Ir, blocks, entry, insts}

  -- The returned values are stored, whatever the blocks returned.
  AllVoid-finish_batch :
      (read : Inst → Instruction) (id : ℕ) (ret_arg : Value) (tc idx : ℕ) (s : Ir)
      (q : Option TasForLoop × Ir)
      → finish_batch L (marker_of L read id) (some ret_arg) tc idx s ≡ some q
      → AllVoid L q.1
  unfolding finish_batch
  AllVoid-finish_batch read id ret_arg tc idx s q e =
      let ((ret_block, s'), stored, e') =
        >>=-eq-some (store_ret_val_in_ptr_arg L ret_arg idx s) _ e in
      let (at, found, e2) = >>=-eq-some (marker_of L read id s') _ e' in
      AllVoid-add_batch_loop L at tc ret_block idx s' q e2
        (λ m is_at. marker_of-mem L read id s' m (found ∙ ap (λ o. some o) is_at))
        (λ x m. store_ret_val_in_ptr_arg-IsVoid L ret_arg idx s (ret_block, s') x stored m)

module _ (to_string : ℕ → Text) (L : Llvm) (P : Steps L) where
  open L use {Ir, entry, insts}

  -- A function with a value has an argument for it, or fails.
  return_argument-some :
      (b : BatchMaker) (arg : Option Value)
      → b.is_ret_ty_void ≡ false
      → return_argument to_string L P b ≡ some arg
      → (v : Value) × (arg ≡ some v)
  unfolding return_argument
  return_argument-some b none valued e =
      let (attr, _, e1) = >>=-eq-some (last b.arg_list) _ (rw valued at e) in
      let (v, _, e2) = >>=-eq-some attr.val _ e1 in cc
  return_argument-some b (some v) valued e = (v, refl)

  do_batch_transform-AllVoid :
      (id : ℕ) (args_to_batch : List ℕ) (f : Function) (s : Ir)
      (q : BatchMaker × Option TasForLoop × Ir)
      → do_batch_transform to_string L P id args_to_batch f s ≡ some q
      → is_void f.return_ty ≡ false
      → AllVoid L q.2 × (q.0 ≡ create_batched_form_fn_prototype to_string args_to_batch f)
  unfolding do_batch_transform create_batched_form_fn_prototype
  do_batch_transform-AllVoid id args_to_batch f s q e valued =
      let b = create_batched_form_fn_prototype to_string args_to_batch f in
      let (s1, _, e1) =
        >>=-eq-some
          (clone_basic_blocks_into P.clone_function_into (ids f.args) (ids b.batch_func.args) s) _
          e in
      let (idx, s2) = add_index to_string L P s1 in
      let ((tc, s3), _, e2) =
        >>=-eq-some
          (replace_old_arg_uses_with_batch_args P.values P.value_of P.type_number
            b.batch_size_arg_pos b.arg_list idx s2)
          _ e1 in
      let (ret_arg, is_arg, e3) = >>=-eq-some (return_argument to_string L P b) _ e2 in
      let (v, is_some) = return_argument-some b ret_arg valued is_arg in
      let ((l, s4), finished, e4) =
        >>=-eq-some (finish_batch L (marker_of L P.read id) ret_arg tc idx s3) _ e3 in
      subst (λ q. AllVoid L q.2 × (q.0 ≡ b)) (sym (some_inj (b, l, s4) q e4))
        (
          AllVoid-finish_batch L P.read id v tc idx s3 (l, s4)
              (subst (λ a. finish_batch L (marker_of L P.read id) a tc idx s3 ≡ some (l, s4))
                is_some finished),
          refl,
        )

  -- Where BatchMaker::run succeeds on a function that returns a value, the batch function has the type
  -- void, and none of its blocks returns a value, however many blocks returned one.
  pub run-IsVoid :
      (id : ℕ) (f : Function) (s : Ir) (q : Function × Ir)
      → run to_string L P id f s ≡ some q
      → is_void f.return_ty ≡ false
      → (q.0.return_ty ≡ void_ty) × AllVoid L q.1
  unfolding run
  run-IsVoid id f s q e valued =
      let (args, _, e1) =
        >>=-eq-some (detect_batch_parameters id (map P.read (insts s (entry s))) []) _ e in
      let ((b, l, r), done, e2) = >>=-eq-some (do_batch_transform to_string L P id args f s) _ e1 in
      let (void, made) = do_batch_transform-AllVoid id args f s (b, l, r) done valued in
      subst (λ q. (q.0.return_ty ≡ void_ty) × AllVoid L q.1) (sym (some_inj (b.batch_func, r) q e2))
        (
          ap (λ x. x.batch_func.return_ty) made
              ∙ (create_batched_form_fn_prototype-signature to_string args f).2,
          void,
        )
