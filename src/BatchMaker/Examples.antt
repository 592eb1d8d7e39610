-- ===== src/BatchMaker/Examples.antt =====
-- The prototype of a function with a batched argument.
use mem_opt.Common.{ℕ, ◌≡◌, [], ◌∷◌, ◌++◌, length, if◌then◌else◌}
use mem_opt.Text.{Text, codes}
use mem_opt.BatchMaker.{
  void_ty, int32_ty, pointer_to, named_ty, Function, is_void, create_batched_form_fn_prototype,
}
use mem_opt.BatchMaker.Prototype.{
  signature, batched_signature, create_batched_form_fn_prototype-signature,
}

abbrev digits : ℕ → Text
digits n = 48 ∷ []

abbrev work : Function
work = record {
  fn_name = codes "work";
  return_ty = int32_ty;
  args =
      record { id = 1; arg_ty = int32_ty; arg_name = codes "a" }
      ∷ record { id = 2; arg_ty = pointer_to (named_ty 0); arg_name = codes "b" }
      ∷ [];
}

create_batched_form_fn_prototype-signature_example :
    (signature (((create_batched_form_fn_prototype digits (2 ∷ []) work).batch_func).args)
      ≡ batched_signature digits (2 ∷ []) 0 (work.args)
        ++ (int32_ty, codes "TAS_BatchSize")
          ∷ (if is_void (work.return_ty)
              then []
              else (pointer_to (work.return_ty), codes "TAS_ReturnVar") ∷ []))
    × ((create_batched_form_fn_prototype digits (2 ∷ []) work).batch_size_arg_pos
        ≡ length (batched_signature digits (2 ∷ []) 0 (work.args)))
    × (((create_batched_form_fn_prototype digits (2 ∷ []) work).batch_func).return_ty ≡ void_ty)
create_batched_form_fn_prototype-signature_example =
    create_batched_form_fn_prototype-signature digits (2 ∷ []) work
