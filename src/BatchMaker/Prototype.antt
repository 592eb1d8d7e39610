-- ===== src/BatchMaker/Prototype.antt =====
-- The parameters of the batch function, by those of the old one.
use mem_opt.Common.{
  ℕ, suc, ◌≡◌, refl, ap, ◌∙◌, Bool, true, false, none, List, [], ◌∷◌, ◌++◌, if◌then◌else◌, contains,
  length, map,
}
use mem_opt.Text.{Text, codes}
use mem_opt.BatchMaker.{
  Ty, void_ty, int32_ty, pointer_to, TasArgAttr, Argument, Function, is_void, is_double_pointer,
  set_arg_type, tas_arg_attr, batch_args, set_values, create_batched_form_fn_prototype,
}

-- A parameter as a type and a name.
abbrev pub signature : List Argument → List (Ty × Text)
signature args = map (λ a. (a.arg_ty, a.arg_name)) args

module _ (to_string : ℕ → Text) where
  -- A batched parameter is an array of what it was, unless it was a pointer to pointers; a parameter
  -- that is not batched stays.
  abbrev pub batched_as : Bool → ℕ → Argument → Ty × Text
  batched_as true i a = (
    if is_double_pointer (a.arg_ty) then a.arg_ty else pointer_to (a.arg_ty),
    codes "batch_" ++ to_string i,
  )
  batched_as false i a = (a.arg_ty, a.arg_name)

  abbrev pub batched_signature : List ℕ → ℕ → List Argument → List (Ty × Text)
  batched_signature args_to_batch i [] = []
  batched_signature args_to_batch i (a ∷ args) =
      batched_as (contains (a.id) args_to_batch) i a ∷ batched_signature args_to_batch (suc i) args

  -- What set_values gives of items with these types and names.
  abbrev described : List TasArgAttr → List (Ty × Text)
  described attrs = map (λ a. (a.ty, a.name)) attrs

  signature-set_values :
      (i : ℕ) (attrs : List TasArgAttr)
      → signature ((set_values to_string i attrs).1) ≡ described attrs
  unfolding set_values
  signature-set_values i [] = refl
  signature-set_values i (attr ∷ attrs) =
      ap (λ l. (attr.ty, attr.name) ∷ l) (signature-set_values (suc i) attrs)

  described-if :
      (v : Bool) (attr : TasArgAttr)
      → described (if v then [] else attr ∷ []) ≡ (if v then [] else (attr.ty, attr.name) ∷ [])
  described-if true attr = refl
  described-if false attr = refl

  described-tas_arg_attr :
      (b : Bool) (i : ℕ) (a : Argument)
      → ((set_arg_type b (a.arg_ty)).0, if b then codes "batch_" ++ to_string i else a.arg_name)
        ≡ batched_as b i a
  unfolding set_arg_type
  described-tas_arg_attr true i a = refl
  described-tas_arg_attr false i a = refl

  described-batch_args :
      (args_to_batch : List ℕ) (i : ℕ) (args : List Argument) (rest : List TasArgAttr)
      → described (batch_args to_string args_to_batch i args ++ rest)
        ≡ batched_signature args_to_batch i args ++ described rest
  unfolding batch_args tas_arg_attr set_arg_type
  described-batch_args args_to_batch i [] rest = refl
  described-batch_args args_to_batch i (a ∷ args) rest =
      ap (λ x. x ∷ described (batch_args to_string args_to_batch (suc i) args ++ rest))
        (described-tas_arg_attr (contains (a.id) args_to_batch) i a)
      ∙ ap (λ l. batched_as (contains (a.id) args_to_batch) i a ∷ l)
          (described-batch_args args_to_batch (suc i) args rest)

  length-batched_signature :
      (args_to_batch : List ℕ) (i : ℕ) (args : List Argument)
      → length args ≡ length (batched_signature args_to_batch i args)
  length-batched_signature args_to_batch i [] = refl
  length-batched_signature args_to_batch i (a ∷ args) =
      ap (λ n. suc n) (length-batched_signature args_to_batch (suc i) args)

  -- The parameters of the batch function are those of the old one, the batched ones as arrays under a
  -- name with their position, then `TAS_BatchSize` of type i32 at the position that is kept for it,
  -- then, unless the old function returns nothing, `TAS_ReturnVar`, a pointer to what it returns; the
  -- batch function returns nothing.
  pub create_batched_form_fn_prototype-signature :
      (args_to_batch : List ℕ) (f : Function)
      → (signature (((create_batched_form_fn_prototype to_string args_to_batch f).batch_func).args)
          ≡ batched_signature args_to_batch 0 (f.args)
            ++ (int32_ty, codes "TAS_BatchSize")
              ∷ (if is_void (f.return_ty)
                  then []
                  else (pointer_to (f.return_ty), codes "TAS_ReturnVar") ∷ []))
        × ((create_batched_form_fn_prototype to_string args_to_batch f).batch_size_arg_pos
            ≡ length (batched_signature args_to_batch 0 (f.args)))
        × (((create_batched_form_fn_prototype to_string args_to_batch f).batch_func).return_ty
            ≡ void_ty)
  unfolding create_batched_form_fn_prototype
  create_batched_form_fn_prototype-signature args_to_batch f =
      let v = is_void (f.return_ty) in
      let n = length (f.args) in
      let size_arg = tas_arg_attr to_string false n int32_ty none (codes "TAS_BatchSize") in
      let ret_arg =
        tas_arg_attr to_string false (suc n) (pointer_to (f.return_ty)) none
          (codes "TAS_ReturnVar") in
      let rest : List TasArgAttr = size_arg ∷ (if v then [] else ret_arg ∷ []) in
      (
        signature-set_values 0 (batch_args to_string args_to_batch 0 (f.args) ++ rest)
            ∙ described-batch_args args_to_batch 0 (f.args) rest
            ∙ ap
                (λ l.
                  batched_signature args_to_batch 0 (f.args)
                  ++ (int32_ty, codes "TAS_BatchSize") ∷ l)
                (described-if v ret_arg),
        length-batched_signature args_to_batch 0 (f.args),
        refl,
      )
