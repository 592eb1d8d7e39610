-- ===== src/BatchTransform/Arguments.antt =====
-- cloneBasicBlocksInto on the prototype of the batch function: the old arguments and the new ones.
use mem_opt.Common.{
  ℕ, suc, ◌≡◌, refl, sym, ap, ◌∙◌, false, List, [], ◌∷◌, ◌++◌, Memᴰ, none, some, find, insert,
  ==_ne, ==_self, Distinct, map, if◌then◌else◌, length,
}
use mem_opt.Text.{Text, codes}
use mem_opt.BatchMaker.{
  TasArgAttr, Argument, Function, int32_ty, pointer_to, is_void, tas_arg_attr, batch_args,
  set_values, create_batched_form_fn_prototype,
}
use mem_opt.Clones.{ValueMap, pair_args, clone_basic_blocks_into}
use mem_opt.BatchTransform.{ids}

-- The positions of a list's items, from `i` on.
abbrev pub positions {ℓ} : {A : Type ℓ} → ℕ → List A → List ℕ
positions i [] = []
positions i (x ∷ xs) = i ∷ positions (suc i) xs

abbrev pair_up : ValueMap → ℕ → List ℕ → ValueMap
pair_up m i [] = m
pair_up m i (f ∷ from) = pair_up (insert f i m) (suc i) from

pair_args_lem :
    (m : ValueMap) (i : ℕ) (from more : List ℕ)
    → pair_args m from (positions i from ++ more) ≡ some (pair_up m i from)
unfolding pair_args
pair_args_lem m i [] more = refl
pair_args_lem m i (f ∷ from) more = pair_args_lem (insert f i m) (suc i) from more

find-pair_up :
    (m : ValueMap) (i x : ℕ) (from : List ℕ) → ¬ Memᴰ x from → find x (pair_up m i from) ≡ find x m
find-pair_up m i x [] out = refl
find-pair_up m i x (f ∷ from) out =
    find-pair_up (insert f i m) (suc i) x from (λ t. out (Memᴰ.tail t))
    ∙ rw (==_ne f x (λ e. out (Memᴰ.head (sym e)))) refl

map-pair_up :
    (m : ValueMap) (i : ℕ) (from : List ℕ)
    → Distinct from
    → map (λ x. find x (pair_up m i from)) from ≡ map (λ p. some p) (positions i from)
map-pair_up m i [] apart = refl
map-pair_up m i (f ∷ from) (off, apart) =
    rw (find-pair_up (insert f i m) (suc i) f from off, ==_self f)
      (ap (λ l. some i ∷ l) (map-pair_up (insert f i m) (suc i) from apart))

module _ (to_string : ℕ → Text) where
  ids-set_values :
      (i : ℕ) (attrs : List TasArgAttr) → ids ((set_values to_string i attrs).1) ≡ positions i attrs
  unfolding set_values
  ids-set_values i [] = refl
  ids-set_values i (attr ∷ attrs) = ap (λ l. i ∷ l) (ids-set_values (suc i) attrs)

  -- There is a position for each old argument, and more.
  positions-batch_args :
      (args_to_batch : List ℕ) (i : ℕ) (args : List Argument) (rest : List TasArgAttr)
      → (more : List ℕ) × (positions i (batch_args to_string args_to_batch i args ++ rest)
          ≡ positions i (ids args) ++ more)
  unfolding batch_args
  positions-batch_args args_to_batch i [] rest = (positions i rest, refl)
  positions-batch_args args_to_batch i (a ∷ args) rest =
      let (more, e) = positions-batch_args args_to_batch (suc i) args rest in
      (more, ap (λ l. i ∷ l) e)

  -- On the prototype that createBatchedFormFnPrototype makes of a function with different arguments,
  -- cloneBasicBlocksInto does not read past the new arguments, and the body is copied with each old
  -- argument mapped to the new one at its position.
  pub clone_basic_blocks_into-arguments :
      {S : Type 0} (clone_function_into : ValueMap → S → S) (args_to_batch : List ℕ) (f : Function)
      (s : S)
      → Distinct (ids f.args)
      → (m : ValueMap) × (clone_basic_blocks_into clone_function_into
            (ids f.args)
            (ids ((create_batched_form_fn_prototype to_string args_to_batch f).batch_func.args))
            s
          ≡ some (clone_function_into m s))
        × (map (λ x. find x m) (ids f.args) ≡ map (λ p. some p) (positions 0 (ids f.args)))
  unfolding clone_basic_blocks_into create_batched_form_fn_prototype
  clone_basic_blocks_into-arguments clone_function_into args_to_batch f s apart =
      let n = length (f.args) in
      let size_arg = tas_arg_attr to_string false n int32_ty none (codes "TAS_BatchSize") in
      let ret_arg =
        tas_arg_attr to_string false (suc n) (pointer_to (f.return_ty)) none
          (codes "TAS_ReturnVar") in
      let rest : List TasArgAttr =
        size_arg ∷ (if is_void (f.return_ty) then [] else ret_arg ∷ []) in
      let (more, e) = positions-batch_args args_to_batch 0 f.args rest in
      (
        pair_up [] 0 (ids f.args),
        rw
            (
              ids-set_values 0 (batch_args to_string args_to_batch 0 f.args ++ rest) ∙ e,
              pair_args_lem [] 0 (ids f.args) more,
            )
            refl,
        map-pair_up [] 0 (ids f.args) apart,
      )
