-- ===== src/Annotations.antt =====
-- src/Util.cpp: the annotations that clang leaves in a module, on functions and on variables.
pub mod Batch
pub mod Pointers
pub mod Functions
mod Examples
use mem_opt.Common.{
  ℕ, zero, suc, Bool, true, false, ◌&&◌, ◌||◌, Option, none, some, List, [], ◌∷◌, ◌++◌, ◌==◌, ◌>>=◌,
  if◌then◌else◌, insert, contains,
}
use mem_opt.Text.{Text, codes, text_eq}

-- What the code reads of a called function.
pub record Callee : Type 0 where
  pub is_intrinsic : Bool
  pub intrinsic_id : ℕ

-- What the code reads of a call: getCalledFunction(), `none` at an indirect call; the text literal
-- behind operand 1, and the operand of the cast that argument 0 is, `none` where a `cast` fails.
pub record CallInst : Type 0 where
  pub callee : Option Callee
  pub tag : Option Text
  pub variable : Option ℕ

-- An instruction; a value is a number.
pub data Instruction : Type 0 where
  call : CallInst → Instruction
  store : (value pointer : ℕ) → Instruction
  other : Instruction

-- What the code reads of the instruction behind a load, with operand 0.
pub data Next : Type 0 where
  gep : ℕ → Next
  load : ℕ → Next
  another : Next

-- A user of a value, in the order of users(): a load with its next instruction, or not a load.
pub data User : Type 0 where
  load_user : ℕ → Next → User
  other_user : User

-- An item of llvm.global.annotations: the function, `none` where it annotates another global, and the
-- text, `none` where a `cast` fails.
pub record Annotation : Type 0 where
  pub function : Option ℕ
  pub text : Option Text

-- FnList[CAFunc] = CAAnnotation->getAsCString(), for each item
unfoldable pub add_annotations : List Annotation → List (ℕ × Text) → Option (List (ℕ × Text))
add_annotations [] fns = some fns
add_annotations (a ∷ items) fns = elim (a.function) [
  | none ↦ add_annotations items fns
  | some f ↦ a.text >>= λ t. add_annotations items (insert f t fns)
]

-- The argument is `none` where the module has no such global.
unfoldable pub get_annotated_fn_list :
    Option (List Annotation) → List (ℕ × Text) → Option (List (ℕ × Text))
unfolding add_annotations
get_annotated_fn_list none fns = some fns
get_annotated_fn_list (some items) fns = add_annotations items fns

-- The attributes of the functions, as pairs.
unfoldable pub add_attributes : List Annotation → List (ℕ × Text) → Option (List (ℕ × Text))
add_attributes [] attrs = some attrs
add_attributes (a ∷ items) attrs = elim (a.function) [
  | none ↦ add_attributes items attrs
  | some f ↦ a.text >>= λ t. add_attributes items ((f, t) ∷ attrs)
]

unfoldable pub set_annotation_in_function_object :
    Option (List Annotation) → List (ℕ × Text) → Option (List (ℕ × Text))
unfolding add_attributes
set_annotation_in_function_object none attrs = some attrs
set_annotation_in_function_object (some items) attrs = add_attributes items attrs

-- Callee->isIntrinsic() && Callee->getIntrinsicID() == id
abbrev pub is_marker : ℕ → Callee → Bool
is_marker id f = f.is_intrinsic && f.intrinsic_id == id

-- The test of a call in front of StringTag.compare(name) == 0: a null callee is read.
unfoldable pub has_tag : ℕ → Text → CallInst → Option Bool
has_tag id name c =
    c.callee >>= λ f. if is_marker id f then (c.tag >>= λ t. some (text_eq t name)) else some false

-- The same in detectBatchParameters, which tests for null.
unfoldable pub has_tag_checked : ℕ → Text → CallInst → Option Bool
has_tag_checked id name c = elim (c.callee) [
  | none ↦ some false
  | some f ↦ if is_marker id f then (c.tag >>= λ t. some (text_eq t name)) else some false
]

-- The argument is F->front().
unfoldable pub detect_exp_ptr_vars : ℕ → List Instruction → Option (List ℕ)
detect_exp_ptr_vars id [] = some []
detect_exp_ptr_vars id (call c ∷ is) =
    let rest = detect_exp_ptr_vars id is in
    has_tag id (codes "expensive") c >>= λ hit.
    if hit then (c.variable >>= λ v. rest >>= λ vs. some (v ∷ vs)) else rest
detect_exp_ptr_vars id (store v p ∷ is) = detect_exp_ptr_vars id is
detect_exp_ptr_vars id (other ∷ is) = detect_exp_ptr_vars id is

-- Does the instruction behind the load take the loaded value as operand 0?
abbrev pub derefs : ℕ → Next → Bool
derefs u (gep p) = p == u
derefs u (load p) = p == u
derefs u another = false

-- The last user that matches is kept.
unfoldable pub find_earliest : List User → Option ℕ → Option ℕ
find_earliest [] lu = lu
find_earliest (load_user u n ∷ us) lu = find_earliest us (if derefs u n then some u else lu)
find_earliest (other_user ∷ us) lu = find_earliest us lu

unfoldable pub find_earliest_pointer_deref_instruction : List User → Option ℕ
unfolding find_earliest
find_earliest_pointer_deref_instruction us = find_earliest us none

unfoldable pub detect_exp_ptr_uses : (ℕ → List User) → List ℕ → List ℕ
detect_exp_ptr_uses users [] = []
detect_exp_ptr_uses users (v ∷ vs) = elim (find_earliest_pointer_deref_instruction (users v)) [
  | none ↦ detect_exp_ptr_uses users vs
  | some u ↦ u ∷ detect_exp_ptr_uses users vs
]

abbrev pub map_suc : Option ℕ → Option ℕ
map_suc none = none
map_suc (some i) = some (suc i)

-- The instructions of the whole function; the marker is named by its position.
unfoldable pub find_batch_begin_marker_instruction : ℕ → List Instruction → Option (Option ℕ)
find_batch_begin_marker_instruction id [] = some none
find_batch_begin_marker_instruction id (call c ∷ is) =
    let rest = find_batch_begin_marker_instruction id is >>= λ o. some (map_suc o) in
    has_tag id (codes "batch_begin") c >>= λ hit. if hit then some (some 0) else rest
find_batch_begin_marker_instruction id (_ ∷ is) =
    find_batch_begin_marker_instruction id is >>= λ o. some (map_suc o)

-- SmallPtrSet::insert
abbrev pub set_insert : ℕ → List ℕ → List ℕ
set_insert v s = if contains v s then s else v ∷ s

-- The values that the block stores into the variable.
unfoldable pub insert_stored : ℕ → List Instruction → List ℕ → List ℕ
insert_stored a [] s = s
insert_stored a (store v p ∷ is) s = insert_stored a is (if p == a then set_insert v s else s)
insert_stored a (call c ∷ is) s = insert_stored a is s
insert_stored a (other ∷ is) s = insert_stored a is s

-- The loop over F->front(), whose instructions are `front` and those still to visit.
unfoldable pub insert_parameters :
    ℕ → List Instruction → List Instruction → List ℕ → Option (List ℕ)
insert_parameters id front [] s = some s
insert_parameters id front (call c ∷ is) s =
    let rest = insert_parameters id front is s in
    has_tag_checked id (codes "batch_arg") c >>= λ hit.
    if hit
    then (c.variable >>= λ a. insert_parameters id front is (insert_stored a front s))
    else rest
insert_parameters id front (store v p ∷ is) s = insert_parameters id front is s
insert_parameters id front (other ∷ is) s = insert_parameters id front is s

unfoldable pub detect_batch_parameters : ℕ → List Instruction → List ℕ → Option (List ℕ)
unfolding insert_parameters
detect_batch_parameters id front s = insert_parameters id front front s
