-- ===== src/Annotations/Examples.antt =====
-- The detection on small entry blocks; the intrinsic has the number 7.
use mem_opt.Common.{
  ℕ, ◌≡◌, ◌↔◌, ◌⊎◌, refl, true, none, some, List, [], ◌∷◌, ◌++◌, Memᴰ, find, Distinct,
}
use mem_opt.Text.{Text, codes}
use mem_opt.Annotations.{
  Annotation, CallInst, Instruction, call, store, other, gep, another, load_user,
  get_annotated_fn_list, set_annotation_in_function_object, detect_exp_ptr_vars,
  find_earliest_pointer_deref_instruction, detect_batch_parameters, insert_parameters,
  insert_stored, has_tag_checked,
}
use mem_opt.Annotations.Batch.{
  IsBatched, IsStored, mem-detect_batch_parameters, Distinct-detect_batch_parameters,
}
use mem_opt.Annotations.Pointers.{
  detect_exp_ptr_vars-indirect, find_earliest_pointer_deref_instruction-last,
}
use mem_opt.Annotations.Functions.{
  IsAnnotated, items_of, last_text, find-get_annotated_fn_list,
  mem-set_annotation_in_function_object,
}

abbrev marker : Text → CallInst
marker t = record {
  callee = some record { is_intrinsic = true; intrinsic_id = 7 };
  tag = some t;
  variable = some 3;
}

abbrev indirect : CallInst
indirect = record { callee = none; tag = none; variable = none }

-- The values 1 and 2 are stored, and 1 is the argument that is marked.
abbrev front : List Instruction
front = store 1 3 ∷ store 2 4 ∷ call indirect ∷ call (marker (codes "batch_arg")) ∷ other ∷ []

detect_front : detect_batch_parameters 7 front [] ≡ some (1 ∷ [])
unfolding detect_batch_parameters insert_parameters insert_stored has_tag_checked
detect_front = refl

mem-detect_batch_parameters_example :
    Memᴰ {A = ℕ} 1 (1 ∷ [])
    ↔ (((a : ℕ) × IsBatched 7 front a × IsStored front 1 a) ⊎ Memᴰ {A = ℕ} 1 [])
mem-detect_batch_parameters_example = mem-detect_batch_parameters 7 1 front [] (1 ∷ []) detect_front

detected-Distinct : Distinct {A = ℕ} (1 ∷ [])
detected-Distinct = Distinct-detect_batch_parameters 7 front [] (1 ∷ []) detect_front tt

detect_exp_ptr_vars-indirect_example : detect_exp_ptr_vars 7 front ≡ none
detect_exp_ptr_vars-indirect_example =
    detect_exp_ptr_vars-indirect 7 front indirect (Memᴰ.tail (Memᴰ.tail (Memᴰ.head refl))) refl

earliest_is_last :
    find_earliest_pointer_deref_instruction
      ((load_user 8 (gep 8) ∷ []) ++ load_user 5 (gep 5) ∷ load_user 2 another ∷ [])
    ≡ some 5
earliest_is_last =
    find_earliest_pointer_deref_instruction-last (load_user 8 (gep 8) ∷ [])
      (load_user 2 another ∷ []) 5 (gep 5) refl (refl, tt)

abbrev pairs : List (ℕ × Text)
pairs = (1, codes "tas_batch") ∷ (1, codes "tas_batch_maker") ∷ []

found_pairs :
    (r : List (ℕ × Text)) × (get_annotated_fn_list (some (items_of pairs)) [] ≡ some r)
    × (find 1 r ≡ last_text 1 pairs (find 1 []))
found_pairs = find-get_annotated_fn_list 1 pairs []

-- The same with an annotated global, which is no function, in front.
abbrev items : List Annotation
items = record { function = none; text = none } ∷ items_of pairs

mem-set_annotation_in_function_object_example :
    (r : List (ℕ × Text)) × (set_annotation_in_function_object (some items) [] ≡ some r)
    × ((f : ℕ) (t : Text)
        → Memᴰ {A = ℕ × Text} (f, t) r ↔ (IsAnnotated items f t ⊎ Memᴰ {A = ℕ × Text} (f, t) []))
mem-set_annotation_in_function_object_example = mem-set_annotation_in_function_object items [] (
  (λ f e. cc),
  ((λ f e. (codes "tas_batch", refl)), ((λ f e. (codes "tas_batch_maker", refl)), tt)),
)
