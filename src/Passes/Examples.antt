-- ===== src/Passes/Examples.antt =====
-- The tool and the batch pass on small modules: a module is a number.
use mem_opt.Annotations.{Annotation, set_annotation_in_function_object, add_attributes}
use mem_opt.CacheUsage.{
  Alloca, Function, CacheUsageInfo, CacheLine, struct_type, gep, plain, load_user,
  collect_ptr_allocas, visit_allocas, visit_users, visit_user, add_line, get_byte_offset_absolute,
  get_byte_offset_relative, get_gep_index, new_info, analyze,
}
use mem_opt.CacheUsage.Counted.{TouchedBy}
use mem_opt.Passes.{cache_mark, analyze_on_function}
use mem_opt.Passes.Cache.{
  do_initialization, run_on_functions, run_cache_analysis_pass, marked_allocas,
  run_cache_analysis_pass-total,
}
use mem_opt.Common.{
  none, Memᴰ, ◌↔◌, Distinct, length, ◌*◌, ℕ, suc, ◌≡◌, refl, Bool, true, false, Option, some, List,
  [], ◌∷◌, ◌++◌, ◌==◌, if◌then◌else◌, not_mem_of_contains,
}
use mem_opt.Text.{Text, codes}
use mem_opt.ToolUtil.{returned, exited, dot, ir_command, llc_command}
use mem_opt.Passes.{
  batch_maker_tag, predicate_tag, run_batch_maker_pass, transform, batch_and_split, main,
}
use mem_opt.Passes.Batch.{made, run_batch_maker_pass-unreported}
use mem_opt.Passes.Main.{transform-append, written, main_lem}

abbrev make_one : ℕ → ℕ → Option ℕ × ℕ
make_one f m = (some 9, suc m)

abbrev predicate_one : ℕ → ℕ → Bool × ℕ
predicate_one f m = (f == 1, suc m)

abbrev split_none : ℕ → ℕ → Bool × ℕ
split_none f m = (false, m)

abbrev annotated_fns : List (ℕ × Text)
annotated_fns = (1, predicate_tag) ∷ (2, batch_maker_tag) ∷ []

run_batch_maker_pass-unreported_example :
    run_batch_maker_pass make_one (λ m. some annotated_fns) 0
    ≡ some (false, made make_one annotated_fns 0)
run_batch_maker_pass-unreported_example =
    run_batch_maker_pass-unreported make_one (λ m. some annotated_fns) annotated_fns 0 refl
      (λ f n. (9, refl))

transform_fns : transform make_one predicate_one split_none annotated_fns 0 ≡ some (true, 2)
unfolding transform batch_and_split
transform_fns = refl

transform_two_lists :
    transform make_one predicate_one split_none (annotated_fns ++ (3, predicate_tag) ∷ []) 0 ≡ (
      if true
      then transform make_one predicate_one split_none ((3, predicate_tag) ∷ []) 2
      else some (false, 2))
transform_two_lists =
    transform-append make_one predicate_one split_none annotated_fns ((3, predicate_tag) ∷ []) 0 2
      true transform_fns

main_lem_example :
    main
      (λ cmd. 0)
      (λ file. some 0)
      (λ m. codes "a.c")
      (λ m. some annotated_fns)
      make_one
      predicate_one
      split_none
      (codes "a.c")
      []
    ≡ some (
        if true
        then (
          if 0 == 0 then returned (true, written (codes "a") 2) else exited,
          []
              ++ ir_command (codes "a.c") [] true ∷ []
              ++ llc_command (codes "a.bc") (codes "a.bc") [] ∷ [],
        )
        else (returned (false, []), [] ++ ir_command (codes "a.c") [] true ∷ []))
main_lem_example =
    main_lem (λ cmd. 0) (λ file. some 0) (λ m. codes "a.c") (λ m. some annotated_fns) make_one
      predicate_one split_none (codes "a") (codes "c") [] 0 2 annotated_fns true (codes "a")
      (codes "c") (not_mem_of_contains dot (codes "c") refl) refl refl refl transform_fns refl
      (not_mem_of_contains dot (codes "c") refl)

-- Two functions, of which the first is marked; each has a variable, read in one line.
abbrev variable : ℕ → Alloca
variable n = record {
  name = n;
  is_pointer = true;
  to_single_value = false;
  to_pointer = false;
  users =
      load_user (gep (record { source_type = struct_type 0; index = some n }) ∷ plain ∷ []) ∷ [];
}

abbrev reader : ℕ → Function
reader n = record { allocas = variable n ∷ []; has_loops = false }

abbrev marks : Option (List Annotation)
marks = some (record { function = some 1; text = some cache_mark } ∷ [])

abbrev analyzed_one : CacheUsageInfo
analyzed_one = record {
  ptr_allocas = variable 5 ∷ [];
  cache_line_size = 64;
  num_of_cache_lines = 1;
  loop_exists = none;
}

analyze_marked :
    run_cache_analysis_pass (λ t i. 8 * i) (λ t. 4) 64 marks [] ((1, reader 5) ∷ (2, reader 6) ∷ [])
    ≡ some analyzed_one
unfolding run_cache_analysis_pass do_initialization set_annotation_in_function_object add_attributes
    run_on_functions analyze_on_function analyze collect_ptr_allocas visit_allocas visit_users
    visit_user add_line get_byte_offset_absolute get_byte_offset_relative get_gep_index new_info
analyze_marked = refl

mark_set : set_annotation_in_function_object marks [] ≡ some ((1, cache_mark) ∷ [])
unfolding set_annotation_in_function_object add_attributes
mark_set = refl

run_cache_analysis_pass-total_example :
    (lines : List CacheLine) × Distinct lines
    × ((l : CacheLine)
        → Memᴰ l lines
          ↔ TouchedBy
              (λ t i. 8 * i)
              (λ t. 4)
              64
              (marked_allocas
                (λ t i. 8 * i)
                (λ t. 4)
                ((1, cache_mark) ∷ [])
                ((1, reader 5) ∷ (2, reader 6) ∷ []))
              l)
    × (analyzed_one.num_of_cache_lines ≡ length lines)
run_cache_analysis_pass-total_example =
    run_cache_analysis_pass-total (λ t i. 8 * i) (λ t. 4) 64 marks [] ((1, cache_mark) ∷ [])
      ((1, reader 5) ∷ (2, reader 6) ∷ []) analyzed_one mark_set analyze_marked
