-- ===== src/Passes.antt =====
-- src/PassWrapper and tools/tasopt.cpp: the passes by annotation, the tool's main, and the writers of
-- src/Util.cpp. The transformations of a module are parameters here.
pub mod Batch
pub mod Cache
pub mod Main
mod Examples
use mem_opt.Common.{
  ℕ, Bool, true, false, not, ◌&&◌, ◌||◌, Option, none, some, List, [], ◌∷◌, ◌++◌, ◌==◌,
  if◌then◌else◌,
}
use mem_opt.Text.{Text, codes, is_empty, text_eq, find_last_of, substr_to}
use mem_opt.ToolUtil.{
  Outcome, returned, exited, Shell, return, ◌>>=◌, dot, generate_ir, generate_object,
}
use mem_opt.CacheUsage.{CacheUsageInfo, Function, analyze}

abbrev pub batch_maker_tag : Text
batch_maker_tag = codes "tas_batch_maker"

abbrev pub predicate_tag : Text
predicate_tag = codes "tas_block_predicate"

-- fn_mark of the two function passes
abbrev pub cache_mark : Text
cache_mark = codes "tas_cacheline_count"

abbrev pub split_mark : Text
split_mark = codes "tas_batch"

-- F.hasFnAttribute(mark)
abbrev pub has_fn_attribute : List (ℕ × Text) → ℕ → Text → Bool
has_fn_attribute [] f mark = false
has_fn_attribute ((g, t) ∷ attrs) f mark = g == f && text_eq t mark || has_fn_attribute attrs f mark

-- CacheUsageAnalysisPass::runOnFunction, with the pass's own CI; the flag is what it returns.
unfoldable pub analyze_on_function :
    (ℕ → ℕ → ℕ)
    → (ℕ → ℕ)
    → List (ℕ × Text)
    → ℕ
    → Function
    → CacheUsageInfo
    → Option (Bool × CacheUsageInfo)
analyze_on_function element_offset type_alloc_size attrs f body info =
    if has_fn_attribute attrs f cache_mark
    then elim (analyze element_offset type_alloc_size info body) [
      | some info' ↦ some (false, info')
      | none ↦ none
    ]
    else some (false, info)

-- The passes over a module of type `M`: BatchMaker::run with the new function, `none` for null,
-- BlockPredication::run with its result, and LoopSplitter::run with its result.
module _ {M : Type 0} (make_batch : ℕ → M → Option ℕ × M) where
  -- The loop of TASBatchMaker::runOnModule over the items of the map
  unfoldable pub make_batches : List (ℕ × Text) → Bool → M → Bool × M
  make_batches [] changed m = (changed, m)
  make_batches ((f, t) ∷ fns) changed m =
      let (batch_f, m') = make_batch f m in
      let changed' : Bool = elim batch_f [ none ↦ true | some g ↦ changed ] in
      let skip = not (text_eq t batch_maker_tag) in
      make_batches fns (if skip then changed else changed') (if skip then m else m')

  unfoldable pub run_on_module : List (ℕ × Text) → M → Bool × M
  unfolding make_batches
  run_on_module fns m = make_batches fns false m

  -- runBatchMakerPass; `annotated` is what getAnnotatedFnList gives.
  unfoldable pub run_batch_maker_pass : (M → Option (List (ℕ × Text))) → M → Option (Bool × M)
  unfolding run_on_module
  run_batch_maker_pass annotated m = elim (annotated m) [
    | none ↦ none
    | some fns ↦ some (run_on_module fns m)
  ]

  module _ (predicate : ℕ → M → Bool × M) (split : ℕ → M → Bool × M) where
    -- TASLoopSplitter::runOnFunction
    unfoldable pub split_on_function : List (ℕ × Text) → ℕ → M → Bool × M
    split_on_function attrs f m =
        if has_fn_attribute attrs f split_mark then split f m else (false, m)

    -- LoopSplitter LS(BatchFunc, &LI); LS.run(): `none` reads a null function.
    unfoldable pub batch_and_split : ℕ → M → Option M
    batch_and_split f m =
        let (batch_f, m') = make_batch f m in
        elim batch_f [ none ↦ none | some g ↦ some (split g m').1 ]

    -- The loop of main: false where it returns -1.
    unfoldable pub transform : List (ℕ × Text) → M → Option (Bool × M)
    transform [] m = some (true, m)
    transform ((f, t) ∷ fns) m =
        let is_predicate = text_eq t predicate_tag in
        let (good, m') = predicate f m in
        let after_predicate = transform fns m' in
        let after_nothing = transform fns m in
        if is_predicate
        then (if good then after_predicate else some (false, m'))
        else if text_eq t batch_maker_tag
        then elim (batch_and_split f m) [ none ↦ none | some m'' ↦ transform fns m'' ]
        else after_nothing

-- The name of a file that is written beside the source
unfoldable pub output_file : Text → Text → Text
output_file source ext = substr_to (find_last_of dot source) source ++ ext

-- The files that were written so far go in and come out.
unfoldable pub write_to_bit_code_file :
    {M : Type 0} → (M → Text) → M → List (Text × M) → Text × List (Text × M)
write_to_bit_code_file source m files =
    (output_file (source m) (codes ".bc"), files ++ (output_file (source m) (codes ".bc"), m) ∷ [])

unfoldable pub write_to_asm_file :
    {M : Type 0} → (M → Text) → M → List (Text × M) → Text × List (Text × M)
write_to_asm_file source m files =
    (output_file (source m) (codes ".ll"), files ++ (output_file (source m) (codes ".ll"), m) ∷ [])

-- `parse` is parseIRFile, `none` where it fails; a file is named by its directory and its name.
abbrev pub parse_ir : {M : Type 0} → (Text → Option M) → (file_name file_dir : Text) → Option M
parse_ir parse file_name file_dir = parse (file_dir ++ file_name)

unfoldable pub parse_input_file : {M : Type 0} → (Text → ℕ) → (Text → Option M) → Text → Shell M
parse_input_file system parse src_file =
    if is_empty src_file
    then (λ log. (exited, log))
    else (generate_ir system src_file [] true >>= λ out. λ log.
        if is_empty out
        then (exited, log)
        else elim (parse_ir parse out []) [ none ↦ (exited, log) | some m ↦ (returned m, log) ])

-- The end of main, where the loop did not return: the files are written, and llc runs.
unfoldable pub emit : {M : Type 0} → (Text → ℕ) → (M → Text) → M → Shell (List (Text × M))
emit system source m =
    let (_, files) = write_to_asm_file source m [] in
    let (bc, files') = write_to_bit_code_file source m files in
    generate_object system bc [] >>= λ _. return files'

-- main: its exit code is 0 where the flag is true, and -1 where it is false; `none` is undefined
-- behaviour. `annotated` is what getAnnotatedFnList gives, in the order of the map.
unfoldable pub main :
    {M : Type 0} (system : Text → ℕ) (parse : Text → Option M) (source : M → Text)
    (annotated : M → Option (List (ℕ × Text))) (make_batch : ℕ → M → Option ℕ × M)
    (predicate split : ℕ → M → Bool × M)
    → Text
    → List Text
    → Option (Outcome (Bool × List (Text × M)) × List Text)
main system parse source annotated make_batch predicate split src_file log =
    let (o, log') = parse_input_file system parse src_file log in
    elim o [
      | exited ↦ some (exited, log')
      | returned m ↦ elim (annotated m) [
        | none ↦ none
        | some fns ↦ elim (transform make_batch predicate split fns m) [
          | none ↦ none
          | some r ↦ some (
              if r.0
              then (emit system source (r.1) >>= λ files. return (true, files)) log'
              else (returned (false, []), log'))
        ]
      ]
    ]
