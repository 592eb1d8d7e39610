-- ===== src/Passes/Cache.antt =====
-- src/PassWrapper/CacheUsageAnalysisPass.cpp, with doInitialization of the loop splitter's pass: the
-- analysis of a module's functions with one object.
use mem_opt.Common.{
  ◌↔◌, ℕ, ◌≡◌, refl, sym, ap, ◌∙◌, subst, Bool, true, false, Option, none, some, List, [], ◌∷◌,
  ◌++◌, Memᴰ, ◌>>=◌, >>=-eq-some, if◌then◌else◌, Bool-cases, inl, inr, Distinct, length,
}
use mathlib.Core.List.{append-nil, append_assoc}
use mathlib.Core.List.Memᴰ
use mem_opt.Text.{Text}
use mem_opt.Annotations.{Annotation, set_annotation_in_function_object}
use mem_opt.CacheUsage.{
  Alloca, Function, CacheUsageInfo, CacheLine, new_info, collect_ptr_allocas, analyze,
}
use mem_opt.CacheUsage.Collected.{some_inj}
use mem_opt.CacheUsage.Counted.{TouchedBy, IsCounted, analyze-IsCounted}
use mem_opt.Passes.{cache_mark, has_fn_attribute, analyze_on_function}

-- doInitialization of both passes, on the module's annotations and the attributes of its functions.
unfoldable pub do_initialization :
    Option (List Annotation) → List (ℕ × Text) → Option (Bool × List (ℕ × Text))
unfolding set_annotation_in_function_object
do_initialization items attrs =
    set_annotation_in_function_object items attrs >>= λ attrs'. some (true, attrs')

module _ (element_offset : ℕ → ℕ → ℕ) (type_alloc_size : ℕ → ℕ) where
  -- CacheUsageAnalysis::run, for the new pass manager
  unfoldable pub analyze_function : ℕ → Function → Option CacheUsageInfo
  unfolding analyze new_info
  analyze_function size f = analyze element_offset type_alloc_size (new_info size) f

  -- What the pass manager does with the functions of the module, which has a body each.
  unfoldable pub run_on_functions :
      List (ℕ × Text) → List (ℕ × Function) → CacheUsageInfo → Option CacheUsageInfo
  unfolding analyze_on_function
  run_on_functions attrs [] info = some info
  run_on_functions attrs ((f, body) ∷ fns) info =
      analyze_on_function element_offset type_alloc_size attrs f body info >>= λ (_, info').
      run_on_functions attrs fns info'

  -- runCacheAnalysisPass
  unfoldable pub run_cache_analysis_pass :
      ℕ → Option (List Annotation) → List (ℕ × Text) → List (ℕ × Function) → Option CacheUsageInfo
  unfolding do_initialization run_on_functions new_info
  run_cache_analysis_pass size items attrs fns =
      do_initialization items attrs >>= λ (_, attrs'). run_on_functions attrs' fns (new_info size)

  -- The variables that are collected from the functions with the mark.
  abbrev pub marked_allocas : List (ℕ × Text) → List (ℕ × Function) → List Alloca
  marked_allocas attrs [] = []
  marked_allocas attrs ((f, body) ∷ fns) =
      (if has_fn_attribute attrs f cache_mark then collect_ptr_allocas body.allocas else [])
      ++ marked_allocas attrs fns

  -- The object has these variables more, and its number is that of the lines of all of them.
  abbrev Grown : List Alloca → CacheUsageInfo → CacheUsageInfo → Type 0
  Grown allocas info r =
      (r.ptr_allocas ≡ info.ptr_allocas ++ allocas)
      × (r.cache_line_size ≡ info.cache_line_size)
      × IsCounted element_offset type_alloc_size r

  Grown-none :
      (info r : CacheUsageInfo)
      → r ≡ info
      → IsCounted element_offset type_alloc_size info
      → Grown [] info r
  Grown-none info r e counted =
      subst (Grown [] info) (sym e) (sym (append-nil info.ptr_allocas), refl, counted)

  analyzed :
      (o : Option CacheUsageInfo) (q : Bool × CacheUsageInfo)
      → ◌≡◌ {A = Option (Bool × CacheUsageInfo)}
          (elim o [ some info' ↦ some (false, info') | none ↦ none ])
          (some q)
      → o ≡ some q.1
  analyzed none q h = cc
  analyzed (some info') q h = ap (λ i. some i) (sym (ap (λ x. x.1) (some_inj (false, info') q h)))

  analyze_on_function-Grown :
      (attrs : List (ℕ × Text)) (f : ℕ) (body : Function) (info : CacheUsageInfo)
      (q : Bool × CacheUsageInfo)
      → analyze_on_function element_offset type_alloc_size attrs f body info ≡ some q
      → IsCounted element_offset type_alloc_size info
      → Grown
          (if has_fn_attribute attrs f cache_mark then collect_ptr_allocas body.allocas else [])
          info
          q.1
  unfolding analyze_on_function
  analyze_on_function-Grown attrs f body info q h counted =
      elim (Bool-cases (has_fn_attribute attrs f cache_mark)) [
        | inl marked ↦
            subst (λ t. Grown (if t then collect_ptr_allocas body.allocas else []) info q.1)
              (sym marked)
              (analyze-IsCounted element_offset type_alloc_size body info q.1
                (analyzed (analyze element_offset type_alloc_size info body) q (rw marked at h)))
        | inr plain ↦
            subst (λ t. Grown (if t then collect_ptr_allocas body.allocas else []) info q.1)
              (sym plain)
              (Grown-none info q.1 (ap (λ x. x.1) (some_inj (false, info) q (rw plain at h)))
                counted)
      ]

  run_on_functions-Grown :
      (attrs : List (ℕ × Text)) (fns : List (ℕ × Function)) (info r : CacheUsageInfo)
      → run_on_functions attrs fns info ≡ some r
      → IsCounted element_offset type_alloc_size info
      → Grown (marked_allocas attrs fns) info r
  unfolding run_on_functions
  run_on_functions-Grown attrs [] info r h counted = Grown-none info r (some_inj info r h) counted
  run_on_functions-Grown attrs ((f, body) ∷ fns) info r h counted =
      let ((flag, info'), e, h') =
        >>=-eq-some (analyze_on_function element_offset type_alloc_size attrs f body info) _ h in
      let (vars, size, counted') =
        analyze_on_function-Grown attrs f body info (flag, info') e counted in
      let (vars', size', done) = run_on_functions-Grown attrs fns info' r h' counted' in
      (
        vars'
            ∙ ap (λ l. l ++ marked_allocas attrs fns) vars
            ∙ append_assoc info.ptr_allocas _ (marked_allocas attrs fns),
        size' ∙ size,
        done,
      )

  -- Where runCacheAnalysisPass ends, the number that its one object holds is that of different lines
  -- that users of the variables of all marked functions touch: a total of the module, in which the
  -- lines of a function are not told from those of another.
  pub run_cache_analysis_pass-total :
      (size : ℕ) (items : Option (List Annotation)) (attrs attrs' : List (ℕ × Text))
      (fns : List (ℕ × Function)) (r : CacheUsageInfo)
      → set_annotation_in_function_object items attrs ≡ some attrs'
      → run_cache_analysis_pass size items attrs fns ≡ some r
      → (lines : List CacheLine) × Distinct lines
        × ((l : CacheLine)
            → Memᴰ l lines
              ↔ TouchedBy element_offset type_alloc_size size (marked_allocas attrs' fns) l)
        × (r.num_of_cache_lines ≡ length lines)
  unfolding run_cache_analysis_pass do_initialization new_info
  run_cache_analysis_pass-total size items attrs attrs' fns r set h =
      let (vars, same, (lines, apart, members, number)) =
        run_on_functions-Grown attrs' fns (new_info size) r (rw set at h) nothing in
      (
        lines,
        apart,
        (λ l.
            subst
              (λ allocas. Memᴰ l lines ↔ TouchedBy element_offset type_alloc_size size allocas l)
              vars
              (subst
                (λ n. Memᴰ l lines ↔ TouchedBy element_offset type_alloc_size n r.ptr_allocas l)
                same (members l))),
        number,
      )
    where
      nothing : IsCounted element_offset type_alloc_size (new_info size)
      nothing = (
        [],
        tt,
        (λ l. ((λ m. absurd (Memᴰ.not-nil m)), (λ (a, u, m, _, _). absurd (Memᴰ.not-nil m)))),
        refl,
      )
