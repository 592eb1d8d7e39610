-- ===== src/Passes/Main.antt =====
-- What the tool runs and writes, by the result of its transformations.
use mem_opt.Common.{
  ℕ, ◌≡◌, ◌≢◌, refl, sym, ap, ◌∙◌, Bool, true, false, Option, none, some, List, [], ◌∷◌, ◌++◌, ◌==◌,
  if◌then◌else◌, Bool-cases, Option-cases, inl, inr, Memᴰ, not_mem_of_contains,
}
use mem_opt.Text.{Text, codes, text_eq, is_empty, find_last_of-append, take-length}
use mem_opt.ToolUtil.{
  returned, exited, return, dot, ir_command, llc_command, generate_ir, generate_object,
}
use mem_opt.ToolUtil.Laws.{
  is_empty-append, bind-log, bind-step, returned-if, generate_object-other, generate_ir_lem,
}
use mem_opt.Passes.{
  predicate_tag, batch_maker_tag, transform, batch_and_split, parse_input_file, emit, main,
  output_file, write_to_asm_file, write_to_bit_code_file,
}

some_inj : {A : Type 0} (a b : A) → some a ≡ some b → b ≡ a
some_inj a b e = cc

true-ne-false : true ≢ false
true-ne-false e = cc

ended :
    {M : Type 0} (good : Bool) (k n : M) (more : Option (Bool × M))
    → ◌≡◌ {A = Option (Bool × M)} (some (false, k)) (some (good, n))
    → some (false, k) ≡ (if good then more else some (false, n))
ended true k n more h = absurd (true-ne-false (ap (λ r. r.0) (some_inj (false, k) (true, n) h)))
ended false k n more h = h

-- The loop of main.
module _ {M : Type 0} (make_batch : ℕ → M → Option ℕ × M) (predicate split : ℕ → M → Bool × M) where
  -- The loop over two lists of functions is the loop over the first, and the loop over the second on
  -- the module that it leaves, unless a predication of the first list fails: that ends it.
  pub transform-append :
      (xs ys : List (ℕ × Text)) (m n : M) (good : Bool)
      → transform make_batch predicate split xs m ≡ some (good, n)
      → transform make_batch predicate split (xs ++ ys) m
        ≡ (if good then transform make_batch predicate split ys n else some (false, n))
  unfolding transform
  transform-append [] ys m n true h =
      ap (λ k. transform make_batch predicate split ys k)
        (ap (λ r. r.1) (sym (some_inj (true, m) (true, n) h)))
  transform-append [] ys m n false h =
      absurd (true-ne-false (ap (λ r. r.0) (sym (some_inj (true, m) (false, n) h))))
  transform-append ((f, t) ∷ xs) ys m n good h = elim (Bool-cases (text_eq t predicate_tag)) [
    | inl p ↦ elim (Bool-cases ((predicate f m).0)) [
      | inl ok ↦
          rw (transform, p, ok)
            (transform-append xs ys ((predicate f m).1) n good (rw (transform, p, ok) at h))
      | inr bad ↦
          rw (transform, p, bad)
            (ended good ((predicate f m).1) n (transform make_batch predicate split ys n)
              (rw (transform, p, bad) at h))
    ]
    | inr np ↦ elim (Bool-cases (text_eq t batch_maker_tag)) [
      | inl b ↦ elim (Option-cases (batch_and_split make_batch predicate split f m)) [
        | inl undefined ↦ cc (rw (transform, np, b, undefined) at h)
        | inr (k, e) ↦
            rw (transform, np, b, e)
              (transform-append xs ys k n good (rw (transform, np, b, e) at h))
      ]
      | inr nb ↦
          rw (transform, np, nb) (transform-append xs ys m n good (rw (transform, np, nb) at h))
    ]
  ]

parse_input_file-some :
    {M : Type 0} (system : Text → ℕ) (parse : Text → Option M) (stem ext : Text) (log : List Text)
    (m : M)
    → ¬ Memᴰ dot ext
    → system (ir_command (stem ++ dot ∷ ext) [] true) ≡ 0
    → parse (stem ++ codes ".ll") ≡ some m
    → parse_input_file system parse (stem ++ dot ∷ ext) log
      ≡ (returned m, log ++ ir_command (stem ++ dot ∷ ext) [] true ∷ [])
unfolding parse_input_file
parse_input_file-some system parse stem ext log m out good e =
    let clang = ir_command (stem ++ dot ∷ ext) [] true in
    let generated : generate_ir system (stem ++ dot ∷ ext) [] true log
        ≡ (returned (stem ++ codes ".ll"), log ++ clang ∷ []) =
      generate_ir_lem system stem ext [] true log out ∙ rw good refl in
    rw (is_empty-append stem dot ext) (
      bind-log (generate_ir system (stem ++ dot ∷ ext) [] true)
        (λ file. λ l.
          if is_empty file
          then (exited, l)
          else elim (parse file) [ none ↦ (exited, l) | some k ↦ (returned k, l) ])
        log generated
      ∙ rw (is_empty-append stem dot (codes "ll"), e) refl)

-- The files that the tool writes for a module.
abbrev pub written : {M : Type 0} → Text → M → List (Text × M)
written stem n = (stem ++ codes ".ll", n) ∷ (stem ++ codes ".bc", n) ∷ []

output_file-append :
    (stem ext new : Text) → ¬ Memᴰ dot ext → output_file (stem ++ dot ∷ ext) new ≡ stem ++ new
unfolding output_file
output_file-append stem ext new out =
    rw (find_last_of-append dot stem ext out) (ap (λ s. s ++ new) (take-length stem (dot ∷ ext)))

emit_lem :
    {M : Type 0} (system : Text → ℕ) (source : M → Text) (n : M) (stem ext : Text) (log : List Text)
    → source n ≡ stem ++ dot ∷ ext
    → ¬ Memᴰ dot ext
    → emit system source n log ≡ (
      let llc = llc_command (stem ++ codes ".bc") (stem ++ codes ".bc") [] in
          if system llc == 0 then returned (written stem n) else exited,
      log ++ llc_command (stem ++ codes ".bc") (stem ++ codes ".bc") [] ∷ [],
    )
unfolding emit write_to_asm_file write_to_bit_code_file
emit_lem system source n stem ext log e out =
    let llc = llc_command (stem ++ codes ".bc") (stem ++ codes ".bc") [] in
    rw
      (
        e,
        output_file-append stem ext (codes ".bc") out,
        output_file-append stem ext (codes ".ll") out,
      )
      (bind-step (system llc == 0) (generate_object system (stem ++ codes ".bc") [])
          (λ _. return (written stem n)) (stem ++ codes ".o") log (log ++ llc ∷ [])
          (generate_object-other system stem (codes "bc") [] log
            (not_mem_of_contains dot (codes "bc") refl) (λ x. cc))
        ∙ returned-if (system llc == 0) (written stem n) (log ++ llc ∷ []))

-- The tool on a source file with an extension, where clang succeeds, the module parses, its
-- annotations are read, the loop ends, and the module that it leaves has a source name with an
-- extension: if a predication failed, the tool returns -1, has run clang alone and written nothing;
-- else that module is written as `ll` and `bc` files, llc runs on the second, and the tool returns 0
-- if llc succeeds and exits if it fails.
pub main_lem :
    {M : Type 0} (system : Text → ℕ) (parse : Text → Option M) (source : M → Text)
    (annotated : M → Option (List (ℕ × Text))) (make_batch : ℕ → M → Option ℕ × M)
    (predicate split : ℕ → M → Bool × M) (stem ext : Text) (log : List Text) (m n : M)
    (fns : List (ℕ × Text)) (good : Bool) (stem' ext' : Text)
    → ¬ Memᴰ dot ext
    → system (ir_command (stem ++ dot ∷ ext) [] true) ≡ 0
    → parse (stem ++ codes ".ll") ≡ some m
    → annotated m ≡ some fns
    → transform make_batch predicate split fns m ≡ some (good, n)
    → source n ≡ stem' ++ dot ∷ ext'
    → ¬ Memᴰ dot ext'
    → main system parse source annotated make_batch predicate split (stem ++ dot ∷ ext) log
      ≡ some (
          let clang = ir_command (stem ++ dot ∷ ext) [] true in
          let llc = llc_command (stem' ++ codes ".bc") (stem' ++ codes ".bc") [] in
          if good
          then (
            if system llc == 0 then returned (true, written stem' n) else exited,
            log ++ clang ∷ [] ++ llc ∷ [],
          )
          else (returned (false, []), log ++ clang ∷ []))
unfolding main
main_lem system parse source annotated make_batch predicate split stem ext log m n fns good stem'
      ext' out clang_ok parsed read looped named out' =
    let clang = ir_command (stem ++ dot ∷ ext) [] true in
    let llc = llc_command (stem' ++ codes ".bc") (stem' ++ codes ".bc") [] in
    let parsed' = parse_input_file-some system parse stem ext log m out clang_ok parsed in
    rw (main, parsed', read, looped, parsed')
      (ap (λ r. some (if good then r else (returned (false, []), log ++ clang ∷ [])))
        (bind-step (system llc == 0) (emit system source n) (λ files. return (true, files))
            (written stem' n) (log ++ clang ∷ []) (log ++ clang ∷ [] ++ llc ∷ [])
            (emit_lem system source n stem' ext' (log ++ clang ∷ []) named out')
          ∙ returned-if (system llc == 0) (true, written stem' n) (log ++ clang ∷ [] ++ llc ∷ [])))
