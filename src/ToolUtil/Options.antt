-- ===== src/ToolUtil/Options.antt =====
-- What runOpt leaves in the caller's list of options.
use mem_opt.Common.{
  ℕ, ◌≡◌, refl, ap, ◌∙◌, Bool, true, false, List, [], ◌∷◌, ◌++◌, map, ◌==◌, if◌then◌else◌,
}
use mem_opt.Text.{Text, codes}
use mem_opt.ToolUtil.Laws.{run_command-bind}
use mem_opt.ToolUtil.{
  return, returned, exited, join_words, generate_long_string, opt_command, ll_name, run_opt,
}

abbrev pub dashed : List Text → List Text
dashed opts = map (λ s. codes "-" ++ s) opts

same_log :
    {A : Type 0} (b : Bool) (a : A) (l : List Text) → (if b then return a l else (exited, l)).1 ≡ l
same_log true a l = refl
same_log false a l = refl

-- runOpt on a named file runs opt with every option behind a dash, and where that succeeds the
-- caller's list of options holds the dashes too. A second run on that list doubles the dashes.
pub run_opt-twice :
    (system : Text → ℕ) (c : ℕ) (file dir : Text) (opts : List Text) (log : List Text)
    → system (opt_command (join_words (dashed opts)) (c ∷ file) dir) ≡ 0
    → (run_opt system (c ∷ file) dir opts log ≡ (
      returned (ll_name (c ∷ file), dashed opts),
      log ++ opt_command (join_words (dashed opts)) (c ∷ file) dir ∷ [],
    ))
      × ((run_opt system (c ∷ file) dir (dashed opts) log).1
          ≡ log ++ opt_command (join_words (dashed (dashed opts))) (c ∷ file) dir ∷ [])
unfolding run_opt generate_long_string
run_opt-twice system c file dir opts log good =
    let cmd = opt_command (join_words (dashed opts)) (c ∷ file) dir in
    let again = opt_command (join_words (dashed (dashed opts))) (c ∷ file) dir in
    (
      run_command-bind system cmd (λ _. return (ll_name (c ∷ file), dashed opts)) log
          ∙ rw good refl,
      ap (λ r. r.1)
            (run_command-bind system again (λ _. return (ll_name (c ∷ file), dashed (dashed opts)))
              log)
          ∙ same_log (system again == 0) (ll_name (c ∷ file), dashed (dashed opts))
              (log ++ again ∷ []),
    )
