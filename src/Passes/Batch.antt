-- ===== src/Passes/Batch.antt =====
-- What the batch pass reports.
use mem_opt.Common.{
  ℕ, ap, ◌≡◌, refl, false, Option, some, List, [], ◌∷◌, if◌then◌else◌, Bool-cases, inl, inr,
}
use mem_opt.Text.{Text, text_eq}
use mem_opt.Passes.{batch_maker_tag, make_batches, run_on_module, run_batch_maker_pass}

module _ {M : Type 0} (make_batch : ℕ → M → Option ℕ × M) where
  -- What the calls do to the module, in the map's order.
  abbrev pub made : List (ℕ × Text) → M → M
  made [] m = m
  made ((f, t) ∷ fns) m = made fns (if text_eq t batch_maker_tag then (make_batch f m).1 else m)

  make_batches-unreported :
      (fns : List (ℕ × Text)) (m : M)
      → ((f : ℕ) (n : M) → (g : ℕ) × ((make_batch f n).0 ≡ some g))
      → make_batches make_batch fns false m ≡ (false, made fns m)
  unfolding make_batches
  make_batches-unreported [] m makes = refl
  make_batches-unreported ((f, t) ∷ fns) m makes = elim (Bool-cases (text_eq t batch_maker_tag)) [
    | inl same ↦
        let (g, e) = makes f m in
        rw (make_batches, same, e) (make_batches-unreported fns ((make_batch f m).1) makes)
    | inr differs ↦ rw (make_batches, differs) (make_batches-unreported fns m makes)
  ]

  run_on_module-unreported :
      (fns : List (ℕ × Text)) (m : M)
      → ((f : ℕ) (n : M) → (g : ℕ) × ((make_batch f n).0 ≡ some g))
      → run_on_module make_batch fns m ≡ (false, made fns m)
  unfolding run_on_module
  run_on_module-unreported fns m makes = make_batches-unreported fns m makes

  -- Where BatchMaker::run always returns a function, the batch pass on a module whose annotations can
  -- be read calls it on each function that is annotated `tas_batch_maker`, in the order of the map,
  -- and returns false: no change to the module.
  pub run_batch_maker_pass-unreported :
      (annotated : M → Option (List (ℕ × Text))) (fns : List (ℕ × Text)) (m : M)
      → annotated m ≡ some fns
      → ((f : ℕ) (n : M) → (g : ℕ) × ((make_batch f n).0 ≡ some g))
      → run_batch_maker_pass make_batch annotated m ≡ some (false, made fns m)
  unfolding run_batch_maker_pass
  run_batch_maker_pass-unreported annotated fns m read makes =
      rw (run_batch_maker_pass, read) (ap (λ r. some r) (run_on_module-unreported fns m makes))
