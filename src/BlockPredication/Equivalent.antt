-- ===== src/BlockPredication/Equivalent.antt =====
-- The other direction: a run of the linear function is one of the function it was made from. A run is
-- determined by where it starts, and a loop-free function has one.
use mem_opt.Common.{
  ℕ, ◌≡◌, ◌↔◌, ◌⊎◌, refl, sym, ap, ◌∙◌, inl, inr, true, false, Option, none, some, List, [], ◌∷◌,
  Memᴰ, ◌==◌, ==_iff, Bool-cases, subst,
}
use mathlib.Core.List.Memᴰ
use mem_opt.Llvm.{Llvm, Value, Term, ret, br, cond_br, unreachable, other_term, succs_of, is_branch}
use mem_opt.Llvm.Machine.{eval, exec, record_visit, Run, returns, jumps, takes, falls}
use mem_opt.BlockPredication.{IrPhis, run}
use mem_opt.BlockPredication.Input.{IsInput, IsForward, return_term}
use mem_opt.BlockPredication.Correct.{run-Run}

some_br : {t u : ℕ} → some (br t) ≡ some (br u) → u ≡ t
some_br e = cc

some_cond :
    {c d : Value} {t u f g : ℕ}
    → some (cond_br c t f) ≡ some (cond_br d u g)
    → (d ≡ c) × (u ≡ t) × (g ≡ f)
some_cond e = (cc, cc, cc)

module _ (env : Value → ℕ) (L : Llvm) (s : L.Ir) (silent : List ℕ) where
  -- Two runs from one place visit the same blocks.
  Run-unique :
      {b : ℕ} {m : ℕ → ℕ} {trace trace' : List ℕ}
      → Run env L s silent b m trace
      → Run env L s silent b m trace'
      → trace ≡ trace'
  Run-unique (returns v e tr) (returns v' e' tr') = tr ∙ sym tr'
  Run-unique (returns v e tr) (jumps t rest e' tr' run) = cc
  Run-unique (returns v e tr) (takes c t f rest e' tr' h run) = cc
  Run-unique (returns v e tr) (falls c t f rest e' tr' h run) = cc
  Run-unique (jumps t rest e tr run) (returns v e' tr') = cc
  Run-unique {b} {m} (jumps t rest e tr run) (jumps t' rest' e' tr' run') =
      tr
      ∙ (ap (record_visit silent b) (
            Run-unique run (
              subst (λ x. Run env L s silent x (exec env (L.insts s b) m) rest')
                (some_br (sym e ∙ e')) run'))
          ∙ sym tr')
  Run-unique (jumps t rest e tr run) (takes c t' f rest' e' tr' h run') = cc
  Run-unique (jumps t rest e tr run) (falls c t' f rest' e' tr' h run') = cc
  Run-unique (takes c t f rest e tr h run) (returns v e' tr') = cc
  Run-unique (takes c t f rest e tr h run) (jumps t' rest' e' tr' run') = cc
  Run-unique {b} {m} (takes c t f rest e tr h run) (takes c' t' f' rest' e' tr' h' run') =
      tr
      ∙ (ap (record_visit silent b) (
            Run-unique run (
              subst (λ x. Run env L s silent x (exec env (L.insts s b) m) rest')
                ((some_cond (sym e ∙ e')).1) run'))
          ∙ sym tr')
  Run-unique {b} {m} (takes c t f rest e tr h run) (falls c' t' f' rest' e' tr' h' run') = cc (
    h,
    subst (λ x. (eval env (exec env (L.insts s b) m) x == 0) ≡ true) ((some_cond (sym e ∙ e')).0)
        h',
  )
  Run-unique (falls c t f rest e tr h run) (returns v e' tr') = cc
  Run-unique (falls c t f rest e tr h run) (jumps t' rest' e' tr' run') = cc
  Run-unique {b} {m} (falls c t f rest e tr h run) (takes c' t' f' rest' e' tr' h' run') = cc (
    h,
    subst (λ x. (eval env (exec env (L.insts s b) m) x == 0) ≡ false) ((some_cond (sym e ∙ e')).0)
        h',
  )
  Run-unique {b} {m} (falls c t f rest e tr h run) (falls c' t' f' rest' e' tr' h' run') =
      tr
      ∙ (ap (record_visit silent b) (
            Run-unique run (
              subst (λ x. Run env L s silent x (exec env (L.insts s b) m) rest')
                ((some_cond (sym e ∙ e')).2) run'))
          ∙ sym tr')

  -- A terminator at which a run ends or goes on.
  abbrev Goes : Option Term → Type 0
  Goes t = (is_branch t ≡ true) ⊎ ((v : Option Value) × (t ≡ some (ret v)))

  -- What a block in front of the others does.
  first-Run :
      (b : ℕ) (m : ℕ → ℕ) (t : Option Term)
      → L.term s b ≡ t
      → Goes t
      → ((u : ℕ)
          → Memᴰ u (succs_of t)
          → (m' : ℕ → ℕ) → (trace : List ℕ) × Run env L s silent u m' trace)
      → (trace : List ℕ) × Run env L s silent b m trace
  unfolding is_branch succs_of
  first-Run b m none e (inl h) later = cc
  first-Run b m none e (inr (v, h)) later = cc
  first-Run b m (some (ret v)) e g later = (record_visit silent b [], returns v e refl)
  first-Run b m (some (br t)) e g later =
      let (rest, run) = later t (Memᴰ.head refl) (exec env (L.insts s b) m) in
      (record_visit silent b rest, jumps t rest e refl run)
  first-Run b m (some (cond_br c t f)) e g later =
      elim (Bool-cases (eval env (exec env (L.insts s b) m) c == 0)) [
        | inl zero ↦
            let (rest, run) = later f (Memᴰ.tail (Memᴰ.head refl)) (exec env (L.insts s b) m) in
            (record_visit silent b rest, falls c t f rest e refl zero run)
        | inr other ↦
            let (rest, run) = later t (Memᴰ.head refl) (exec env (L.insts s b) m) in
            (record_visit silent b rest, takes c t f rest e refl other run)
      ]
  first-Run b m (some unreachable) e (inl h) later = cc
  first-Run b m (some unreachable) e (inr (v, h)) later = cc
  first-Run b m (some (other_term n ts)) e (inl h) later = cc
  first-Run b m (some (other_term n ts)) e (inr (v, h)) later = cc

  -- From each block of a loop-free list there is a run.
  forward-Run :
      (bs : List ℕ)
      → IsForward L s bs
      → ((b : ℕ) → Memᴰ b bs → Goes (L.term s b))
      → (b : ℕ) → Memᴰ b bs
      → (m : ℕ → ℕ) → (trace : List ℕ) × Run env L s silent b m trace
  forward-Run [] f g b at m = absurd (Memᴰ.not-nil at)
  forward-Run (x ∷ bs) (f, fs) g b at m = elim (Memᴰ.cases_cons at) [
    | inl here ↦ first-Run b m (L.term s b) refl (g b at) (λ u e.
        forward-Run bs fs (λ c k. g c (Memᴰ.tail k)) u
          (f u (subst (λ y. Memᴰ u (succs_of (L.term s y))) here e)))
    | inr later ↦ forward-Run bs fs (λ c k. g c (Memᴰ.tail k)) b later m
  ]

module _ (L : Llvm) (s : L.Ir) (actions : List ℕ) (r : ℕ) (h : IsInput L s actions r) where
  -- The function ends, whatever its values are.
  input-Run : (env : Value → ℕ) (m : ℕ → ℕ) → (trace : List ℕ) × Run env L s [] (L.entry s) m trace
  input-Run env m =
      forward-Run env L s [] (L.entry s ∷ actions) h.forward
        (λ b k. elim (Bool-cases (b == r)) [
          | inl is_return ↦
              let (v, e) = return_term L s actions r h in
              inr (v, ap (λ x. L.term s x) ((==_iff b r).0 is_return) ∙ e)
          | inr other ↦ inl (h.branches b (h.all_blocks b k) (λ z. cc (other, (==_iff b r).1 z)))
        ])
        (L.entry s) (Memᴰ.head refl) m

-- Where the pass returns on an input, the linear function ends from every state of its slots, and it
-- visits exactly the blocks that the function visits, in the same order, with the visits of the
-- predicate blocks left out: a trace is one of the function if and only if it is one of the linear
-- function. An input is a loop-free function of more than two blocks, all of them reached, with one
-- return block and no unreachable block. Its entry block ends in a test. Its other blocks, up to the
-- return block, end in branches, never in a switch, and every test is of a register, never of a
-- constant. A straight-line edge leads to a join. No block behind the entry block starts with a PHI
-- node.
pub run-Run_iff :
    (L : Llvm) (P : IrPhis L) (s : L.Ir) (actions : List ℕ) (r : ℕ) (predicates : List ℕ)
    (s' : L.Ir) (env : Value → ℕ) (m m' : ℕ → ℕ)
    → IsInput L s actions r
    → run L P s ≡ some (predicates, s')
    → ((trace : List ℕ) × Run env L s' predicates (L.entry s') m' trace)
      × ((trace : List ℕ)
          → Run env L s [] (L.entry s) m trace ↔ Run env L s' predicates (L.entry s') m' trace)
run-Run_iff L P s actions r predicates s' env m m' h e =
    let (trace, visits) = input-Run L s actions r h env m in
    let linear = run-Run L P s actions r predicates s' env m m' trace h e visits in
    (
      (trace, linear),
      (λ t. (
        run-Run L P s actions r predicates s' env m m' t h e,
        (λ other.
            subst (λ x. Run env L s [] (L.entry s) m x)
              (Run-unique env L s' predicates linear other) visits),
      )),
    )
