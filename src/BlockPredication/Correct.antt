-- ===== src/BlockPredication/Correct.antt =====
-- BlockPredication::run on an input: it returns, and the new function visits the same blocks.
use mem_opt.Common.{
  contains, contains_of_mem, contains_of_not_mem, ℕ, ◌≡◌, ◌≢◌, refl, sym, ap, ◌∙◌, inl, inr, false,
  none, some, List, [], ◌∷◌, Memᴰ, ◌==◌, ==_iff, Bool-cases, Distinct, subst, All,
}
use mathlib.Core.List.{tail}
use mem_opt.Llvm.{Llvm, Value, alloca, br}
use mem_opt.Llvm.Machine.{exec, Run, returns, jumps, takes, falls}
use mem_opt.BlockPredication.{IrPhis, run}
use mem_opt.BlockPredication.Links.{ActionChain}
use mem_opt.BlockPredication.Tests.{TestChain}
use mem_opt.BlockPredication.Simulation.{Rewritten, Chain, at_action, along}
use mem_opt.BlockPredication.Input.{IsInput, IsForward, action_ids_injective, return_term}
use mem_opt.BlockPredication.Order.{LastIs, LastIs-ne}
use mem_opt.BlockPredication.Stages as Stages
use mem_opt.BlockPredication.Stages.{All_of_mem, Linearized, linearize_returns}

some_inj : {A : Type 0} (a b : A) → some a ≡ some b → a ≡ b
some_inj a b e = ap (λ o. elim o [ none ↦ a | some x ↦ x ]) e

module _ (env : Value → ℕ) (L : Llvm) (s t : L.Ir) where
  open L use {insts, term}

  -- Functions with the same terminators, and instructions of the same effect, have the same runs.
  Run-cong :
      ((b : ℕ) → term t b ≡ term s b)
      → ((b : ℕ) (m : ℕ → ℕ) → exec env (insts t b) m ≡ exec env (insts s b) m)
      → {b : ℕ} {m : ℕ → ℕ} {trace : List ℕ} → Run env L s [] b m trace
      → Run env L t [] b m trace
  Run-cong te ie {b} (returns v e tr) = returns v (te b ∙ e) tr
  Run-cong te ie {b} {m} (jumps u rest e tr run) =
      jumps u rest (te b ∙ e) tr (rw (ie b m) (Run-cong te ie run))
  Run-cong te ie {b} {m} (takes c u f rest e tr v run) =
      takes c u f rest (te b ∙ e) tr (rw (ie b m) v) (rw (ie b m) (Run-cong te ie run))
  Run-cong te ie {b} {m} (falls c u f rest e tr v run) =
      falls c u f rest (te b ∙ e) tr (rw (ie b m) v) (rw (ie b m) (Run-cong te ie run))

module _ (L : Llvm) (s : L.Ir) (actions : List ℕ) (r : ℕ) (h : IsInput L s actions r) where
  open L use {Ir, blocks, entry, insts, term, new_slot, set_insts, term-set_insts, insts-set_insts}

  abbrev ids : List (ℕ × ℕ)
  ids = Stages.ids L s actions r h

  abbrev mask : ℕ
  mask = new_slot s

  abbrev with_slot : Ir
  with_slot = Stages.with_slot L s actions r h

  slot_term : (b : ℕ) → term with_slot b ≡ term s b
  slot_term b = term-set_insts (entry s) (alloca mask ∷ insts s (entry s)) s b

  slot_insts :
      (env : Value → ℕ) (b : ℕ) (m : ℕ → ℕ)
      → exec env (insts with_slot b) m ≡ exec env (insts s b) m
  slot_insts env b m =
      rw (insts-set_insts (entry s) (alloca mask ∷ insts s (entry s)) s b)
        (elim (Bool-cases (entry s == b)) [
          | inl e ↦ rw e (ap (λ z. exec env (insts s z) m) ((==_iff (entry s) b).0 e))
          | inr e ↦ rw e refl
        ])

  module _ (env : Value → ℕ) (p : ℕ) (ps : List ℕ) (s' : Ir)
      (x : Linearized L s actions r h p ps s') where
    loud : (b : ℕ) → Memᴰ b (entry s ∷ actions) → contains b (p ∷ ps) ≡ false
    loud b m = contains_of_not_mem b (p ∷ ps) (λ q. x.new b q (h.all_blocks b m))

    rewritten :
        (b q : ℕ)
        → Memᴰ b (entry s ∷ actions)
        → b ≢ r
        → term s' b ≡ some (br q)
        → Rewritten env L ids mask with_slot s' b q
    rewritten b q m ne e = record {
      insts_eq = rw (slot_term b) (x.inside b m ne);
      term_eq = e;
      branches = rw (slot_term b) (h.branches b (h.all_blocks b m) ne);
      test = rw (slot_term b) (h.tests b (h.all_blocks b m));
    }

    Chain-of_linearized :
        (acts qs : List ℕ)
        → ((a : ℕ) → Memᴰ a acts → Memᴰ a actions)
        → ((q : ℕ) → Memᴰ q qs → Memᴰ q (p ∷ ps))
        → IsForward L s acts
        → LastIs r acts
        → Distinct acts
        → ActionChain L s' acts (tail qs)
        → TestChain L ids mask r s' acts qs
        → Chain env L ids mask with_slot s' (p ∷ ps) r acts qs
    Chain-of_linearized [] qs ia iq f l d links tests = absurd l
    Chain-of_linearized (a ∷ []) [] ia iq f l d links tests = absurd tests
    Chain-of_linearized (a ∷ b ∷ acts) [] ia iq f l d links tests = absurd tests
    Chain-of_linearized (a ∷ b ∷ acts) (q ∷ []) ia iq f l d links tests = absurd tests
    Chain-of_linearized (a ∷ []) (q ∷ z ∷ qs) ia iq f l d links tests = absurd tests
    Chain-of_linearized (a ∷ []) (q ∷ []) ia iq f l d links tests =
        let (v, ends) = return_term L s actions r h in
        (
          l,
          (v, slot_term a ∙ rw l ends),
          rw l (x.return_eq ∙ sym (slot_term r)),
          contains_of_mem q (p ∷ ps) (iq q (Memᴰ.head refl)),
          loud a (Memᴰ.tail (ia a (Memᴰ.head refl))),
        )
    Chain-of_linearized (a ∷ b ∷ acts) (q ∷ z ∷ qs) ia iq f l d links tests = (
      rewritten a z (Memᴰ.tail (ia a (Memᴰ.head refl))) (LastIs-ne r a b acts l d) links.0,
      contains_of_mem q (p ∷ ps) (iq q (Memᴰ.head refl)),
      loud a (Memᴰ.tail (ia a (Memᴰ.head refl))),
      (λ t m. f.0 t (rw (slot_term a) at m)),
      Chain-of_linearized (b ∷ acts) (z ∷ qs) (λ y m. ia y (Memᴰ.tail m))
          (λ y m. iq y (Memᴰ.tail m)) f.1 l d.1 links.1 tests.2,
    )

    simulates :
        (m m' : ℕ → ℕ) (trace : List ℕ)
        → Run env L s [] (entry s) m trace
        → Run env L s' (p ∷ ps) (entry s) m' trace
    simulates m m' trace run =
        let chain =
          Chain-of_linearized actions (p ∷ ps) (λ a k. k) (λ q k. k) h.forward.1
            (Stages.last L s actions r h) h.distinct.1 x.links x.tests in
        at_action env L ids mask with_slot s' (p ∷ ps) (entry s) p
          (rewritten (entry s) p (Memᴰ.head refl) (Stages.entry_ne_return L s actions r h)
            x.entry_term)
          (loud (entry s) (Memᴰ.head refl))
          (λ t k.
            along env L ids mask with_slot s' (p ∷ ps) r actions p ps
              (action_ids_injective L s actions r h) x.tests chain t
              (h.forward.0 t (rw (slot_term (entry s)) at k)))
          (Run-cong env L s with_slot slot_term (slot_insts env) run)

-- On an input, the last loop over the PHI nodes included, the pass returns. It keeps the entry block,
-- and adds blocks that are new. An input is a loop-free function of more than two blocks, all of them
-- reached, with one return block and no unreachable block, whose entry block ends in a test and whose other blocks end in branches, with
-- tests of registers only; a straight-line edge leads to a join, and no block behind the entry block
-- starts with a PHI node.
pub run_returns :
    (L : Llvm) (P : IrPhis L) (s : L.Ir) (actions : List ℕ) (r : ℕ)
    → IsInput L s actions r
    → (predicates : List ℕ) × (s' : L.Ir) × (run L P s ≡ some (predicates, s'))
      × (L.entry s' ≡ L.entry s)
      × All (λ q. ¬ Memᴰ q (L.blocks s)) predicates
unfolding run
run_returns L P s actions r h =
    let (p, ps, s', e, x) = linearize_returns L s actions r h P in
    (p ∷ ps, s', e, x.entry_eq, All_of_mem (λ q. ¬ Memᴰ q (L.blocks s)) (p ∷ ps) x.new)

-- Where the pass returns on an input, every run of the function is a run of the linear function
-- through the same blocks in the same order, with the visits of the predicate blocks left out.
pub run-Run :
    (L : Llvm) (P : IrPhis L) (s : L.Ir) (actions : List ℕ) (r : ℕ) (predicates : List ℕ)
    (s' : L.Ir) (env : Value → ℕ) (m m' : ℕ → ℕ) (trace : List ℕ)
    → IsInput L s actions r
    → run L P s ≡ some (predicates, s')
    → Run env L s [] (L.entry s) m trace
    → Run env L s' predicates (L.entry s') m' trace
unfolding run
run-Run L P s actions r predicates s' env m m' trace h e visits =
    let (p, ps, s7, e7, x) = linearize_returns L s actions r h P in
    let same : ◌≡◌ {A = List ℕ × L.Ir} (p ∷ ps, s7) (predicates, s') = some_inj _ _ (sym e7 ∙ e) in
    subst (λ z. Run env L z.1 z.0 (L.entry z.1) m' trace) same
      (rw x.entry_eq (simulates L s actions r h env p ps s7 x m m' trace visits))
