-- ===== src/BlockPredication/Simulation.antt =====
-- The linear function visits the same action blocks as the function it was made from.
use mem_opt.Common.{
  contains, ℕ, ◌≡◌, refl, sym, ap, ◌∙◌, inl, inr, Bool, true, false, Option, some, List, [], ◌∷◌,
  ◌++◌, Memᴰ, ◌==◌, ==_iff, ==_self, Bool-cases, if◌then◌else◌, subst,
}
use mathlib.Core.List.Memᴰ
use mem_opt.Llvm.{
  Llvm, Value, Inst, Term, register, store, store_through, alloca, opaque_inst, compute, phi, ret,
  br, cond_br, succs_of, is_branch,
}
use mem_opt.Llvm.Machine.{eval, exec, Run, returns, jumps, takes, falls}
use mem_opt.BlockPredication.{path_test}
use mem_opt.BlockPredication.Conditions.{id_of, path_insts}
use mem_opt.BlockPredication.Tests.{TestChain}

exec-append :
    (env : Value → ℕ) (xs ys : List Inst) (m : ℕ → ℕ)
    → exec env (xs ++ ys) m ≡ exec env ys (exec env xs m)
exec-append env [] ys m = refl
exec-append env (store v slot ∷ xs) ys m = exec-append env xs ys _
exec-append env (store_through v p ∷ xs) ys m = exec-append env xs ys m
exec-append env (alloca i ∷ xs) ys m = exec-append env xs ys m
exec-append env (opaque_inst i ∷ xs) ys m = exec-append env xs ys m
exec-append env (compute v ∷ xs) ys m = exec-append env xs ys m
exec-append env (phi l ∷ xs) ys m = exec-append env xs ys m

-- A condition is a value that the function computed before the pass.
abbrev pub IsRegisterTest : Option Term → Type 0
IsRegisterTest (some (cond_br c t f)) = (k : ℕ) × (c ≡ register k)
IsRegisterTest t = Unit

module _ (env : Value → ℕ) (ids : List (ℕ × ℕ)) (mask : ℕ) where
  exec-path_br :
      (t : ℕ) (m : ℕ → ℕ) → exec env (path_insts ids mask (some (br t))) m mask ≡ id_of ids t
  exec-path_br t m = rw (==_self mask) refl

  exec-path_cond :
      (k t f : ℕ) (m : ℕ → ℕ)
      → exec env (path_insts ids mask (some (cond_br (register k) t f))) m mask
        ≡ (if env (register k) == 0 then id_of ids f else id_of ids t)
  exec-path_cond k t f m = rw (==_self mask) refl

module _ (env : Value → ℕ) (L : Llvm) (ids : List (ℕ × ℕ)) (mask : ℕ) (s s' : L.Ir) where
  open L use {Ir, insts, term}

  -- What the pass leaves of a block that it gave a path condition.
  pub record Rewritten (b q : ℕ) : Type 0 where
    pub insts_eq : insts s' b ≡ insts s b ++ path_insts ids mask (term s b)
    pub term_eq : term s' b ≡ some (br q)
    pub branches : is_branch (term s b) ≡ true
    pub test : IsRegisterTest (term s b)

  -- The slot after the block's instructions, for a jump and for the two sides of a test.
  mask_after :
      (b q : ℕ) (t : Option Term) (m : ℕ → ℕ)
      → Rewritten b q
      → term s b ≡ t
      → exec env (insts s' b) m mask
        ≡ exec env (path_insts ids mask t) (exec env (insts s b) m) mask
  mask_after b q t m w e =
      rw (w.insts_eq, exec-append env (insts s b) (path_insts ids mask (term s b)) m)
        (ap (λ u. exec env (path_insts ids mask u) (exec env (insts s b) m) mask) e)

  mask_jump :
      (b q t : ℕ) (m : ℕ → ℕ)
      → Rewritten b q
      → term s b ≡ some (br t)
      → exec env (insts s' b) m mask ≡ id_of ids t
  mask_jump b q t m w e =
      mask_after b q (some (br t)) m w e ∙ exec-path_br env ids mask t (exec env (insts s b) m)

  register_of :
      (b q : ℕ) (c : Value) (t f : ℕ)
      → Rewritten b q
      → term s b ≡ some (cond_br c t f)
      → (k : ℕ) × (c ≡ register k)
  register_of b q c t f w e = subst IsRegisterTest e w.test

  -- The test has the value that it has in the run of the original.
  mask_test :
      (b q : ℕ) (c : Value) (t f : ℕ) (m m1 : ℕ → ℕ) (side : Bool)
      → Rewritten b q
      → term s b ≡ some (cond_br c t f)
      → (eval env m1 c == 0) ≡ side
      → exec env (insts s' b) m mask ≡ (if side then id_of ids f else id_of ids t)
  mask_test b q c t f m m1 side w e v =
      let (k, is) = register_of b q c t f w e in
      let value : (env (register k) == 0) ≡ side = subst (λ x. (eval env m1 x == 0) ≡ side) is v in
      mask_after b q (some (cond_br (register k) t f)) m w (e ∙ ap (λ x. some (cond_br x t f)) is)
      ∙ exec-path_cond env ids mask k t f (exec env (insts s b) m)
      ∙ ap (λ z. if z then id_of ids f else id_of ids t) value

  module _ (silent : List ℕ) where
    -- A run of the original from `t` becomes a run from the predicate block `q`, if the slot holds
    -- the id of `t`.
    abbrev Continues : ℕ → ℕ → Type 0
    Continues q t =
        (m1 m2 : ℕ → ℕ) (rest : List ℕ)
        → m2 mask ≡ id_of ids t
        → Run env L s [] t m1 rest
        → Run env L s' silent q m2 rest

    pub at_action :
        (b q : ℕ) {m m' : ℕ → ℕ} {trace : List ℕ}
        → Rewritten b q
        → contains b silent ≡ false
        → ((t : ℕ) → Memᴰ t (succs_of (term s b)) → Continues q t)
        → Run env L s [] b m trace
        → Run env L s' silent b m' trace
    unfolding succs_of is_branch
    at_action b q w loud next (returns v e tr) =
        absurd (not_branch (subst (λ t. is_branch t ≡ true) e w.branches))
      where
        not_branch : false ≡ true → ⊥
        not_branch z = cc
    at_action b q {m} {m'} w loud next (jumps t rest e tr run) =
        jumps q rest w.term_eq (rw loud tr)
          (next t (rw e (Memᴰ.head refl)) _ _ rest (mask_jump b q t m' w e) run)
    at_action b q {m} {m'} w loud next (takes c t f rest e tr v run) =
        jumps q rest w.term_eq (rw loud tr) (
          next t (rw e (Memᴰ.head refl)) _ _ rest
            (mask_test b q c t f m' (exec env (insts s b) m) false w e v) run)
    at_action b q {m} {m'} w loud next (falls c t f rest e tr v run) =
        jumps q rest w.term_eq (rw loud tr) (
          next f (rw e (Memᴰ.tail (Memᴰ.head refl))) _ _ rest
            (mask_test b q c t f m' (exec env (insts s b) m) true w e v) run)

    -- Along the chain: what the pass leaves of each action block, where the predicate blocks are
    -- silent, successors stand further on, and the last action block is the return block.
    abbrev pub Chain : ℕ → List ℕ → List ℕ → Type 0
    Chain r (a ∷ []) (p ∷ []) =
        (a ≡ r)
        × ((v : Option Value) × (term s a ≡ some (ret v)))
        × (term s' a ≡ term s a)
        × (contains p silent ≡ true)
        × (contains a silent ≡ false)
    Chain r (a ∷ b ∷ acts) (p ∷ q ∷ ps) =
        Rewritten a q
        × (contains p silent ≡ true)
        × (contains a silent ≡ false)
        × ((t : ℕ) → Memᴰ t (succs_of (term s a)) → Memᴰ t (b ∷ acts))
        × Chain r (b ∷ acts) (q ∷ ps)
    Chain r acts ps = ⊥

    at_return :
        (a : ℕ) {m m' : ℕ → ℕ} {trace : List ℕ} (v : Option Value)
        → term s a ≡ some (ret v)
        → term s' a ≡ term s a
        → contains a silent ≡ false
        → Run env L s [] a m trace
        → Run env L s' silent a m' trace
    at_return a v e same loud (returns w e' tr) = returns w (same ∙ e') (rw loud tr)
    at_return a v e same loud (jumps t rest e' tr run) = absurd (ret_ne (sym e ∙ e'))
      where
        ret_ne : some (ret v) ≡ some (br t) → ⊥
        ret_ne z = cc
    at_return a v e same loud (takes c t f rest e' tr _ run) = absurd (ret_ne (sym e ∙ e'))
      where
        ret_ne : some (ret v) ≡ some (cond_br c t f) → ⊥
        ret_ne z = cc
    at_return a v e same loud (falls c t f rest e' tr _ run) = absurd (ret_ne (sym e ∙ e'))
      where
        ret_ne : some (ret v) ≡ some (cond_br c t f) → ⊥
        ret_ne z = cc

    -- The test of `a`'s predicate block, while the slot holds the id of `x`.
    test_value :
        (a x : ℕ) (m : ℕ → ℕ)
        → m mask ≡ id_of ids x
        → eval env m (path_test mask (id_of ids a)) ≡ (if id_of ids x == id_of ids a then 1 else 0)
    test_value a x m e = rw e refl

    pub along :
        (r : ℕ) (acts : List ℕ) (p : ℕ) (ps : List ℕ)
        → ((x y : ℕ) → Memᴰ x acts → Memᴰ y acts → id_of ids x ≡ id_of ids y → x ≡ y)
        → TestChain L ids mask r s' acts (p ∷ ps)
        → Chain r acts (p ∷ ps)
        → (x : ℕ) → Memᴰ x acts
        → Continues p x
    along r [] p ps inj t c x mem = absurd c
    along r (a ∷ []) p (q ∷ ps) inj t c x mem = absurd c
    along r (a ∷ b ∷ acts) p [] inj t c x mem = absurd c
    along r (a ∷ []) p [] inj t c x mem = λ m1 m2 rest e run.
        let (is_r, (v, ends), same, hush, loud) = c in
        jumps r rest t.0 (rw hush refl)
          (rw (← is_r) (at_return a v ends same loud (rw (Memᴰ.eq_of_singleton mem) at run)))
    along r (a ∷ b ∷ acts) p (q ∷ ps) inj t c x mem = λ m1 m2 rest e run.
        let (w, hush, loud, forward, more) = c in
        let inj' = λ (y z : ℕ) (my : Memᴰ y (b ∷ acts)) (mz : Memᴰ z (b ∷ acts)).
          inj y z (Memᴰ.tail my) (Memᴰ.tail mz) in
        let next = along r (b ∷ acts) q ps inj' t.2 more in
        let keeps : exec env (insts s' p) m2 ≡ m2 = rw t.1 refl in
        elim (Bool-cases (id_of ids x == id_of ids a)) [
          | inl eq ↦
              let x_is_a : x ≡ a = inj x a mem (Memᴰ.head refl) ((==_iff _ _).0 eq) in
              takes _ a q rest t.0 (rw hush refl) (rw (keeps, test_value a x m2 e, eq) refl)
                (at_action a q w loud (λ y my. next y (forward y my)) (rw x_is_a at run))
          | inr ne ↦
              falls _ a q rest t.0 (rw hush refl) (rw (keeps, test_value a x m2 e, ne) refl)
                (rw keeps (next x (elsewhere x mem ne) m1 m2 rest e run))
        ]
      where
        elsewhere :
            (x : ℕ)
            → Memᴰ x (a ∷ b ∷ acts)
            → (id_of ids x == id_of ids a) ≡ false
            → Memᴰ x (b ∷ acts)
        elsewhere x mem ne = elim (Memᴰ.cases_cons mem) [
          | inl z ↦ absurd (true_ne (sym (==_self (id_of ids a)) ∙ rw z at ne))
          | inr later ↦ later
        ]
          where
            true_ne : true ≡ false → ⊥
            true_ne z = cc
