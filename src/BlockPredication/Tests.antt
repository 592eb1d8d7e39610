-- ===== src/BlockPredication/Tests.antt =====
-- setPredBlockSuccessors: the tests on the path id, one predicate block after the other.
use mem_opt.Common.{
  ℕ, ◌≡◌, ◌≢◌, refl, sym, ap, ◌∙◌, some, List, [], ◌∷◌, ◌++◌, Memᴰ, ==_ne, ==_self, arith, Distinct,
  length,
}
use mem_opt.Llvm.{Llvm, Inst, compute, load, br, cond_br}
use mem_opt.BlockPredication.{append_insts, set_pred_block_successors, path_test}
use mem_opt.BlockPredication.Conditions.{AllMapped, id_of}
use mem_opt.BlockPredication.Links.{term-set_term_self}

abbrev test_insts : ℕ → ℕ → List Inst
test_insts mask i = compute (load mask) ∷ compute (path_test mask i) ∷ []

module _ (L : Llvm) (ids : List (ℕ × ℕ)) (mask r : ℕ) where
  open L use {
    Ir, entry, insts, term, set_term, set_insts, entry-set_term, entry-set_insts, insts-set_term,
    term-set_term, insts-set_insts, term-set_insts,
  }

  -- The predicate block of `a` computes nothing but the test, and goes to `a` or to the next
  -- predicate block; the last one goes to the return block.
  abbrev pub TestChain : Ir → List ℕ → List ℕ → Type 0
  TestChain s' (a ∷ []) (p ∷ []) = (term s' p ≡ some (br r)) × (insts s' p ≡ [])
  TestChain s' (a ∷ b ∷ acts) (p ∷ q ∷ ps) =
      (term s' p ≡ some (cond_br (path_test mask (id_of ids a)) a q))
      × (insts s' p ≡ test_insts mask (id_of ids a))
      × TestChain s' (b ∷ acts) (q ∷ ps)
  TestChain s' acts ps = ⊥

  pub record Tested (ps : List ℕ) (s s' : Ir) : Type 0 where
    pub insts_eq : (c : ℕ) → ¬ Memᴰ c ps → insts s' c ≡ insts s c
    pub term_eq : (c : ℕ) → ¬ Memᴰ c ps → term s' c ≡ term s c
    pub entry_eq : entry s' ≡ entry s

  -- One round, before the next ones.
  abbrev tested : ℕ → ℕ → ℕ → ℕ → Ir → Ir
  tested p i a q s =
      set_term p (cond_br (path_test mask i) a q) (append_insts L p (test_insts mask i) s)

  tested_elsewhere :
      (p i a q : ℕ) (s : Ir) (c : ℕ)
      → c ≢ p
      → (insts (tested p i a q s) c ≡ insts s c) × (term (tested p i a q s) c ≡ term s c)
  tested_elsewhere p i a q s c ne =
      let differ = ==_ne p c (λ e. ne (sym e)) in
      (
        insts-set_term p _ _ c
            ∙ rw (insts-set_insts p (insts s p ++ test_insts mask i) s c, differ) refl,
        rw
            (
              term-set_term p (cond_br (path_test mask i) a q)
                  (append_insts L p (test_insts mask i) s) c,
              differ,
            )
            (term-set_insts p (insts s p ++ test_insts mask i) s c),
      )

  tested_here :
      (p i a q : ℕ) (s : Ir) → insts s p ≡ [] → insts (tested p i a q s) p ≡ test_insts mask i
  tested_here p i a q s e =
      insts-set_term p _ _ p
      ∙ rw (insts-set_insts p (insts s p ++ test_insts mask i) s p, ==_self p) (rw e refl)

  pub set_pred_block_successors_lem :
      (acts ps : List ℕ) (s : Ir)
      → ¬ (acts ≡ [])
      → length ps ≡ length acts
      → Distinct ps
      → AllMapped ids acts
      → ((p : ℕ) → Memᴰ p ps → insts s p ≡ [])
      → (s' : Ir) × (set_pred_block_successors L ids mask (some r) acts ps s ≡ some s')
        × Tested ps s s'
        × TestChain s' acts ps
  unfolding set_pred_block_successors
  set_pred_block_successors_lem [] ps s ne n d h e = absurd (ne refl)
  set_pred_block_successors_lem (a ∷ acts) [] s ne n d h e = absurd (omega arith)
  set_pred_block_successors_lem (a ∷ []) (p ∷ q ∷ ps) s ne n d h e = absurd (omega arith)
  set_pred_block_successors_lem (a ∷ b ∷ acts) (p ∷ []) s ne n d h e = absurd (omega arith)
  set_pred_block_successors_lem (a ∷ []) (p ∷ []) s ne n d h e = (
    set_term p (br r) s,
    refl,
    record {
      insts_eq = λ c out. insts-set_term p (br r) s c;
      term_eq =
          λ c out. rw (term-set_term p (br r) s c, ==_ne p c (λ x. out (Memᴰ.head (sym x)))) refl;
      entry_eq = entry-set_term p (br r) s;
    },
    (term-set_term_self L p (br r) s, insts-set_term p (br r) s p ∙ e p (Memᴰ.head refl)),
  )
  set_pred_block_successors_lem (a ∷ b ∷ acts) (p ∷ q ∷ ps) s ne n d h e =
      let (i, found) = h a (Memᴰ.head refl) in
      let same : id_of ids a ≡ i = rw (found, id_of) refl in
      let s1 = tested p i a q s in
      let keep = λ (c : ℕ) (m : Memᴰ c (q ∷ ps)). λ (z : c ≡ p). d.0 (rw z at m) in
      let (s', eq, x, chain) =
        set_pred_block_successors_lem (b ∷ acts) (q ∷ ps) s1 (λ z. cc) (omega arith) d.1
          (λ t m. h t (Memᴰ.tail m))
          (λ c m. (tested_elsewhere p i a q s c (keep c m)).0 ∙ e c (Memᴰ.tail m)) in
      (
        s',
        rw found eq,
        record {
          insts_eq = λ c out.
              x.insts_eq c (λ m. out (Memᴰ.tail m))
              ∙ (tested_elsewhere p i a q s c (λ z. out (Memᴰ.head z))).0;
          term_eq = λ c out.
              x.term_eq c (λ m. out (Memᴰ.tail m))
              ∙ (tested_elsewhere p i a q s c (λ z. out (Memᴰ.head z))).1;
          entry_eq =
              x.entry_eq
              ∙ entry-set_term p _ _
              ∙ entry-set_insts p (insts s p ++ test_insts mask i) s;
        },
        (
          x.term_eq p d.0
              ∙ term-set_term_self L p _ _
              ∙ ap (λ k. some (cond_br (path_test mask k) a q)) (sym same),
          x.insts_eq p d.0
              ∙ tested_here p i a q s (e p (Memᴰ.head refl))
              ∙ ap (λ k. test_insts mask k) (sym same),
          chain,
        ),
      )
