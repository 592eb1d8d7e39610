-- ===== src/ExitNodes/Unified.antt =====
-- What unifyFunctionExitNodes leaves: one return block and one unreachable block at most.
use mem_opt.Common.{
  ℕ, ◌≡◌, refl, sym, ap, ◌∙◌, ◌⊎◌, inl, inr, Bool, true, Option, none, some, List, [], ◌∷◌, Memᴰ,
  ◌==◌, Bool-cases, >>=-eq-some, if◌then◌else◌, contains, subst, arith,
}
use mathlib.Core.List.Memᴰ
use mem_opt.Llvm.{Llvm, Value, Inst, Term, phi_of, phi, ret, br}
use mem_opt.ExitNodes.{
  add_incoming, return_operand, select_blocks, branch_all, merge_returns, unify_returns,
}

pub branch_step :
    (x : Option Term) (new b c : ℕ) (bs : List ℕ)
    → (if contains c bs then some (br new) else (if b == c then some (br new) else x))
      ≡ (if contains c (b ∷ bs) then some (br new) else x)
branch_step x new b c bs = ground arith

pub some_inj : {A : Type 0} (a b : A) → some a ≡ some b → a ≡ b
some_inj a b e = ap (λ o. elim o [ none ↦ a | some x ↦ x ]) e

module _ (L : Llvm) where
  open L use {
    Ir, blocks, insts, term, returns_void, new_block, create_block, set_term, set_insts,
    blocks-create_block, term-create_block, blocks-set_term, term-set_term, blocks-set_insts,
    term-set_insts,
  }

  -- What the selection holds: the blocks that pass the test.
  pub select_blocks-mem :
      (test : Option Term → Bool) (s : Ir) (bs : List ℕ) {b : ℕ}
      → Memᴰ b (select_blocks L test s bs)
      → (test (term s b) ≡ true) × Memᴰ b bs
  unfolding select_blocks
  select_blocks-mem test s [] m = absurd (Memᴰ.not-nil m)
  select_blocks-mem test s (x ∷ bs) {b} m = elim (Bool-cases (test (term s x))) [
    | inl e ↦ elim (Memᴰ.cases_cons (rw (e, select_blocks) at m)) [
      | inl here ↦ (rw here e, Memᴰ.head here)
      | inr later ↦ let (h, k) = select_blocks-mem test s bs later in (h, Memᴰ.tail k)
    ]
    | inr e ↦
        let (h, k) = select_blocks-mem test s bs (rw (e, select_blocks) at m) in (h, Memᴰ.tail k)
  ]

  -- And every such block is in it.
  pub select_blocks-complete :
      (test : Option Term → Bool) (s : Ir) (bs : List ℕ) (b : ℕ)
      → Memᴰ b bs
      → test (term s b) ≡ true
      → Memᴰ b (select_blocks L test s bs)
  unfolding select_blocks
  select_blocks-complete test s [] b m e = absurd (Memᴰ.not-nil m)
  select_blocks-complete test s (x ∷ bs) b m e = elim (Memᴰ.cases_cons m) [
    | inl z ↦ rw (subst (λ y. test (term s y) ≡ true) z e, select_blocks) (Memᴰ.head z)
    | inr m' ↦ elim (Bool-cases (test (term s x))) [
      | inl t ↦ rw (t, select_blocks) (Memᴰ.tail (select_blocks-complete test s bs b m' e))
      | inr f ↦ rw (f, select_blocks) (select_blocks-complete test s bs b m' e)
    ]
  ]

  -- Blocks that all end in a branch to one block.
  pub term-branch_all :
      (new : ℕ) (bs : List ℕ) (s : Ir) (c : ℕ)
      → term (branch_all L new bs s) c ≡ (if contains c bs then some (br new) else term s c)
  unfolding branch_all
  term-branch_all new [] s c = refl
  term-branch_all new (b ∷ bs) s c =
      term-branch_all new bs (set_term b (br new) s) c
      ∙ ap (λ t. if contains c bs then some (br new) else t) (term-set_term b (br new) s c)
      ∙ branch_step (term s c) new b c bs

  pub blocks-branch_all :
      (new : ℕ) (bs : List ℕ) (s : Ir) → blocks (branch_all L new bs s) ≡ blocks s
  unfolding branch_all
  blocks-branch_all new [] s = refl
  blocks-branch_all new (b ∷ bs) s =
      blocks-branch_all new bs (set_term b (br new) s) ∙ blocks-set_term b (br new) s

  pub term-merge_returns :
      (new : ℕ) (bs : List ℕ) (s s' : Ir) (c : ℕ)
      → merge_returns L new bs s ≡ some s'
      → term s' c ≡ (if contains c bs then some (br new) else term s c)
  unfolding merge_returns
  term-merge_returns new [] s s' c e = ap (λ t. term t c) (sym (some_inj s s' e))
  term-merge_returns new (b ∷ bs) s s' c e =
      let (v, _, e') = >>=-eq-some (return_operand (term s b)) _ e in
      let s1 = set_insts b' (insts' v) s in
      term-merge_returns new bs (set_term b (br new) s1) s' c e'
      ∙ ap (λ t. if contains c bs then some (br new) else t)
          (term-set_term b (br new) s1 c
            ∙ ap (λ t. if b == c then some (br new) else t) (term-set_insts b' (insts' v) s c))
      ∙ branch_step (term s c) new b c bs
    where
      b' : ℕ
      b' = new

      insts' : Value → List Inst
      insts' v = add_incoming v b (insts s new)

  blocks-merge_returns :
      (new : ℕ) (bs : List ℕ) (s s' : Ir)
      → merge_returns L new bs s ≡ some s'
      → blocks s' ≡ blocks s
  unfolding merge_returns
  blocks-merge_returns new [] s s' e = ap blocks (sym (some_inj s s' e))
  blocks-merge_returns new (b ∷ bs) s s' e =
      let (v, _, e') = >>=-eq-some (return_operand (term s b)) _ e in
      let l = add_incoming v b (insts s new) in
      blocks-merge_returns new bs (set_term b (br new) (set_insts new l s)) s' e'
      ∙ blocks-set_term b (br new) (set_insts new l s)
      ∙ blocks-set_insts new l s

  -- The function with a new return block behind the blocks that returned.
  pub record Merged (new : ℕ) (rs : List ℕ) (s s' : Ir) : Type 0 where
    pub value : Option Value
    pub term_eq :
        (c : ℕ)
        → term s' c ≡ (
            if contains c rs
            then some (br new)
            else if new == c
            then some (ret value)
            else term s c)
    pub blocks_iff : (c : ℕ) → Memᴰ c (blocks s') → (c ≡ new) ⊎ Memᴰ c (blocks s)
    pub blocks_keep : (c : ℕ) → Memᴰ c (blocks s) → Memᴰ c (blocks s')

  pub some_pair :
      {A B : Type 0} (a c : A) (b d : B)
      → ◌≡◌ {A = Option (A × B)} (some (a, b)) (some (c, d))
      → (a ≡ c) × (b ≡ d)
  some_pair {A} {B} a c b d e = (
    ap (λ z. z.0) (some_inj {A = A × B} (a, b) (c, d) e),
    ap (λ z. z.1) (some_inj {A = A × B} (a, b) (c, d) e),
  )

  return_step :
      (x : Option Term) (new c : ℕ) (v : Option Value)
      → (if new == c then some (ret v) else (if new == c then none else x))
        ≡ (if new == c then some (ret v) else x)
  return_step x new c v = ground arith

  pub blocks_back :
      (s : Ir) (c : ℕ)
      → Memᴰ c (blocks (create_block none s))
      → (c ≡ new_block s) ⊎ Memᴰ c (blocks s)
  blocks_back s c = (blocks-create_block none s c).0

  -- The new block, returning `v`, before the branches into it.
  returning_term :
      (s : Ir) (v : Option Value) (c : ℕ)
      → term (set_term (new_block s) (ret v) (create_block none s)) c
        ≡ (if new_block s == c then some (ret v) else term s c)
  returning_term s v c =
      term-set_term (new_block s) (ret v) (create_block none s) c
      ∙ ap (λ t. if new_block s == c then some (ret v) else t) (term-create_block none s c)
      ∙ return_step (term s c) (new_block s) c v

  Merged-void :
      (bs : List ℕ) (s : Ir)
      → Merged
          (new_block s)
          bs
          s
          (branch_all L (new_block s) bs (set_term (new_block s) (ret none) (create_block none s)))
  Merged-void bs s =
      let s1 = set_term (new_block s) (ret none) (create_block none s) in
      record {
        value = none;
        term_eq = λ c.
            term-branch_all (new_block s) bs s1 c
            ∙ ap (λ t. if contains c bs then some (br (new_block s)) else t)
                (returning_term s none c);
        blocks_iff = λ c m. blocks_back s c (
            rw
              (blocks-branch_all (new_block s) bs s1
                ∙ blocks-set_term (new_block s) (ret none) (create_block none s))
              at m);
        blocks_keep = λ c m.
            rw
              (blocks-branch_all (new_block s) bs s1
                ∙ blocks-set_term (new_block s) (ret none) (create_block none s))
              ((blocks-create_block none s c).1 (inr m));
      }

  Merged-value :
      (bs : List ℕ) (s s' : Ir)
      → merge_returns L (new_block s) bs (
          set_term
            (new_block s)
            (ret (some (phi_of (new_block s))))
            (set_insts (new_block s) (phi [] ∷ []) (create_block none s)))
        ≡ some s'
      → Merged (new_block s) bs s s'
  Merged-value bs s s' e =
      let new = new_block s in
      let v = some (phi_of new) in
      let l = phi [] ∷ [] in
      let s0 = set_insts new l (create_block none s) in
      record {
        value = v;
        term_eq = λ c.
            term-merge_returns new bs (set_term new (ret v) s0) s' c e
            ∙ ap (λ t. if contains c bs then some (br new) else t)
                (term-set_term new (ret v) s0 c
                  ∙ ap (λ t. if new == c then some (ret v) else t)
                      (term-set_insts new l (create_block none s) c ∙ term-create_block none s c)
                  ∙ return_step (term s c) new c v);
        blocks_iff = λ c m. blocks_back s c (
            rw
              (blocks-merge_returns new bs (set_term new (ret v) s0) s' e
                ∙ blocks-set_term new (ret v) s0
                ∙ blocks-set_insts new l (create_block none s))
              at m);
        blocks_keep = λ c m.
            rw
              (blocks-merge_returns new bs (set_term new (ret v) s0) s' e
                ∙ blocks-set_term new (ret v) s0
                ∙ blocks-set_insts new l (create_block none s))
              ((blocks-create_block none s c).1 (inr m));
      }

  pub unify_returns_many :
      (a b : ℕ) (bs : List ℕ) (s s' : Ir) (r : Option ℕ)
      → unify_returns L (a ∷ b ∷ bs) s ≡ some (s', r)
      → (r ≡ some (new_block s)) × Merged (new_block s) (a ∷ b ∷ bs) s s'
  unfolding unify_returns
  unify_returns_many a b bs s s' r e = elim (Bool-cases (returns_void s)) [
    | inl void ↦
        let (same, is_r) = some_pair _ s' _ r (rw (void, unify_returns) at e) in
        (sym is_r, subst (Merged (new_block s) (a ∷ b ∷ bs) s) same (Merged-void (a ∷ b ∷ bs) s))
    | inr value ↦
        let (t, e1, e2) = >>=-eq-some _ _ (rw (value, unify_returns) at e) in
        let (same, is_r) = some_pair t s' (some (new_block s)) r e2 in
        (
          sym is_r,
          subst (Merged (new_block s) (a ∷ b ∷ bs) s) same (Merged-value (a ∷ b ∷ bs) s t e1),
        )
  ]
