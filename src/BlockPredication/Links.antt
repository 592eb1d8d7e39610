-- ===== src/BlockPredication/Links.antt =====
-- insertPredicateBlocks, setActionBlocksSuccessors and setPredBlockSuccessors: which terminators
-- they leave, and that they leave the rest of the function alone.
use mem_opt.Common.{
  ℕ, suc, ◌≡◌, ◌≢◌, refl, sym, ap, ◌∙◌, inl, inr, true, false, some, List, [], ◌∷◌, Memᴰ, ◌==◌,
  ==_ne, ==_self, arith, Distinct, length,
}
use mathlib.Core.List.Memᴰ
use mem_opt.Llvm.{Llvm, Term, br, is_branch}
use mem_opt.BlockPredication.{insert_predicate_blocks, replace_branch, link_actions}

-- All but the last item.
unfoldable pub butlast : List ℕ → List ℕ
butlast [] = []
butlast (a ∷ []) = []
butlast (a ∷ b ∷ acts) = a ∷ butlast (b ∷ acts)

pub butlast-mem : (acts : List ℕ) {c : ℕ} → Memᴰ c (butlast acts) → Memᴰ c acts
unfolding butlast
butlast-mem [] m = m
butlast-mem (a ∷ []) m = absurd (Memᴰ.not-nil m)
butlast-mem (a ∷ b ∷ acts) m = elim (Memᴰ.cases_cons m) [
  | inl e ↦ Memᴰ.head e
  | inr m' ↦ Memᴰ.tail (butlast-mem (b ∷ acts) m')
]

module _ (L : Llvm) where
  open L use {
    Ir, blocks, entry, insts, term, new_block, create_block, set_term, new_block_fresh,
    blocks-create_block, insts-create_block, term-create_block, entry-create_block, blocks-set_term,
    entry-set_term, insts-set_term, term-set_term, insts-set_insts, term-set_insts,
  }

  pub record Inserted (s : Ir) (acts ps : List ℕ) (s' : Ir) : Type 0 where
    pub length_eq : length ps ≡ length acts
    pub new : (p : ℕ) → Memᴰ p ps → ¬ Memᴰ p (blocks s)
    pub distinct : Distinct ps
    pub term_eq : (c : ℕ) → Memᴰ c (blocks s) → term s' c ≡ term s c
    pub insts_eq : (c : ℕ) → Memᴰ c (blocks s) → insts s' c ≡ insts s c
    pub empty : (p : ℕ) → Memᴰ p ps → insts s' p ≡ []
    pub entry_eq : entry s' ≡ entry s

  ne_of_fresh : (s : Ir) (c : ℕ) → Memᴰ c (blocks s) → (new_block s == c) ≡ false
  ne_of_fresh s c m = ==_ne (new_block s) c (λ e. new_block_fresh s (rw e m))

  some_ne : (a b : ℕ) → a ≢ b → some a ≢ some b
  some_ne a b ne e = ne (cc)

  pub insert_predicate_blocks_lem :
      (acts : List ℕ) (s : Ir)
      → ¬ Memᴰ (entry s) acts
      → Inserted s acts (insert_predicate_blocks L acts s).0 (insert_predicate_blocks L acts s).1
  unfolding insert_predicate_blocks
  insert_predicate_blocks_lem [] s out = record {
    length_eq = refl;
    new = λ p m. absurd (Memᴰ.not-nil m);
    distinct = tt;
    term_eq = λ c m. refl;
    insts_eq = λ c m. refl;
    empty = λ p m. absurd (Memᴰ.not-nil m);
    entry_eq = refl;
  }
  insert_predicate_blocks_lem (a ∷ acts) s out =
      let s1 = create_block (some a) s in
      let old = λ (c : ℕ) (m : Memᴰ c (blocks s)). (blocks-create_block (some a) s c).1 (inr m) in
      let self : Memᴰ (new_block s) (blocks s1) =
        (blocks-create_block (some a) s (new_block s)).1 (inl refl) in
      let entry_s1 : entry s1 ≡ entry s =
        entry-create_block (some a) s (some_ne a (entry s) (λ e. out (Memᴰ.head (sym e)))) in
      let x = insert_predicate_blocks_lem acts s1 (λ m. out (Memᴰ.tail (rw entry_s1 at m))) in
      record {
        length_eq = ap suc x.length_eq;
        new = λ p m. elim (Memᴰ.cases_cons m) [
          | inl e ↦ rw e (new_block_fresh s)
          | inr m' ↦ λ here. x.new p m' (old p here)
        ];
        distinct = (λ m. x.new (new_block s) m self, x.distinct);
        term_eq = λ c m.
            x.term_eq c (old c m) ∙ rw (term-create_block (some a) s c, ne_of_fresh s c m) refl;
        insts_eq = λ c m.
            x.insts_eq c (old c m) ∙ rw (insts-create_block (some a) s c, ne_of_fresh s c m) refl;
        empty = λ p m. elim (Memᴰ.cases_cons m) [
          | inl e ↦ rw e (
              x.insts_eq (new_block s) self
              ∙ rw (insts-create_block (some a) s (new_block s), ==_self (new_block s)) refl)
          | inr m' ↦ x.empty p m'
        ];
        entry_eq = x.entry_eq ∙ entry_s1;
      }

  -- Each action block but the last jumps to the predicate block of the next one.
  abbrev pub ActionChain : Ir → List ℕ → List ℕ → Type 0
  ActionChain s' (a ∷ b ∷ acts) (p ∷ ps) = (term s' a ≡ some (br p)) × ActionChain s' (b ∷ acts) ps
  ActionChain s' acts ps = Unit

  pub ActionChain-cong :
      (s s' : Ir) (acts ps : List ℕ)
      → ((a : ℕ) → Memᴰ a acts → term s' a ≡ term s a)
      → ActionChain s acts ps
      → ActionChain s' acts ps
  ActionChain-cong s s' [] ps h c = tt
  ActionChain-cong s s' (a ∷ []) ps h c = tt
  ActionChain-cong s s' (a ∷ b ∷ acts) [] h c = tt
  ActionChain-cong s s' (a ∷ b ∷ acts) (p ∷ ps) h c = (
    h a (Memᴰ.head refl) ∙ c.0,
    ActionChain-cong s s' (b ∷ acts) ps (λ x m. h x (Memᴰ.tail m)) c.1,
  )

  -- Only terminators of some blocks differ.
  pub record Relinked (bs : List ℕ) (s s' : Ir) : Type 0 where
    pub insts_eq : (c : ℕ) → insts s' c ≡ insts s c
    pub entry_eq : entry s' ≡ entry s
    pub term_eq : (c : ℕ) → ¬ Memᴰ c bs → term s' c ≡ term s c

  -- All blocks but the last end in a branch.
  abbrev pub BranchesButLast : Ir → List ℕ → Type 0
  BranchesButLast s (a ∷ b ∷ acts) = (is_branch (term s a) ≡ true) × BranchesButLast s (b ∷ acts)
  BranchesButLast s acts = Unit

  BranchesButLast-cong :
      (s s' : Ir) (acts : List ℕ)
      → ((a : ℕ) → Memᴰ a acts → term s' a ≡ term s a)
      → BranchesButLast s acts
      → BranchesButLast s' acts
  BranchesButLast-cong s s' [] h c = tt
  BranchesButLast-cong s s' (a ∷ []) h c = tt
  BranchesButLast-cong s s' (a ∷ b ∷ acts) h c = (
    rw (h a (Memᴰ.head refl)) c.0,
    BranchesButLast-cong s s' (b ∷ acts) (λ x m. h x (Memᴰ.tail m)) c.1,
  )

  pub replace_branch_lem :
      (a p : ℕ) (s : Ir)
      → is_branch (term s a) ≡ true
      → replace_branch L a p s ≡ some (set_term a (br p) s)
  unfolding replace_branch
  replace_branch_lem a p s h = rw h

  pub set_term-Relinked : (a : ℕ) (t : Term) (s : Ir) → Relinked (a ∷ []) s (set_term a t s)
  set_term-Relinked a t s = record {
    insts_eq = insts-set_term a t s;
    entry_eq = entry-set_term a t s;
    term_eq = λ c out. rw (term-set_term a t s c, ==_ne a c (λ e. out (Memᴰ.head (sym e)))) refl;
  }

  pub term-set_term_self : (a : ℕ) (t : Term) (s : Ir) → term (set_term a t s) a ≡ some t
  term-set_term_self a t s = rw (term-set_term a t s a, ==_self a) refl

  pub link_actions_lem :
      (acts ps : List ℕ) (s : Ir)
      → length acts ≡ suc (length ps)
      → Distinct acts
      → BranchesButLast s acts
      → (s' : Ir) × (link_actions L acts ps s ≡ some s')
        × Relinked (butlast acts) s s'
        × ActionChain s' acts ps
  unfolding link_actions butlast
  link_actions_lem [] ps s n d h = cc
  link_actions_lem (a ∷ []) ps s n d h =
      (s, refl, record { insts_eq = λ c. refl; entry_eq = refl; term_eq = λ c out. refl }, tt)
  link_actions_lem (a ∷ b ∷ acts) [] s n d h = absurd (omega arith)
  link_actions_lem (a ∷ b ∷ acts) (p ∷ ps) s n d h =
      let s1 = set_term a (br p) s in
      let first = set_term-Relinked a (br p) s in
      let keep = λ (c : ℕ) (m : Memᴰ c (b ∷ acts)).
        first.term_eq c (λ e. d.0 (rw (← Memᴰ.eq_of_singleton e) m)) in
      let (s', eq, x, chain) =
        link_actions_lem (b ∷ acts) ps s1 (omega arith) d.1
          (BranchesButLast-cong s s1 (b ∷ acts) keep h.1) in
      (
        s',
        rw (replace_branch_lem a p s h.0) eq,
        record {
          insts_eq = λ c. x.insts_eq c ∙ first.insts_eq c;
          entry_eq = x.entry_eq ∙ first.entry_eq;
          term_eq = λ c out.
              x.term_eq c (λ m. out (Memᴰ.tail m))
              ∙ first.term_eq c (λ m. out (Memᴰ.head (Memᴰ.eq_of_singleton m)));
        },
        (x.term_eq a (λ m. d.0 (butlast-mem (b ∷ acts) m)) ∙ term-set_term_self a (br p) s, chain),
      )
