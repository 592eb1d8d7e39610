-- ===== src/Loops/Fresh.antt =====
-- Blocks that are created one after another differ from one another and from the old ones, and what
-- setSuccessor of src/Util.cpp leaves as it was.
use mem_opt.Common.{
  Bool-cases, ==_iff, >>=-eq-some, ℕ, ◌≡◌, ◌≢◌, refl, sym, ◌∙◌, subst, inl, inr, Option, none, some,
  Memᴰ, ◌==◌, ==_ne,
}
use mem_opt.Llvm.{Llvm, set_succ}
use mem_opt.Loops.{set_successor}

pub some_inj : {A : Type 0} (a b : A) → some a ≡ some b → b ≡ a
some_inj a b e = cc

module _ (L : Llvm) where
  open L use {
    Ir, blocks, term, set_term, insts, new_block, create_block, new_block_fresh,
    blocks-create_block,
  }

  -- A block of the function is still one after a block is created, and is not the new one.
  pub kept :
      (p : Option ℕ) (s : Ir) (b : ℕ) → Memᴰ b (blocks s) → Memᴰ b (blocks (create_block p s))
  kept p s b m = (blocks-create_block p s b).1 (inr m)

  pub created : (p : Option ℕ) (s : Ir) → Memᴰ (new_block s) (blocks (create_block p s))
  created p s = (blocks-create_block p s (new_block s)).1 (inl refl)

  pub new-ne : (s : Ir) (b : ℕ) → Memᴰ b (blocks s) → new_block s ≢ b
  new-ne s b m e = new_block_fresh s (subst (λ x. Memᴰ x (blocks s)) (sym e) m)

  -- A successor that is set in another block leaves the terminator, and no block is added.
  pub set_successor-other :
      (b succ i : ℕ) (s r : Ir) (c : ℕ)
      → set_successor L b succ i s ≡ some r
      → b ≢ c
      → term r c ≡ term s c
  unfolding set_successor
  set_successor-other b succ i s r c h ne =
      let (t, e, h') = >>=-eq-some (term s b) _ h in
      let (t', e', h'') = >>=-eq-some (set_succ i succ t) _ h' in
      rw (some_inj (set_term b t' s) r h'', L.term-set_term, ==_ne b c ne) refl

  pub blocks-set_successor :
      (b succ i : ℕ) (s r : Ir) → set_successor L b succ i s ≡ some r → blocks r ≡ blocks s
  unfolding set_successor
  blocks-set_successor b succ i s r h =
      let (t, e, h') = >>=-eq-some (term s b) _ h in
      let (t', e', h'') = >>=-eq-some (set_succ i succ t) _ h' in
      rw (some_inj (set_term b t' s) r h'') (L.blocks-set_term b t' s)

  -- A block without a terminator has no successor to set, and a success leaves it without one.
  pub set_successor-eq-none :
      (b succ i : ℕ) (s : Ir) → term s b ≡ none → set_successor L b succ i s ≡ none
  unfolding set_successor
  set_successor-eq-none b succ i s h = rw h refl

  pub set_successor-open :
      (b succ i : ℕ) (s r : Ir) (c : ℕ)
      → set_successor L b succ i s ≡ some r
      → term s c ≡ none
      → term r c ≡ none
  set_successor-open b succ i s r c h bare = elim (Bool-cases (b == c)) [
    | inl e ↦ cc (
      h,
      set_successor-eq-none b succ i s (subst (λ x. term s x ≡ none) (sym ((==_iff b c).0 e)) bare),
    )
    | inr e ↦ set_successor-other b succ i s r c h (λ z. cc (e, (==_iff b c).1 z)) ∙ bare
  ]
