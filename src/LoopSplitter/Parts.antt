-- ===== src/LoopSplitter/Parts.antt =====
-- How many parts a body has, and what `run` does with too few.
use mem_opt.Common.{
  ℕ, zero, suc, ◌≤◌, ◌<◌, ◌≡◌, ◌≢◌, refl, sym, ap, ◌∙◌, subst, inl, inr, true, ◌||◌, none, some,
  List, [], ◌∷◌, ◌++◌, Memᴰ, ◌==◌, ==_ne, ==_iff, ◌>>=◌, if◌then◌else◌, contains, length, arith,
  Bool-cases, Option-cases, Distinct,
}
use mem_opt.Llvm.{Llvm}
use mem_opt.Loops.{IrLoop, set_loop_blocks}
use mem_opt.LoopSplitter.{pop_back, assign_parts, construct_loops}
use mem_opt.LoopSplitter.Straight.{parts}

erase : ℕ → List ℕ → List ℕ
erase b [] = []
erase b (x ∷ xs) = if b == x then xs else x ∷ erase b xs

length-erase : (b : ℕ) (xs : List ℕ) → contains b xs ≡ true → suc (length (erase b xs)) ≡ length xs
unfolding erase
length-erase b [] h = cc
length-erase b (x ∷ xs) h = elim (Bool-cases (b == x)) [
  | inl same ↦ rw same refl
  | inr other ↦ rw (erase, other) (ap (λ n. suc n) (length-erase b xs (rw other at h)))
]

contains-erase : (c b : ℕ) (xs : List ℕ) → c ≢ b → contains c (erase b xs) ≡ contains c xs
unfolding erase
contains-erase c b [] ne = refl
contains-erase c b (x ∷ xs) ne = elim (Bool-cases (b == x)) [
  | inl same ↦ rw (same, ==_ne c x (λ e. ne (e ∙ sym ((==_iff b x).0 same)))) refl
  | inr other ↦ rw (erase, other) (ap (λ t. c == x || t) (contains-erase c b xs ne))
]

-- A body whose blocks are distinct has at most as many parts as there are end blocks.
length-parts :
    (ends left current bs : List ℕ)
    → Distinct bs
    → ((b : ℕ) → Memᴰ b bs → contains b ends ≡ contains b left)
    → length (parts ends current bs) ≤ length left
length-parts ends left current [] d same = omega arith
length-parts ends left current (b ∷ bs) (fresh, d) same = elim (Bool-cases (contains b ends)) [
  | inl closes ↦ rw closes (
      omega (
        arith,
        length-erase b left (sym (same b (Memᴰ.head refl)) ∙ closes),
        length-parts ends (erase b left) [] bs d (λ c m.
            same c (Memᴰ.tail m)
            ∙ sym (contains-erase c b left (λ e. fresh (subst (λ x. Memᴰ x bs) e m)))),
      ))
  | inr goes_on ↦
      rw goes_on (length-parts ends left (current ++ b ∷ []) bs d (λ c m. same c (Memᴰ.tail m)))
]

pub length-parts-le : (ends bs : List ℕ) → Distinct bs → length (parts ends [] bs) ≤ length ends
length-parts-le ends bs d = length-parts ends ends [] bs d (λ b m. refl)

some_inj : {A : Type 0} (a b : A) → some a ≡ some b → b ≡ a
some_inj a b e = cc

pub length-pop_back : (xs ys : List (List ℕ)) → pop_back xs ≡ some ys → suc (length ys) ≡ length xs
length-pop_back [] ys h = cc
length-pop_back (x ∷ []) ys h = rw (some_inj [] ys h) refl
length-pop_back (x ∷ y ∷ xs) ys h = elim (Option-cases (pop_back (y ∷ xs))) [
  | inl e ↦ cc (rw e at h)
  | inr (zs, e) ↦
      rw (some_inj (x ∷ zs) ys (rw e at h)) (ap (λ n. suc n) (length-pop_back (y ∷ xs) zs e))
]

module _ (L : Llvm) where
  pub length-construct_loops :
      (n tc idx : ℕ) (parent : IrLoop) (s : L.Ir)
      → length ((construct_loops L n tc idx parent s).0) ≡ suc n
  unfolding construct_loops
  length-construct_loops zero tc idx parent s = refl
  length-construct_loops (suc n) tc idx parent s =
      ap (λ k. suc k) (length-construct_loops n tc idx parent _)

  -- With fewer parts than loops, LoopBlocks is read past its end.
  pub assign_parts-eq-none :
      (ls : List IrLoop) (ps : List (List ℕ)) (s : L.Ir)
      → length ps < length ls
      → assign_parts L ls ps s ≡ none
  unfolding assign_parts
  assign_parts-eq-none [] ps s h = absurd (omega (arith, h))
  assign_parts-eq-none (l ∷ ls) [] s h = refl
  assign_parts-eq-none (l ∷ ls) (p ∷ ps) s h = elim (Option-cases (set_loop_blocks L p l s)) [
    | inl e ↦ rw (assign_parts, e, ◌>>=◌) refl
    | inr (r, e) ↦
        rw (assign_parts, e, ◌>>=◌)
          (rw (assign_parts-eq-none ls ps r.1 (omega (arith, h)), ◌>>=◌) refl)
  ]
