-- ===== src/BlockPredication/Order.antt =====
-- The order of the action blocks of an input: the return block stands last, and only there.
use mem_opt.Common.{
  ℕ, ◌<◌, ◌≡◌, ◌≢◌, refl, sym, inl, inr, true, false, List, [], ◌∷◌, Memᴰ, ◌==◌, ==_iff, Bool-cases,
  arith, Distinct, length,
}
use mathlib.Core.List.Memᴰ
use mem_opt.Llvm.{Llvm, succs_of, is_branch}
use mem_opt.BlockPredication.Links.{BranchesButLast, butlast}
use mem_opt.BlockPredication.Input.{IsForward, IsInput, branch_succ}

abbrev pub LastIs : ℕ → List ℕ → Type 0
LastIs r [] = ⊥
LastIs r (a ∷ []) = a ≡ r
LastIs r (a ∷ b ∷ acts) = LastIs r (b ∷ acts)

pub LastIs-mem : (r : ℕ) (acts : List ℕ) → LastIs r acts → Memᴰ r acts
LastIs-mem r [] h = absurd h
LastIs-mem r (a ∷ []) h = Memᴰ.head (sym h)
LastIs-mem r (a ∷ b ∷ acts) h = Memᴰ.tail (LastIs-mem r (b ∷ acts) h)

-- In front of the last place stands another block.
pub LastIs-ne : (r a b : ℕ) (acts : List ℕ) → LastIs r (b ∷ acts) → Distinct (a ∷ b ∷ acts) → a ≢ r
LastIs-ne r a b acts h d e = d.0 (rw e (LastIs-mem r (b ∷ acts) h))

pub butlast-not-last :
    (r : ℕ) (acts : List ℕ) → LastIs r acts → Distinct acts → ¬ Memᴰ r (butlast acts)
unfolding butlast
butlast-not-last r [] h d m = absurd h
butlast-not-last r (a ∷ []) h d m = absurd (Memᴰ.not-nil m)
butlast-not-last r (a ∷ b ∷ acts) h d m = elim (Memᴰ.cases_cons m) [
  | inl e ↦ LastIs-ne r a b acts h d (sym e)
  | inr m' ↦ butlast-not-last r (b ∷ acts) h d.1 m'
]

module _ (L : Llvm) (s : L.Ir) (r : ℕ) where
  open L use {term}

  pub LastIs-of_forward :
      (a : ℕ) (acts : List ℕ)
      → IsForward L s (a ∷ acts)
      → ((b : ℕ) → Memᴰ b (a ∷ acts) → b ≢ r → is_branch (term s b) ≡ true)
      → LastIs r (a ∷ acts)
  LastIs-of_forward a [] f h = elim (Bool-cases (a == r)) [
    | inl e ↦ (==_iff a r).0 e
    | inr e ↦
        let (t, m) = branch_succ (term s a) (h a (Memᴰ.head refl) (λ z. ne_of_test z e)) in
        absurd (Memᴰ.not-nil (f.0 t m))
  ]
    where
      ne_of_test : a ≡ r → (a == r) ≡ false → ⊥
      ne_of_test z e = ground arith
  LastIs-of_forward a (b ∷ acts) f h = LastIs-of_forward b acts f.1 (λ x m. h x (Memᴰ.tail m))

  pub BranchesButLast-of_last :
      (acts : List ℕ)
      → LastIs r acts
      → Distinct acts
      → ((b : ℕ) → Memᴰ b acts → b ≢ r → is_branch (term s b) ≡ true)
      → BranchesButLast L s acts
  BranchesButLast-of_last [] l d h = tt
  BranchesButLast-of_last (a ∷ []) l d h = tt
  BranchesButLast-of_last (a ∷ b ∷ acts) l d h = (
    h a (Memᴰ.head refl) (LastIs-ne r a b acts l d),
    BranchesButLast-of_last (b ∷ acts) l d.1 (λ x m. h x (Memᴰ.tail m)),
  )

some_mem : (xs : List ℕ) → 1 < length xs → (t : ℕ) × Memᴰ t xs
some_mem [] n = absurd (omega arith)
some_mem (x ∷ xs) n = (x, Memᴰ.head refl)

module _ (L : Llvm) (s : L.Ir) (r : ℕ) where
  -- The entry block's successors are action blocks, so there is one.
  pub actions-ne-nil : (actions : List ℕ) → IsInput L s actions r → ¬ (actions ≡ [])
  actions-ne-nil actions h e =
      let (t, m) = some_mem (succs_of (L.term s (L.entry s))) h.entry_splits in
      Memᴰ.not-nil (rw e at (h.forward.0 t m))

  pub actions-LastIs : (actions : List ℕ) → IsInput L s actions r → LastIs r actions
  actions-LastIs [] h = absurd (actions-ne-nil [] h refl)
  actions-LastIs (a ∷ acts) h =
      LastIs-of_forward L s r a acts h.forward.1
        (λ b m. h.branches b (h.all_blocks b (Memᴰ.tail m)))
