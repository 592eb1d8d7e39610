-- ===== src/Llvm/Toy.antt =====
-- A function store that meets the laws of the interface: the laws can hold, and the definitions run.
use Prim.Native.Nat.{max}
use mem_opt.Common.{
  ℕ, suc, ◌≤◌, ◌≡◌, refl, inl, inr, Bool, true, false, Option, none, some, List, [], ◌∷◌, Memᴰ,
  ◌==◌, Bool-cases, if◌then◌else◌, arith, Memᴰ-cons, contains, contains_of_mem,
}
use mathlib.Core.List.Memᴰ
use mem_opt.PhiNodes.{Phi}
use mem_opt.Llvm.Syntax.{Llvm, Inst, Term, br, take, drop, succs_of}

pub record ToyFunction : Type 0 where
  pub layout : List ℕ
  pub first : ℕ
  pub code : ℕ → List Inst
  pub ends : ℕ → Option Term
  pub order : List ℕ
  pub void : Bool
  pub slot : ℕ
  -- the PHI nodes with their blocks
  pub nodes : List (ℕ × Phi)

abbrev pub greatest : List ℕ → ℕ
greatest [] = 0
greatest (x ∷ xs) = max x (greatest xs)

le-greatest : (x : ℕ) (xs : List ℕ) → Memᴰ x xs → x ≤ greatest xs
le-greatest x [] m = absurd (Memᴰ.not-nil m)
le-greatest x (y ∷ xs) m = elim (Memᴰ.cases_cons m) [
  | inl e ↦ omega arith
  | inr m' ↦ omega (arith, le-greatest x xs m')
]

abbrev pub toy_new_block : ToyFunction → ℕ
toy_new_block s = suc (greatest s.layout)

abbrev pub toy_create_block : Option ℕ → ToyFunction → ToyFunction
toy_create_block p s = record s {
  layout = toy_new_block s ∷ s.layout;
  code = λ b. if toy_new_block s == b then [] else s.code b;
  ends = λ b. if toy_new_block s == b then none else s.ends b;
}

abbrev pub toy_split_block : ℕ → ℕ → ToyFunction → ToyFunction
toy_split_block b i s = record s {
  layout = toy_new_block s ∷ s.layout;
  code = λ c.
      if toy_new_block s == c
      then drop i (s.code b)
      else if b == c
      then take i (s.code b)
      else s.code c;
  ends = λ c.
      if toy_new_block s == c
      then s.ends b
      else if b == c
      then some (br (toy_new_block s))
      else s.ends c;
}

abbrev pub toy_preds : ToyFunction → ℕ → List ℕ → List ℕ
toy_preds s b [] = []
toy_preds s b (u ∷ us) =
    if contains b (succs_of (s.ends u)) then u ∷ toy_preds s b us else toy_preds s b us

pub toy_preds-mem :
    (s : ToyFunction) (b : ℕ) (us : List ℕ) (u : ℕ)
    → Memᴰ u us
    → Memᴰ b (succs_of (s.ends u))
    → Memᴰ u (toy_preds s b us)
toy_preds-mem s b [] u m e = absurd (Memᴰ.not-nil m)
toy_preds-mem s b (v ∷ us) u m e = elim (Bool-cases (contains b (succs_of (s.ends v)))) [
  | inl here ↦ rw here (elim (Memᴰ.cases_cons m) [
    | inl z ↦ Memᴰ.head z
    | inr m' ↦ Memᴰ.tail (toy_preds-mem s b us u m' e)
  ])
  | inr other ↦ rw other (elim (Memᴰ.cases_cons m) [
    | inl z ↦ absurd (clash (contains_of_mem b (succs_of (s.ends v)) (rw z at e)) other)
    | inr m' ↦ toy_preds-mem s b us u m' e
  ])
]
  where
    clash : contains b (succs_of (s.ends v)) ≡ true → contains b (succs_of (s.ends v)) ≡ false → ⊥
    clash p q = cc

pub not_new : (s : ToyFunction) → ¬ Memᴰ (toy_new_block s) s.layout
not_new s m = absurd (omega (arith, le-greatest (toy_new_block s) s.layout m))

abbrev pub toy : Llvm
toy = record {
  Ir = ToyFunction;
  null = 999;
  blocks = λ s. s.layout;
  entry = λ s. s.first;
  insts = λ s. s.code;
  term = λ s. s.ends;
  returns_void = λ s. s.void;
  preds = λ s b. toy_preds s b s.layout;
  rpo = λ s. s.order;
  new_block = toy_new_block;
  create_block = toy_create_block;
  new_slot = λ s. s.slot;
  split_block = toy_split_block;
  blocks-split_block = λ b i s c. Memᴰ-cons c (toy_new_block s) s.layout;
  entry-split_block = λ b i s. refl;
  insts-split_block = λ b i s c h. refl;
  term-split_block = λ b i s c. refl;
  set_term = λ b t s. record s { ends = λ c. if b == c then some t else s.ends c };
  set_insts = λ b l s. record s { code = λ c. if b == c then l else s.code c };
  new_block_fresh = not_new;
  blocks-create_block = λ p s b. Memᴰ-cons b (toy_new_block s) s.layout;
  insts-create_block = λ p s b. refl;
  term-create_block = λ p s b. refl;
  entry-create_block = λ p s h. refl;
  blocks-set_term = λ b t s. refl;
  entry-set_term = λ b t s. refl;
  insts-set_term = λ b t s c. refl;
  term-set_term = λ b t s c. refl;
  blocks-set_insts = λ b l s. refl;
  entry-set_insts = λ b l s. refl;
  term-set_insts = λ b l s c. refl;
  insts-set_insts = λ b l s c. refl;
  rpo-set_insts = λ b l s. refl;
  mem-preds = λ s u b m e. toy_preds-mem s b s.layout u m e;
}
