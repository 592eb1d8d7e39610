-- ===== src/Llvm/Machine.antt =====
-- What a function does, as far as the block predication relies on it: which blocks a run visits.
-- This is the specification against which the pass is proved; no source stands behind it.
use mem_opt.Common.{
  ℕ, ◌+◌, ◌%◌, ◌^◌, ltb, ◌≡◌, true, false, Option, some, List, [], ◌∷◌, ◌==◌, if◌then◌else◌,
  contains,
}
use mem_opt.Llvm.Syntax.{
  Llvm, Value, Inst, int32, register, load, phi_of, select, icmp_eq, icmp_slt, add, gep,
  store_through, alloca, opaque_inst, store, compute, phi, ret, br, cond_br,
}

-- The order of two i32 as signed numbers is that of these.
abbrev pub as_signed : ℕ → ℕ
as_signed a = (a + 2 ^ 31) % 2 ^ 32

-- The values that the function computes itself are given by `env`; in a run of a loop-free function
-- each instruction has one value. A store through a pointer reaches no stack slot. A condition is taken unless it is 0.
module _ (env : Value → ℕ) where
  abbrev pub eval : (ℕ → ℕ) → Value → ℕ
  eval m (int32 n) = n
  eval m (register r) = env (register r)
  eval m (phi_of b) = env (phi_of b)
  eval m (gep p i) = env (gep p i)
  eval m (load slot) = m slot
  eval m (select c a b) = if eval m c == 0 then eval m b else eval m a
  eval m (icmp_eq a b) = if eval m a == eval m b then 1 else 0
  eval m (icmp_slt a b) = if ltb (as_signed (eval m a)) (as_signed (eval m b)) then 1 else 0
  eval m (add a b) = (eval m a + eval m b) % 2 ^ 32

  -- the stack slots after the instructions
  abbrev pub exec : List Inst → (ℕ → ℕ) → ℕ → ℕ
  exec [] m = m
  exec (store v slot ∷ is) m = exec is (λ a. if slot == a then eval m v else m a)
  exec (store_through v p ∷ is) m = exec is m
  exec (alloca slot ∷ is) m = exec is m
  exec (opaque_inst i ∷ is) m = exec is m
  exec (compute v ∷ is) m = exec is m
  exec (phi l ∷ is) m = exec is m

-- A visit of `b` is recorded, unless it is one of the silent blocks.
abbrev pub record_visit : List ℕ → ℕ → List ℕ → List ℕ
record_visit silent b trace = if contains b silent then trace else b ∷ trace

-- A run from block `b` to a return, with the visits of the blocks that are not silent.
pub data Run (env : Value → ℕ) (L : Llvm) (s : L.Ir) (silent : List ℕ)
    : ℕ → (ℕ → ℕ) → List ℕ → Type 0 where
  returns :
      {b : ℕ} {m : ℕ → ℕ} {trace : List ℕ} (v : Option Value)
      → L.term s b ≡ some (ret v)
      → trace ≡ record_visit silent b []
      → Run env L s silent b m trace
  jumps :
      {b : ℕ} {m : ℕ → ℕ} {trace : List ℕ} (t : ℕ) (rest : List ℕ)
      → L.term s b ≡ some (br t)
      → trace ≡ record_visit silent b rest
      → Run env L s silent t (exec env (L.insts s b) m) rest
      → Run env L s silent b m trace
  takes :
      {b : ℕ} {m : ℕ → ℕ} {trace : List ℕ} (c : Value) (t f : ℕ) (rest : List ℕ)
      → L.term s b ≡ some (cond_br c t f)
      → trace ≡ record_visit silent b rest
      → (eval env (exec env (L.insts s b) m) c == 0) ≡ false
      → Run env L s silent t (exec env (L.insts s b) m) rest
      → Run env L s silent b m trace
  falls :
      {b : ℕ} {m : ℕ → ℕ} {trace : List ℕ} (c : Value) (t f : ℕ) (rest : List ℕ)
      → L.term s b ≡ some (cond_br c t f)
      → trace ≡ record_visit silent b rest
      → (eval env (exec env (L.insts s b) m) c == 0) ≡ true
      → Run env L s silent f (exec env (L.insts s b) m) rest
      → Run env L s silent b m trace
