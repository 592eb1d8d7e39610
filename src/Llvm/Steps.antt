-- ===== src/Llvm/Steps.antt =====
-- Runs of a function from one block to another, with the stack slots: the specification against which
-- the loops are proved. The values that a block takes from the code around it may differ from visit
-- to visit, so each step has its own.
use mem_opt.Common.{ℕ, ◌≡◌, sym, subst, true, false, some, ◌==◌, if◌then◌else◌}
use mem_opt.Llvm.Syntax.{Llvm, Value, br, cond_br}
use mem_opt.Llvm.Machine.{eval, exec}

abbrev pub Slots : Type 0
Slots = ℕ → ℕ

abbrev pub write : ℕ → ℕ → Slots → Slots
write slot v m a = if slot == a then v else m a

-- From the start of block `b` with slots `m` to the start of block `c` with slots `m'`.
pub data Steps (L : Llvm) (s : L.Ir) (c : ℕ) (m' : Slots) : ℕ → Slots → Type 0 where
  stays : {b : ℕ} {m : Slots} → b ≡ c → m ≡ m' → Steps L s c m' b m
  jumps :
      {b : ℕ} {m : Slots} (env : Value → ℕ) (t : ℕ)
      → L.term s b ≡ some (br t)
      → Steps L s c m' t (exec env (L.insts s b) m)
      → Steps L s c m' b m
  takes :
      {b : ℕ} {m : Slots} (env : Value → ℕ) (v : Value) (t f : ℕ)
      → L.term s b ≡ some (cond_br v t f)
      → (eval env (exec env (L.insts s b) m) v == 0) ≡ false
      → Steps L s c m' t (exec env (L.insts s b) m)
      → Steps L s c m' b m
  falls :
      {b : ℕ} {m : Slots} (env : Value → ℕ) (v : Value) (t f : ℕ)
      → L.term s b ≡ some (cond_br v t f)
      → (eval env (exec env (L.insts s b) m) v == 0) ≡ true
      → Steps L s c m' f (exec env (L.insts s b) m)
      → Steps L s c m' b m

-- A run from an equal place.
Steps-start :
    (L : Llvm) (s : L.Ir) {c d : ℕ} {m' m'' : Slots} {b : ℕ} {m : Slots}
    → b ≡ c
    → m ≡ m'
    → Steps L s d m'' c m'
    → Steps L s d m'' b m
Steps-start L s {d} {m'} {m''} {b} e h q =
    subst (λ x. Steps L s d m'' b x) (sym h) (subst (λ x. Steps L s d m'' x m') (sym e) q)

-- One run after another.
pub Steps-trans :
    (L : Llvm) (s : L.Ir) {c d : ℕ} {m' m'' : Slots} {b : ℕ} {m : Slots}
    → Steps L s c m' b m
    → Steps L s d m'' c m'
    → Steps L s d m'' b m
Steps-trans L s (stays e h) q = Steps-start L s e h q
Steps-trans L s (jumps env t e p) q = jumps env t e (Steps-trans L s p q)
Steps-trans L s (takes env v t f e h p) q = takes env v t f e h (Steps-trans L s p q)
Steps-trans L s (falls env v t f e h p) q = falls env v t f e h (Steps-trans L s p q)
