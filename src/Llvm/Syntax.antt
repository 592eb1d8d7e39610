-- ===== src/Llvm/Syntax.antt =====
-- Values, instructions and terminators as the passes tell them apart by isa<> and dyn_cast<>, and
-- the interface of the function in memory.
use mem_opt.Common.{
  ℕ, zero, suc, ◌≡◌, ◌≢◌, ◌↔◌, ◌⊎◌, Bool, true, false, Option, none, some, List, [], ◌∷◌, Memᴰ,
  ◌==◌, if◌then◌else◌,
}

-- The result of an instruction that the passes insert is written as the tree of its operands.
-- `register` is any value of the function that was there before, `phi_of` the node that heads a block.
pub data Value : Type 0 where
  int32 register load phi_of : ℕ → Value
  select : Value → Value → Value → Value
  icmp_eq icmp_slt add gep : Value → Value → Value

-- `store` writes a value to a slot, and `store_through` a value to where a pointer points.
-- `compute` is the instruction that computes the value, `opaque_inst` any instruction that the
-- passes do not look at.
pub data Inst : Type 0 where
  alloca opaque_inst : ℕ → Inst
  store : Value → ℕ → Inst
  store_through : Value → Value → Inst
  compute : Value → Inst
  phi : List (Value × ℕ) → Inst

pub data Term : Type 0 where
  ret : Option Value → Term
  br : ℕ → Term
  cond_br : Value → ℕ → ℕ → Term
  unreachable : Term
  other_term : (operands : ℕ) → List ℕ → Term

-- successors(BB); a block under construction has no terminator.
unfoldable pub succs_of : Option Term → List ℕ
succs_of (some (br s)) = s ∷ []
succs_of (some (cond_br c t f)) = t ∷ f ∷ []
succs_of (some (other_term n ss)) = ss
succs_of _ = []

-- isa<ReturnInst>, isa<UnreachableInst> and isa<BranchInst> of the terminator
unfoldable pub is_return : Option Term → Bool
is_return (some (ret v)) = true
is_return _ = false

unfoldable pub is_unreachable : Option Term → Bool
is_unreachable (some unreachable) = true
is_unreachable _ = false

unfoldable pub is_branch : Option Term → Bool
is_branch (some (br s)) = true
is_branch (some (cond_br c t f)) = true
is_branch _ = false

-- The instructions in front of position i, and those from it on.
abbrev pub take : ℕ → List Inst → List Inst
take zero is = []
take (suc i) [] = []
take (suc i) (x ∷ is) = x ∷ take i is

abbrev pub drop : ℕ → List Inst → List Inst
drop zero is = is
drop (suc i) [] = []
drop (suc i) (x ∷ is) = drop i is

-- isa<PHINode>(BB.front())
abbrev pub starts_with_phi : List Inst → Bool
starts_with_phi (phi l ∷ is) = true
starts_with_phi _ = false

-- Instruction::setSuccessor(i, b); an index past the last successor fails an assertion.
abbrev pub replace_nth : ℕ → ℕ → List ℕ → Option (List ℕ)
replace_nth i b [] = none
replace_nth zero b (t ∷ ts) = some (b ∷ ts)
replace_nth (suc i) b (t ∷ ts) = elim (replace_nth i b ts) [ none ↦ none | some us ↦ some (t ∷ us) ]

unfoldable pub set_succ : ℕ → ℕ → Term → Option Term
set_succ zero b (br t) = some (br b)
set_succ zero b (cond_br c t f) = some (cond_br c b f)
set_succ (suc zero) b (cond_br c t f) = some (cond_br c t b)
set_succ i b (other_term n ts) = elim (replace_nth i b ts) [
  | none ↦ none
  | some us ↦ some (other_term n us)
]
set_succ _ b _ = none

pub record Llvm : Type 1 where
  pub Ir : Type 0
  -- the null pointer to a block, as an address
  pub null : ℕ
  -- the blocks in layout order, the entry block, and a block's instructions before its terminator
  pub blocks : Ir → List ℕ
  pub entry : Ir → ℕ
  pub insts : Ir → ℕ → List Inst
  pub term : Ir → ℕ → Option Term
  pub returns_void : Ir → Bool
  pub preds : Ir → ℕ → List ℕ
  pub rpo : Ir → List ℕ
  -- BasicBlock::Create with the block to insert before, and the address of the next alloca
  pub new_block : Ir → ℕ
  pub create_block : Option ℕ → Ir → Ir
  pub new_slot : Ir → ℕ
  -- splitBasicBlock at an instruction by its position; the new block is `new_block`.
  pub split_block : ℕ → ℕ → Ir → Ir
  -- what the block's terminator and its other instructions are replaced by
  pub set_term : ℕ → Term → Ir → Ir
  pub set_insts : ℕ → List Inst → Ir → Ir
  pub new_block_fresh : (s : Ir) → ¬ Memᴰ (new_block s) (blocks s)
  pub blocks-create_block :
      (p : Option ℕ) (s : Ir) (b : ℕ)
      → Memᴰ b (blocks (create_block p s)) ↔ ((b ≡ new_block s) ⊎ Memᴰ b (blocks s))
  pub insts-create_block :
      (p : Option ℕ) (s : Ir) (b : ℕ)
      → insts (create_block p s) b ≡ (if new_block s == b then [] else insts s b)
  pub term-create_block :
      (p : Option ℕ) (s : Ir) (b : ℕ)
      → term (create_block p s) b ≡ (if new_block s == b then none else term s b)
  pub entry-create_block :
      (p : Option ℕ) (s : Ir) → p ≢ some (entry s) → entry (create_block p s) ≡ entry s
  pub blocks-set_term : (b : ℕ) (t : Term) (s : Ir) → blocks (set_term b t s) ≡ blocks s
  pub entry-set_term : (b : ℕ) (t : Term) (s : Ir) → entry (set_term b t s) ≡ entry s
  pub insts-set_term : (b : ℕ) (t : Term) (s : Ir) (c : ℕ) → insts (set_term b t s) c ≡ insts s c
  pub term-set_term :
      (b : ℕ) (t : Term) (s : Ir) (c : ℕ)
      → term (set_term b t s) c ≡ (if b == c then some t else term s c)
  pub blocks-set_insts : (b : ℕ) (l : List Inst) (s : Ir) → blocks (set_insts b l s) ≡ blocks s
  pub entry-set_insts : (b : ℕ) (l : List Inst) (s : Ir) → entry (set_insts b l s) ≡ entry s
  pub term-set_insts :
      (b : ℕ) (l : List Inst) (s : Ir) (c : ℕ) → term (set_insts b l s) c ≡ term s c
  pub insts-set_insts :
      (b : ℕ) (l : List Inst) (s : Ir) (c : ℕ)
      → insts (set_insts b l s) c ≡ (if b == c then l else insts s c)
  -- The reverse post order is one of the graph's, so it does not depend on other instructions.
  pub rpo-set_insts : (b : ℕ) (l : List Inst) (s : Ir) → rpo (set_insts b l s) ≡ rpo s
  -- pred_begin(b) passes each block that has `b` among its successors.
  pub mem-preds :
      (s : Ir) (u b : ℕ) → Memᴰ u (blocks s) → Memᴰ b (succs_of (term s u)) → Memᴰ u (preds s b)
  -- splitBasicBlock rewrites PHI nodes in the successors, so the laws leave out blocks with such.
  pub blocks-split_block :
      (b i : ℕ) (s : Ir) (c : ℕ)
      → Memᴰ c (blocks (split_block b i s)) ↔ ((c ≡ new_block s) ⊎ Memᴰ c (blocks s))
  pub entry-split_block : (b i : ℕ) (s : Ir) → entry (split_block b i s) ≡ entry s
  pub insts-split_block :
      (b i : ℕ) (s : Ir) (c : ℕ)
      → starts_with_phi (insts s c) ≡ false
      → insts (split_block b i s) c ≡ (
          if new_block s == c
          then drop i (insts s b)
          else if b == c
          then take i (insts s b)
          else insts s c)
  pub term-split_block :
      (b i : ℕ) (s : Ir) (c : ℕ)
      → term (split_block b i s) c ≡ (
          if new_block s == c
          then term s b
          else if b == c
          then some (br (new_block s))
          else term s c)
