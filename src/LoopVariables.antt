-- ===== src/LoopVariables.antt =====
-- src/Util.cpp: getLoopIndexVar and getLoopTripCount. `load` is a load of a stack slot,
-- also of one that was there before; a failed cast and a null pointer or an end iterator that is read
-- are `none`.
use mem_opt.Common.{ℕ, Bool, false, Option, none, some, List, [], ◌∷◌, ◌==◌, ◌>>=◌, if◌then◌else◌}
use mem_opt.Llvm.{Llvm, Value, Inst, Term, int32, load, icmp_eq, icmp_slt, add, compute, cond_br}

-- What the program asks of an llvm::Loop.
pub record LlvmLoop : Type 0 where
  pub loop_header : ℕ
  pub loop_latch : Option ℕ
  pub loop_preheader : Option ℕ
  pub loop_blocks : List ℕ

-- cast<AllocaInst>(cast<LoadInst>(V)->getOperand(0))
abbrev pub loaded_slot : Value → Option ℕ
loaded_slot (load slot) = some slot
loaded_slot _ = none

-- The lambda of find_if: an instruction that is an addition casts its operand 1 to a constant.
unfoldable pub adds_one : Inst → Option Bool
adds_one (compute (add x (int32 n))) = some (n == 1)
adds_one (compute (add x y)) = none
adds_one _ = some false

-- find_if over the latch, and the operand 0 of what is found.
unfoldable pub find_increment : List Inst → Option Value
unfolding adds_one
find_increment [] = none
find_increment (compute (add x y) ∷ is) =
    let rest = find_increment is in
    adds_one (compute (add x y)) >>= λ hit. if hit then some x else rest
find_increment (i ∷ is) = find_increment is

-- cast<ICmpInst>(Cond)->getOperand(1) of the condition of a conditional branch
unfoldable pub compared_with : Option Term → Option Value
compared_with (some (cond_br (icmp_slt x y) t f)) = some y
compared_with (some (cond_br (icmp_eq x y) t f)) = some y
compared_with _ = none

module _ (L : Llvm) where
  unfoldable pub get_loop_index_var : LlvmLoop → L.Ir → Option ℕ
  unfolding find_increment
  get_loop_index_var l s =
      l.loop_latch >>= λ latch. find_increment (L.insts s latch) >>= loaded_slot

  unfoldable pub get_loop_trip_count : LlvmLoop → L.Ir → Option ℕ
  unfolding compared_with
  get_loop_trip_count l s = compared_with (L.term s l.loop_header) >>= loaded_slot
