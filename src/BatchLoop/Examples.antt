-- ===== src/BatchLoop/Examples.antt =====
-- The batch loop's theorems at a function of one block.
use mathlib.Core.List.Memᴰ
use mem_opt.BatchLoop.Results.{in_front, store_ret_val_in_ptr_arg-stores}
use mem_opt.BatchLoop.{store_result, store_and_branch}
use mem_opt.Common.{
  ◌||◌, ◌++◌, not_mem_of_contains, ℕ, ◌≡◌, ◌≢◌, refl, some, none, List, [], ◌∷◌, Memᴰ, ◌==◌,
  if◌then◌else◌, arith, mem_of_contains, true, false,
}
use mem_opt.Llvm.{
  Inst, register, opaque_inst, int32, load, add, store, ret, br, cond_br, set_succ, is_return,
  succs_of,
}
use mem_opt.Llvm.Machine.{exec}
use mem_opt.Llvm.Steps.{Slots, Steps, jumps, stays}
use mem_opt.Llvm.Toy.{ToyFunction, toy}
use mem_opt.ExitNodes.{get_return_inst_list, get_return_blocks, select_blocks, return_operand}
use mem_opt.Loops.Skeleton.{IsBody, rounds}
use mem_opt.BatchLoop.{
  add_batch_loop, finish_batch, store_ret_val_in_ptr_arg, store_returns, store_and_split,
}
use mem_opt.BatchLoop.Round
use mem_opt.BatchLoop.Single
use mem_opt.Common.{Option, inr}
use mem_opt.Text.{codes}
use mem_opt.Annotations.{Instruction, call, other, has_tag}
use mem_opt.BatchLoop.Markers.{HasMarker}
use mem_opt.BatchLoop.{find_marker_in, marker_of}
use mem_opt.BatchLoop.Returns.{finish_batch-eq-none}
use mem_opt.BatchLoop.Stored.{IsVoid, store_ret_val_in_ptr_arg-IsVoid}

-- Behind the marker, the slot 30 counts the rounds; 1 is the exit block.
abbrev count_up : List Inst
count_up = store (add (load 30) (int32 1)) 30 ∷ []

abbrev marked : ToyFunction
marked = record {
  layout = 0 ∷ 1 ∷ [];
  first = 0;
  code = λ b. if b == 0 then opaque_inst 5 ∷ count_up else [];
  ends = λ b. if b == 0 then some (br 1) else some (ret none);
  order = [];
  void = true;
  slot = 40;
  nodes = [];
}

abbrev count_effect : Slots → Slots
count_effect m = exec (λ v. 0) count_up m

abbrev three : Slots
three = λ a. if a == 21 then 3 else 0

zero_in : Memᴰ 0 marked.layout
zero_in = mem_of_contains 0 marked.layout refl

new_in : Memᴰ 2 ((toy.split_block 0 1 marked).layout)
new_in = mem_of_contains 2 ((toy.split_block 0 1 marked).layout) refl

zero_ne_new : ◌≢◌ {A = ℕ} 0 2
zero_ne_new e = omega arith

abbrev looped : ToyFunction
looped = Round.batched toy marked 0 0 1 2 21 20 (br 1) (br 5) zero_in new_in zero_ne_new refl

count_IsBody : IsBody toy looped 5 2 20 21 3 count_effect
count_IsBody m e h = (jumps (λ v. 0) 5 refl (stays refl refl), refl, e)

counted_three_times :
    (add_batch_loop toy (some (0, 0)) 21 1 20 marked
      ≡ some (
        some (
            Round.batch_loop toy marked 0 0 1 2 21 20
              (br 1)
              (br 5)
              zero_in
              new_in
              zero_ne_new
              refl),
        looped,
      ))
    × (toy.term looped 0 ≡ some (br 3))
    × Steps toy looped 1 (rounds 20 count_effect 3 0 three) 3 three
unfolding set_succ succs_of
counted_three_times =
    Round.add_batch_loop-rounds toy marked 0 0 1 2 21 20 (br 1) (br 5) zero_in new_in zero_ne_new
      refl 3 count_effect three (λ e. omega arith) refl refl (omega arith) refl count_IsBody

-- if (c) return r1; else return r2;
abbrev forked : ToyFunction
forked = record {
  layout = 0 ∷ 1 ∷ 2 ∷ [];
  first = 0;
  code = λ b. opaque_inst b ∷ [];
  ends = λ b.
      if b == 0
      then some (cond_br (register 7) 1 2)
      else if b == 1
      then some (ret (some (register 8)))
      else some (ret (some (register 9)));
  order = [];
  void = false;
  slot = 40;
  nodes = [];
}

-- The instructions 0 and 5 are calls of the annotation intrinsic 7 with the text of the marker.
abbrev read : Inst → Instruction
read (opaque_inst n) =
    if n == 5 || n == 0
    then call (record {
      callee = some record { is_intrinsic = true; intrinsic_id = 7 };
      tag = some (codes "batch_begin");
      variable = some 3;
    })
    else other
read _ = other

forked-HasMarker : HasMarker toy read 7 forked
unfolding has_tag
forked-HasMarker = (0, Memᴰ.head refl, opaque_inst 0, Memᴰ.head refl, (_, refl, refl))

finish_batch-eq-none_example :
    finish_batch toy (marker_of toy read 7) (some (register 3)) 21 20 forked ≡ none
unfolding get_return_inst_list get_return_blocks select_blocks is_return
finish_batch-eq-none_example =
    finish_batch-eq-none toy 1 2 [] (λ e. omega arith) read 7 forked (some (register 3)) 21 20 refl
      forked-HasMarker

-- return r8;
abbrev valued : ToyFunction
valued = record marked {
  ends = λ b. if b == 0 then some (br 1) else some (ret (some (register 8)));
  void = false;
}

abbrev stored : ℕ × ToyFunction
stored = elim (store_ret_val_in_ptr_arg toy (register 3) 20 valued) [
  | none ↦ (0, valued)
  | some q ↦ q
]

stored_returns_nothing : IsVoid (toy.term stored.1 2)
unfolding store_ret_val_in_ptr_arg get_return_inst_list get_return_blocks select_blocks is_return
    store_returns store_and_split return_operand
stored_returns_nothing =
    store_ret_val_in_ptr_arg-IsVoid toy (register 3) 20 valued stored 2 refl
      (mem_of_contains 2 (2 ∷ 0 ∷ 1 ∷ []) refl)

abbrev joined : ℕ × ToyFunction
joined = elim (store_ret_val_in_ptr_arg toy (register 3) 20 forked) [
  | none ↦ (0, forked)
  | some q ↦ q
]

forked_ends : store_ret_val_in_ptr_arg toy (register 3) 20 forked ≡ some joined
unfolding store_ret_val_in_ptr_arg get_return_inst_list get_return_blocks select_blocks is_return
    store_returns store_and_branch return_operand
forked_ends = refl

store_ret_val_in_ptr_arg-stores_example :
    (toy.insts joined.1 1
      ≡ in_front toy (register 3) forked 1 ++ store_result (toy.new_slot forked) 20 (register 8))
    × (toy.term joined.1 1 ≡ some (br joined.0))
unfolding get_return_inst_list get_return_blocks select_blocks is_return
store_ret_val_in_ptr_arg-stores_example =
    store_ret_val_in_ptr_arg-stores toy (register 3) 20 forked joined 1 (register 8) forked_ends
      (not_mem_of_contains 1 (2 ∷ []) refl, ((λ m. Memᴰ.not-nil m), tt))
      (mem_of_contains 1 (0 ∷ 1 ∷ 2 ∷ []) refl) refl refl

-- The marker is behind the slot for the argument; block 1 returns the value.
abbrev found_at : ToyFunction → Option (Option (ℕ × ℕ))
found_at = marker_of toy read 7

abbrev valued_prepared : ToyFunction
valued_prepared = Single.prepared toy (some (register 3)) (register 8) 20 1 valued

valued_zero_in : Memᴰ 0 valued_prepared.layout
valued_zero_in = mem_of_contains 0 (2 ∷ 0 ∷ 1 ∷ []) refl

valued_one_in : Memᴰ 1 ((toy.split_block 0 3 valued_prepared).layout)
valued_one_in = mem_of_contains 1 (3 ∷ 2 ∷ 0 ∷ 1 ∷ []) refl

zero_ne_one : ◌≢◌ {A = ℕ} 0 1
zero_ne_one e = omega arith

abbrev valued_looped : ToyFunction
valued_looped =
    Single.batched toy (some (register 3)) (register 8) 20 1 valued 0 2 1 21 (br 2) (br 6)
      valued_zero_in valued_one_in zero_ne_one refl

stored_IsBody : IsBody toy valued_looped 6 3 20 21 3 count_effect
stored_IsBody m e h = (jumps (λ v. 0) 1 refl (jumps (λ v. 0) 6 refl (stays refl refl)), refl, e)

finish_batch-rounds_example :
    (finish_batch toy found_at (some (register 3)) 21 20 valued
      ≡ some (
        some (
            Single.batch_loop toy
              (some (register 3))
              (register 8)
              20
              1
              valued
              0
              2
              1
              21
              (br 2)
              (br 6)
              valued_zero_in
              valued_one_in
              zero_ne_one
              refl),
        valued_looped,
      ))
    × (toy.term valued_looped 0 ≡ some (br 4))
    × Steps toy valued_looped 2 (rounds 20 count_effect 3 0 three) 4 three
unfolding set_succ succs_of get_return_inst_list get_return_blocks select_blocks is_return
    find_marker_in has_tag
finish_batch-rounds_example =
    Single.finish_batch-rounds toy (some (register 3)) (register 8) 20 1 valued 0 2 1 21 (br 2)
      (br 6) valued_zero_in valued_one_in zero_ne_one refl found_at 3 count_effect three refl
      (inr refl) refl (λ e. omega arith) refl refl (omega arith) refl stored_IsBody
