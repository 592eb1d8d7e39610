-- ===== src/Loops/Examples.antt =====
-- The loops' theorems at a function that counts in a slot.
use mem_opt.Common.{
  ℕ, ◌≡◌, ◌≢◌, refl, some, none, List, [], ◌∷◌, Memᴰ, ◌==◌, if◌then◌else◌, arith, mem_of_contains,
  ◌>>=◌, true,
}
use mem_opt.Llvm.{Inst, int32, load, add, store, ret, br, set_succ}
use mem_opt.Llvm.Machine.{exec}
use mem_opt.Llvm.Steps.{Slots, Steps, jumps, stays}
use mem_opt.Llvm.Toy.{ToyFunction, toy}
use mem_opt.Loops.{construct_empty_loop, set_exit_block, set_loop_blocks}
use mem_opt.LoopVariables.{LlvmLoop, get_loop_index_var, get_loop_trip_count}
use mem_opt.Loops.Skeleton.{IsBody, rounds}
use mem_opt.Loops.ForLoop
use mem_opt.Loops.EmptyLoop

-- The slot 30 counts the rounds; the index is in 20 and the trip count in 21.
abbrev count_up : List Inst
count_up = store (add (load 30) (int32 1)) 30 ∷ []

-- 0 goes to the exit 9, and the body 1 to nothing yet
abbrev straight : ToyFunction
straight = record {
  layout = 0 ∷ 1 ∷ 9 ∷ [];
  first = 0;
  code = λ b. if b == 1 then count_up else [];
  ends = λ b. if b == 9 then some (ret none) else some (br 9);
  order = [];
  void = true;
  slot = 40;
  nodes = [];
}

abbrev count_effect : Slots → Slots
count_effect m = exec (λ v. 0) count_up m

abbrev three : Slots
three = λ a. if a == 21 then 3 else 0

three-rounds : rounds 20 count_effect 3 0 three 30 ≡ 3
three-rounds = refl

one_in : Memᴰ 1 straight.layout
one_in = mem_of_contains 1 straight.layout refl

zero_in : Memᴰ 0 straight.layout
zero_in = mem_of_contains 0 straight.layout refl

zero_ne_one : ◌≢◌ {A = ℕ} 0 1
zero_ne_one e = omega arith

abbrev built : ToyFunction
built =
    ForLoop.s10 toy straight 0 9 1 1 21 20 (br 9) (br 10) (br 9) (br 12) zero_in one_in zero_ne_one
      refl refl

count_IsBody : IsBody toy built 12 1 20 21 3 count_effect
count_IsBody m e h = (jumps (λ v. 0) 12 refl (stays refl refl), refl, e)

build_loop-rounds_example :
    (ForLoop.build_loop toy straight 0 9 1 1 21 20
        (br 9)
        (br 10)
        (br 9)
        (br 12)
        zero_in
        one_in
        zero_ne_one
        refl
        refl
      ≡ some (
        ForLoop.built_loop toy straight 0 9 1 1 21 20
            (br 9)
            (br 10)
            (br 9)
            (br 12)
            zero_in
            one_in
            zero_ne_one
            refl
            refl,
        built,
      ))
    × (toy.term built 0 ≡ some (br 10))
    × ((c : ℕ) → Memᴰ c straight.layout → c ≢ 0 → c ≢ 1 → toy.term built c ≡ straight.ends c)
    × ((c : ℕ) → Memᴰ c straight.layout → toy.insts built c ≡ straight.code c)
    × Steps toy built 9 (rounds 20 count_effect 3 0 three) 10 three
unfolding set_succ
build_loop-rounds_example =
    ForLoop.build_loop-rounds toy straight 0 9 1 1 21 20 (br 9) (br 10) (br 9) (br 12) zero_in
      one_in zero_ne_one refl refl 3 count_effect three (λ e. omega arith) refl refl (omega arith)
      refl count_IsBody

abbrev filled : ToyFunction
filled = EmptyLoop.s11 toy straight 21 20 9 1 1 (br 9) (br 10) one_in

filled-IsBody : IsBody toy filled 10 1 20 21 3 count_effect
filled-IsBody m e h = (jumps (λ v. 0) 10 refl (stays refl refl), refl, e)

set_loop_blocks-rounds_example :
    ((set_exit_block toy
          (construct_empty_loop toy 21 20 straight).0
          9
          (construct_empty_loop toy 21 20 straight).1
        >>= set_loop_blocks toy (1 ∷ []) (construct_empty_loop toy 21 20 straight).0)
      ≡ some (record (EmptyLoop.empty_loop toy straight 21 20) { body = 1 ∷ [] }, filled))
    × Steps toy filled 9 (rounds 20 count_effect 3 0 three) 12 three
unfolding set_succ
set_loop_blocks-rounds_example =
    EmptyLoop.set_loop_blocks-rounds toy straight 21 20 9 1 1 (br 9) (br 10) one_in (1 ∷ []) 3
      count_effect three (λ e. omega arith) refl refl refl refl (omega arith) refl filled-IsBody

-- What LLVM finds of the built loop.
abbrev built_llvm : LlvmLoop
built_llvm = record {
  loop_header = 11;
  loop_latch = some 12;
  loop_preheader = some 10;
  loop_blocks = 11 ∷ 1 ∷ 12 ∷ [];
}

build_loop-found_example :
    (ForLoop.build_loop toy straight 0 9 1 1 21 20
        (br 9)
        (br 10)
        (br 9)
        (br 12)
        zero_in
        one_in
        zero_ne_one
        refl
        refl
      ≡ some (
        ForLoop.built_loop toy straight 0 9 1 1 21 20
            (br 9)
            (br 10)
            (br 9)
            (br 12)
            zero_in
            one_in
            zero_ne_one
            refl
            refl,
        built,
      ))
    × (get_loop_index_var toy built_llvm built ≡ some 20)
    × (get_loop_trip_count toy built_llvm built ≡ some 21)
unfolding set_succ
build_loop-found_example =
    ForLoop.build_loop-found toy straight 0 9 1 1 21 20 (br 9) (br 10) (br 9) (br 12) zero_in one_in
      zero_ne_one refl refl built_llvm refl refl refl refl
