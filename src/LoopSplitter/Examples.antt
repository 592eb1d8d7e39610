-- ===== src/LoopSplitter/Examples.antt =====
-- Tests of the loop splitter, and its theorems at a loop with one annotated variable.
use mem_opt.Common.{
  false, ℕ, ◌≡◌, refl, Option, some, none, List, [], ◌∷◌, Memᴰ, ◌==◌, if◌then◌else◌, arith,
  contains, mem_of_contains, not_mem_of_contains, true, Distinct,
}
use mem_opt.Llvm.{Term, opaque_inst, ret, br, cond_br, succs_of}
use mem_opt.Llvm.Toy.{ToyFunction, toy}
use mem_opt.Loops.{below_trip_count, increment}
use mem_opt.LoopVariables.{
  LlvmLoop, get_loop_index_var, get_loop_trip_count, find_increment, adds_one, compared_with,
}
use mem_opt.LoopSplitter.{Traversal, traverse_loop_body, visit_succs}
use mem_opt.LoopSplitter.Straight.{traverse_loop_body-straight}
use mem_opt.LoopSplitter.Prepare.{prepare_uses, prepare_for_loop_split, run}
use mem_opt.LoopSplitter.Run.{run-eq-none}
use mem_opt.Text.{codes}
use mem_opt.Annotations.{
  Instruction, User, call, load_user, gep, detect_exp_ptr_vars, detect_exp_ptr_uses, has_tag,
  find_earliest_pointer_deref_instruction, find_earliest,
}

abbrev line : ℕ → List ℕ
line b = if b == 2 then 3 ∷ [] else if b == 3 then 4 ∷ [] else []

abbrev start : Traversal
start = record { blocks = []; loop_blocks = [] }

line_parts :
    traverse_loop_body line (3 ∷ 4 ∷ []) (some 4) 3 2 start
    ≡ some record { blocks = []; loop_blocks = (2 ∷ 3 ∷ []) ∷ (4 ∷ []) ∷ [] }
line_parts =
    traverse_loop_body-straight line (3 ∷ 4 ∷ []) 4 refl 3 2 (3 ∷ 4 ∷ []) start
      (refl, (λ e. omega arith), (refl, (λ e. omega arith), refl)) (omega arith)

-- 2 branches to 3 and 5, which meet at the end 4: what is behind a join is visited once for each way.
abbrev fork : ℕ → List ℕ
fork b = if b == 2 then 3 ∷ 5 ∷ [] else if b == 3 then 4 ∷ [] else if b == 5 then 4 ∷ [] else []

fork_twice :
    traverse_loop_body fork (4 ∷ []) (some 4) 3 2 start
    ≡ some record { blocks = []; loop_blocks = (2 ∷ 3 ∷ 4 ∷ []) ∷ (5 ∷ 4 ∷ []) ∷ [] }
unfolding traverse_loop_body visit_succs
fork_twice = refl

-- The loop of the header 1: the body is 2, 3 and 4, and 2 ends with a prefetch.
abbrev looping_end : ℕ → Option Term
looping_end b =
    if b == 0
    then some (br 1)
    else if b == 1
    then some (cond_br (below_trip_count 20 21) 2 6)
    else if b == 2
    then some (br 3)
    else if b == 3
    then some (br 4)
    else if b == 4
    then some (br 5)
    else if b == 5
    then some (br 1)
    else some (ret none)

abbrev looping : ToyFunction
looping = record {
  layout = 0 ∷ 1 ∷ 2 ∷ 3 ∷ 4 ∷ 5 ∷ 6 ∷ [];
  first = 0;
  code = λ b. if b == 5 then increment 20 else opaque_inst b ∷ [];
  ends = looping_end;
  order = [];
  void = true;
  slot = 100;
  nodes = [];
}

abbrev the_loop : LlvmLoop
the_loop = record {
  loop_header = 1;
  loop_latch = some 5;
  loop_preheader = some 0;
  loop_blocks = 1 ∷ 2 ∷ 3 ∷ 4 ∷ 5 ∷ [];
}

abbrev into : (b : ℕ) → contains b looping.layout ≡ true → Memᴰ b looping.layout
into b = mem_of_contains b looping.layout

the_loop_variables :
    (get_loop_index_var toy the_loop looping ≡ some 20)
    × (get_loop_trip_count toy the_loop looping ≡ some 21)
unfolding get_loop_index_var get_loop_trip_count find_increment adds_one compared_with
the_loop_variables = (refl, refl)

body-Distinct : Distinct {A = ℕ} (2 ∷ 3 ∷ 4 ∷ [])
body-Distinct = (
  not_mem_of_contains 2 (3 ∷ 4 ∷ []) refl,
  (not_mem_of_contains 3 (4 ∷ []) refl, (not_mem_of_contains 4 [] refl, tt)),
)

-- The variable 50 is annotated, and read through by 30 in block 2.
abbrev annotated : List Instruction
annotated =
    call (record {
      callee = some record { is_intrinsic = true; intrinsic_id = 1 };
      tag = some (codes "expensive");
      variable = some 50;
    })
    ∷ []

abbrev readers : ℕ → List User
readers v = load_user 30 (gep 30) ∷ []

run-eq-none_example :
    run toy
      (λ s i. 2)
      (λ s i. some 29)
      (λ s i. false)
      (λ u p s. (31, s))
      (λ p s. s)
      1
      (λ s. annotated)
      (λ s. readers)
      (λ s. (the_loop, some 6) ∷ [])
      (λ l s. some s)
      3
      looping
    ≡ none
unfolding succs_of prepare_for_loop_split prepare_uses detect_exp_ptr_vars detect_exp_ptr_uses
    has_tag find_earliest_pointer_deref_instruction find_earliest
run-eq-none_example =
    run-eq-none toy (λ s i. 2) (λ s i. some 29) (λ s i. false) (λ u p s. (31, s)) (λ p s. s) 1
      (λ s. annotated) (λ s. readers) (λ s. (the_loop, some 6) ∷ []) (λ l s. some s) 3 1 2 []
      (30 ∷ []) looping looping looping the_loop (some 6) [] 2 4 5 (3 ∷ 4 ∷ []) refl refl refl
      (into 0 refl)
      (
        (into 2 refl, (λ e. omega arith), (λ e. omega arith)),
        (
          (into 3 refl, (λ e. omega arith), (λ e. omega arith)),
          ((into 4 refl, (λ e. omega arith), (λ e. omega arith)), tt),
        ),
      )
      refl refl refl (refl, (λ e. omega arith), (refl, (λ e. omega arith), refl)) body-Distinct
      (omega arith)
