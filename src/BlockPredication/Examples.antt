-- ===== src/BlockPredication/Examples.antt =====
-- Tests of the block predication, and its theorems at a function with one test.
use mem_opt.Common.{
  ◌↔◌, contains, mem_of_contains, not_mem_of_contains, ℕ, ◌≡◌, ◌≢◌, refl, true, false, Option, none,
  some, List, [], ◌∷◌, Memᴰ, ◌==◌, All, All-mem, map, arith, if◌then◌else◌, subst, ap,
}
use mathlib.Core.List.Memᴰ
use mem_opt.Llvm.{
  Term, register, opaque_inst, ret, br, cond_br, succs_of, is_branch, is_return, is_unreachable,
}
use mem_opt.Llvm.Machine.{Run, returns, jumps, takes}
use mem_opt.Llvm.Toy.{ToyFunction, toy}
use mem_opt.PacketPath.{
  Cfg, calculate, visit_all, visit, assign_join, assign_succs, assign_all, assign_fresh,
  assign_current,
}
use mem_opt.PacketPath.Unique.{IsPending}
use mem_opt.ExitNodes.{
  unify_function_exit_nodes, select_blocks, get_return_blocks, get_unreachable_blocks,
}
use mem_opt.BlockPredication.{cfg_of, run, path_test}
use mem_opt.BlockPredication.Input.{IsInput}
use mem_opt.BlockPredication.Simulation.{IsRegisterTest}
use mem_opt.BlockPredication.Correct.{run_returns}
use mem_opt.BlockPredication.Equivalent.{run-Run_iff}
use mem_opt.BlockPredication.ToyPhis.{toy_phis}
use mem_opt.BlockPredication.Exits.{IsClosed, run-eq-none_of_returns, run-eq-none_of_straight_entry}

-- if (c) { 1 } else { 2 } and the join 3, as clang lays it out
abbrev diamond_end : ℕ → Option Term
diamond_end b =
    if b == 0
    then some (cond_br (register 7) 1 2)
    else if b == 1
    then some (br 3)
    else if b == 2
    then some (br 3)
    else if b == 3
    then some (ret none)
    else none

abbrev diamond : ToyFunction
diamond = record {
  layout = 0 ∷ 1 ∷ 2 ∷ 3 ∷ [];
  first = 0;
  code = λ b. opaque_inst b ∷ [];
  ends = diamond_end;
  order = 0 ∷ 2 ∷ 1 ∷ 3 ∷ [];
  void = true;
  slot = 100;
  nodes = [];
}

diamond_ids : (calculate (cfg_of toy diamond)).ids ≡ (3, 3) ∷ (3, 2) ∷ (3, 2) ∷ (2, 2) ∷ (1, 1) ∷ []
unfolding calculate cfg_of visit_all visit assign_join assign_succs assign_all assign_fresh
    assign_current succs_of
diamond_ids = refl

abbrev into : (b : ℕ) (xs : List ℕ) → contains b xs ≡ true → Memᴰ b xs
into = mem_of_contains

abbrev out_of : (b : ℕ) (xs : List ℕ) → contains b xs ≡ false → ¬ Memᴰ b xs
out_of = not_mem_of_contains

abbrev rest : List ℕ
rest = 2 ∷ 1 ∷ 3 ∷ []

abbrev every : (P : ℕ → Type 0) (xs : List ℕ) → All P xs → (b : ℕ) → Memᴰ b xs → P b
every P xs h b m = All-mem P xs h m

abbrev first : List ℕ → ℕ
first [] = 0
first (x ∷ xs) = x

-- The only successor is the join `t`.
to_join :
    (c : Cfg) (later : List ℕ) (t s : ℕ)
    → t ∷ [] ≡ s ∷ []
    → IsPending c later t
    → IsPending c later s
to_join c later t s e h = subst (IsPending c later) (ap first e) h

diamond-IsInput : IsInput toy diamond rest 3
unfolding succs_of is_branch is_return is_unreachable select_blocks get_return_blocks
    get_unreachable_blocks cfg_of
diamond-IsInput = record {
  order = refl;
  distinct = (
    out_of 0 (2 ∷ 1 ∷ 3 ∷ []) refl,
    (out_of 2 (1 ∷ 3 ∷ []) refl, (out_of 1 (3 ∷ []) refl, (out_of 3 [] refl, tt))),
  );
  forward = (
    every (λ b. Memᴰ b (2 ∷ 1 ∷ 3 ∷ [])) (1 ∷ 2 ∷ [])
        (into 1 (2 ∷ 1 ∷ 3 ∷ []) refl, (into 2 (2 ∷ 1 ∷ 3 ∷ []) refl, tt)),
    (
      every (λ b. Memᴰ b (1 ∷ 3 ∷ [])) (3 ∷ []) (into 3 (1 ∷ 3 ∷ []) refl, tt),
      (
        every (λ b. Memᴰ b (3 ∷ [])) (3 ∷ []) (into 3 (3 ∷ []) refl, tt),
        (every (λ b. Memᴰ b []) [] tt, tt),
      ),
    ),
  );
  reached =
      every (λ b. (u : ℕ) × Memᴰ u (0 ∷ 2 ∷ 1 ∷ 3 ∷ []) × Memᴰ b (succs_of (diamond_end u)))
        (2 ∷ 1 ∷ 3 ∷ [])
        (
          (0, into 0 (0 ∷ 2 ∷ 1 ∷ 3 ∷ []) refl, into 2 (1 ∷ 2 ∷ []) refl),
          (
            (0, into 0 (0 ∷ 2 ∷ 1 ∷ 3 ∷ []) refl, into 1 (1 ∷ 2 ∷ []) refl),
            ((1, into 1 (0 ∷ 2 ∷ 1 ∷ 3 ∷ []) refl, into 3 (3 ∷ []) refl), tt),
          ),
        );
  all_reached =
      every (λ b. Memᴰ b (0 ∷ 2 ∷ 1 ∷ 3 ∷ [])) (0 ∷ 1 ∷ 2 ∷ 3 ∷ [])
        (
          into 0 (0 ∷ 2 ∷ 1 ∷ 3 ∷ []) refl,
          (
            into 1 (0 ∷ 2 ∷ 1 ∷ 3 ∷ []) refl,
            (into 2 (0 ∷ 2 ∷ 1 ∷ 3 ∷ []) refl, (into 3 (0 ∷ 2 ∷ 1 ∷ 3 ∷ []) refl, tt)),
          ),
        );
  all_blocks =
      every (λ b. Memᴰ b (0 ∷ 1 ∷ 2 ∷ 3 ∷ [])) (0 ∷ 2 ∷ 1 ∷ 3 ∷ [])
        (
          into 0 (0 ∷ 1 ∷ 2 ∷ 3 ∷ []) refl,
          (
            into 2 (0 ∷ 1 ∷ 2 ∷ 3 ∷ []) refl,
            (into 1 (0 ∷ 1 ∷ 2 ∷ 3 ∷ []) refl, (into 3 (0 ∷ 1 ∷ 2 ∷ 3 ∷ []) refl, tt)),
          ),
        );
  blocks_distinct = (
    out_of 0 (1 ∷ 2 ∷ 3 ∷ []) refl,
    (out_of 1 (2 ∷ 3 ∷ []) refl, (out_of 2 (3 ∷ []) refl, (out_of 3 [] refl, tt))),
  );
  large = omega arith;
  entry_splits = omega arith;
  structured = (
    λ s e one. cc,
    (
      λ s e one.
          to_join (cfg_of toy diamond) (1 ∷ 3 ∷ []) 3 s e (omega arith, into 3 (1 ∷ 3 ∷ []) refl),
      (
        λ s e one. to_join (cfg_of toy diamond) (3 ∷ []) 3 s e (omega arith, into 3 (3 ∷ []) refl),
        (λ s e one. cc, tt),
      ),
    ),
  );
  one_return = refl;
  none_unreachable = refl;
  branches =
      every (λ b. b ≢ 3 → is_branch (diamond_end b) ≡ true) (0 ∷ 1 ∷ 2 ∷ 3 ∷ [])
        (λ _. refl, (λ _. refl, (λ _. refl, (λ ne. absurd (ne refl), tt))));
  no_phi = λ b m. refl;
  tests =
      every (λ b. IsRegisterTest (diamond_end b)) (0 ∷ 1 ∷ 2 ∷ 3 ∷ [])
        ((7, refl), (tt, (tt, (tt, tt))));
}

-- The linear function: entry, then the predicate blocks 4, 5 and 6 for the blocks 2, 1 and 3.
abbrev linear_end : ℕ → Option Term
linear_end b =
    if b == 0
    then some (br 4)
    else if b == 2
    then some (br 5)
    else if b == 1
    then some (br 6)
    else if b == 4
    then some (cond_br (path_test 100 2) 2 5)
    else if b == 5
    then some (cond_br (path_test 100 1) 1 6)
    else if b == 6
    then some (br 3)
    else diamond_end b

run_ends : Option (List ℕ × ToyFunction) → ℕ → Option (Option Term)
run_ends none b = none
run_ends (some (ps, s)) b = some (s.ends b)

-- The terminators of the linear function.
diamond_linear :
    map (run_ends (run toy toy_phis diamond)) (0 ∷ 1 ∷ 2 ∷ 3 ∷ 4 ∷ 5 ∷ 6 ∷ [])
    ≡ map (λ b. some (linear_end b)) (0 ∷ 1 ∷ 2 ∷ 3 ∷ 4 ∷ 5 ∷ 6 ∷ [])
unfolding run_ends run unify_function_exit_nodes calculate visit_all visit assign_join assign_succs
    assign_all assign_fresh assign_current succs_of is_return is_unreachable is_branch
diamond_linear = refl

-- The run that takes the test.
diamond-Run : Run (λ v. 1) toy diamond [] 0 (λ a. 0) (0 ∷ 1 ∷ 3 ∷ [])
diamond-Run =
    takes (register 7) 1 2 (1 ∷ 3 ∷ []) refl refl refl
      (jumps 3 (3 ∷ []) refl refl (returns none refl refl))

diamond_result :
    (predicates : List ℕ) × (s' : ToyFunction) × (run toy toy_phis diamond ≡ some (predicates, s'))
    × (s'.first ≡ 0)
    × All (λ q. ¬ Memᴰ q (0 ∷ 1 ∷ 2 ∷ 3 ∷ [])) predicates
diamond_result = run_returns toy toy_phis diamond rest 3 diamond-IsInput

run_returns_example :
    (predicates : List ℕ) × (s' : ToyFunction) × (run toy toy_phis diamond ≡ some (predicates, s'))
    × (s'.first ≡ 0)
    × All (λ q. ¬ Memᴰ q (0 ∷ 1 ∷ 2 ∷ 3 ∷ [])) predicates
run_returns_example = run_returns toy toy_phis diamond rest 3 diamond-IsInput

run-Run_iff_example :
    ((trace : List ℕ) × Run
        (λ v. 1)
        toy
        diamond_result.1
        diamond_result.0
        diamond_result.1.first
        (λ a. 5)
        trace)
    × ((trace : List ℕ)
        → Run (λ v. 1) toy diamond [] 0 (λ a. 0) trace
          ↔ Run
              (λ v. 1)
              toy
              diamond_result.1
              diamond_result.0
              diamond_result.1.first
              (λ a. 5)
              trace)
run-Run_iff_example =
    run-Run_iff toy toy_phis diamond rest 3 diamond_result.0 diamond_result.1 (λ v. 1) (λ a. 0)
      (λ a. 5) diamond-IsInput diamond_result.2

diamond_runs_linear :
    Run
      (λ v. 1)
      toy
      diamond_result.1
      diamond_result.0
      diamond_result.1.first
      (λ a. 5)
      (0 ∷ 1 ∷ 3 ∷ [])
diamond_runs_linear = (run-Run_iff_example.1 (0 ∷ 1 ∷ 3 ∷ [])).0 diamond-Run

-- A function with two returns, and one whose entry block jumps on.
abbrev two_returns : ToyFunction
two_returns = record diamond {
  layout = 0 ∷ 1 ∷ 2 ∷ [];
  ends = λ b. if b == 0 then some (cond_br (register 7) 1 2) else some (ret none);
  order = 0 ∷ 2 ∷ 1 ∷ [];
}

two_returns-IsClosed : IsClosed toy two_returns
unfolding succs_of
two_returns-IsClosed = record {
  rpo_inside =
      every (λ b. Memᴰ b (0 ∷ 1 ∷ 2 ∷ [])) (0 ∷ 2 ∷ 1 ∷ [])
        (
          into 0 (0 ∷ 1 ∷ 2 ∷ []) refl,
          (into 2 (0 ∷ 1 ∷ 2 ∷ []) refl, (into 1 (0 ∷ 1 ∷ 2 ∷ []) refl, tt)),
        );
  succs_inside = λ b t m.
      every (λ b. Memᴰ t (succs_of (two_returns.ends b)) → Memᴰ t (0 ∷ 1 ∷ 2 ∷ [])) (0 ∷ 2 ∷ 1 ∷ [])
        ((λ i. Memᴰ.tail i), ((λ i. absurd (Memᴰ.not-nil i)), ((λ i. absurd (Memᴰ.not-nil i)), tt)))
        b m;
}

run-eq-none_of_returns_example : run toy toy_phis two_returns ≡ none
unfolding succs_of is_return is_unreachable get_return_blocks get_unreachable_blocks
run-eq-none_of_returns_example =
    run-eq-none_of_returns toy toy_phis two_returns 1 2 [] two_returns-IsClosed refl refl

abbrev straight : ToyFunction
straight = record diamond {
  layout = 0 ∷ 1 ∷ 2 ∷ 3 ∷ 4 ∷ [];
  ends = λ b.
      if b == 0
      then some (br 1)
      else if b == 1
      then some (cond_br (register 7) 2 3)
      else if b == 4
      then some (ret none)
      else some (br 4);
  order = 0 ∷ 1 ∷ 3 ∷ 2 ∷ 4 ∷ [];
}

run-eq-none_of_straight_entry_example : run toy toy_phis straight ≡ none
unfolding succs_of is_return is_unreachable get_return_blocks get_unreachable_blocks
run-eq-none_of_straight_entry_example =
    run-eq-none_of_straight_entry toy toy_phis straight 4 1 refl refl (into 0 straight.layout refl)
      (omega arith) refl refl (omega arith)
      (λ b m.
        every (λ b. Memᴰ 1 (succs_of (straight.ends b)) → b ≡ 0) straight.order
          (
            (λ i. refl),
            (
              (λ i. absurd (out_of 1 (2 ∷ 3 ∷ []) refl i)),
              (
                (λ i. absurd (out_of 1 (4 ∷ []) refl i)),
                (
                  (λ i. absurd (out_of 1 (4 ∷ []) refl i)),
                  ((λ i. absurd (out_of 1 [] refl i)), tt),
                ),
              ),
            ),
          )
          b m)
