-- ===== src/ExitNodes/Examples.antt =====
-- The theorems about unifyFunctionExitNodes at a function with two returns and two dead ends.
use mem_opt.Common.{
  ℕ, ◌≡◌, refl, false, none, some, [], ◌∷◌, ◌==◌, if◌then◌else◌, Option, mem_of_contains,
}
use mem_opt.Llvm.{Term, register, int32, ret, cond_br, unreachable, phi, phi_of}
use mem_opt.Llvm.Toy.{ToyFunction, toy}
use mem_opt.ExitNodes.{
  unify_function_exit_nodes, unify_unreachable, unify_returns, get_return_blocks,
  get_unreachable_blocks,
}
use mem_opt.ExitNodes.Unique.{
  unify_function_exit_nodes-return, unify_function_exit_nodes-unreachable,
}

abbrev exits_end : ℕ → Option Term
exits_end b =
    if b == 1
    then some (ret (some (int32 5)))
    else if b == 2
    then some (ret (some (register 9)))
    else if b == 3
    then some unreachable
    else if b == 4
    then some unreachable
    else some (cond_br (register 7) 1 2)

abbrev exits : ToyFunction
exits = record {
  layout = 0 ∷ 1 ∷ 2 ∷ 3 ∷ 4 ∷ [];
  first = 0;
  code = λ b. [];
  ends = exits_end;
  order = 0 ∷ 2 ∷ 1 ∷ [];
  void = false;
  slot = 100;
  nodes = [];
}

abbrev unified : ToyFunction × Option ℕ × Option ℕ
unified = elim (unify_function_exit_nodes toy exits) [ none ↦ (exits, none, none) | some t ↦ t ]

exits-unified : unify_function_exit_nodes toy exits ≡ some unified
unfolding unify_function_exit_nodes unify_unreachable unify_returns get_return_blocks
    get_unreachable_blocks
exits-unified = refl

-- The new blocks 5 and 6 end the function, and the node holds the two values.
exits_blocks :
    (unified.0.ends 6 ≡ some (ret (some (phi_of 6))))
    × (unified.0.ends 5 ≡ some unreachable)
    × (unified.0.code 6 ≡ phi ((int32 5, 1) ∷ (register 9, 2) ∷ []) ∷ [])
unfolding unify_function_exit_nodes unify_unreachable unify_returns get_return_blocks
    get_unreachable_blocks
exits_blocks = (refl, refl, refl)

unify_function_exit_nodes-return_example : unified.1 ≡ some 6
unfolding unify_function_exit_nodes unify_unreachable unify_returns get_return_blocks
    get_unreachable_blocks
unify_function_exit_nodes-return_example =
    unify_function_exit_nodes-return toy exits unified.0 unified.1 unified.2 6 exits-unified
      (mem_of_contains 6 unified.0.layout refl) refl

unify_function_exit_nodes-unreachable_example : unified.2 ≡ some 5
unfolding unify_function_exit_nodes unify_unreachable unify_returns get_return_blocks
    get_unreachable_blocks
unify_function_exit_nodes-unreachable_example =
    unify_function_exit_nodes-unreachable toy exits unified.0 unified.1 unified.2 5 exits-unified
      (mem_of_contains 5 unified.0.layout refl) refl
