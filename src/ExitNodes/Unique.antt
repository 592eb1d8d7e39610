-- ===== src/ExitNodes/Unique.antt =====
-- After unifyFunctionExitNodes a block that returns is the return block, and one that ends in
-- `unreachable` is the unreachable block.
use mem_opt.Common.{
  ℕ, ◌≡◌, refl, sym, ap, ◌∙◌, inl, inr, Bool, true, false, Option, none, some, List, [], ◌∷◌, Memᴰ,
  ◌==◌, ==_iff, Bool-cases, >>=-eq-some, contains, contains_of_mem, subst,
}
use mathlib.Core.List.Memᴰ
use mem_opt.Llvm.{Llvm, br, unreachable, is_return, is_unreachable}
use mem_opt.ExitNodes.{
  get_return_blocks, get_unreachable_blocks, branch_all, unify_unreachable, unify_returns,
  unify_function_exit_nodes,
}
use mem_opt.ExitNodes.Unified.{
  select_blocks-complete, term-branch_all, blocks-branch_all, blocks_back, Merged,
  unify_returns_many, some_pair, some_inj,
}

not_both : {P : Type 0} (b : Bool) → b ≡ true → b ≡ false → P
not_both b t f = cc

module _ (L : Llvm) (s : L.Ir) where
  open L use {
    Ir, blocks, term, new_block, create_block, set_term, blocks-create_block, term-create_block,
    blocks-set_term, term-set_term,
  }

  -- The function after the first half: its returning blocks are those of `s`, and `u` is its only
  -- block that ends in `unreachable`.
  record Halfway (s1 : Ir) (u : Option ℕ) : Type 0 where
    returning :
        (b : ℕ) → Memᴰ b (blocks s1) → is_return (term s1 b) ≡ true → Memᴰ b (get_return_blocks L s)
    stuck : (b : ℕ) → Memᴰ b (blocks s1) → is_unreachable (term s1 b) ≡ true → u ≡ some b

  return_listed :
      (b : ℕ) → Memᴰ b (blocks s) → is_return (term s b) ≡ true → Memᴰ b (get_return_blocks L s)
  unfolding get_return_blocks
  return_listed b m e = select_blocks-complete L is_return s (blocks s) b m e

  unreachable_listed :
      (us : List ℕ)
      → get_unreachable_blocks L s ≡ us
      → (b : ℕ) → Memᴰ b (blocks s)
      → is_unreachable (term s b) ≡ true
      → Memᴰ b us
  unfolding get_unreachable_blocks
  unreachable_listed us e b m t =
      subst (Memᴰ b) e (select_blocks-complete L is_unreachable s (blocks s) b m t)

  abbrev joined : List ℕ → Ir
  joined us =
      branch_all L (new_block s) us (set_term (new_block s) unreachable (create_block none s))

  term-joined :
      (us : List ℕ) (b : ℕ)
      → contains b us ≡ false
      → (new_block s == b) ≡ false
      → term (joined us) b ≡ term s b
  term-joined us b out old =
      term-branch_all L (new_block s) us _ b
      ∙ rw out (
          term-set_term (new_block s) unreachable (create_block none s) b
          ∙ rw old (term-create_block none s b ∙ rw old refl))

  term-joined_new :
      (us : List ℕ) (b : ℕ)
      → contains b us ≡ false
      → (new_block s == b) ≡ true
      → term (joined us) b ≡ some unreachable
  term-joined_new us b out new =
      term-branch_all L (new_block s) us _ b
      ∙ rw out (term-set_term (new_block s) unreachable (create_block none s) b ∙ rw new refl)

  term-joined_in :
      (us : List ℕ) (b : ℕ) → contains b us ≡ true → term (joined us) b ≡ some (br (new_block s))
  term-joined_in us b here = term-branch_all L (new_block s) us _ b ∙ rw here refl

  old_block :
      (us : List ℕ) (b : ℕ)
      → Memᴰ b (blocks (joined us))
      → (new_block s == b) ≡ false
      → Memᴰ b (blocks s)
  old_block us b m old =
      let back = blocks_back L s b (
        rw
          (blocks-branch_all L (new_block s) us
              (set_term (new_block s) unreachable (create_block none s))
            ∙ blocks-set_term (new_block s) unreachable (create_block none s))
          at m) in
      elim back [ inl e ↦ not_both (new_block s == b) ((==_iff _ b).1 (sym e)) old | inr m' ↦ m' ]

  joined-Halfway :
      (us : List ℕ) → get_unreachable_blocks L s ≡ us → Halfway (joined us) (some (new_block s))
  unfolding is_return is_unreachable
  joined-Halfway us e = record {
    returning = λ b m t. elim (Bool-cases (contains b us)) [
      | inl here ↦ not_both false (rw (term-joined_in us b here) at t) refl
      | inr out ↦ elim (Bool-cases (new_block s == b)) [
        | inl new ↦ not_both false (rw (term-joined_new us b out new) at t) refl
        | inr old ↦ return_listed b (old_block us b m old) (rw (term-joined us b out old) at t)
      ]
    ];
    stuck = λ b m t. elim (Bool-cases (contains b us)) [
      | inl here ↦ not_both false (rw (term-joined_in us b here) at t) refl
      | inr out ↦ elim (Bool-cases (new_block s == b)) [
        | inl new ↦ ap some ((==_iff _ b).0 new)
        | inr old ↦
            not_both (contains b us)
              (contains_of_mem b us (
                unreachable_listed us e b (old_block us b m old)
                  (rw (term-joined us b out old) at t)))
              out
      ]
    ];
  }

  halfway :
      (us : List ℕ)
      → get_unreachable_blocks L s ≡ us
      → Halfway (unify_unreachable L us s).0 (unify_unreachable L us s).1
  unfolding unify_unreachable
  halfway [] e = record {
    returning = return_listed;
    stuck = λ b m t. absurd (Memᴰ.not-nil (unreachable_listed [] e b m t));
  }
  halfway (x ∷ []) e = record {
    returning = return_listed;
    stuck = λ b m t. ap some (sym (Memᴰ.eq_of_singleton (unreachable_listed (x ∷ []) e b m t)));
  }
  halfway (x ∷ y ∷ us) e = joined-Halfway (x ∷ y ∷ us) e

  -- The second half, over the list of the blocks that return.
  record Unified (s2 : Ir) (r u : Option ℕ) : Type 0 where
    only_return : (b : ℕ) → Memᴰ b (blocks s2) → is_return (term s2 b) ≡ true → r ≡ some b
    only_stuck : (b : ℕ) → Memᴰ b (blocks s2) → is_unreachable (term s2 b) ≡ true → u ≡ some b

  merged-Unified :
      (s1 s2 : Ir) (rs : List ℕ) (u : Option ℕ)
      → ((b : ℕ) → Memᴰ b (blocks s1) → is_return (term s1 b) ≡ true → Memᴰ b rs)
      → ((b : ℕ) → Memᴰ b (blocks s1) → is_unreachable (term s1 b) ≡ true → u ≡ some b)
      → Merged L (new_block s1) rs s1 s2
      → Unified s2 (some (new_block s1)) u
  unfolding is_return is_unreachable
  merged-Unified s1 s2 rs u h k x = record {
    only_return = λ b m t. elim (Bool-cases (contains b rs)) [
      | inl here ↦ not_both false (rw (x.term_eq b, here) at t) refl
      | inr out ↦ elim (Bool-cases (new_block s1 == b)) [
        | inl new ↦ ap some ((==_iff _ b).0 new)
        | inr old ↦
            not_both (contains b rs)
              (contains_of_mem b rs (h b (back b m old) (rw (x.term_eq b, out, old) at t))) out
      ]
    ];
    only_stuck = λ b m t. elim (Bool-cases (contains b rs)) [
      | inl here ↦ not_both false (rw (x.term_eq b, here) at t) refl
      | inr out ↦ elim (Bool-cases (new_block s1 == b)) [
        | inl new ↦ not_both false (rw (x.term_eq b, out, new) at t) refl
        | inr old ↦ k b (back b m old) (rw (x.term_eq b, out, old) at t)
      ]
    ];
  }
    where
      back : (b : ℕ) → Memᴰ b (blocks s2) → (new_block s1 == b) ≡ false → Memᴰ b (blocks s1)
      back b m old = elim (x.blocks_iff b m) [
        | inl e ↦ not_both (new_block s1 == b) ((==_iff _ b).1 (sym e)) old
        | inr m' ↦ m'
      ]

  second_half :
      (rs : List ℕ) (s1 s2 : Ir) (r u : Option ℕ)
      → ((b : ℕ) → Memᴰ b (blocks s1) → is_return (term s1 b) ≡ true → Memᴰ b rs)
      → ((b : ℕ) → Memᴰ b (blocks s1) → is_unreachable (term s1 b) ≡ true → u ≡ some b)
      → unify_returns L rs s1 ≡ some (s2, r)
      → Unified s2 r u
  unfolding unify_returns
  second_half [] s1 s2 r u h k e =
      let (same, is_r) = some_pair L s1 s2 none r e in
      subst (λ z. Unified z r u) same
        (record { only_return = λ b m t. absurd (Memᴰ.not-nil (h b m t)); only_stuck = k })
  second_half (x ∷ []) s1 s2 r u h k e =
      let (same, is_r) = some_pair L s1 s2 (some x) r e in
      subst (λ z. Unified z r u) same
        (record {
          only_return = λ b m t. sym is_r ∙ ap some (sym (Memᴰ.eq_of_singleton (h b m t)));
          only_stuck = k;
        })
  second_half (x ∷ y ∷ rs) s1 s2 r u h k e =
      let (is_new, merged) = unify_returns_many L x y rs s1 s2 r e in
      rw is_new (merged-Unified s1 s2 (x ∷ y ∷ rs) u h k merged)

  unified :
      (s2 : Ir) (r u : Option ℕ) → unify_function_exit_nodes L s ≡ some (s2, r, u) → Unified s2 r u
  unfolding unify_function_exit_nodes
  unified s2 r u e =
      let us = get_unreachable_blocks L s in
      let first = halfway us refl in
      let (t, e1, e2) =
        >>=-eq-some (unify_returns L (get_return_blocks L s) (unify_unreachable L us s).0) _ e in
      let same : ◌≡◌ {A = Ir × Option ℕ × Option ℕ} (t.0, t.1, (unify_unreachable L us s).1)
          (s2, r, u) =
        some_inj _ _ e2 in
      subst (λ z. Unified z.0 z.1 z.2) same
        (second_half (get_return_blocks L s) (unify_unreachable L us s).0 t.0 t.1
          (unify_unreachable L us s).1 first.returning first.stuck e1)

-- After unifyFunctionExitNodes, a block of the function that ends in a return is the return block
-- that the call gives back.
pub unify_function_exit_nodes-return :
    (L : Llvm) (s s' : L.Ir) (r u : Option ℕ) (b : ℕ)
    → unify_function_exit_nodes L s ≡ some (s', r, u)
    → Memᴰ b (L.blocks s')
    → is_return (L.term s' b) ≡ true
    → r ≡ some b
unify_function_exit_nodes-return L s s' r u b e m t = (unified L s s' r u e).only_return b m t

-- After unifyFunctionExitNodes, a block of the function that ends in `unreachable` is the
-- unreachable block that the call gives back.
pub unify_function_exit_nodes-unreachable :
    (L : Llvm) (s s' : L.Ir) (r u : Option ℕ) (b : ℕ)
    → unify_function_exit_nodes L s ≡ some (s', r, u)
    → Memᴰ b (L.blocks s')
    → is_unreachable (L.term s' b) ≡ true
    → u ≡ some b
unify_function_exit_nodes-unreachable L s s' r u b e m t = (unified L s s' r u e).only_stuck b m t
