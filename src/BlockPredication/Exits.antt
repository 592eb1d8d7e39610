-- ===== src/BlockPredication/Exits.antt =====
-- BlockPredication on a function with several returns: the path analysis ran in the constructor, so
-- the block that unifyFunctionExitNodes adds has no mask id.
use mem_opt.Common.{
  ℕ, ◌≡◌, ◌≢◌, refl, sym, ap, ◌∙◌, inl, inr, Bool, true, false, Option, none, some, List, [], ◌∷◌,
  Memᴰ, ==_ne, Option-cases, >>=-eq-some, if◌then◌else◌, contains_of_mem, find, subst, length, ◌≤◌,
}
use mathlib.Core.List.Memᴰ
use mem_opt.Llvm.{Llvm, Term, alloca, br, cond_br, succs_of, is_return}
use mem_opt.PacketPath.{calculate}
use mem_opt.PacketPath.Gaps.{IsUnmapped, calculate-IsUnmapped, calculate-IsUnmapped_of_out}
use mem_opt.ExitNodes.{
  get_return_blocks, get_unreachable_blocks, unify_returns, unify_unreachable,
  unify_function_exit_nodes,
}
use mem_opt.ExitNodes.Unified.{unify_returns_many, some_inj, select_blocks-mem}
use mem_opt.BlockPredication.{
  cfg_of, set_path_id_condition, set_path_conditions, IrPhis, link_control_flow,
  linearize_control_flow, run, is_block,
}

module _ (L : Llvm) where
  open L use {
    Ir, blocks, entry, insts, term, new_block, rpo, new_slot, set_insts, term-set_insts,
    blocks-set_insts,
  }

  set_path_id_condition-term :
      (ids : List (ℕ × ℕ)) (mask b : ℕ) (t : Option Term) (s s' : Ir) (c : ℕ)
      → set_path_id_condition L ids mask b t s ≡ some s'
      → term s' c ≡ term s c
  unfolding set_path_id_condition
  set_path_id_condition-term ids mask b (some (br t)) s s' c e =
      let (i, _, e') = >>=-eq-some (find t ids) _ e in
      ap (λ z. term z c) (sym (some_inj _ s' e')) ∙ term-set_insts b _ s c
  set_path_id_condition-term ids mask b (some (cond_br v t f)) s s' c e =
      let (i, _, e1) = >>=-eq-some (find t ids) _ e in
      let (j, _, e2) = >>=-eq-some (find f ids) _ e1 in
      ap (λ z. term z c) (sym (some_inj _ s' e2)) ∙ term-set_insts b _ s c
  set_path_id_condition-term ids mask b _ s s' c e = ap (λ z. term z c) (sym (some_inj s s' e))

  round-term :
      (ids : List (ℕ × ℕ)) (mask b : ℕ) (skip : Bool) (s s' : Ir) (c : ℕ)
      → (if skip then some s else set_path_id_condition L ids mask b (term s b) s) ≡ some s'
      → term s' c ≡ term s c
  round-term ids mask b true s s' c e = ap (λ z. term z c) (sym (some_inj s s' e))
  round-term ids mask b false s s' c e = set_path_id_condition-term ids mask b (term s b) s s' c e

  -- An unconditional branch to a block without an id reads the map's end.
  pub set_path_conditions-eq-none :
      (ids : List (ℕ × ℕ)) (mask : ℕ) (r : Option ℕ) (bs : List ℕ) (s : Ir) (b t : ℕ)
      → Memᴰ b bs
      → is_block r b ≡ false
      → term s b ≡ some (br t)
      → find t ids ≡ none
      → set_path_conditions L ids mask r bs s ≡ none
  unfolding set_path_conditions set_path_id_condition
  set_path_conditions-eq-none ids mask r [] s b t m ne e f = absurd (Memᴰ.not-nil m)
  set_path_conditions-eq-none ids mask r (x ∷ bs) s b t m ne e f = elim (Memᴰ.cases_cons m) [
    | inl z ↦
        rw (subst (λ y. is_block r y ≡ false) z ne, subst (λ y. term s y ≡ some (br t)) z e, f) refl
    | inr m' ↦
        elim (Option-cases
          (if is_block r x then some s else set_path_id_condition L ids mask x (term s x) s)) [
            | inl fails ↦ rw fails refl
            | inr (s1, e1) ↦ rw e1 (
                set_path_conditions-eq-none ids mask r bs s1 b t m' ne
                  (round-term ids mask x (is_block r x) s s1 b e1 ∙ e) f)
          ]
  ]

module _ (L : Llvm) (s : L.Ir) where
  open L use {
    Ir, blocks, entry, insts, term, new_block, rpo, new_slot, set_insts, term-set_insts,
    blocks-set_insts,
  }

  -- The traversal and the terminators stay inside the function.
  pub record IsClosed : Type 0 where
    pub rpo_inside : (b : ℕ) → Memᴰ b (rpo s) → Memᴰ b (blocks s)
    pub succs_inside : (b t : ℕ) → Memᴰ b (rpo s) → Memᴰ t (succs_of (term s b)) → Memᴰ t (blocks s)

  new_block-IsUnmapped : IsClosed → IsUnmapped (calculate (cfg_of L s)) (new_block s)
  unfolding cfg_of
  new_block-IsUnmapped c =
      calculate-IsUnmapped_of_out (cfg_of L s) (new_block s)
        (λ m. L.new_block_fresh s (c.rpo_inside (new_block s) m))
        (λ b m t. L.new_block_fresh s (c.succs_inside b (new_block s) m t))

  module _ (a b : ℕ) (bs : List ℕ) where
    several_fail :
        (s2 : Ir) (r : Option ℕ)
        → IsClosed
        → Memᴰ a (blocks s)
        → unify_returns L (a ∷ b ∷ bs) s ≡ some (s2, r)
        → set_path_conditions L
            (calculate (cfg_of L s)).ids
            (new_slot s2)
            r
            (blocks (set_insts (entry s2) (alloca (new_slot s2) ∷ insts s2 (entry s2)) s2))
            (set_insts (entry s2) (alloca (new_slot s2) ∷ insts s2 (entry s2)) s2)
          ≡ none
    several_fail s2 r c m e =
        let (is_new, x) = unify_returns_many L a b bs s s2 r e in
        let l = alloca (new_slot s2) ∷ insts s2 (entry s2) in
        let ends : term s2 a ≡ some (br (new_block s)) =
          x.term_eq a ∙ rw (contains_of_mem a (a ∷ b ∷ bs) (Memᴰ.head refl)) refl in
        set_path_conditions-eq-none L (calculate (cfg_of L s)).ids (new_slot s2) r
          (blocks (set_insts (entry s2) l s2)) (set_insts (entry s2) l s2) a (new_block s)
          (rw (blocks-set_insts (entry s2) l s2) (x.blocks_keep a m))
          (rw is_new (==_ne (new_block s) a (λ z. L.new_block_fresh s (rw z m))))
          (term-set_insts (entry s2) l s2 a ∙ ends) (new_block-IsUnmapped c)

-- On a function with two or more return blocks and no unreachable block, the pass reads the end of
-- the map: the analysis has no id for the new return block.
pub run-eq-none_of_returns :
    (L : Llvm) (P : IrPhis L) (s : L.Ir) (a b : ℕ) (bs : List ℕ)
    → IsClosed L s
    → get_return_blocks L s ≡ a ∷ b ∷ bs
    → get_unreachable_blocks L s ≡ []
    → run L P s ≡ none
unfolding run linearize_control_flow link_control_flow unify_function_exit_nodes unify_unreachable
run-eq-none_of_returns L P s a b bs c returns stuck =
    elim (Option-cases (unify_returns L (a ∷ b ∷ bs) s)) [
      | inl fails ↦ rw (stuck, returns, fails) refl
      | inr ((s2, r), e) ↦
          rw (stuck, returns, e) (rw (several_fail L s a b bs s2 r c listed e) refl)
    ]
  where
    listed : Memᴰ a (L.blocks s)
    listed = (select_blocks-mem L is_return s (L.blocks s) (a_returns)).1
      where
        a_returns : Memᴰ a (get_return_blocks L s)
        a_returns = rw returns (Memᴰ.head refl)

passed_over :
    (L : Llvm) (s : L.Ir) (t : ℕ)
    → L.term s (L.entry s) ≡ some (br t)
    → length (L.preds s (L.entry s)) ≡ 0
    → (b : ℕ) → b ≡ L.entry s
    → (length (L.preds s b) ≡ 0) × (length (succs_of (L.term s b)) ≡ 1)
unfolding succs_of
passed_over L s t e none_in b z = rw z (none_in, rw e refl)

-- On a function with one return block and no unreachable block, the pass reads the end of the map
-- if the entry block has no predecessor and jumps to a block that has no other predecessor: the
-- analysis gives that block no id.
pub run-eq-none_of_straight_entry :
    (L : Llvm) (P : IrPhis L) (s : L.Ir) (r t : ℕ)
    → get_return_blocks L s ≡ r ∷ []
    → get_unreachable_blocks L s ≡ []
    → Memᴰ (L.entry s) (L.blocks s)
    → r ≢ L.entry s
    → L.term s (L.entry s) ≡ some (br t)
    → length (L.preds s (L.entry s)) ≡ 0
    → length (L.preds s t) ≤ 1
    → ((b : ℕ) → Memᴰ b (L.rpo s) → Memᴰ t (succs_of (L.term s b)) → b ≡ L.entry s)
    → run L P s ≡ none
unfolding run linearize_control_flow link_control_flow unify_function_exit_nodes unify_unreachable
    unify_returns cfg_of
run-eq-none_of_straight_entry L P s r t returns stuck m ne e none_in few only =
    let l = alloca (L.new_slot s) ∷ L.insts s (L.entry s) in
    rw (stuck, returns)
      (rw
        (set_path_conditions-eq-none L (calculate (cfg_of L s)).ids (L.new_slot s) (some r)
          (L.blocks (L.set_insts (L.entry s) l s)) (L.set_insts (L.entry s) l s) (L.entry s) t
          (rw (L.blocks-set_insts (L.entry s) l s) m) (==_ne r (L.entry s) ne)
          (L.term-set_insts (L.entry s) l s (L.entry s) ∙ e)
          (calculate-IsUnmapped (cfg_of L s) t few
            (λ b mb mt. passed_over L s t e none_in b (only b mb mt))))
        refl)
