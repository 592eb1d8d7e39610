-- ===== src/BlockPredication/Stages.antt =====
-- linearizeControlFlow on an input, stage by stage: each stage returns, and what is left at the end.
use mem_opt.Common.{
  ℕ, ◌≡◌, ◌≢◌, refl, sym, ap, ◌∙◌, true, Option, none, some, List, [], ◌∷◌, ◌++◌, Memᴰ, ==_ne,
  false, inl, inr, ◌==◌, ==_iff, ==_self, Bool-cases, All, arith, length, ◌>>=◌, subst,
}
use mathlib.Core.List.Memᴰ
use mem_opt.Llvm.{Llvm, alloca, br, is_branch, starts_with_phi}
use mem_opt.PhiNodes.Moved.{move_all_phi_nodes-none}
use mem_opt.PacketPath.{calculate}
use mem_opt.ExitNodes.{unify_function_exit_nodes}
use mem_opt.BlockPredication.{
  IrPhis, cfg_of, link_control_flow, linearize_control_flow, action_blocks, pop_front,
  set_path_conditions, insert_predicate_blocks, set_action_blocks_successors,
  set_pred_block_successors,
}
use mem_opt.BlockPredication.Heads.{path_insts-starts, starts_with_phi-append}
use mem_opt.BlockPredication.Conditions.{path_insts, Conditioned, set_path_conditions_lem}
use mem_opt.BlockPredication.Links.{
  Inserted, insert_predicate_blocks_lem, ActionChain, ActionChain-cong, Relinked, butlast,
  butlast-mem, replace_branch_lem, set_term-Relinked, term-set_term_self, link_actions_lem,
}
use mem_opt.BlockPredication.Tests.{TestChain, Tested, set_pred_block_successors_lem}
use mem_opt.BlockPredication.Input.{IsInput, targets-AllMapped, actions-AllMapped}
use mem_opt.BlockPredication.Order.{
  LastIs, LastIs-mem, butlast-not-last, BranchesButLast-of_last, actions-ne-nil, actions-LastIs,
}

-- With no unreachable block the traversal is the list of action blocks.
action_blocks_all : (bs : List ℕ) → action_blocks none bs ≡ bs
unfolding action_blocks
action_blocks_all [] = refl
action_blocks_all (b ∷ bs) = ap (λ l. b ∷ l) (action_blocks_all bs)

pub All_of_mem {κ} : (P : ℕ → Type κ) (xs : List ℕ) → ((a : ℕ) → Memᴰ a xs → P a) → All P xs
All_of_mem P [] h = tt
All_of_mem P (x ∷ xs) h = (h x (Memᴰ.head refl), All_of_mem P xs (λ a m. h a (Memᴰ.tail m)))

>>=-pair :
    {A B C : Type 0} (m : Option A) (f : A → Option B) (g : B → C) {b : B}
    → (m >>= f) ≡ some b
    → (m >>= λ x. f x >>= λ y. some (g y)) ≡ some (g b)
>>=-pair none f g e = cc
>>=-pair (some a) f g e = rw e refl

module _ (L : Llvm) (s : L.Ir) (actions : List ℕ) (r : ℕ) (h : IsInput L s actions r) where
  open L use {
    Ir, blocks, entry, insts, term, rpo, new_slot, set_insts, set_term, blocks-set_insts,
    entry-set_insts, term-set_insts, insts-set_insts, rpo-set_insts,
  }

  abbrev pub ids : List (ℕ × ℕ)
  ids = (calculate (cfg_of L s)).ids

  abbrev pub mask : ℕ
  mask = new_slot s

  -- the function with the slot for the path id
  abbrev pub with_slot : Ir
  with_slot = set_insts (entry s) (alloca mask ∷ insts s (entry s)) s

  exits_unchanged : unify_function_exit_nodes L s ≡ some (s, some r, none)
  unfolding unify_function_exit_nodes
  exits_unchanged = rw (h.none_unreachable) (rw h.one_return refl)

  -- The function behind the loop over setPathIDCondition.
  conditions :
      (s3 : Ir) × (set_path_conditions L ids mask (some r) (blocks with_slot) with_slot ≡ some s3)
      × Conditioned L ids mask (some r) (blocks with_slot) with_slot s3
  conditions =
      let same = blocks-set_insts (entry s) (alloca mask ∷ insts s (entry s)) s in
      set_path_conditions_lem L ids mask (some r) (blocks with_slot) with_slot
        (rw same h.blocks_distinct)
        (λ b m.
          rw (term-set_insts (entry s) (alloca mask ∷ insts s (entry s)) s b)
            (targets-AllMapped L s actions r h b (h.all_reached b (rw same at m))))

  -- What the whole pass leaves.
  pub record Linearized (p : ℕ) (ps : List ℕ) (s' : Ir) : Type 0 where
    pub entry_eq : entry s' ≡ entry s
    pub new : (q : ℕ) → Memᴰ q (p ∷ ps) → ¬ Memᴰ q (blocks s)
    pub entry_term : term s' (entry s) ≡ some (br p)
    pub return_eq : term s' r ≡ term s r
    pub inside :
        (b : ℕ)
        → Memᴰ b (entry s ∷ actions)
        → b ≢ r
        → insts s' b ≡ insts with_slot b ++ path_insts ids mask (term s b)
    pub no_phi : (b : ℕ) → Memᴰ b actions → starts_with_phi (insts s' b) ≡ false
    pub length_eq : length (p ∷ ps) ≡ length actions
    pub links : ActionChain L s' actions ps
    pub tests : TestChain L ids mask r s' actions (p ∷ ps)

  pub entry_not_action : ¬ Memᴰ (entry s) actions
  entry_not_action = h.distinct.0

  pub last : LastIs r actions
  last = actions-LastIs L s r actions h

  pub entry_ne_return : entry s ≢ r
  entry_ne_return e = entry_not_action (rw e (LastIs-mem r actions last))

  module _ (s3 : Ir) (c : Conditioned L ids mask (some r) (blocks with_slot) with_slot s3) (p : ℕ)
      (ps : List ℕ) (new_ps : (insert_predicate_blocks L actions s3).0 ≡ p ∷ ps) where
    abbrev s4 : Ir
    s4 = (insert_predicate_blocks L actions s3).1

    term3 : (b : ℕ) → term s3 b ≡ term s b
    term3 b = c.term_eq b ∙ term-set_insts (entry s) (alloca mask ∷ insts s (entry s)) s b

    blocks3 : blocks s3 ≡ blocks s
    blocks3 = c.blocks_eq ∙ blocks-set_insts (entry s) (alloca mask ∷ insts s (entry s)) s

    entry3 : entry s3 ≡ entry s
    entry3 = c.entry_eq ∙ entry-set_insts (entry s) (alloca mask ∷ insts s (entry s)) s

    in3 : (b : ℕ) → Memᴰ b (entry s ∷ actions) → Memᴰ b (blocks s3)
    in3 b m = rw blocks3 (h.all_blocks b m)

    inserted : Inserted L s3 actions (p ∷ ps) s4
    inserted =
        subst (λ l. Inserted L s3 actions l s4) new_ps
          (insert_predicate_blocks_lem L actions s3 (λ m. entry_not_action (rw entry3 at m)))

    new_of_mem : (q b : ℕ) → Memᴰ q (p ∷ ps) → Memᴰ b (entry s ∷ actions) → b ≢ q
    new_of_mem q b mq mb e = inserted.new q mq (in3 q (rw e at mb))

    not_new : (b : ℕ) → Memᴰ b (entry s ∷ actions) → ¬ Memᴰ b (p ∷ ps)
    not_new b mb mq = new_of_mem b b mq mb refl

    term4 : (b : ℕ) → Memᴰ b (entry s ∷ actions) → term s4 b ≡ term s b
    term4 b m = inserted.term_eq b (in3 b m) ∙ term3 b

    entry4 : entry s4 ≡ entry s
    entry4 = inserted.entry_eq ∙ entry3

    abbrev s5 : Ir
    s5 = set_term (entry s4) (br p) s4

    entry_linked : Relinked L (entry s4 ∷ []) s4 s5
    entry_linked = set_term-Relinked L (entry s4) (br p) s4

    term5 : (b : ℕ) → Memᴰ b actions → term s5 b ≡ term s b
    term5 b m =
        entry_linked.term_eq b (λ e. entry_not_action (rw (Memᴰ.eq_of_singleton e, entry4) at m))
        ∙ term4 b (Memᴰ.tail m)

    branches : (b : ℕ) → Memᴰ b actions → b ≢ r → is_branch (term s b) ≡ true
    branches b m ne = h.branches b (h.all_blocks b (Memᴰ.tail m)) ne

    links_return :
        (s6 : Ir) × (set_action_blocks_successors L actions (p ∷ ps) s4 ≡ some s6)
        × Relinked L (butlast actions) s5 s6
        × ActionChain L s6 actions ps
    unfolding set_action_blocks_successors
    links_return =
        let entry_branches : is_branch (term s4 (entry s4)) ≡ true =
          rw (entry4, term4 (entry s) (Memᴰ.head refl))
            (h.branches (entry s) (h.all_blocks (entry s) (Memᴰ.head refl)) entry_ne_return) in
        let (s6, e, x, chain) =
          link_actions_lem L actions ps s5 (sym inserted.length_eq) h.distinct.1 (
            BranchesButLast-of_last L s5 r actions last h.distinct.1
              (λ b m ne. rw (term5 b m) (branches b m ne))) in
        (s6, rw (replace_branch_lem L (entry s4) p s4 entry_branches) e, x, chain)

    tests_return :
        (s6 : Ir)
        → Relinked L (butlast actions) s5 s6
        → (s7 : Ir) × (set_pred_block_successors L ids mask (some r) actions (p ∷ ps) s6 ≡ some s7)
          × Tested L ids mask r (p ∷ ps) s6 s7
          × TestChain L ids mask r s7 actions (p ∷ ps)
    tests_return s6 x =
        set_pred_block_successors_lem L ids mask r actions (p ∷ ps) s6
          (actions-ne-nil L s r actions h) inserted.length_eq inserted.distinct
          (actions-AllMapped L s actions r h)
          (λ q m. x.insts_eq q ∙ entry_linked.insts_eq q ∙ inserted.empty q m)

    -- The instructions of a block of the function, from the last stage back to the first.
    insts_back :
        (s6 s7 : Ir)
        → Relinked L (butlast actions) s5 s6
        → Tested L ids mask r (p ∷ ps) s6 s7
        → (b : ℕ) → Memᴰ b (entry s ∷ actions)
        → b ≢ r
        → insts s7 b ≡ insts with_slot b ++ path_insts ids mask (term s b)
    insts_back s6 s7 x y b m ne =
        let in_slot : Memᴰ b (blocks with_slot) =
          rw (blocks-set_insts (entry s) (alloca mask ∷ insts s (entry s)) s) (h.all_blocks b m) in
        y.insts_eq b (not_new b m)
        ∙ x.insts_eq b
        ∙ entry_linked.insts_eq b
        ∙ inserted.insts_eq b (in3 b m)
        ∙ c.inside b in_slot (==_ne r b (λ e. ne (sym e)))
        ∙ ap (λ t. insts with_slot b ++ path_insts ids mask t)
            (term-set_insts (entry s) (alloca mask ∷ insts s (entry s)) s b)

    -- Those of the return block.
    return_insts :
        (s6 s7 : Ir)
        → Relinked L (butlast actions) s5 s6
        → Tested L ids mask r (p ∷ ps) s6 s7
        → insts s7 r ≡ insts s r
    return_insts s6 s7 x y =
        let m : Memᴰ r (entry s ∷ actions) = Memᴰ.tail (LastIs-mem r actions last) in
        y.insts_eq r (not_new r m)
        ∙ x.insts_eq r
        ∙ entry_linked.insts_eq r
        ∙ inserted.insts_eq r (in3 r m)
        ∙ c.at_return r (==_self r)
        ∙ insts-set_insts (entry s) (alloca mask ∷ insts s (entry s)) s r
        ∙ rw (==_ne (entry s) r entry_ne_return) refl

    starts :
        (s6 s7 : Ir)
        → Relinked L (butlast actions) s5 s6
        → Tested L ids mask r (p ∷ ps) s6 s7
        → (b : ℕ) → Memᴰ b actions
        → starts_with_phi (insts s7 b) ≡ false
    starts s6 s7 x y b m = elim (Bool-cases (b == r)) [
      | inl is_return ↦
          let same : b ≡ r = (==_iff b r).0 is_return in
          subst (λ z. starts_with_phi (insts s7 z) ≡ false) (sym same)
            (rw (return_insts s6 s7 x y) (h.no_phi r (rw same at m)))
      | inr other ↦ rw (insts_back s6 s7 x y b (Memᴰ.tail m) (λ z. cc (other, (==_iff b r).1 z))) (
          starts_with_phi-append (insts with_slot b) (path_insts ids mask (term s b))
            (rw
              (
                insts-set_insts (entry s) (alloca mask ∷ insts s (entry s)) s b,
                ==_ne (entry s) b (λ e. entry_not_action (rw e m)),
              )
              (h.no_phi b m))
            (path_insts-starts ids mask (term s b)))
    ]

    linearized :
        (s6 s7 : Ir)
        → Relinked L (butlast actions) s5 s6
        → ActionChain L s6 actions ps
        → Tested L ids mask r (p ∷ ps) s6 s7
        → TestChain L ids mask r s7 actions (p ∷ ps)
        → Linearized p ps s7
    linearized s6 s7 x chain y tests = record {
      entry_eq = y.entry_eq ∙ x.entry_eq ∙ entry_linked.entry_eq ∙ entry4;
      new = λ q m here. inserted.new q m (rw blocks3 here);
      entry_term =
          y.term_eq (entry s) (not_new (entry s) (Memᴰ.head refl))
          ∙ x.term_eq (entry s) (λ m. entry_not_action (butlast-mem actions m))
          ∙ subst (λ z. term s5 z ≡ some (br p)) entry4 (term-set_term_self L (entry s4) (br p) s4);
      return_eq =
          y.term_eq r (not_new r (Memᴰ.tail (LastIs-mem r actions last)))
          ∙ x.term_eq r (butlast-not-last r actions last h.distinct.1)
          ∙ term5 r (LastIs-mem r actions last);
      inside = insts_back s6 s7 x y;
      no_phi = starts s6 s7 x y;
      length_eq = inserted.length_eq;
      links =
          ActionChain-cong L s6 s7 actions ps (λ a m. y.term_eq a (not_new a (Memᴰ.tail m))) chain;
      tests = tests;
    }

    stages_return :
        (s7 : Ir) × ((set_action_blocks_successors L actions (p ∷ ps) s4
            >>= set_pred_block_successors L ids mask (some r) actions (p ∷ ps))
          ≡ some s7)
        × Linearized p ps s7
    stages_return =
        let (s6, e, x, chain) = links_return in
        let (s7, e', y, tests) = tests_return s6 x in
        (s7, rw e e', linearized s6 s7 x chain y tests)

  actions_popped :
      (s3 : Ir)
      → Conditioned L ids mask (some r) (blocks with_slot) with_slot s3
      → pop_front (action_blocks none (rpo s3)) ≡ some actions
  actions_popped s3 c =
      rw (c.rpo_eq ∙ rpo-set_insts (entry s) (alloca mask ∷ insts s (entry s)) s ∙ h.order)
        (rw (action_blocks_all (entry s ∷ actions)) refl)

  predicates_cons :
      (s3 : Ir)
      → Conditioned L ids mask (some r) (blocks with_slot) with_slot s3
      → (p : ℕ) × (ps : List ℕ) × ((insert_predicate_blocks L actions s3).0 ≡ p ∷ ps)
  predicates_cons s3 c = go (insert_predicate_blocks L actions s3).0 refl
    where
      same : entry s3 ≡ entry s
      same = c.entry_eq ∙ entry-set_insts (entry s) (alloca mask ∷ insts s (entry s)) s

      x :
          Inserted L s3 actions
            (insert_predicate_blocks L actions s3).0
            (insert_predicate_blocks L actions s3).1
      x = insert_predicate_blocks_lem L actions s3 (λ m. entry_not_action (rw same at m))

      length_zero : (l : List ℕ) → 0 ≡ length l → l ≡ []
      length_zero [] e = refl
      length_zero (a ∷ l) e = absurd (omega arith)

      go :
          (l : List ℕ)
          → (insert_predicate_blocks L actions s3).0 ≡ l
          → (p : ℕ) × (ps : List ℕ) × ((insert_predicate_blocks L actions s3).0 ≡ p ∷ ps)
      go [] e =
          absurd
            (actions-ne-nil L s r actions h (length_zero actions (ap length (sym e) ∙ x.length_eq)))
      go (p ∷ ps) e = (p, ps, e)

  -- The pass returns on every input up to the PHI nodes.
  link_returns :
      (p : ℕ) × (ps : List ℕ) × (s' : Ir) × (link_control_flow L ids s ≡ some (p ∷ ps, actions, s'))
      × Linearized p ps s'
  unfolding link_control_flow
  link_returns =
      let (s3, e3, c) = conditions in
      let (p, ps, new_ps) = predicates_cons s3 c in
      let (s7, e, x) = stages_return s3 c p ps new_ps in
      (
        p,
        ps,
        s7,
        rw (exits_unchanged, link_control_flow)
            (rw e3 (
              rw (actions_popped s3 c) (
                rw new_ps (
                  >>=-pair
                    (set_action_blocks_successors L actions (p ∷ ps)
                      (insert_predicate_blocks L actions s3).1)
                    (set_pred_block_successors L ids mask (some r) actions (p ∷ ps))
                    (λ z. (p ∷ ps, actions, z)) e)))),
        x,
      )

  -- With no PHI node to move, the pass ends there.
  pub linearize_returns :
      (P : IrPhis L)
      → (p : ℕ) × (ps : List ℕ) × (s' : Ir) × (linearize_control_flow L P ids s ≡ some (p ∷ ps, s'))
        × Linearized p ps s'
  unfolding linearize_control_flow
  linearize_returns P =
      let (p, ps, s', e, x) = link_returns in
      (
        p,
        ps,
        s',
        rw e (
            rw
              (move_all_phi_nodes-none P.view (p ∷ ps) actions s' x.length_eq (
                All_of_mem (λ a. P.view.phis s' a ≡ []) actions
                  (λ a m. P.phis_eq_nil s' a (x.no_phi a m))))
              refl),
        x,
      )
