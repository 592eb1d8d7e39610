-- ===== src/PhiNodes.antt =====
-- src/BlockPredication.cpp, movePhiNodeToPredicateBlock and the loop at the end of
-- linearizeControlFlow: the PHI nodes at the head of each action block are moved to its predicate
-- block. A node, a value and a block are numbers.
pub mod Step
pub mod Moved
pub mod NodeLists
mod Examples
use mem_opt.Common.{
  ℕ, zero, suc, ◌≡◌, ◌≢◌, Bool, true, false, Option, none, some, List, [], ◌∷◌, ◌++◌, Memᴰ, ◌==◌,
  ◌>>=◌, if◌then◌else◌, All, map,
}

-- A node with its incoming values and their blocks, in order.
pub record Phi : Type 0 where
  pub node : ℕ
  pub incoming : List (ℕ × ℕ)

-- What addIncoming, replaceAllUsesWith and removeFromParent do to the nodes of a block.
abbrev pub extend : ℕ → ℕ × ℕ → Phi → Phi
extend n i p = if p.node == n then record { node = p.node; incoming = p.incoming ++ i ∷ [] } else p

abbrev pub rename_value : ℕ → ℕ → ℕ × ℕ → ℕ × ℕ
rename_value from to i = (if i.0 == from then to else i.0, i.1)

abbrev pub rename : ℕ → ℕ → Phi → Phi
rename from to p = record { node = p.node; incoming = map (rename_value from to) p.incoming }

abbrev pub without : ℕ → List Phi → List Phi
without n [] = []
without n (p ∷ ps) = if p.node == n then without n ps else p ∷ without n ps

-- LLVM's function by the nodes at the heads of its blocks.
pub record PhiView (State : Type 0) : Type 0 where
  pub phis : State → ℕ → List Phi
  -- pred_begin and what follows
  pub preds : State → ℕ → List ℕ
  -- CreatePHI at the front of a block, PHINode::addIncoming, replaceAllUsesWith and removeFromParent
  pub create_phi : ℕ → State → ℕ × State
  pub add_incoming : (node value block : ℕ) → State → State
  pub replace_all_uses_with : (from to : ℕ) → State → State
  pub remove : ℕ → State → State
  pub phis-create_phi :
      (b : ℕ) (s : State) (c : ℕ)
      → phis ((create_phi b s).1) c ≡ (
          if b == c
          then record { node = (create_phi b s).0; incoming = [] } ∷ phis s c
          else phis s c)
  pub phis-add_incoming :
      (n v b : ℕ) (s : State) (c : ℕ)
      → phis (add_incoming n v b s) c ≡ map (extend n (v, b)) (phis s c)
  pub phis-replace_all_uses_with :
      (from to : ℕ) (s : State) (c : ℕ)
      → phis (replace_all_uses_with from to s) c ≡ map (rename from to) (phis s c)
  pub phis-remove : (n : ℕ) (s : State) (c : ℕ) → phis (remove n s) c ≡ without n (phis s c)
  pub preds-create_phi : (b : ℕ) (s : State) (c : ℕ) → preds ((create_phi b s).1) c ≡ preds s c
  pub preds-add_incoming :
      (n v b : ℕ) (s : State) (c : ℕ) → preds (add_incoming n v b s) c ≡ preds s c
  pub preds-replace_all_uses_with :
      (from to : ℕ) (s : State) (c : ℕ) → preds (replace_all_uses_with from to s) c ≡ preds s c
  pub preds-remove : (n : ℕ) (s : State) (c : ℕ) → preds (remove n s) c ≡ preds s c
  -- A new node is a new value, which nothing uses.
  pub create_phi_new :
      (b : ℕ) (s : State) (c : ℕ) (p : Phi)
      → Memᴰ p (phis s c)
      → (p.node ≢ (create_phi b s).0) × All (λ i. i.0 ≢ (create_phi b s).0) p.incoming

abbrev pub nth {ℓ} : {A : Type ℓ} → ℕ → List A → Option A
nth i [] = none
nth zero (x ∷ xs) = some x
nth (suc i) (x ∷ xs) = nth i xs

abbrev pub find_phi : ℕ → List Phi → Option Phi
find_phi n [] = none
find_phi n (p ∷ ps) = if p.node == n then some p else find_phi n ps

module _ {State : Type 0} (V : PhiView State) where
  open V use {phis, preds, create_phi, add_incoming, replace_all_uses_with, remove}

  -- The body of the loop, at a node of the action block `a` with the predicate block `q`. An incoming
  -- value that is not there fails an assertion, a predecessor that is not there is read past the end.
  unfoldable pub move_phi : (q a n : ℕ) → State → Option State
  move_phi q a n s = find_phi n (phis s a) >>= λ pn.
      let (pred_phi, s1) = create_phi q s in
      nth 0 pn.incoming >>= λ v. nth 0 (preds s1 q) >>= λ b. nth 1 pn.incoming >>= λ w.
      nth 1 (preds s1 q) >>= λ c.
      let s2 = add_incoming pred_phi w.0 c (add_incoming pred_phi v.0 b s1) in
      let (new_phi, s3) = create_phi a s2 in
      let s4 = add_incoming new_phi pred_phi q s3 in
      some (remove n (replace_all_uses_with n new_phi s4))

  -- The iterator goes on from each node to the next, in front of which the new nodes are put.
  unfoldable pub move_phis : (q a : ℕ) → List ℕ → State → Option State
  unfolding move_phi
  move_phis q a [] s = some s
  move_phis q a (n ∷ ns) s = move_phi q a n s >>= move_phis q a ns

  unfoldable pub move_phi_node_to_predicate_block : (q a : ℕ) → State → Option State
  unfolding move_phis
  move_phi_node_to_predicate_block q a s = move_phis q a (map (λ p. p.node) (phis s a)) s

  -- The loop over the pairs of blocks, behind the assertion on their numbers.
  unfoldable pub move_all_phi_nodes : List ℕ → List ℕ → State → Option State
  unfolding move_phi_node_to_predicate_block
  move_all_phi_nodes [] [] s = some s
  move_all_phi_nodes (q ∷ qs) (a ∷ acts) s =
      move_phi_node_to_predicate_block q a s >>= move_all_phi_nodes qs acts
  move_all_phi_nodes _ _ s = none
