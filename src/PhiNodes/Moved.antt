-- ===== src/PhiNodes/Moved.antt =====
-- Which nodes stand in the action block and in its predicate block when all are moved.
use mem_opt.Common.{
  length, arith, ℕ, ◌≡◌, ◌≢◌, refl, sym, ◌∙◌, none, some, List, [], ◌∷◌, ◌++◌, All, map, subst,
}
use mathlib.Core.List.{append-nil}
use mem_opt.PhiNodes.{
  move_all_phi_nodes, Phi, PhiView, nth, move_phis, move_phi_node_to_predicate_block,
}
use mem_opt.PhiNodes.Step.{Off, Avoids, move_phi_lem}

-- getIncomingValue
abbrev pub value_at : ℕ → Phi → ℕ
value_at i p = elim (nth i p.incoming) [ none ↦ 0 | some v ↦ v.0 ]

abbrev pub HasTwo : Phi → Type 0
HasTwo p = (v : ℕ × ℕ) × (w : ℕ × ℕ) × (more : List (ℕ × ℕ)) × (p.incoming ≡ v ∷ w ∷ more)

-- The nodes of a block are different, and none is an incoming value of them.
abbrev pub Clean : List Phi → Type 0
Clean [] = Unit
Clean (p ∷ ps) =
    Off p.node ps × Avoids p.node p.incoming × All (λ x. Avoids x.node p.incoming) ps × Clean ps

-- For each node of the first list, a new node stands in the predicate block `q`, in front of `old`, with
-- the first two values of the node, from `b` and `c` in this order, and a new node in the action
-- block, in front of `front`, that takes this one from `q`. The later nodes come in front.
abbrev pub Moved : (q b c : ℕ) → (todo front old in_action in_predicate : List Phi) → Type 0
Moved q b c [] front old in_action in_predicate = (in_action ≡ front) × (in_predicate ≡ old)
Moved q b c (p ∷ ps) front old in_action in_predicate =
    (x : ℕ) × (y : ℕ) × Moved q b c ps (record { node = y; incoming = (x, q) ∷ [] } ∷ front)
      (record { node = x; incoming = (value_at 0 p, b) ∷ (value_at 1 p, c) ∷ [] } ∷ old) in_action
      in_predicate

behind : (n : ℕ) (p : Phi) (ps qs : List Phi) → Off n (ps ++ p ∷ qs) → Off n qs
behind n p [] qs (h, hs) = hs
behind n p (x ∷ ps) qs (h, hs) = behind n p ps qs hs

-- The nodes that are left are off a list with one more node.
Off-more :
    (z : Phi) (old ps : List Phi)
    → Off z.node ps
    → All (λ x. Avoids x.node z.incoming) ps
    → All (λ x. Off x.node old) ps
    → All (λ x. Off x.node (z ∷ old)) ps
Off-more z old [] new other off = tt
Off-more z old (x ∷ ps) ((n, _), new) (i, other) (h, off) =
    ((((λ k. n (sym k)), i), h), Off-more z old ps new other off)

one_value : (n : ℕ) (b : ℕ) (ps : List Phi) → Off n ps → All (λ x. Avoids x.node ((n, b) ∷ [])) ps
one_value n b [] h = tt
one_value n b (x ∷ ps) ((h, _), hs) = (((λ k. h (sym k)), tt), one_value n b ps hs)

first_two :
    (p : Phi) (v w : ℕ × ℕ) (more : List (ℕ × ℕ)) (b c : ℕ) (ps : List Phi)
    → p.incoming ≡ v ∷ w ∷ more
    → All (λ x. Avoids x.node p.incoming) ps
    → All (λ x. Avoids x.node ((v.0, b) ∷ (w.0, c) ∷ [])) ps
first_two p v w more b c [] values h = tt
first_two p v w more b c (x ∷ ps) values (h, hs) =
    let (hv, (hw, _)) = subst (Avoids x.node) values h in
    ((hv, (hw, tt)), first_two p v w more b c ps values hs)

Moved-first :
    (q b c : ℕ) (p : Phi) (v w : ℕ × ℕ) (more : List (ℕ × ℕ)) (x y : ℕ)
    (ps front old in_action in_predicate : List Phi)
    → p.incoming ≡ v ∷ w ∷ more
    → Moved q b c ps
        (record { node = y; incoming = (x, q) ∷ [] } ∷ front)
        (record { node = x; incoming = (v.0, b) ∷ (w.0, c) ∷ [] } ∷ old)
        in_action
        in_predicate
    → Moved q b c (p ∷ ps) front old in_action in_predicate
Moved-first q b c p v w more x y ps front old in_action in_predicate values h = (x, y, rw values h)

module _ {State : Type 0} (V : PhiView State) (q a : ℕ) (apart : q ≢ a) (b c : ℕ)
    (bs : List ℕ) where
  open V use {phis, preds}

  move_phis_lem :
      (ps front old : List Phi) (s : State)
      → phis s a ≡ front ++ ps
      → phis s q ≡ old
      → preds s q ≡ b ∷ c ∷ bs
      → All HasTwo ps
      → Clean ps
      → All (λ p. Off p.node front) ps
      → All (λ p. Off p.node old) ps
      → (s' : State) × (move_phis V q a (map (λ p. p.node) ps) s ≡ some s')
        × Moved q b c ps front old (phis s' a) (phis s' q)
  unfolding move_phis
  move_phis_lem [] front old s at_a at_q two has clean off off_old =
      (s, refl, (at_a ∙ append-nil front, at_q))
  move_phis_lem (p ∷ ps) front old s at_a at_q two ((v, w, more, e_in), has)
        (off_rest, own, others, clean) (off_front, offs) (off_q, offs_q) =
      let (off_v, (off_w, _)) = subst (Avoids p.node) e_in own in
      let (x, y, s1, moved, at_a1, at_q1, same, x_off, y_off) =
        move_phi_lem V q a apart s front ps old p v w more b c bs at_a at_q e_in two off_front
          off_rest off_q off_v off_w in
      let new : Phi = record { node = y; incoming = (x, q) ∷ [] } in
      let pred : Phi = record { node = x; incoming = (v.0, b) ∷ (w.0, c) ∷ [] } in
      let (s', ran, all_moved) =
        move_phis_lem ps (new ∷ front) (pred ∷ old) s1 at_a1 at_q1 (same q ∙ two) has clean
          (Off-more new front ps (behind y p front ps y_off)
            (one_value x q ps (behind x p front ps x_off)) offs)
          (Off-more pred old ps (behind x p front ps x_off)
            (first_two p v w more b c ps e_in others) offs_q) in
      (
        s',
        rw moved ran,
        Moved-first q b c p v w more x y ps front old (phis s' a) (phis s' q) e_in all_moved,
      )

  -- Where the predicate block `q` has at least two predecessors, the first of which are `b` and `c`, and
  -- each PHI node of the action block has at least two incoming values, all nodes are moved: for each
  -- of them, a new node in the predicate block has its value 0 for `b` and its value 1 for `c`, by
  -- position, whatever blocks these values came from and whatever other values there were, and a node of
  -- the action block takes that one. The nodes are different, and none is an incoming value of them
  -- or a node or an incoming value of the predicate block.
  pub move_phi_node_to_predicate_block-Moved :
      (s : State)
      → preds s q ≡ b ∷ c ∷ bs
      → All HasTwo (phis s a)
      → Clean (phis s a)
      → All (λ p. Off p.node (phis s q)) (phis s a)
      → (s' : State) × (move_phi_node_to_predicate_block V q a s ≡ some s')
        × Moved q b c (phis s a) [] (phis s q) (phis s' a) (phis s' q)
  unfolding move_phi_node_to_predicate_block
  move_phi_node_to_predicate_block-Moved s two has clean off =
      move_phis_lem (phis s a) [] (phis s q) s refl refl two has clean (nothing (phis s a)) off
    where
      nothing : (ps : List Phi) → All (λ p. Off p.node []) ps
      nothing [] = tt
      nothing (p ∷ ps) = (tt, nothing ps)

-- Where no action block starts with a node, and there are as many predicate blocks as action blocks,
-- the last loop of linearizeControlFlow changes nothing.
pub move_all_phi_nodes-none :
    {State : Type 0} (V : PhiView State) (qs acts : List ℕ) (s : State)
    → length qs ≡ length acts
    → All (λ a. V.phis s a ≡ []) acts
    → move_all_phi_nodes V qs acts s ≡ some s
unfolding move_all_phi_nodes move_phi_node_to_predicate_block move_phis
move_all_phi_nodes-none V [] [] s same none_there = refl
move_all_phi_nodes-none V [] (a ∷ acts) s same none_there = absurd (omega (arith, same))
move_all_phi_nodes-none V (q ∷ qs) [] s same none_there = absurd (omega (arith, same))
move_all_phi_nodes-none V (q ∷ qs) (a ∷ acts) s same (here, none_there) =
    rw here (move_all_phi_nodes-none V qs acts s (omega (arith, same)) none_there)
