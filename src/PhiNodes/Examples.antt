-- ===== src/PhiNodes/Examples.antt =====
-- The moves of a node of a small function.
use mem_opt.Common.{suc, ◌≡◌, refl, some, [], ◌∷◌, ◌==◌, if◌then◌else◌, All-mem, arith}
use mem_opt.PhiNodes.{PhiView, extend, rename, move_phi_node_to_predicate_block}
use mem_opt.PhiNodes.Moved.{Moved, move_phi_node_to_predicate_block-Moved}
use mem_opt.PhiNodes.NodeLists.{
  Nodes, heads, each, drop, total, heads-each, heads-drop, Fresh, heads-Fresh,
}

abbrev toy : PhiView Nodes
toy = record {
  phis = heads;
  preds = λ s b. if b == 1 then 8 ∷ 9 ∷ [] else 1 ∷ [];
  create_phi = λ b s. (suc (total s), (b, record { node = suc (total s); incoming = [] }) ∷ s);
  add_incoming = λ n v b s. each (extend n (v, b)) s;
  replace_all_uses_with = λ from to s. each (rename from to) s;
  remove = drop;
  phis-create_phi = λ b s c. refl;
  phis-add_incoming = λ n v b s c. heads-each (extend n (v, b)) s c;
  phis-replace_all_uses_with = λ from to s c. heads-each (rename from to) s c;
  phis-remove = heads-drop;
  preds-create_phi = λ b s c. refl;
  preds-add_incoming = λ n v b s c. refl;
  preds-replace_all_uses_with = λ from to s c. refl;
  preds-remove = λ n s c. refl;
  create_phi_new = λ b s c p m.
      All-mem (Fresh (total s)) (heads s c) (heads-Fresh s (total s) c (omega arith)) m;
}

-- One node of block 2, with three values, and its predicate block 1.
abbrev one_node : Nodes
one_node = (2, record { node = 5; incoming = (3, 20) ∷ (4, 21) ∷ (6, 22) ∷ [] }) ∷ []

moved_nodes :
    move_phi_node_to_predicate_block toy 1 2 one_node
    ≡ some (
        (2, record { node = 45; incoming = (19, 1) ∷ [] })
        ∷ (1, record { node = 19; incoming = (3, 8) ∷ (4, 9) ∷ [] })
        ∷ [])
unfolding move_phi_node_to_predicate_block
moved_nodes = refl

move_phi_node_to_predicate_block-Moved_example :
    (s' : Nodes) × (move_phi_node_to_predicate_block toy 1 2 one_node ≡ some s')
    × Moved 1 8 9 (heads one_node 2) [] (heads one_node 1) (heads s' 2) (heads s' 1)
move_phi_node_to_predicate_block-Moved_example =
    move_phi_node_to_predicate_block-Moved toy 1 2 (λ e. omega arith) 8 9 [] one_node refl
      (((3, 20), (4, 21), (6, 22) ∷ [], refl), tt)
      (tt, ((λ e. omega arith), ((λ e. omega arith), ((λ e. omega arith), tt))), tt, tt) (tt, tt)
