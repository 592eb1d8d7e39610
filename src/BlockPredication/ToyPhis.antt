-- ===== src/BlockPredication/ToyPhis.antt =====
-- The PHI nodes of the small functions: the laws of the view can hold together with those of the
-- instructions.
use mem_opt.Common.{
  ℕ, suc, ◌≡◌, refl, ◌∙◌, inl, inr, Bool, true, false, List, [], ◌∷◌, ◌==◌, ==_iff, ==_self, subst,
  ap, Bool-cases, if◌then◌else◌, All, All-mem, map, arith,
}
use mem_opt.Llvm.{phi, starts_with_phi}
use mem_opt.Llvm.Toy.{ToyFunction, toy, toy_preds}
use mem_opt.PhiNodes.{Phi, PhiView, extend, rename, without}
use mem_opt.PhiNodes.NodeLists.{
  Nodes, heads, each, drop, total, heads-each, heads-drop, Fresh, heads-Fresh,
}
use mem_opt.BlockPredication.{IrPhis}

-- Only the nodes of a block that starts with one are there.
abbrev heads_if : Bool → Nodes → ℕ → List Phi
heads_if starts s b = if starts then heads s b else []

abbrev toy_heads : ToyFunction → ℕ → List Phi
toy_heads s b = heads_if (starts_with_phi (s.code b)) s.nodes b

abbrev without_block : ℕ → Nodes → Nodes
without_block b [] = []
without_block b ((c, p) ∷ s) = if c == b then without_block b s else (c, p) ∷ without_block b s

heads-without_block :
    (b : ℕ) (s : Nodes) (c : ℕ) → heads (without_block b s) c ≡ (if b == c then [] else heads s c)
heads-without_block b [] c = elim (Bool-cases (b == c)) [ inl e ↦ rw e refl | inr e ↦ rw e refl ]
heads-without_block b ((d, p) ∷ s) c = elim (Bool-cases (d == b)) [
  | inl same ↦
      rw (same, heads-without_block b s c, (==_iff d b).0 same)
        (elim (Bool-cases (b == c)) [ inl e ↦ rw e refl | inr e ↦ rw e refl ])
  | inr other ↦
      rw (other, heads-without_block b s c)
        (elim (Bool-cases (b == c)) [
          | inl e ↦ rw (e, subst (λ z. (d == z) ≡ false) ((==_iff b c).0 e) other) refl
          | inr e ↦ rw e refl
        ])
]

abbrev kept_nodes : Bool → ℕ → Nodes → Nodes
kept_nodes starts b s = if starts then s else without_block b s

heads-kept :
    (starts : Bool) (b : ℕ) (s : Nodes) → heads (kept_nodes starts b s) b ≡ heads_if starts s b
heads-kept true b s = refl
heads-kept false b s = heads-without_block b s b ∙ rw (==_self b) refl

heads-kept_other :
    (starts : Bool) (b c : ℕ) (s : Nodes)
    → (b == c) ≡ false
    → heads (kept_nodes starts b s) c ≡ heads s c
heads-kept_other true b c s e = refl
heads-kept_other false b c s e = heads-without_block b s c ∙ rw e refl

abbrev toy_create : ℕ → ToyFunction → ToyFunction
toy_create b s = record s {
  code = λ c. if b == c then phi [] ∷ s.code c else s.code c;
  nodes =
      (b, record { node = suc (total s.nodes); incoming = [] })
      ∷ kept_nodes (starts_with_phi (s.code b)) b s.nodes;
}

pub toy_heads-create :
    (b : ℕ) (s : ToyFunction) (c : ℕ)
    → toy_heads (toy_create b s) c ≡ (
        if b == c
        then record { node = suc (total s.nodes); incoming = [] } ∷ toy_heads s c
        else toy_heads s c)
toy_heads-create b s c = elim (Bool-cases (b == c)) [
  | inl e ↦ rw e (
      ap (λ l. record { node = suc (total s.nodes); incoming = [] } ∷ l)
        (subst
          (λ z.
            heads (kept_nodes (starts_with_phi (s.code b)) b s.nodes) z
            ≡ heads_if (starts_with_phi (s.code z)) s.nodes z)
          ((==_iff b c).0 e) (heads-kept (starts_with_phi (s.code b)) b s.nodes)))
  | inr e ↦ rw e (
      ap (λ l. if starts_with_phi (s.code c) then l else [])
        (heads-kept_other (starts_with_phi (s.code b)) b c s.nodes e))
]

pub map-heads_if :
    (f : Phi → Phi) (starts : Bool) (s : Nodes) (c : ℕ)
    → heads_if starts (each f s) c ≡ map f (heads_if starts s c)
map-heads_if f true s c = heads-each f s c
map-heads_if f false s c = refl

pub without-heads_if :
    (n : ℕ) (starts : Bool) (s : Nodes) (c : ℕ)
    → heads_if starts (drop n s) c ≡ without n (heads_if starts s c)
without-heads_if n true s c = heads-drop n s c
without-heads_if n false s c = refl

pub heads_if-Fresh :
    (starts : Bool) (s : Nodes) (c : ℕ) → All (Fresh (total s)) (heads_if starts s c)
heads_if-Fresh true s c = heads-Fresh s (total s) c (omega arith)
heads_if-Fresh false s c = tt

pub preds_same :
    (s s' : ToyFunction) (b : ℕ) (us : List ℕ)
    → s'.ends ≡ s.ends
    → toy_preds s' b us ≡ toy_preds s b us
preds_same s s' b [] e = refl
preds_same s s' b (u ∷ us) e = rw (e, preds_same s s' b us e) refl

abbrev toy_view : PhiView ToyFunction
toy_view = record {
  phis = toy_heads;
  preds = toy.preds;
  create_phi = λ b s. (suc (total s.nodes), toy_create b s);
  add_incoming = λ n v b s. record s { nodes = each (extend n (v, b)) s.nodes };
  replace_all_uses_with = λ from to s. record s { nodes = each (rename from to) s.nodes };
  remove = λ n s. record s { nodes = drop n s.nodes };
  phis-create_phi = toy_heads-create;
  phis-add_incoming =
      λ n v b s c. map-heads_if (extend n (v, b)) (starts_with_phi (s.code c)) s.nodes c;
  phis-replace_all_uses_with =
      λ from to s c. map-heads_if (rename from to) (starts_with_phi (s.code c)) s.nodes c;
  phis-remove = λ n s c. without-heads_if n (starts_with_phi (s.code c)) s.nodes c;
  preds-create_phi = λ b s c. preds_same s (toy_create b s) c s.layout refl;
  preds-add_incoming = λ n v b s c.
      preds_same s (record s { nodes = each (extend n (v, b)) s.nodes }) c s.layout refl;
  preds-replace_all_uses_with = λ from to s c.
      preds_same s (record s { nodes = each (rename from to) s.nodes }) c s.layout refl;
  preds-remove = λ n s c. preds_same s (record s { nodes = drop n s.nodes }) c s.layout refl;
  create_phi_new = λ b s c p m.
      All-mem (Fresh (total s.nodes)) (toy_heads s c)
        (heads_if-Fresh (starts_with_phi (s.code c)) s.nodes c) m;
}

abbrev pub toy_phis : IrPhis toy
toy_phis = record { view = toy_view; preds_eq = λ s b. refl; phis_eq_nil = λ s b e. rw e refl }
