-- ===== src/PacketPath/Unique.antt =====
-- Different blocks have different mask ids once the traversal is over, where straight-line edges
-- lead to joins that are still to be visited.
use mem_opt.Common.{
  ℕ, ◌<◌, ◌≡◌, ◌≢◌, refl, ◌⊎◌, inl, inr, List, [], ◌∷◌, Memᴰ, some, arith, ltb, leb, ◌==◌, find, ap,
  Bool-cases, false, ==_iff,
}
use mathlib.Core.List.Memᴰ
use mem_opt.PacketPath.{
  Cfg, PacketPaths, no_paths, assign_fresh, assign_current, assign_all, assign_succs, assign_join,
  visit, visit_all, calculate,
}
use mem_opt.PacketPath.Bounds.{IsBounded, assign_fresh-IsBounded, assign_current-IsBounded}

-- A join that is still to be visited, and gets another id then.
abbrev pub IsPending : Cfg → List ℕ → ℕ → Type 0
IsPending c rest x = (1 < c.pred_size x) × Memᴰ x rest

-- Two blocks share an id only if one of them is pending.
record IsUnique (c : Cfg) (rest : List ℕ) (p : PacketPaths) : Type 0 where
  bounded : IsBounded p
  apart :
      (a b i : ℕ)
      → find a p.ids ≡ some i
      → find b p.ids ≡ some i
      → (a ≡ b) ⊎ (IsPending c rest a ⊎ IsPending c rest b)

module _ (c : Cfg) (rest : List ℕ) where
  assign_fresh-IsUnique :
      (b : ℕ) (p : PacketPaths) → IsUnique c rest p → IsUnique c rest (assign_fresh b p)
  unfolding assign_fresh
  assign_fresh-IsUnique b p u = record {
    bounded = assign_fresh-IsBounded b p u.bounded;
    apart = λ x y i hx hy. ground (arith, u.bounded x i, u.bounded y i, u.apart x y i);
  }

  assign_all-IsUnique :
      (ss : List ℕ) (p : PacketPaths) → IsUnique c rest p → IsUnique c rest (assign_all ss p)
  unfolding assign_all
  assign_all-IsUnique [] p u = u
  assign_all-IsUnique (s ∷ ss) p u =
      assign_all-IsUnique ss (assign_fresh s p) (assign_fresh-IsUnique s p u)

  assign_current-IsUnique :
      (b : ℕ) (p : PacketPaths)
      → IsPending c rest b
      → IsUnique c rest p
      → IsUnique c rest (assign_current b p)
  unfolding assign_current
  assign_current-IsUnique b p w u = record {
    bounded = assign_current-IsBounded b p u.bounded;
    apart = λ x y i hx hy. elim (Bool-cases (b == x)) [
      | inl e ↦ inr (inl (rw (← (==_iff b x).0 e) w))
      | inr e ↦ elim (Bool-cases (b == y)) [
        | inl e' ↦ inr (inr (rw (← (==_iff b y).0 e') w))
        | inr e' ↦ u.apart x y i (rw e at hx) (rw e' at hy)
      ]
    ];
  }

  -- An edge from a block with one predecessor to its only successor leads to a pending join.
  abbrev IsStraightOk : ℕ → List ℕ → Type 0
  IsStraightOk n ss = (s : ℕ) → ss ≡ s ∷ [] → n ≡ 1 → IsPending c rest s

  assign_succs-IsUnique :
      (n : ℕ) (ss : List ℕ) (p : PacketPaths)
      → IsStraightOk n ss
      → IsUnique c rest p
      → IsUnique c rest (assign_succs n ss p)
  unfolding assign_succs
  assign_succs-IsUnique n [] p g u = u
  assign_succs-IsUnique n (s ∷ []) p g u = elim (Bool-cases (n == 1)) [
    | inl e ↦ rw e (assign_current-IsUnique s p (g s refl ((==_iff n 1).0 e)) u)
    | inr e ↦ rw e (elim (Bool-cases (ltb 1 n)) [
      | inl e' ↦ rw e' (assign_fresh-IsUnique s p u)
      | inr e' ↦ rw e' u
    ])
  ]
  assign_succs-IsUnique n (s ∷ t ∷ ss) p g u = assign_all-IsUnique (s ∷ t ∷ ss) p u

  -- The visit of `b` takes it off the pending blocks.
  IsPending-tail : (b x : ℕ) → b ≢ x → IsPending c (b ∷ rest) x → IsPending c rest x
  IsPending-tail b x ne (h, m) = elim (Memᴰ.cases_cons m) [
    | inl e ↦ absurd (ne (rw e refl))
    | inr m' ↦ (h, m')
  ]

  IsPending-few :
      (b x : ℕ) → ltb 1 (c.pred_size b) ≡ false → IsPending c (b ∷ rest) x → IsPending c rest x
  IsPending-few b x few (h, m) = elim (Memᴰ.cases_cons m) [
    | inl e ↦ absurd (ground (arith, ap c.pred_size e))
    | inr m' ↦ (h, m')
  ]

  assign_join-IsUnique :
      (b : ℕ) (p : PacketPaths)
      → IsUnique c (b ∷ rest) p
      → IsUnique c rest (assign_join (c.pred_size b) b p)
  unfolding assign_join assign_fresh
  assign_join-IsUnique b p u = elim (Bool-cases (ltb 1 (c.pred_size b))) [
    | inl e ↦ rw e (record {
      bounded = assign_fresh-IsBounded b p u.bounded;
      apart = λ x y i hx hy. ground (
        arith,
        u.bounded x i,
        u.bounded y i,
        u.apart x y i,
        IsPending-tail b x,
        IsPending-tail b y,
      );
    })
    | inr e ↦ rw e (record {
      bounded = u.bounded;
      apart =
          λ x y i hx hy. ground (arith, u.apart x y i, IsPending-few b x e, IsPending-few b y e);
    })
  ]

-- Along the traversal, every edge from a block with one predecessor to its only successor leads to
-- a join that is visited later.
abbrev pub IsStructured : Cfg → List ℕ → Type 0
IsStructured c [] = Unit
IsStructured c (b ∷ rest) =
    ((s : ℕ) → c.succs b ≡ s ∷ [] → c.pred_size b ≡ 1 → IsPending c rest s) × IsStructured c rest

visit-IsUnique :
    (c : Cfg) (p : PacketPaths) (b : ℕ) (rest : List ℕ)
    → IsStructured c (b ∷ rest)
    → IsUnique c (b ∷ rest) p
    → IsUnique c rest (visit c p b)
unfolding visit
visit-IsUnique c p b rest s u =
    assign_succs-IsUnique c rest (c.pred_size b) (c.succs b) (assign_join (c.pred_size b) b p) s.0
      (assign_join-IsUnique c rest b p u)

visit_all-IsUnique :
    (c : Cfg) (p : PacketPaths) (bs : List ℕ)
    → IsStructured c bs
    → IsUnique c bs p
    → IsUnique c [] (visit_all c p bs)
unfolding visit_all
visit_all-IsUnique c p [] s u = u
visit_all-IsUnique c p (b ∷ bs) s u =
    visit_all-IsUnique c (visit c p b) bs s.1 (visit-IsUnique c p b bs s u)

calculate-IsUnique : (c : Cfg) → IsStructured c c.rpo → IsUnique c [] (calculate c)
unfolding calculate
calculate-IsUnique c s = elim (Bool-cases (leb c.n_blocks 2)) [
  | inl e ↦ rw e (record { bounded = λ b i h. cc; apart = λ x y i hx hy. cc })
  | inr e ↦ rw e (
      visit_all-IsUnique c no_paths c.rpo s
        (record { bounded = λ b i h. cc; apart = λ x y i hx hy. cc }))
]

pub calculate_injective :
    (c : Cfg) (a b i : ℕ)
    → IsStructured c c.rpo
    → find a (calculate c).ids ≡ some i
    → find b (calculate c).ids ≡ some i
    → a ≡ b
calculate_injective c a b i s ha hb = elim ((calculate-IsUnique c s).apart a b i ha hb) [
  | inl e ↦ e
  | inr (inl (_, m)) ↦ absurd (Memᴰ.not-nil m)
  | inr (inr (_, m)) ↦ absurd (Memᴰ.not-nil m)
]

-- Where every edge from a block with one predecessor to its only successor leads to a join that is
-- visited later, different blocks have different mask ids.
pub calculate-ids_distinct :
    (c : Cfg) (a b i j : ℕ)
    → IsStructured c c.rpo
    → a ≢ b
    → find a (calculate c).ids ≡ some i
    → find b (calculate c).ids ≡ some j
    → i ≢ j
calculate-ids_distinct c a b i j s ne ha hb e = ne (calculate_injective c a b i s ha (rw e hb))
