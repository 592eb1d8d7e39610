-- ===== src/PacketPath/Step.antt =====
-- What one assignment and one round of the loop of PacketPathAnalysis::calculate do to the
-- counter and to the map.
use mem_opt.Common.{
  ℕ, suc, ◌+◌, ◌≤◌, ◌≡◌, inl, inr, List, [], ◌∷◌, Memᴰ, some, arith, length, ◌==◌, find,
  if◌then◌else◌,
}
use mathlib.Core.List.Memᴰ
use mem_opt.PacketPath.{
  Cfg, PacketPaths, assign_fresh, assign_current, assign_all, assign_succs, assign_join, visit,
  visit_all,
}

abbrev pub IsMapped : PacketPaths → ℕ → Type 0
IsMapped p b = (i : ℕ) × (find b p.ids ≡ some i)

-- The counter never falls, and a block with an id keeps an id.
pub record Grows (p q : PacketPaths) : Type 0 where
  pub counter_le : p.counter ≤ q.counter
  pub mapped : (b : ℕ) → IsMapped p b → IsMapped q b

pub Grows-refl : (p : PacketPaths) → Grows p p
Grows-refl p = record { counter_le = omega arith; mapped = λ b h. h }

pub Grows-trans : {p q r : PacketPaths} → Grows p q → Grows q r → Grows p r
Grows-trans g h = record { counter_le = omega arith; mapped = λ b m. h.mapped b (g.mapped b m) }

pub insert-IsMapped :
    (k v b : ℕ) (m : List (ℕ × ℕ))
    → (i : ℕ) × (find b m ≡ some i)
    → (i : ℕ) × (find b ((k, v) ∷ m) ≡ some i)
insert-IsMapped k v b m (i, h) = (if k == b then v else i, ground arith)

pub assign_fresh-Grows : (b : ℕ) (p : PacketPaths) → Grows p (assign_fresh b p)
unfolding assign_fresh
assign_fresh-Grows b p = record {
  counter_le = omega arith;
  mapped = λ x h. insert-IsMapped b (suc p.counter) x p.ids h;
}

pub assign_fresh-IsMapped : (b : ℕ) (p : PacketPaths) → IsMapped (assign_fresh b p) b
unfolding assign_fresh
assign_fresh-IsMapped b p = (suc p.counter, ground arith)

pub assign_current-Grows : (b : ℕ) (p : PacketPaths) → Grows p (assign_current b p)
unfolding assign_current
assign_current-Grows b p = record {
  counter_le = omega arith;
  mapped = λ x h. insert-IsMapped b p.counter x p.ids h;
}

pub assign_current-IsMapped : (b : ℕ) (p : PacketPaths) → IsMapped (assign_current b p) b
unfolding assign_current
assign_current-IsMapped b p = (p.counter, ground arith)

pub assign_all-Grows : (ss : List ℕ) (p : PacketPaths) → Grows p (assign_all ss p)
unfolding assign_all
assign_all-Grows [] p = Grows-refl p
assign_all-Grows (s ∷ ss) p =
    Grows-trans (assign_fresh-Grows s p) (assign_all-Grows ss (assign_fresh s p))

pub assign_all-IsMapped :
    (ss : List ℕ) (p : PacketPaths) {s : ℕ} → Memᴰ s ss → IsMapped (assign_all ss p) s
unfolding assign_all
assign_all-IsMapped [] p m = absurd (Memᴰ.not-nil m)
assign_all-IsMapped (t ∷ ss) p {s} m = elim (Memᴰ.cases_cons m) [
  | inl e ↦ rw e ((assign_all-Grows ss (assign_fresh t p)).mapped t (assign_fresh-IsMapped t p))
  | inr m' ↦ assign_all-IsMapped ss (assign_fresh t p) m'
]

pub assign_all-counter :
    (ss : List ℕ) (p : PacketPaths) → (assign_all ss p).counter ≡ p.counter + length ss
unfolding assign_all assign_fresh
assign_all-counter [] p = omega arith
assign_all-counter (s ∷ ss) p = omega (arith, assign_all-counter ss (assign_fresh s p))

pub assign_succs-Grows : (n : ℕ) (ss : List ℕ) (p : PacketPaths) → Grows p (assign_succs n ss p)
unfolding assign_succs
assign_succs-Grows n [] p = Grows-refl p
assign_succs-Grows n (s ∷ []) p =
    ground (arith, Grows-refl p, assign_current-Grows s p, assign_fresh-Grows s p)
assign_succs-Grows n (s ∷ t ∷ ss) p = assign_all-Grows (s ∷ t ∷ ss) p

pub assign_join-Grows : (n b : ℕ) (p : PacketPaths) → Grows p (assign_join n b p)
unfolding assign_join
assign_join-Grows n b p = ground (arith, Grows-refl p, assign_fresh-Grows b p)

pub visit-Grows : (c : Cfg) (p : PacketPaths) (b : ℕ) → Grows p (visit c p b)
unfolding visit
visit-Grows c p b =
    Grows-trans (assign_join-Grows (c.pred_size b) b p)
      (assign_succs-Grows (c.pred_size b) (c.succs b) (assign_join (c.pred_size b) b p))

pub visit_all-Grows : (c : Cfg) (p : PacketPaths) (bs : List ℕ) → Grows p (visit_all c p bs)
unfolding visit_all
visit_all-Grows c p [] = Grows-refl p
visit_all-Grows c p (b ∷ bs) = Grows-trans (visit-Grows c p b) (visit_all-Grows c (visit c p b) bs)

pub assign_succs-counter-le :
    (n : ℕ) (ss : List ℕ) (p : PacketPaths) → (assign_succs n ss p).counter ≤ p.counter + length ss
unfolding assign_succs assign_fresh assign_current
assign_succs-counter-le n [] p = omega arith
assign_succs-counter-le n (s ∷ []) p = ground arith
assign_succs-counter-le n (s ∷ t ∷ ss) p = omega (arith, assign_all-counter (s ∷ t ∷ ss) p)

pub assign_join-counter-le :
    (n b : ℕ) (p : PacketPaths) → (assign_join n b p).counter ≤ p.counter + 1
unfolding assign_join assign_fresh
assign_join-counter-le n b p = ground arith

-- A round raises the counter by at most one, and by the number of successors.
pub visit-counter-le :
    (c : Cfg) (p : PacketPaths) (b : ℕ) → (visit c p b).counter ≤ p.counter + 1 + length (c.succs b)
unfolding visit
visit-counter-le c p b = omega (
  arith,
  assign_succs-counter-le (c.pred_size b) (c.succs b) (assign_join (c.pred_size b) b p),
  assign_join-counter-le (c.pred_size b) b p,
)
