-- ===== src/PacketPath/Bounds.antt =====
-- How large the counter of PacketPathAnalysis::calculate and the mask ids can be.
use mem_opt.Common.{ℕ, ◌+◌, ◌≤◌, ◌≡◌, List, [], ◌∷◌, some, arith, length, find}
use mem_opt.PacketPath.{
  Cfg, PacketPaths, no_paths, assign_fresh, assign_current, assign_all, assign_succs, assign_join,
  visit, visit_all, calculate,
}
use mem_opt.PacketPath.Step.{visit-counter-le}

-- No id lies above the counter.
abbrev pub IsBounded : PacketPaths → Type 0
IsBounded p = (b i : ℕ) → find b p.ids ≡ some i → i ≤ p.counter

pub assign_fresh-IsBounded : (b : ℕ) (p : PacketPaths) → IsBounded p → IsBounded (assign_fresh b p)
unfolding assign_fresh
assign_fresh-IsBounded b p h x i e = ground (arith, h x i)

pub assign_current-IsBounded :
    (b : ℕ) (p : PacketPaths) → IsBounded p → IsBounded (assign_current b p)
unfolding assign_current
assign_current-IsBounded b p h x i e = ground (arith, h x i)

assign_all-IsBounded : (ss : List ℕ) (p : PacketPaths) → IsBounded p → IsBounded (assign_all ss p)
unfolding assign_all
assign_all-IsBounded [] p h = h
assign_all-IsBounded (s ∷ ss) p h =
    assign_all-IsBounded ss (assign_fresh s p) (assign_fresh-IsBounded s p h)

assign_succs-IsBounded :
    (n : ℕ) (ss : List ℕ) (p : PacketPaths) → IsBounded p → IsBounded (assign_succs n ss p)
unfolding assign_succs assign_fresh assign_current
assign_succs-IsBounded n [] p h = h
assign_succs-IsBounded n (s ∷ []) p h = λ x i e. ground (arith, h x i)
assign_succs-IsBounded n (s ∷ t ∷ ss) p h = assign_all-IsBounded (s ∷ t ∷ ss) p h

assign_join-IsBounded : (n b : ℕ) (p : PacketPaths) → IsBounded p → IsBounded (assign_join n b p)
unfolding assign_join assign_fresh
assign_join-IsBounded n b p h = λ x i e. ground (arith, h x i)

visit_all-IsBounded :
    (c : Cfg) (p : PacketPaths) (bs : List ℕ) → IsBounded p → IsBounded (visit_all c p bs)
unfolding visit_all visit
visit_all-IsBounded c p [] h = h
visit_all-IsBounded c p (b ∷ bs) h =
    visit_all-IsBounded c
      (assign_succs (c.pred_size b) (c.succs b) (assign_join (c.pred_size b) b p)) bs
      (assign_succs-IsBounded (c.pred_size b) (c.succs b) (assign_join (c.pred_size b) b p)
        (assign_join-IsBounded (c.pred_size b) b p h))

-- All blocks and edges that the traversal passes.
abbrev pub size : Cfg → List ℕ → ℕ
size c [] = 0
size c (b ∷ bs) = 1 + length (c.succs b) + size c bs

visit_all-counter-le :
    (c : Cfg) (p : PacketPaths) (bs : List ℕ) → (visit_all c p bs).counter ≤ p.counter + size c bs
unfolding visit_all
visit_all-counter-le c p [] = omega arith
visit_all-counter-le c p (b ∷ bs) =
    omega (arith, visit-counter-le c p b, visit_all-counter-le c (visit c p b) bs)

-- Every mask id is at most the counter, and the counter at most the number of blocks and edges that
-- the traversal visits: the counter, an `int`, does not overflow where these are fewer than 2^31.
pub calculate_bounds : (c : Cfg) → IsBounded (calculate c) × ((calculate c).counter ≤ size c c.rpo)
unfolding calculate
calculate_bounds c = (
  λ b i e. ground (arith, visit_all-IsBounded c no_paths c.rpo (λ x j z. absurd (cc)) b i),
  ground (arith, visit_all-counter-le c no_paths c.rpo),
)
