-- ===== src/PacketPath/Gaps.antt =====
-- Which blocks PacketPathAnalysis::calculate leaves without a mask id.
use mem_opt.Common.{
  ℕ, ◌≤◌, ◌≡◌, ◌≢◌, refl, inl, inr, List, [], ◌∷◌, Memᴰ, none, arith, length, ltb, ◌==◌, find, ap,
  subst, Bool-cases, true, ==_iff,
}
use mem_opt.PacketPath.{
  Cfg, PacketPaths, no_paths, assign_fresh, assign_current, assign_all, assign_succs, assign_join,
  visit, visit_all, calculate,
}

-- `x` has no mask id.
abbrev pub IsUnmapped : PacketPaths → ℕ → Type 0
IsUnmapped p x = find x p.ids ≡ none

assign_fresh-IsUnmapped :
    (b : ℕ) (p : PacketPaths) (x : ℕ) → b ≢ x → IsUnmapped p x → IsUnmapped (assign_fresh b p) x
unfolding assign_fresh
assign_fresh-IsUnmapped b p x ne h = ground arith

assign_all-IsUnmapped :
    (ss : List ℕ) (p : PacketPaths) (x : ℕ)
    → ¬ Memᴰ x ss
    → IsUnmapped p x
    → IsUnmapped (assign_all ss p) x
unfolding assign_all
assign_all-IsUnmapped [] p x out h = h
assign_all-IsUnmapped (s ∷ ss) p x out h =
    assign_all-IsUnmapped ss (assign_fresh s p) x (λ m. out (Memᴰ.tail m))
      (assign_fresh-IsUnmapped s p x (λ e. out (Memᴰ.head (sym_ℕ e))) h)
  where
    sym_ℕ : s ≡ x → x ≡ s
    sym_ℕ e = ground arith

-- The edges into `x` that are passed over: from a block with no predecessor and one successor.
abbrev pub IsPassedOver : Cfg → ℕ → ℕ → Type 0
IsPassedOver c x b = Memᴰ x (c.succs b) → (c.pred_size b ≡ 0) × (length (c.succs b) ≡ 1)

assign_succs-IsUnmapped :
    (n : ℕ) (ss : List ℕ) (p : PacketPaths) (x : ℕ)
    → (Memᴰ x ss → (n ≡ 0) × (length ss ≡ 1))
    → IsUnmapped p x
    → IsUnmapped (assign_succs n ss p) x
unfolding assign_succs assign_fresh assign_current
assign_succs-IsUnmapped n [] p x g h = h
assign_succs-IsUnmapped n (s ∷ []) p x g h = elim (Bool-cases (s == x)) [
  | inl e ↦ let z = (g (Memᴰ.head ((==_iff x s).0 (ground arith)))).0 in ground arith
  | inr e ↦ ground arith
]
assign_succs-IsUnmapped n (s ∷ t ∷ ss) p x g h =
    assign_all-IsUnmapped (s ∷ t ∷ ss) p x (λ m. absurd (omega (arith, (g m).1))) h

visit-IsUnmapped :
    (c : Cfg) (p : PacketPaths) (b x : ℕ)
    → (b ≡ x → c.pred_size x ≤ 1)
    → IsPassedOver c x b
    → IsUnmapped p x
    → IsUnmapped (visit c p b) x
unfolding visit assign_join
visit-IsUnmapped c p b x few g h =
    assign_succs-IsUnmapped (c.pred_size b) (c.succs b) (assign_join (c.pred_size b) b p) x g
      (elim (Bool-cases (ltb 1 (c.pred_size b))) [
        | inl e ↦ rw e (assign_fresh-IsUnmapped b p x (λ s. differ s e) h)
        | inr e ↦ rw e h
      ])
  where
    differ : b ≡ x → ltb 1 (c.pred_size b) ≡ true → ⊥
    differ s e = ground (arith, ap c.pred_size s, few s)

visit_all-IsUnmapped :
    (c : Cfg) (x : ℕ) (p : PacketPaths) (bs : List ℕ)
    → ((b : ℕ) → Memᴰ b bs → b ≡ x → c.pred_size x ≤ 1)
    → ((b : ℕ) → Memᴰ b bs → IsPassedOver c x b)
    → IsUnmapped p x
    → IsUnmapped (visit_all c p bs) x
unfolding visit_all
visit_all-IsUnmapped c x p [] few g h = h
visit_all-IsUnmapped c x p (b ∷ bs) few g h =
    visit_all-IsUnmapped c x (visit c p b) bs (λ a m. few a (Memᴰ.tail m))
      (λ a m. g a (Memᴰ.tail m))
      (visit-IsUnmapped c p b x (few b (Memᴰ.head refl)) (g b (Memᴰ.head refl)) h)

-- A block at which no paths converge has no mask id, if it is a successor only of visited blocks
-- that have no predecessor and one successor, such as the entry block.
pub calculate-IsUnmapped :
    (c : Cfg) (x : ℕ)
    → c.pred_size x ≤ 1
    → ((b : ℕ) → Memᴰ b c.rpo → IsPassedOver c x b)
    → IsUnmapped (calculate c) x
unfolding calculate
calculate-IsUnmapped c x few g =
    ground (arith, visit_all-IsUnmapped c x no_paths c.rpo (λ b m e. few) g refl)

-- Nor has a block that is neither visited nor a successor of a visited block.
pub calculate-IsUnmapped_of_out :
    (c : Cfg) (x : ℕ)
    → ¬ Memᴰ x c.rpo
    → ((b : ℕ) → Memᴰ b c.rpo → ¬ Memᴰ x (c.succs b))
    → IsUnmapped (calculate c) x
unfolding calculate
calculate-IsUnmapped_of_out c x out none_in = ground (
  arith,
  visit_all-IsUnmapped c x no_paths c.rpo (λ b m e. absurd (out (subst (λ z. Memᴰ z c.rpo) e m)))
      (λ b m i. absurd (none_in b m i)) refl,
)
