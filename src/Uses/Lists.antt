-- ===== src/Uses/Lists.antt =====
-- Lists of uses of which some are taken out.
use mem_opt.Common.{
  ◌≡◌, ◌≢◌, refl, ap, inl, inr, Bool, false, ◌||◌, List, [], ◌∷◌, ◌++◌, Memᴰ, Bool-cases,
}
use mem_opt.Uses.{Use, without}

-- Nothing is taken out of a list in which the test holds of nothing.
pub without_none :
    (test : Use → Bool) (us : List Use)
    → ((u : Use) → Memᴰ u us → test u ≡ false)
    → without test us ≡ us
without_none test [] h = refl
without_none test (u ∷ us) h =
    rw (h u (Memᴰ.head refl)) (ap (λ l. u ∷ l) (without_none test us (λ x m. h x (Memᴰ.tail m))))

-- Two tests one after the other are one.
pub without-without :
    (f g : Use → Bool) (us : List Use) → without f (without g us) ≡ without (λ u. g u || f u) us
without-without f g [] = refl
without-without f g (u ∷ us) = elim (Bool-cases (g u)) [
  | inl e ↦ rw e (without-without f g us)
  | inr e ↦ elim (Bool-cases (f u)) [
    | inl e' ↦ rw (e, without, e') (without-without f g us)
    | inr e' ↦ rw (e, without, e') (ap (λ l. u ∷ l) (without-without f g us))
  ]
]

-- Only the test's values on the list matter.
pub without_same :
    (f g : Use → Bool) (us : List Use)
    → ((u : Use) → Memᴰ u us → f u ≡ g u)
    → without f us ≡ without g us
without_same f g [] h = refl
without_same f g (u ∷ us) h = elim (Bool-cases (g u)) [
  | inl e ↦ rw (h u (Memᴰ.head refl), e) (without_same f g us (λ x m. h x (Memᴰ.tail m)))
  | inr e ↦
      rw (h u (Memᴰ.head refl), e)
        (ap (λ l. u ∷ l) (without_same f g us (λ x m. h x (Memᴰ.tail m))))
]

-- The users of a front part, each with one use in the whole list.
abbrev pub Apart : List Use → List Use → Type 0
Apart [] back = Unit
Apart (u ∷ us) back = ((x : Use) → Memᴰ x (us ++ back) → x.0 ≢ u.0) × Apart us back
