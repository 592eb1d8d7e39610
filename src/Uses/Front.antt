-- ===== src/Uses/Front.antt =====
-- The loops over user_back().
use mem_opt.Common.{
  ℕ, suc, ◌≡◌, ◌≢◌, refl, ap, ◌∙◌, All, Option, none, some, List, [], ◌∷◌, ◌++◌, ◌==◌, ==_self,
  ==_ne, ◌>>=◌, length,
}
use mem_opt.Uses.{Use, Values, without, each_user_back}
use mem_opt.Uses.Lists.{without_none, Apart}

-- n rounds more than there are uses
abbrev pub ahead : List Use → ℕ → ℕ
ahead [] n = n
ahead (u ∷ us) n = suc (ahead us n)

pub length-ahead : (front back : List Use) → length (front ++ back) ≡ ahead front (length back)
length-ahead [] back = refl
length-ahead (u ∷ front) back = ap (λ n. suc n) (length-ahead front back)

pub All-map :
    (P Q G : ℕ → Type 0) (us : List Use)
    → ((w : ℕ) → P w → Q w)
    → All (λ u. P u.0 × G u.0) us
    → All (λ u. Q u.0 × G u.0) us
All-map P Q G [] h all = tt
All-map P Q G (u ∷ us) h ((here, good), all) = ((h u.0 here, good), All-map P Q G us h all)

module _ {State : Type 0} (V : Values State) (v : ℕ) (step : ℕ → State → Option State)
    (Ok : State → ℕ → Type 0) (Good : ℕ → Type 0) where
  open V use {uses}

  -- The step takes the uses by the user out of the list, and leaves the other users as they are.
  abbrev pub Removes : Type 0
  Removes =
      (u : Use) (us : List Use) (s : State)
      → uses s v ≡ u ∷ us
      → Ok s u.0
      → Good u.0
      → (s' : State) × (step u.0 s ≡ some s')
        × (uses s' v ≡ without (λ x. x.0 == u.0) (u ∷ us))
        × ((w : ℕ) → Ok s w → Ok s' w)

  -- The users of the front part are taken one after the other, and those of the back part are left.
  pub each_user_back-front :
      Removes
      → (front back : List Use) (n : ℕ) (s : State) → uses s v ≡ front ++ back
      → All (λ u. Ok s u.0 × Good u.0) front
      → Apart front back
      → (s' : State) × (each_user_back V step v (ahead front n) s ≡ each_user_back V step v n s')
        × (uses s' v ≡ back)
        × ((w : ℕ) → Ok s w → Ok s' w)
  unfolding each_user_back
  each_user_back-front removes [] back n s at ok apart = (s, refl, at, (λ w h. h))
  each_user_back-front removes (u ∷ us) back n s at ((here, good), ok) (alone, apart) =
      let (s1, stepped, left, stays) = removes u (us ++ back) s at here good in
      let rest = us ++ back in
      let at1 =
        left
        ∙ rw (==_self u.0)
            (without_none (λ x. x.0 == u.0) rest (λ x m. ==_ne x.0 u.0 (alone x m))) in
      let (s2, ran, at2, stays2) =
        each_user_back-front removes us back n s1 at1 (All-map (Ok s) (Ok s1) Good us stays ok)
          apart in
      (s2, rw (at, ◌>>=◌) (rw (stepped, ◌>>=◌) ran), at2, (λ w h. stays2 w (stays w h)))

pub is_some : {A : Type 0} {o : Option A} {a : A} → o ≡ some a → o ≢ none
is_some e z = cc

pub cons_ne : {l : List Use} {u : Use} {us : List Use} → l ≡ u ∷ us → l ≢ []
cons_ne e z = cc
