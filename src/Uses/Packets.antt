-- ===== src/Uses/Packets.antt =====
-- The uses of an argument's old variable, where the argument is no double pointer.
use mem_opt.Common.{
  ℕ, ◌≡◌, ◌≢◌, refl, sym, ap, ◌∙◌, All, Option, none, some, List, [], ◌∷◌, Memᴰ, ◌==◌, length,
}
use mathlib.Core.List.{append-nil}
use mathlib.Core.List.Memᴰ
use mem_opt.Uses.{Use, Values, without, each_user_back, use_packet}
use mem_opt.Uses.Lists.{Apart}
use mem_opt.Uses.Front.{Removes, each_user_back-front, cons_ne, length-ahead}

module _ {State : Type 0} (V : Values State) (v new idx : ℕ) where
  open V use {uses, parent, create_load, create_gep, replace_uses_of_with}

  -- A user that is an instruction.
  abbrev pub IsInst : State → ℕ → Type 0
  IsInst s w = parent s w ≢ none

  use_packet-Removes : new ≢ v → idx ≢ v → Removes V v (use_packet V new idx v) IsInst (λ w. Unit)
  unfolding use_packet
  use_packet-Removes new_other idx_other u us s at here good =
      let user = u.0 in
      let a = create_load new user s in
      let i = create_load idx user a.1 in
      let g = create_gep a.0 (i.0 ∷ []) user i.1 in
      let at1 = V.uses-create_load new user s v new_other ∙ at in
      let at2 = V.uses-create_load idx user a.1 v idx_other ∙ at1 in
      let at3 =
        V.uses-create_gep a.0 (i.0 ∷ []) user i.1 v (V.load-unused new user s v (cons_ne at))
          (V.load-unused idx user a.1 v (cons_ne at1), tt)
        ∙ at2 in
      let other = V.gep-unused a.0 (i.0 ∷ []) user i.1 v (cons_ne at2) in
      (
        replace_uses_of_with user v g.0 g.1,
        did (parent s user) refl here,
        V.uses-replace_uses_of_with user v g.0 g.1 (λ z. other (sym z))
            ∙ ap (λ l. without (λ x. x.0 == user) l) at3,
        (λ w h.
            let same_a = V.parent-create_load new user s w h in
            let same_i = V.parent-create_load idx user a.1 w (λ z. h (sym same_a ∙ z)) ∙ same_a in
            let same_g =
              V.parent-create_gep a.0 (i.0 ∷ []) user i.1 w (λ z. h (sym same_i ∙ z)) ∙ same_i in
            λ z. h (sym (V.parent-replace_uses_of_with user v g.0 g.1 w ∙ same_g) ∙ z)),
      )
    where
      did :
          (o : Option ℕ)
          → parent s u.0 ≡ o
          → parent s u.0 ≢ none
          → use_packet V new idx v u.0 s
            ≡ some (
                replace_uses_of_with u.0 v
                  (create_gep
                    (create_load new u.0 s).0
                    ((create_load idx u.0 (create_load new u.0 s).1).0 ∷ [])
                    u.0
                    (create_load idx u.0 (create_load new u.0 s).1).1).0
                  (create_gep
                    (create_load new u.0 s).0
                    ((create_load idx u.0 (create_load new u.0 s).1).0 ∷ [])
                    u.0
                    (create_load idx u.0 (create_load new u.0 s).1).1).1)
      did none e h = absurd (h e)
      did (some b) e h = rw e refl

  with_unit :
      (s : State) (us : List Use)
      → All (λ u. IsInst s u.0) us
      → All (λ u. IsInst s u.0 × Unit {0}) us
  with_unit s [] all = tt
  with_unit s (u ∷ us) (here, all) = ((here, tt), with_unit s us all)

  -- Where every user of the old variable is an instruction and uses it once, the loop over its uses
  -- ends, and leaves it without uses.
  pub each_user_back-use_packet :
      (us : List Use) (s : State)
      → new ≢ v
      → idx ≢ v
      → uses s v ≡ us
      → All (λ u. IsInst s u.0) us
      → Apart us []
      → (s' : State) × (each_user_back V (use_packet V new idx v) v (length (uses s v)) s ≡ some s')
        × (uses s' v ≡ [])
  unfolding each_user_back
  each_user_back-use_packet us s new_other idx_other at all apart =
      let (s', ran, left, stays) =
        each_user_back-front V v (use_packet V new idx v) IsInst (λ w. Unit)
          (use_packet-Removes new_other idx_other) us [] 0 s (at ∙ sym (append-nil us))
          (with_unit s us all) apart in
      (s', rw (at ∙ sym (append-nil us), length-ahead us []) ran, left)
