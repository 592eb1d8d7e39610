-- ===== src/Uses/Arrays.antt =====
-- addBatchArrayForIntermediateVars: which uses of a variable it replaces.
use mem_opt.Common.{
  ℕ, zero, suc, ◌≡◌, ◌≢◌, refl, sym, ap, ◌∙◌, All, none, some, List, [], ◌∷◌, ◌++◌, ◌==◌, ==_self,
  ==_ne, ◌>>=◌, length,
}
use mem_opt.Uses.{Use, Values, without, each_user_back, use_element, create_array, add_batch_array}
use mem_opt.Uses.Lists.{Apart}
use mem_opt.Uses.Front.{Removes, each_user_back-front, length-ahead, is_some, cons_ne}

-- The list is empty, or starts with a user in the block.
abbrev pub StartsIn : (ℕ → ℕ) → ℕ → List Use → Type 0
StartsIn block e [] = Unit
StartsIn block e (u ∷ us) = block u.0 ≡ e

module _ {State : Type 0} (V : Values State) (v array idx e : ℕ) (block : ℕ → ℕ) where
  open V use {uses, parent, entry, create_load, create_gep, int64, replace_uses_of_with}

  -- The user stays in its block.
  abbrev pub Stays : State → ℕ → Type 0
  Stays s w = (entry s ≡ e) × (parent s w ≡ some (block w))

  use_element-Removes :
      array ≢ v
      → idx ≢ v
      → int64 0 ≢ v
      → Removes V v (use_element V array idx v) Stays (λ u. block u ≢ e)
  unfolding use_element
  use_element-Removes array_other idx_other zero_other u us s at (at_entry, in_b) outside =
      let user = u.0 in
      let l = create_load idx user s in
      let is = int64 0 ∷ l.0 ∷ [] in
      let g = create_gep array is user l.1 in
      let used = cons_ne at in
      let at1 = V.uses-create_load idx user s v idx_other ∙ at in
      let at2 =
        V.uses-create_gep array is user l.1 v array_other
          (zero_other, (V.load-unused idx user s v used, tt))
        ∙ at1 in
      let other = V.gep-unused array is user l.1 v (cons_ne at1) in
      let same_entry =
        V.entry-replace_uses_of_with user v g.0 g.1
        ∙ (V.entry-create_gep array is user l.1 ∙ V.entry-create_load idx user s) in
      (
        replace_uses_of_with user v g.0 g.1,
        rw (in_b, ◌>>=◌) (rw (==_ne (block user) (entry s) (λ z. outside (z ∙ at_entry))) refl),
        V.uses-replace_uses_of_with user v g.0 g.1 (λ z. other (sym z))
            ∙ ap (λ l. without (λ x. x.0 == user) l) at2,
        (λ w (w_entry, in_c). (
          same_entry ∙ at_entry,
          V.parent-replace_uses_of_with user v g.0 g.1 w
              ∙ (V.parent-create_gep array is user l.1 w
                    (is_some (V.parent-create_load idx user s w (is_some in_c) ∙ in_c))
                  ∙ (V.parent-create_load idx user s w (is_some in_c) ∙ in_c)),
        )),
      )

  -- A user in the entry block is found again in each round.
  entry_rounds :
      (n : ℕ) (u : Use) (us : List Use) (s : State)
      → uses s v ≡ u ∷ us
      → parent s u.0 ≡ some (entry s)
      → each_user_back V (use_element V array idx v) v n s ≡ some s
  unfolding each_user_back use_element
  entry_rounds zero u us s at inside = refl
  entry_rounds (suc n) u us s at inside =
      rw (at, ◌>>=◌)
        (rw (inside, ◌>>=◌) (rw (==_self (entry s), ◌>>=◌) (entry_rounds n u us s at inside)))

  each_user_back-use_element :
      (front back : List Use) (s : State)
      → array ≢ v
      → idx ≢ v
      → int64 0 ≢ v
      → uses s v ≡ front ++ back
      → All (λ u. Stays s u.0 × (block u.0 ≢ e)) front
      → All (λ u. Stays s u.0) back
      → Apart front back
      → StartsIn block e back
      → (s' : State) × (each_user_back V (use_element V array idx v) v (length (uses s v)) s
          ≡ some s')
        × (uses s' v ≡ back)
  unfolding each_user_back
  each_user_back-use_element front back s array_other idx_other zero_other at outside still apart
        starts =
      let (s', ran, left, stays) =
        each_user_back-front V v (use_element V array idx v) Stays (λ u. block u ≢ e)
          (use_element-Removes array_other idx_other zero_other) front back (length back) s at
          outside apart in
      (
        s',
        rw (at, length-ahead front back) (ran ∙ rest back s' left (λ w h. stays w h) still starts),
        left,
      )
    where
      rest :
          (back : List Use) (s' : State)
          → uses s' v ≡ back
          → ((w : ℕ) → Stays s w → Stays s' w)
          → All (λ u. Stays s u.0) back
          → StartsIn block e back
          → each_user_back V (use_element V array idx v) v (length back) s' ≡ some s'
      rest [] s' left stays still starts = refl
      rest (u ∷ us) s' left stays (here, still) starts =
          let (at_entry, in_b) = stays u.0 here in
          entry_rounds (suc (length us)) u us s' left
            (in_b ∙ ap (λ b. some b) (starts ∙ sym at_entry))

module _ {State : Type 0} (V : Values State) (block : ℕ → ℕ) where
  open V use {uses, parent, entry, terminator, allocated_type, array_type, int64, create_alloca}

  All_placed :
      (s s' : State) (G : ℕ → Type 0) (e : ℕ) (us : List Use)
      → entry s' ≡ e
      → ((w : ℕ) → parent s w ≢ none → parent s' w ≡ parent s w)
      → All (λ u. (parent s u.0 ≡ some (block u.0)) × G u.0) us
      → All (λ u. ((entry s' ≡ e) × (parent s' u.0 ≡ some (block u.0))) × G u.0) us
  All_placed s s' G e [] at_entry same all = tt
  All_placed s s' G e (u ∷ us) at_entry same ((here, good), all) =
      (((at_entry, same u.0 (is_some here) ∙ here), good), All_placed s s' G e us at_entry same all)

  All_still :
      (s s' : State) (e : ℕ) (us : List Use)
      → entry s' ≡ e
      → ((w : ℕ) → parent s w ≢ none → parent s' w ≡ parent s w)
      → All (λ u. parent s u.0 ≡ some (block u.0)) us
      → All (λ u. (entry s' ≡ e) × (parent s' u.0 ≡ some (block u.0))) us
  All_still s s' e [] at_entry same all = tt
  All_still s s' e (u ∷ us) at_entry same (here, all) =
      ((at_entry, same u.0 (is_some here) ∙ here), All_still s s' e us at_entry same all)

  -- addBatchArrayForIntermediateVars ends on a variable in front of whose newest use in the entry block
  -- no user has a second use: it replaces the uses in front of that one, and leaves it and all older
  -- ones, in whatever block they are. The variable is an alloca, and neither the index nor the
  -- constant 0, its users are instructions, and the entry block has a terminator.
  pub add_batch_array-front :
      (idx v ty t : ℕ) (front back : List Use) (s : State)
      → allocated_type s v ≡ some ty
      → terminator s (entry s) ≡ some t
      → idx ≢ v
      → int64 0 ≢ v
      → uses s v ≡ front ++ back
      → All (λ u. (parent s u.0 ≡ some (block u.0)) × (block u.0 ≢ entry s)) front
      → All (λ u. parent s u.0 ≡ some (block u.0)) back
      → Apart front back
      → StartsIn block (entry s) back
      → (s' : State) × (add_batch_array V idx v s ≡ some s') × (uses s' v ≡ back)
  unfolding add_batch_array create_array
  add_batch_array-front idx v ty t front back s has_type has_end idx_other zero_other at outside
        still apart starts =
      let made = create_alloca (array_type ty 32) t s in
      let same = V.parent-create_alloca (array_type ty 32) t s in
      let at_entry = V.entry-create_alloca (array_type ty 32) t s in
      let (s', ran, left) =
        each_user_back-use_element V v made.0 idx (entry s) block front back made.1
          (V.alloca_new (array_type ty 32) t s v (is_some has_type)) idx_other zero_other
          (V.uses-create_alloca (array_type ty 32) t s v ∙ at)
          (All_placed s made.1 (λ w. block w ≢ entry s) (entry s) front at_entry same outside)
          (All_still s made.1 (entry s) back at_entry same still) apart starts in
      (s', rw (has_type, ◌>>=◌) (rw (has_end, ◌>>=◌) ran), left)
