-- ===== src/Uses/Replaced.antt =====
-- replaceOldArgUsesWithBatchArgs on an argument that is no double pointer: what is left of its old
-- variable.
use mem_opt.Common.{
  ℕ, ◌≡◌, ◌≢◌, sym, ap, ◌∙◌, true, false, All, some, none, List, [], ◌∷◌, map, length,
}
use mem_opt.Users.{find_first_use_in_store_inst}
use mem_opt.Uses.{Use, Values, same_use, without, each_user_back, use_packet, replace_arg_uses}
use mem_opt.Uses.Lists.{Apart}
use mem_opt.Uses.Packets.{IsInst, each_user_back-use_packet}

module _ {State : Type 0} (V : Values State) where
  open V use {uses, parent, create_alloca, type_of, first_instruction, set_use}

  All-IsInst :
      (s s' : State) (v new idx : ℕ) (us : List Use)
      → ((w : ℕ) → parent s w ≢ none → parent s' w ≢ none)
      → All (λ u. IsInst V v new idx s u.0) us
      → All (λ u. IsInst V v new idx s' u.0) us
  All-IsInst s s' v new idx [] h all = tt
  All-IsInst s s' v new idx (u ∷ us) h (here, all) =
      (h u.0 here, All-IsInst s s' v new idx us h all)

  module _ (idx arg : ℕ) (s : State) where
    abbrev new : ℕ
    new = (create_alloca (type_of s arg) (first_instruction s) s).0

    abbrev pub with_variable : State
    with_variable = (create_alloca (type_of s arg) (first_instruction s) s).1

    -- The branch of replaceOldArgUsesWithBatchArgs that is taken.
    looped :
        (store old : ℕ) (s' : State)
        → find_first_use_in_store_inst
            (V.is_store with_variable)
            (map (λ u. u.0) (uses with_variable arg))
          ≡ some store
        → V.pointer_operand with_variable store ≡ old
        → V.is_alloca with_variable old ≡ true
        → each_user_back V
            (use_packet V new idx old)
            old
            (length (uses (set_use (store, 1) new with_variable) old))
            (set_use (store, 1) new with_variable)
          ≡ some s'
        → replace_arg_uses V idx arg false s ≡ some s'
    unfolding replace_arg_uses
    looped store old s' found pointer variable ran =
        rw (replace_arg_uses, found) (rw (pointer) (rw (variable) ran))

    -- Where the argument is stored into a variable, each of whose other uses is by an instruction of
    -- its own, and the argument is no double pointer, the loop ends, and the variable has no use left.
    pub replace_arg_uses-unused :
        (store old : ℕ) (us : List Use)
        → find_first_use_in_store_inst
            (V.is_store with_variable)
            (map (λ u. u.0) (uses with_variable arg))
          ≡ some store
        → V.pointer_operand with_variable store ≡ old
        → V.is_alloca with_variable old ≡ true
        → V.allocated_type s old ≢ none
        → idx ≢ old
        → without (same_use (store, 1)) (uses s old) ≡ us
        → All (λ u. parent s u.0 ≢ none) us
        → Apart us []
        → (s' : State) × (replace_arg_uses V idx arg false s ≡ some s') × (uses s' old ≡ [])
    replace_arg_uses-unused store old us found pointer variable typed idx_other others all apart =
        let new_other = V.alloca_new (type_of s arg) (first_instruction s) s old typed in
        let s2 = set_use (store, 1) new with_variable in
        let at : uses s2 old ≡ us =
          V.uses-set_use (store, 1) new with_variable old new_other
          ∙ ap (λ l. without (same_use (store, 1)) l)
              (V.uses-create_alloca (type_of s arg) (first_instruction s) s old)
          ∙ others in
        let kept : (w : ℕ) → parent s w ≢ none → parent s2 w ≢ none = λ w h z. h (
          sym (V.parent-create_alloca (type_of s arg) (first_instruction s) s w h)
          ∙ sym (V.parent-set_use (store, 1) new with_variable w)
          ∙ z) in
        let (s', ran, left) =
          each_user_back-use_packet V old new idx us s2 new_other idx_other at
            (All-IsInst s s2 old new idx us kept all) apart in
        (s', looped store old s' found pointer variable ran, left)
