-- ===== src/Uses.antt =====
-- The uses of a value, which LLVM keeps in a list with the newest first: replaceUsesWithinBB and
-- createArray of src/Util.cpp, addBatchArrayForIntermediateVars of src/LoopSplitter.cpp, and
-- replaceOldArgUsesWithBatchArgs of src/BatchMaker.cpp.
pub mod Lists
pub mod Front
pub mod Arrays
pub mod Packets
pub mod Replaced
mod Examples
use mem_opt.Common.{
  ℕ, zero, suc, ◌≡◌, ◌≢◌, Bool, true, false, not, ◌&&◌, ◌||◌, All, Option, none, some, List, [],
  ◌∷◌, ◌==◌, ◌>>=◌, if◌then◌else◌, length, map,
}
use mem_opt.BatchMaker.{Ty, ArgRef, TasArgAttr}
use mem_opt.Users.{find_first_use_in_store_inst}

-- A use: the user and the number of the operand.
abbrev pub Use : Type 0
Use = ℕ × ℕ

abbrev pub same_use : Use → Use → Bool
same_use a b = a.0 == b.0 && a.1 == b.1

-- What is left of a list without the uses that a test holds of.
abbrev pub without : (Use → Bool) → List Use → List Use
without test [] = []
without test (u ∷ us) = if test u then without test us else u ∷ without test us

-- The function by its uses. Values, types and constants are numbers.
pub record Values (State : Type 0) : Type 0 where
  pub uses : State → ℕ → List Use
  -- getParent of a user, `none` where the user is not an instruction
  pub parent : State → ℕ → Option ℕ
  pub entry : State → ℕ
  pub first_instruction : State → ℕ
  pub terminator : State → ℕ → Option ℕ
  pub next_node : State → ℕ → Option ℕ
  pub is_store : State → ℕ → Bool
  pub is_alloca : State → ℕ → Bool
  -- the pointer operand of a GEP, `none` for any other instruction
  pub gep_pointer : State → ℕ → Option ℕ
  pub pointer_operand : State → ℕ → ℕ
  pub allocated_type : State → ℕ → Option ℕ
  pub type_of : State → ℕ → ℕ
  pub array_type : ℕ → ℕ → ℕ
  pub int64 : ℕ → ℕ
  -- Use::set, User::replaceUsesOfWith(From, To), Value::replaceAllUsesWith, eraseFromParent
  pub set_use : Use → ℕ → State → State
  pub replace_uses_of_with : (user from to : ℕ) → State → State
  pub replace_all_uses_with : (from to : ℕ) → State → State
  pub erase : ℕ → State → State
  -- the builder: the last number is the instruction to insert before
  pub create_alloca : ℕ → ℕ → State → ℕ × State
  pub create_load : ℕ → ℕ → State → ℕ × State
  pub create_gep : ℕ → List ℕ → ℕ → State → ℕ × State
  pub create_store : (value pointer : ℕ) → ℕ → State → State
  pub uses-set_use :
      (u : Use) (v : ℕ) (s : State) (w : ℕ)
      → v ≢ w
      → uses (set_use u v s) w ≡ without (same_use u) (uses s w)
  pub parent-set_use : (u : Use) (v : ℕ) (s : State) (w : ℕ) → parent (set_use u v s) w ≡ parent s w
  pub uses-replace_uses_of_with :
      (u v t : ℕ) (s : State)
      → v ≢ t
      → uses (replace_uses_of_with u v t s) v ≡ without (λ x. x.0 == u) (uses s v)
  pub parent-replace_uses_of_with :
      (u v t : ℕ) (s : State) (w : ℕ) → parent (replace_uses_of_with u v t s) w ≡ parent s w
  pub entry-replace_uses_of_with :
      (u v t : ℕ) (s : State) → entry (replace_uses_of_with u v t s) ≡ entry s
  -- A new instruction uses its operands and nothing else, and is a value that had no uses.
  pub uses-create_alloca :
      (ty at : ℕ) (s : State) (w : ℕ) → uses ((create_alloca ty at s).1) w ≡ uses s w
  pub parent-create_alloca :
      (ty at : ℕ) (s : State) (w : ℕ)
      → parent s w ≢ none
      → parent ((create_alloca ty at s).1) w ≡ parent s w
  pub entry-create_alloca : (ty at : ℕ) (s : State) → entry ((create_alloca ty at s).1) ≡ entry s
  pub alloca_new :
      (ty at : ℕ) (s : State) (w : ℕ) → allocated_type s w ≢ none → (create_alloca ty at s).0 ≢ w
  pub uses-create_load :
      (p at : ℕ) (s : State) (w : ℕ) → p ≢ w → uses ((create_load p at s).1) w ≡ uses s w
  pub parent-create_load :
      (p at : ℕ) (s : State) (w : ℕ)
      → parent s w ≢ none
      → parent ((create_load p at s).1) w ≡ parent s w
  pub entry-create_load : (p at : ℕ) (s : State) → entry ((create_load p at s).1) ≡ entry s
  pub load-unused : (p at : ℕ) (s : State) (w : ℕ) → uses s w ≢ [] → (create_load p at s).0 ≢ w
  pub uses-create_gep :
      (p : ℕ) (is : List ℕ) (at : ℕ) (s : State) (w : ℕ)
      → p ≢ w
      → All (λ i. i ≢ w) is
      → uses ((create_gep p is at s).1) w ≡ uses s w
  pub parent-create_gep :
      (p : ℕ) (is : List ℕ) (at : ℕ) (s : State) (w : ℕ)
      → parent s w ≢ none
      → parent ((create_gep p is at s).1) w ≡ parent s w
  pub entry-create_gep :
      (p : ℕ) (is : List ℕ) (at : ℕ) (s : State) → entry ((create_gep p is at s).1) ≡ entry s
  pub gep-unused :
      (p : ℕ) (is : List ℕ) (at : ℕ) (s : State) (w : ℕ)
      → uses s w ≢ []
      → (create_gep p is at s).0 ≢ w

abbrev pub head_use : List Use → Option Use
head_use [] = none
head_use (u ∷ us) = some u

-- Usr && Usr->getParent() != BB
abbrev pub in_other_block : Option ℕ → ℕ → Bool
in_other_block none bb = false
in_other_block (some b) bb = not (b == bb)

module _ {State : Type 0} (V : Values State) where
  open V use {
    uses, parent, entry, terminator, first_instruction, next_node, is_store, is_alloca, gep_pointer,
    pointer_operand, allocated_type, type_of, array_type, int64, set_use, replace_uses_of_with,
    replace_all_uses_with, erase, create_alloca, create_load, create_gep, create_store,
  }

  -- The loop of replaceUsesWithinBB over the uses from an iterator on: it is advanced before a use is set.
  unfoldable pub replace_from : ℕ → ℕ → ℕ → List Use → State → State
  replace_from from to bb [] s = s
  replace_from from to bb (u ∷ us) s =
      replace_from from to bb us (if in_other_block (parent s u.0) bb then s else set_use u to s)

  unfoldable pub replace_uses_within_bb : ℕ → ℕ → ℕ → State → State
  unfolding replace_from
  replace_uses_within_bb from to bb s = replace_from from to bb (uses s from) s

  unfoldable pub create_array : ℕ → ℕ → State → Option (ℕ × State)
  create_array ty size s =
      terminator s (entry s) >>= λ t. some (create_alloca (array_type ty size) t s)

  -- while (NumUses > 0), with user_back() for each round; without a user it reads past the list.
  unfoldable pub each_user_back : (ℕ → State → Option State) → ℕ → ℕ → State → Option State
  each_user_back step v zero s = some s
  each_user_back step v (suc n) s =
      head_use (uses s v) >>= λ u. step u.0 s >>= λ s'. each_user_back step v n s'

  -- The body of the loop of addBatchArrayForIntermediateVars; a user in the entry block is passed over.
  unfoldable pub use_element : ℕ → ℕ → ℕ → ℕ → State → Option State
  use_element array idx v u s = parent s u >>= λ b.
      let (i, s1) = create_load idx u s in
      let (p, s2) = create_gep array (int64 0 ∷ i ∷ []) u s1 in
      if b == entry s then some s else some (replace_uses_of_with u v p s2)

  unfoldable pub add_batch_array : ℕ → ℕ → State → Option State
  unfolding create_array each_user_back use_element
  add_batch_array idx v s = allocated_type s v >>= λ ty. create_array ty 32 s >>= λ (array, s').
      each_user_back (use_element array idx v) v (length (uses s' v)) s'

  unfoldable pub add_batch_array_for_intermediate_vars : ℕ → List ℕ → State → Option State
  unfolding add_batch_array
  add_batch_array_for_intermediate_vars idx [] s = some s
  add_batch_array_for_intermediate_vars idx (v ∷ vs) s =
      add_batch_array idx v s >>= add_batch_array_for_intermediate_vars idx vs

  -- One use of the old variable in replaceOldArgUsesWithBatchArgs: of an argument that is no double
  -- pointer, and of one that is, where a null next instruction is read.
  unfoldable pub use_packet : ℕ → ℕ → ℕ → ℕ → State → Option State
  use_packet new idx old u s = parent s u >>= λ b.
      let (a, s1) = create_load new u s in
      let (i, s2) = create_load idx u s1 in
      let (p, s3) = create_gep a (i ∷ []) u s2 in some (replace_uses_of_with u old p s3)

  unfoldable pub use_pointer : ℕ → ℕ → ℕ → ℕ → State → Option State
  use_pointer new idx old u s =
      let s1 = replace_uses_of_with u old new s in
      parent s1 u >>= λ b. next_node s1 u >>= λ next. elim (gep_pointer s1 next) [
        | none ↦ some s1
        | some base ↦
            let (i, s2) = create_load idx next s1 in
            let (p, s3) = create_gep base (i ∷ []) next s2 in
            some (erase next (replace_all_uses_with next p s3))
      ]

  -- One argument; the last store of the users is its first. A null OldAlloca is read.
  unfoldable pub replace_arg_uses : ℕ → ℕ → Bool → State → Option State
  unfolding each_user_back use_packet use_pointer find_first_use_in_store_inst
  replace_arg_uses idx arg is_double_ptr s =
      let (new, s1) = create_alloca (type_of s arg) (first_instruction s) s in
      elim (find_first_use_in_store_inst (is_store s1) (map (λ u. u.0) (uses s1 arg))) [
        | none ↦ some s1
        | some store ↦
            let old = pointer_operand s1 store in
            let s2 = set_use (store, 1) new s1 in
            let step = if is_double_ptr then use_pointer new idx old else use_packet new idx old in
            if is_alloca s1 old then each_user_back step old (length (uses s2 old)) s2 else none
      ]

  unfoldable pub replace_args_uses : ℕ → List (ℕ × Bool) → State → Option State
  unfolding replace_arg_uses
  replace_args_uses idx [] s = some s
  replace_args_uses idx (a ∷ args) s = replace_arg_uses idx a.0 a.1 s >>= replace_args_uses idx args

  -- The arguments of the batch function are values; BatchArgs are those with IsBatch.
  module _ (value_of : ArgRef → ℕ) (type_number : Ty → ℕ) where
    unfoldable pub args_to_replace : List TasArgAttr → Option (List (ℕ × Bool))
    args_to_replace [] = some []
    args_to_replace (a ∷ attrs) =
        let rest = args_to_replace attrs in
        if a.is_batch
        then (a.val >>= λ v. rest >>= λ args. some ((value_of v, a.is_double_ptr) ∷ args))
        else rest

    -- BatchFuncArgList[BatchSizeArgPos]
    abbrev pub attr_at : ℕ → List TasArgAttr → Option TasArgAttr
    attr_at i [] = none
    attr_at zero (a ∷ attrs) = some a
    attr_at (suc i) (a ∷ attrs) = attr_at i attrs

    -- BatchSizeAlloca, and the function with the uses replaced.
    unfoldable pub replace_old_arg_uses_with_batch_args :
        ℕ → List TasArgAttr → ℕ → State → Option (ℕ × State)
    unfolding args_to_replace replace_args_uses
    replace_old_arg_uses_with_batch_args size_pos attrs idx s = args_to_replace attrs >>= λ args.
        attr_at size_pos attrs >>= λ size. size.val >>= λ v.
        let front = first_instruction s in
        let (slot, s1) = create_alloca (type_number size.ty) front s in
        let s2 = create_store (value_of v) slot front s1 in
        replace_args_uses idx args s2 >>= λ s3. some (slot, s3)
