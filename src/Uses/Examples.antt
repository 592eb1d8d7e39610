-- ===== src/Uses/Examples.antt =====
-- A use store that meets the laws of the interface, and the theorems at its lists. New values are all
-- named 1000, and the store does not keep their uses.
use mem_opt.Common.{
  ℕ, ◌≡◌, ◌≢◌, refl, inl, inr, false, Option, none, some, List, [], ◌∷◌, Memᴰ, ◌==◌, ==_self, ==_ne,
  ==_iff, subst, Bool-cases, if◌then◌else◌, All, All-mem, arith, ltb, not,
}
use mathlib.Core.List.Memᴰ
use mem_opt.Uses.{Use, Values, without, same_use, add_batch_array}
use mem_opt.Uses.Lists.{Apart}
use mem_opt.Uses.Arrays.{add_batch_array-front}
use mem_opt.Uses.Replaced.{replace_arg_uses-unused}
use mem_opt.Uses.{replace_arg_uses}
use mem_opt.Users.{find_first_use_in_store_inst, last_match}

abbrev Lists : Type 0
Lists = ℕ → List Use

abbrev listed : Lists → ℕ → List Use
listed s w = if w == 1000 then [] else s w

-- The instructions below 10 are in the entry block 0.
abbrev place : ℕ → ℕ
place u = if ltb u 10 then 0 else 1

abbrev set_listed : Use → ℕ → Lists → Lists
set_listed u v s w = if v == w then u ∷ s w else without (same_use u) (s w)

listed-set_listed :
    (u : Use) (v : ℕ) (s : Lists) (w : ℕ)
    → v ≢ w
    → listed (set_listed u v s) w ≡ without (same_use u) (listed s w)
listed-set_listed u v s w h = elim (Bool-cases (w == 1000)) [
  | inl e ↦ rw e refl
  | inr e ↦ rw (e, ==_ne v w h) refl
]

abbrev take_uses : ℕ → ℕ → ℕ → Lists → Lists
take_uses u from to s w =
    if from == w then without (λ x. x.0 == u) (s w) else if to == w then (u, 0) ∷ s w else s w

listed-take_uses :
    (u from to : ℕ) (s : Lists)
    → listed (take_uses u from to s) from ≡ without (λ x. x.0 == u) (listed s from)
listed-take_uses u from to s = elim (Bool-cases (from == 1000)) [
  | inl e ↦ rw e refl
  | inr e ↦ rw (e, ==_self from) refl
]

listed-other :
    (p : ℕ) (u : Use) (s : Lists) (w : ℕ)
    → p ≢ w
    → listed (λ x. if p == x then u ∷ s x else s x) w ≡ listed s w
listed-other p u s w h = rw (==_ne p w h) refl

new_other : (s : Lists) (w : ℕ) → listed s w ≢ [] → 1000 ≢ w
new_other s w h e = h (subst (λ x. listed s x ≡ []) e refl)

abbrev add_use : ℕ → Use → Lists → Lists
add_use p u s w = if p == w then u ∷ s w else s w

abbrev typed : ℕ → Option ℕ
typed v = if v == 1000 then none else some 0

abbrev toy_uses : Values Lists
toy_uses = record {
  uses = listed;
  parent = λ s u. some (place u);
  entry = λ s. 0;
  first_instruction = λ s. 1;
  terminator = λ s b. some 9;
  next_node = λ s u. none;
  is_store = λ s u. u == 4;
  is_alloca = λ s v. not (v == 1000);
  gep_pointer = λ s u. none;
  pointer_operand = λ s u. 50;
  allocated_type = λ s v. typed v;
  type_of = λ s v. 0;
  array_type = λ ty n. ty;
  int64 = λ n. 500;
  set_use = set_listed;
  replace_uses_of_with = take_uses;
  replace_all_uses_with = λ from to s. s;
  erase = λ u s. s;
  create_alloca = λ ty at s. (1000, s);
  create_load = λ p at s. (1000, add_use p (1000, 0) s);
  create_gep = λ p is at s. (1000, add_use p (1000, 0) s);
  create_store = λ v p at s. s;
  uses-set_use = listed-set_listed;
  parent-set_use = λ u v s w. refl;
  uses-replace_uses_of_with = λ u v t s h. listed-take_uses u v t s;
  parent-replace_uses_of_with = λ u v t s w. refl;
  entry-replace_uses_of_with = λ u v t s. refl;
  uses-create_alloca = λ ty at s w. refl;
  parent-create_alloca = λ ty at s w h. refl;
  entry-create_alloca = λ ty at s. refl;
  alloca_new = λ ty at s w h e. h (subst (λ x. typed x ≡ none) e refl);
  uses-create_load = λ p at s w h. listed-other p (1000, 0) s w h;
  parent-create_load = λ p at s w h. refl;
  entry-create_load = λ p at s. refl;
  load-unused = λ p at s w h. new_other s w h;
  uses-create_gep = λ p is at s w h hs. listed-other p (1000, 0) s w h;
  parent-create_gep = λ p is at s w h. refl;
  entry-create_gep = λ p is at s. refl;
  gep-unused = λ p is at s w h. new_other s w h;
}

-- The variable 50 is used outside the entry block by 20 and 21, and by 5 and then 22 before that.
abbrev used : Lists
used w = if w == 50 then (20, 0) ∷ (21, 1) ∷ (5, 0) ∷ (22, 0) ∷ [] else []

users_ne :
    (u : ℕ) (us : List Use) → All (λ x. (x.0 == u) ≡ false) us → (x : Use) → Memᴰ x us → x.0 ≢ u
users_ne u us all x m e = cc (All-mem (λ x. (x.0 == u) ≡ false) us all m, (==_iff x.0 u).1 e)

used-Apart : Apart ((20, 0) ∷ (21, 1) ∷ []) ((5, 0) ∷ (22, 0) ∷ [])
used-Apart = (
  users_ne 20 ((21, 1) ∷ (5, 0) ∷ (22, 0) ∷ []) (refl, (refl, (refl, tt))),
  (users_ne 21 ((5, 0) ∷ (22, 0) ∷ []) (refl, (refl, tt)), tt),
)

add_batch_array-front_example :
    (s' : Lists) × (add_batch_array toy_uses 60 50 used ≡ some s')
    × (listed s' 50 ≡ (5, 0) ∷ (22, 0) ∷ [])
add_batch_array-front_example =
    add_batch_array-front toy_uses place 60 50 0 9 ((20, 0) ∷ (21, 1) ∷ []) ((5, 0) ∷ (22, 0) ∷ [])
      used refl refl (λ e. omega arith) (λ e. omega arith) refl
      ((refl, (λ e. omega arith)), ((refl, (λ e. omega arith)), tt)) (refl, (refl, tt)) used-Apart
      refl

-- 20 uses the variable 50 twice.
abbrev used_twice : Lists
used_twice w = if w == 50 then (21, 0) ∷ (20, 0) ∷ (20, 1) ∷ [] else []

-- The argument 40 is stored into the variable 50 by 4; 20 and 21 use the variable.
abbrev stored : Lists
stored w = if w == 40 then (4, 0) ∷ [] else if w == 50 then (20, 0) ∷ (4, 1) ∷ (21, 1) ∷ [] else []

stored_unused :
    (s' : Lists) × (replace_arg_uses toy_uses 60 40 false stored ≡ some s') × (listed s' 50 ≡ [])
unfolding find_first_use_in_store_inst last_match
stored_unused =
    replace_arg_uses-unused toy_uses 60 40 stored 4 50 ((20, 0) ∷ (21, 1) ∷ []) refl refl refl
      (λ e. cc) (λ e. omega arith) refl ((λ e. cc), ((λ e. cc), tt))
      (users_ne 20 ((21, 1) ∷ []) (refl, tt), ((λ x m. absurd (Memᴰ.not-nil m)), tt))
