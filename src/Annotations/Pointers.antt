-- ===== src/Annotations/Pointers.antt =====
-- Which instructions detectExpPtrVars and detectExpPtrUses find, and calls through a pointer.
use mem_opt.Common.{
  ℕ, ◌≡◌, inl, inr, refl, sym, ap, ◌∙◌, Bool, true, false, Option, none, some, List, [], ◌∷◌, ◌++◌,
  ◌>>=◌, if◌then◌else◌, Memᴰ, Memᴰ-cons, All,
}
use mathlib.Core.List.Memᴰ
use mem_opt.Text.{codes}
use mem_opt.Annotations.{
  CallInst, Instruction, call, store, other, User, load_user, other_user, Next, derefs, has_tag,
  detect_exp_ptr_vars, find_earliest, find_earliest_pointer_deref_instruction,
}

bind-none :
    {A B : Type 0} (m : Option A) (f : A → Option B) → ((a : A) → f a ≡ none) → (m >>= f) ≡ none
bind-none none f h = refl
bind-none (some a) f h = h a

call_inj : (c d : CallInst) → call c ≡ call d → c ≡ d
call_inj c d e = cc

no_variable :
    (hit : Bool) (o : Option ℕ)
    → (let rest : Option (List ℕ) = none in
        if hit then (o >>= λ v. rest >>= λ vs. some (v ∷ vs)) else rest)
      ≡ none
no_variable true none = refl
no_variable true (some v) = refl
no_variable false o = refl

has_tag-indirect :
    (id : ℕ) (name : List ℕ) (c : CallInst) → c.callee ≡ none → has_tag id name c ≡ none
unfolding has_tag
has_tag-indirect id name c e = rw e refl

-- detectExpPtrVars has undefined behaviour on an entry block with an indirect call: it reads a null
-- callee.
pub detect_exp_ptr_vars-indirect :
    (id : ℕ) (front : List Instruction) (c : CallInst)
    → Memᴰ (call c) front
    → c.callee ≡ none
    → detect_exp_ptr_vars id front ≡ none
unfolding detect_exp_ptr_vars
detect_exp_ptr_vars-indirect id [] c m e = absurd (Memᴰ.not-nil m)
detect_exp_ptr_vars-indirect id (store v p ∷ is) c m e =
    elim ((Memᴰ-cons (call c) (store v p) is).0 m) [
      | inl x ↦ cc
      | inr m' ↦ detect_exp_ptr_vars-indirect id is c m' e
    ]
detect_exp_ptr_vars-indirect id (other ∷ is) c m e = elim ((Memᴰ-cons (call c) other is).0 m) [
  | inl x ↦ cc
  | inr m' ↦ detect_exp_ptr_vars-indirect id is c m' e
]
detect_exp_ptr_vars-indirect id (call d ∷ is) c m e = elim ((Memᴰ-cons (call c) (call d) is).0 m) [
  | inl x ↦
      rw (has_tag-indirect id (codes "expensive") d (ap (λ y. y.callee) (call_inj d c (sym x)) ∙ e))
        refl
  | inr m' ↦
      bind-none (has_tag id (codes "expensive") d)
        (λ hit.
          if hit
          then (d.variable >>= λ v. detect_exp_ptr_vars id is >>= λ vs. some (v ∷ vs))
          else detect_exp_ptr_vars id is)
        (λ hit. rw (detect_exp_ptr_vars-indirect id is c m' e) (no_variable hit (d.variable)))
]

-- No load with a dereference behind it.
abbrev pub Plain : User → Type 0
Plain (load_user u n) = derefs u n ≡ false
Plain other_user = Unit

find_earliest-Plain :
    (users : List User) (lu : Option ℕ) → All (λ x. Plain x) users → find_earliest users lu ≡ lu
unfolding find_earliest
find_earliest-Plain [] lu plain = refl
find_earliest-Plain (load_user u n ∷ us) lu (p, plain) = rw p (find_earliest-Plain us lu plain)
find_earliest-Plain (other_user ∷ us) lu (p, plain) = find_earliest-Plain us lu plain

find_earliest-last :
    (before after : List User) (u : ℕ) (n : Next) (lu : Option ℕ)
    → derefs u n ≡ true
    → All (λ x. Plain x) after
    → find_earliest (before ++ load_user u n ∷ after) lu ≡ some u
unfolding find_earliest
find_earliest-last [] after u n lu h plain =
    rw (find_earliest, h) (find_earliest-Plain after (some u) plain)
find_earliest-last (load_user w k ∷ us) after u n lu h plain =
    find_earliest-last us after u n (if derefs w k then some w else lu) h plain
find_earliest-last (other_user ∷ us) after u n lu h plain =
    find_earliest-last us after u n lu h plain

-- The user that findEarliestPointerDerefInstruction returns is the last of the users that are loads
-- whose next instruction is a load or a getelementptr with the loaded value as operand 0.
pub find_earliest_pointer_deref_instruction-last :
    (before after : List User) (u : ℕ) (n : Next)
    → derefs u n ≡ true
    → All (λ x. Plain x) after
    → find_earliest_pointer_deref_instruction (before ++ load_user u n ∷ after) ≡ some u
unfolding find_earliest_pointer_deref_instruction
find_earliest_pointer_deref_instruction-last before after u n h plain =
    find_earliest-last before after u n none h plain

-- findEarliestPointerDerefInstruction returns null where no user is such a load.
pub find_earliest_pointer_deref_instruction-eq-none :
    (users : List User)
    → All (λ x. Plain x) users
    → find_earliest_pointer_deref_instruction users ≡ none
unfolding find_earliest_pointer_deref_instruction
find_earliest_pointer_deref_instruction-eq-none users plain = find_earliest-Plain users none plain
