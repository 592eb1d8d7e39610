-- ===== src/CacheUsage/Collected.antt =====
-- Which variables analyze looks at, across its calls.
use mem_opt.Common.{
  ℕ, ◌/◌, ◌==◌, ◌≤◌, ◌≡◌, ◌≢◌, refl, sym, ap, ◌∙◌, true, false, some, List, [], ◌∷◌, ◌++◌, arith,
  >>=-eq-some, length, All, Bool-cases, inl, inr,
}
use mem_opt.CacheUsage.{
  Alloca, User, Instruction, Function, CacheLine, CacheUsageInfo, insert_line, has_line, gep, plain,
  load_user, other_user, get_gep_index, get_byte_offset_absolute, add_line, add_line_behind_pointer,
  visit_user, visit_users, visit_allocas, collect_ptr_allocas, analyze,
}

-- In LLVM a pointer fits a register.
abbrev pub PointersAreSingle : List Alloca → Type 0
PointersAreSingle allocas = All (λ a. a.to_pointer ≡ true → a.to_single_value ≡ true) allocas

true-ne-false : true ≢ false
true-ne-false e = cc

pub some_inj : {A : Type 0} (a b : A) → some a ≡ some b → b ≡ a
some_inj a b e = cc

info_inj : {a b : CacheUsageInfo} → some a ≡ some b → b ≡ a
info_inj {a} {b} e = some_inj a b e

not_pointer :
    (a : Alloca)
    → (a.to_pointer ≡ true → a.to_single_value ≡ true)
    → a.to_single_value ≡ false
    → a.to_pointer ≡ false
not_pointer a single n = elim (Bool-cases (a.to_pointer)) [
  | inl p ↦ absurd (true-ne-false (sym (single p) ∙ n))
  | inr e ↦ e
]

-- Where a pointer fits a register, as in LLVM, no variable that analyze collects from a function points
-- to a pointer: the code for double pointers is for none of them.
pub collect_ptr_allocas-no_double_pointer :
    (allocas : List Alloca)
    → PointersAreSingle allocas
    → All (λ a. a.to_pointer ≡ false) (collect_ptr_allocas allocas)
unfolding collect_ptr_allocas
collect_ptr_allocas-no_double_pointer [] h = tt
collect_ptr_allocas-no_double_pointer (a ∷ rest) (single, h) =
    let ih = collect_ptr_allocas-no_double_pointer rest h in
    elim (Bool-cases (a.is_pointer)) [
      | inr direct ↦ rw direct ih
      | inl is_ptr ↦ elim (Bool-cases (a.to_single_value)) [
        | inl s ↦ rw (is_ptr, s) ih
        | inr n ↦ rw (is_ptr, n) (not_pointer a single n, ih)
      ]
    ]

length-insert_line : (l : CacheLine) (ls : List CacheLine) → length ls ≤ length (insert_line l ls)
length-insert_line l ls = elim (Bool-cases (has_line l ls)) [
  | inl old ↦ rw old (omega arith)
  | inr new ↦ rw new (omega arith)
]

module _ (element_offset : ℕ → ℕ → ℕ) (type_alloc_size : ℕ → ℕ) where
  length-add_line :
      (size object field : ℕ) (is : List Instruction) (ls r : List CacheLine)
      → add_line element_offset type_alloc_size size object field is ls ≡ some r
      → length ls ≤ length r
  unfolding add_line
  length-add_line size object field [] ls r h = cc
  length-add_line size object field (plain ∷ is) ls r h = rw (some_inj ls r h) (omega arith)
  length-add_line size object field (gep g ∷ is) ls r h =
      let (offset, e, h') =
        >>=-eq-some (get_byte_offset_absolute element_offset type_alloc_size g is 0) _ h in
      let new : CacheLine = record { object = object; field = field; line = offset / size } in
      elim (Bool-cases (size == 0)) [
        | inl zero_size ↦ cc (rw zero_size at h')
        | inr ok ↦ rw (some_inj (insert_line new ls) r (rw ok at h')) (length-insert_line new ls)
      ]

  length-add_line_behind_pointer :
      (size object : ℕ) (is : List Instruction) (ls r : List CacheLine)
      → add_line_behind_pointer element_offset type_alloc_size size object is ls ≡ some r
      → length ls ≤ length r
  unfolding add_line_behind_pointer
  length-add_line_behind_pointer size object [] ls r h = cc
  length-add_line_behind_pointer size object (plain ∷ is) ls r h = cc
  length-add_line_behind_pointer size object (gep g ∷ []) ls r h = cc
  length-add_line_behind_pointer size object (gep g ∷ base ∷ is) ls r h =
      let (field, e, h') = >>=-eq-some (get_gep_index g) _ h in
      length-add_line size object field is ls r h'

  length-visit_user :
      (size : ℕ) (a : Alloca) (u : User) (ls r : List CacheLine)
      → visit_user element_offset type_alloc_size size a u ls ≡ some r
      → length ls ≤ length r
  unfolding visit_user
  length-visit_user size a other_user ls r h = rw (some_inj ls r h) (omega arith)
  length-visit_user size a (load_user is) ls r h = elim (Bool-cases (a.to_pointer)) [
    | inl p ↦ length-add_line_behind_pointer size (a.name) is ls r (rw p at h)
    | inr s ↦ length-add_line size (a.name) 0 is ls r (rw s at h)
  ]

  length-visit_users :
      (size : ℕ) (a : Alloca) (us : List User) (ls r : List CacheLine)
      → visit_users element_offset type_alloc_size size a us ls ≡ some r
      → length ls ≤ length r
  unfolding visit_users
  length-visit_users size a [] ls r h = rw (some_inj ls r h) (omega arith)
  length-visit_users size a (u ∷ us) ls r h =
      let (ls', e, h') = >>=-eq-some (visit_user element_offset type_alloc_size size a u ls) _ h in
      omega (arith, length-visit_user size a u ls ls' e, length-visit_users size a us ls' r h')

  length-visit_allocas :
      (size : ℕ) (allocas : List Alloca) (ls r : List CacheLine)
      → visit_allocas element_offset type_alloc_size size allocas ls ≡ some r
      → length ls ≤ length r
  unfolding visit_allocas
  length-visit_allocas size [] ls r h = rw (some_inj ls r h) (omega arith)
  length-visit_allocas size (a ∷ rest) ls r h =
      let (ls', e, h') =
        >>=-eq-some (visit_users element_offset type_alloc_size size a (a.users) ls) _ h in
      omega (
        arith,
        length-visit_users size a (a.users) ls ls' e,
        length-visit_allocas size rest ls' r h',
      )

  -- The visit of two lists is the visit of the first, then of the second.
  visit_allocas-append :
      (size : ℕ) (xs ys : List Alloca) (ls r : List CacheLine)
      → visit_allocas element_offset type_alloc_size size (xs ++ ys) ls ≡ some r
      → (m : List CacheLine) × (visit_allocas element_offset type_alloc_size size xs ls ≡ some m)
        × (visit_allocas element_offset type_alloc_size size ys m ≡ some r)
  unfolding visit_allocas
  visit_allocas-append size [] ys ls r h = (ls, refl, h)
  visit_allocas-append size (a ∷ xs) ys ls r h =
      let (ls', e, h') =
        >>=-eq-some (visit_users element_offset type_alloc_size size a (a.users) ls) _ h in
      let (m, e', h'') = visit_allocas-append size xs ys ls' r h' in (m, rw e e', h'')

  same_lines :
      (size size' : ℕ) (xs ys : List Alloca) (m ls : List CacheLine)
      → size ≡ size'
      → xs ≡ ys
      → visit_allocas element_offset type_alloc_size size xs [] ≡ some m
      → visit_allocas element_offset type_alloc_size size' ys [] ≡ some ls
      → m ≡ ls
  same_lines size size' xs ys m ls p q c e = cc

  -- An analysis that follows another on the same object never reports fewer cache lines than the first
  -- did, whatever the second function is.
  pub analyze-again :
      (info first second : CacheUsageInfo) (f g : Function)
      → analyze element_offset type_alloc_size info f ≡ some first
      → analyze element_offset type_alloc_size first g ≡ some second
      → first.num_of_cache_lines ≤ second.num_of_cache_lines
  unfolding analyze
  analyze-again info first second f g h k =
      let (ls, e, e') =
        >>=-eq-some
          (visit_allocas element_offset type_alloc_size (info.cache_line_size)
            (info.ptr_allocas ++ collect_ptr_allocas (f.allocas)) [])
          _ h in
      let (rs, d, d') =
        >>=-eq-some
          (visit_allocas element_offset type_alloc_size (first.cache_line_size)
            (first.ptr_allocas ++ collect_ptr_allocas (g.allocas)) [])
          _ k in
      let (m, c, c') =
        visit_allocas-append (first.cache_line_size) (first.ptr_allocas)
          (collect_ptr_allocas (g.allocas)) [] rs d in
      let kept =
        length-visit_allocas (first.cache_line_size) (collect_ptr_allocas (g.allocas)) m rs c' in
      let first_is = info_inj e' in
      let m_ls =
        same_lines (first.cache_line_size) (info.cache_line_size) (first.ptr_allocas)
          (info.ptr_allocas ++ collect_ptr_allocas (f.allocas)) m ls
          (ap (λ x. x.cache_line_size) first_is) (ap (λ x. x.ptr_allocas) first_is) c e in
      omega (
        arith,
        kept,
        ap (λ x. length x) m_ls,
        ap (λ x. x.num_of_cache_lines) first_is,
        ap (λ x. x.num_of_cache_lines) (info_inj d'),
      )
