-- ===== src/CacheUsage/Counted.antt =====
-- The members of MemoryCacheLineId: which cache lines analyze counts.
use mem_opt.Common.{
  ◌++◌, if◌then◌else◌, ℕ, ◌/◌, ◌==◌, ◌≡◌, ◌↔◌, ◌⊎◌, refl, sym, ap, ◌∙◌, subst, true, false, Option,
  none, some, List, [], ◌∷◌, Memᴰ, >>=-eq-some, length, Distinct, Bool-cases, inl, inr,
}
use mathlib.Core.List.Memᴰ
use mem_opt.CacheUsage.{
  Alloca, User, Instruction, Function, CacheLine, CacheUsageInfo, insert_line, gep, plain,
  load_user, other_user, get_gep_index, get_byte_offset_absolute, add_line, add_line_behind_pointer,
  visit_user, visit_users, visit_allocas, collect_ptr_allocas, new_info, analyze,
}
use mem_opt.CacheUsage.Collected.{some_inj}
use mem_opt.CacheUsage.Lines.{Adds, Adds-none, Adds-trans, Adds-iff, Adds-insert_line}

module _ (element_offset : ℕ → ℕ → ℕ) (type_alloc_size : ℕ → ℕ) (size : ℕ) where
  -- The instructions start with a getelementptr that computes an address in the line `l`.
  abbrev pub Reaches : List Instruction → ℕ → ℕ → CacheLine → Type 0
  Reaches (gep g ∷ is) object field l =
      (offset : ℕ) × (get_byte_offset_absolute element_offset type_alloc_size g is 0 ≡ some offset)
      × (l ≡ record { object = object; field = field; line = offset / size })
  Reaches _ object field l = ⊥

  -- The same behind the load of a pointer to pointers, which a getelementptr picks one of.
  abbrev pub ReachesBehind : List Instruction → ℕ → CacheLine → Type 0
  ReachesBehind (gep g ∷ base ∷ is) object l =
      (field : ℕ) × (get_gep_index g ≡ some field) × Reaches is object field l
  ReachesBehind _ object l = ⊥

  -- A user of a variable: a load of it.
  abbrev pub Touches : Alloca → User → CacheLine → Type 0
  Touches a (load_user is) l =
      ((a.to_pointer ≡ true) × ReachesBehind is a.name l)
      ⊎ ((a.to_pointer ≡ false) × Reaches is a.name 0 l)
  Touches a other_user l = ⊥

  abbrev pub TouchedBy : List Alloca → CacheLine → Type 0
  TouchedBy allocas l = (a : Alloca) × (u : User) × Memᴰ a allocas × Memᴰ u a.users × Touches a u l

  Adds-add_line :
      (object field : ℕ) (is : List Instruction) (ls r : List CacheLine)
      → add_line element_offset type_alloc_size size object field is ls ≡ some r
      → Adds (Reaches is object field) ls r
  unfolding add_line
  Adds-add_line object field [] ls r h = cc
  Adds-add_line object field (plain ∷ is) ls r h =
      subst (Adds (λ l. ⊥) ls) (sym (some_inj ls r h)) (Adds-none ls)
  Adds-add_line object field (gep g ∷ is) ls r h =
      let (offset, e, h') =
        >>=-eq-some (get_byte_offset_absolute element_offset type_alloc_size g is 0) _ h in
      let new : CacheLine = record { object = object; field = field; line = offset / size } in
      elim (Bool-cases (size == 0)) [
        | inl zero_size ↦ absurd (no_line (rw zero_size at h'))
        | inr ok ↦
            Adds-iff (λ l. l ≡ new) (Reaches (gep g ∷ is) object field) ls r
              (λ l. (
                (λ z. (offset, e, z)),
                (λ (offset', e', z).
                    z ∙ at_line object field offset' offset (some_inj offset offset' (sym e ∙ e'))),
              ))
              (subst (Adds (λ l. l ≡ new) ls) (sym (some_inj (insert_line new ls) r (rw ok at h')))
                (Adds-insert_line new ls))
      ]
    where
      no_line : {A : Type 0} {a : A} → ◌≡◌ {A = Option A} none (some a) → ⊥
      no_line e = cc

      at_line :
          (object field offset' offset : ℕ)
          → offset' ≡ offset
          → ◌≡◌ {A = CacheLine}
              (record { object = object; field = field; line = offset' / size })
              (record { object = object; field = field; line = offset / size })
      at_line object field offset' offset e = rw e refl

  Adds-add_line_behind_pointer :
      (object : ℕ) (is : List Instruction) (ls r : List CacheLine)
      → add_line_behind_pointer element_offset type_alloc_size size object is ls ≡ some r
      → Adds (ReachesBehind is object) ls r
  unfolding add_line_behind_pointer
  Adds-add_line_behind_pointer object [] ls r h = cc
  Adds-add_line_behind_pointer object (plain ∷ is) ls r h = cc
  Adds-add_line_behind_pointer object (gep g ∷ []) ls r h = cc
  Adds-add_line_behind_pointer object (gep g ∷ base ∷ is) ls r h =
      let (field, e, h') = >>=-eq-some (get_gep_index g) _ h in
      Adds-iff (Reaches is object field) (ReachesBehind (gep g ∷ base ∷ is) object) ls r
        (λ l. (
          (λ x. (field, e, x)),
          (λ (field', e', x).
              subst (λ f. Reaches is object f l) (some_inj field field' (sym e ∙ e')) x),
        ))
        (Adds-add_line object field is ls r h')

  Adds-visit_user :
      (a : Alloca) (u : User) (ls r : List CacheLine)
      → visit_user element_offset type_alloc_size size a u ls ≡ some r
      → Adds (Touches a u) ls r
  unfolding visit_user
  Adds-visit_user a other_user ls r h =
      subst (Adds (λ l. ⊥) ls) (sym (some_inj ls r h)) (Adds-none ls)
  Adds-visit_user a (load_user is) ls r h = elim (Bool-cases a.to_pointer) [
    | inl p ↦
        Adds-iff (ReachesBehind is a.name) (Touches a (load_user is)) ls r
          (λ l. ((λ x. inl (p, x)), (λ t. elim t [ inl (_, x) ↦ x | inr (s, _) ↦ cc (p, s) ])))
          (Adds-add_line_behind_pointer a.name is ls r (rw p at h))
    | inr s ↦
        Adds-iff (Reaches is a.name 0) (Touches a (load_user is)) ls r
          (λ l. ((λ x. inr (s, x)), (λ t. elim t [ inl (p, _) ↦ cc (p, s) | inr (_, x) ↦ x ])))
          (Adds-add_line a.name 0 is ls r (rw s at h))
  ]

  Adds-visit_users :
      (a : Alloca) (us : List User) (ls r : List CacheLine)
      → visit_users element_offset type_alloc_size size a us ls ≡ some r
      → Adds (λ l. (u : User) × Memᴰ u us × Touches a u l) ls r
  unfolding visit_users
  Adds-visit_users a [] ls r h =
      Adds-iff (λ l. ⊥) (λ l. (u : User) × Memᴰ u [] × Touches a u l) ls r
        (λ l. ((λ x. absurd x), (λ (u, m, t). Memᴰ.not-nil m)))
        (subst (Adds (λ l. ⊥) ls) (sym (some_inj ls r h)) (Adds-none ls))
  Adds-visit_users a (u ∷ us) ls r h =
      let (ls', e, h') = >>=-eq-some (visit_user element_offset type_alloc_size size a u ls) _ h in
      Adds-iff _ (λ l. (v : User) × Memᴰ v (u ∷ us) × Touches a v l) ls r
        (λ l. (
          (λ x. elim x [ inl t ↦ (u, Memᴰ.head refl, t) | inr (v, m, t) ↦ (v, Memᴰ.tail m, t) ]),
          (λ (v, m, t). elim (Memᴰ.cases_cons m) [
            | inl z ↦ inl (subst (λ v. Touches a v l) z t)
            | inr m' ↦ inr (v, m', t)
          ]),
        ))
        (Adds-trans (Touches a u) (λ l. (v : User) × Memᴰ v us × Touches a v l) ls ls' r
          (Adds-visit_user a u ls ls' e) (Adds-visit_users a us ls' r h'))

  Adds-visit_allocas :
      (allocas : List Alloca) (ls r : List CacheLine)
      → visit_allocas element_offset type_alloc_size size allocas ls ≡ some r
      → Adds (TouchedBy allocas) ls r
  unfolding visit_allocas
  Adds-visit_allocas [] ls r h =
      Adds-iff (λ l. ⊥) (TouchedBy []) ls r
        (λ l. ((λ x. absurd x), (λ (a, u, m, _, _). Memᴰ.not-nil m)))
        (subst (Adds (λ l. ⊥) ls) (sym (some_inj ls r h)) (Adds-none ls))
  Adds-visit_allocas (a ∷ rest) ls r h =
      let (ls', e, h') =
        >>=-eq-some (visit_users element_offset type_alloc_size size a (a.users) ls) _ h in
      Adds-iff _ (TouchedBy (a ∷ rest)) ls r
        (λ l. (
          (λ x. elim x [
            | inl (u, m, t) ↦ (a, u, Memᴰ.head refl, m, t)
            | inr (b, u, m, k, t) ↦ (b, u, Memᴰ.tail m, k, t)
          ]),
          (λ (b, u, m, k, t). elim (Memᴰ.cases_cons m) [
            | inl z ↦ inl (subst (λ b. (u : User) × Memᴰ u b.users × Touches b u l) z (u, k, t))
            | inr m' ↦ inr (b, u, m', k, t)
          ]),
        ))
        (Adds-trans (λ l. (u : User) × Memᴰ u a.users × Touches a u l) (TouchedBy rest) ls ls' r
          (Adds-visit_users a a.users ls ls' e) (Adds-visit_allocas rest ls' r h'))

-- The number of lines is that of different lines that users of the collected variables touch.
abbrev pub IsCounted : (ℕ → ℕ → ℕ) → (ℕ → ℕ) → CacheUsageInfo → Type 0
IsCounted element_offset type_alloc_size info =
    (lines : List CacheLine) × Distinct lines
    × ((l : CacheLine)
        → Memᴰ l lines
          ↔ TouchedBy element_offset type_alloc_size info.cache_line_size info.ptr_allocas l)
    × (info.num_of_cache_lines ≡ length lines)

-- On any object: the variables are those of before and those of the function.
pub analyze-IsCounted :
    (element_offset : ℕ → ℕ → ℕ) (type_alloc_size : ℕ → ℕ) (f : Function)
    (info info' : CacheUsageInfo)
    → analyze element_offset type_alloc_size info f ≡ some info'
    → (info'.ptr_allocas ≡ info.ptr_allocas ++ collect_ptr_allocas f.allocas)
      × (info'.cache_line_size ≡ info.cache_line_size)
      × IsCounted element_offset type_alloc_size info'
unfolding analyze
analyze-IsCounted element_offset type_alloc_size f info info' h =
    let allocas = info.ptr_allocas ++ collect_ptr_allocas f.allocas in
    let (lines, e, h') =
      >>=-eq-some (visit_allocas element_offset type_alloc_size info.cache_line_size allocas []) _
        h in
    let (apart, members) =
      Adds-visit_allocas element_offset type_alloc_size info.cache_line_size allocas [] lines e in
    let done : CacheUsageInfo = record {
      ptr_allocas = allocas;
      cache_line_size = info.cache_line_size;
      num_of_cache_lines = length lines;
      loop_exists = if f.has_loops then some true else info.loop_exists;
    } in
    let same : info' ≡ done = some_inj done info' h' in
    (
      ap (λ i. i.ptr_allocas) same,
      ap (λ i. i.cache_line_size) same,
      subst (IsCounted element_offset type_alloc_size) (sym same) (
        lines,
        apart tt,
        (λ l. (
          (λ m. elim ((members l).0 m) [ inl t ↦ t | inr n ↦ absurd (Memᴰ.not-nil n) ]),
          (λ t. (members l).1 (inl t)),
        )),
        refl,
      ),
    )

-- Where analyze succeeds on a new object, the number that it reports is the number of different lines
-- that the collected variables' users touch: those at the offset that getelementptr instructions
-- behind a load of the variable compute, or behind what is loaded from a pointer to pointers.
pub analyze-num_of_cache_lines :
    (element_offset : ℕ → ℕ → ℕ) (type_alloc_size : ℕ → ℕ) (size : ℕ) (f : Function)
    (info : CacheUsageInfo)
    → analyze element_offset type_alloc_size (new_info size) f ≡ some info
    → (lines : List CacheLine) × Distinct lines
      × ((l : CacheLine)
          → Memᴰ l lines
            ↔ TouchedBy element_offset type_alloc_size size (collect_ptr_allocas f.allocas) l)
      × (info.num_of_cache_lines ≡ length lines)
unfolding new_info
analyze-num_of_cache_lines element_offset type_alloc_size size f info h =
    let (vars, same, (lines, apart, members, number)) =
      analyze-IsCounted element_offset type_alloc_size f (new_info size) info h in
    (
      lines,
      apart,
      (λ l.
          subst (λ allocas. Memᴰ l lines ↔ TouchedBy element_offset type_alloc_size size allocas l)
            vars
            (subst
              (λ n. Memᴰ l lines ↔ TouchedBy element_offset type_alloc_size n info.ptr_allocas l)
              same (members l))),
      number,
    )
