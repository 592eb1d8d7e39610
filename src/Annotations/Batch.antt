-- ===== src/Annotations/Batch.antt =====
-- The parameters that detectBatchParameters finds in an entry block.
use mem_opt.Common.{
  ℕ, ◌≡◌, ◌≢◌, ◌↔◌, ◌⊎◌, inl, inr, refl, sym, ap, ◌∙◌, true, false, some, List, [], ◌∷◌, ◌==◌,
  ==_iff, >>=-eq-some, contains, Bool-cases, Memᴰ, Memᴰ-cons, subst, mem_of_contains,
  not_mem_of_contains, Distinct,
}
use mathlib.Core.List.Memᴰ
use mem_opt.Text.{codes}
use mem_opt.Annotations.{
  CallInst, Instruction, call, store, other, has_tag_checked, set_insert, insert_stored,
  insert_parameters, detect_batch_parameters,
}

-- The block stores `v` into `a`, and marks `a` as an argument to batch.
abbrev pub IsStored : List Instruction → ℕ → ℕ → Type 0
IsStored front v a = Memᴰ (store v a) front

abbrev pub IsBatched : ℕ → List Instruction → ℕ → Type 0
IsBatched id front a =
    (c : CallInst) × Memᴰ (call c) front
    × (has_tag_checked id (codes "batch_arg") c ≡ some true)
    × (c.variable ≡ some a)

mem-set_insert : (w v : ℕ) (s : List ℕ) → Memᴰ w (set_insert v s) ↔ ((w ≡ v) ⊎ Memᴰ w s)
mem-set_insert w v s = elim (Bool-cases (contains v s)) [
  | inl old ↦ rw old (inr, λ m. elim m [ inl e ↦ rw e (mem_of_contains v s old) | inr m' ↦ m' ])
  | inr new ↦ rw new (Memᴰ-cons w v s)
]

Distinct-set_insert : (v : ℕ) (s : List ℕ) → Distinct s → Distinct (set_insert v s)
Distinct-set_insert v s d = elim (Bool-cases (contains v s)) [
  | inl old ↦ rw old d
  | inr new ↦ rw new (not_mem_of_contains v s new, d)
]

IsStored-skip :
    (i : Instruction) (is : List Instruction) (w a : ℕ)
    → i ≢ store w a
    → IsStored (i ∷ is) w a
    → IsStored is w a
IsStored-skip i is w a ne m = elim ((Memᴰ-cons (store w a) i is).0 m) [
  | inl e ↦ absurd (ne (sym e))
  | inr m' ↦ m'
]

true-ne-false : true ≢ false
true-ne-false e = cc

mem-insert_stored :
    (a w : ℕ) (is : List Instruction) (s : List ℕ)
    → Memᴰ w (insert_stored a is s) ↔ (IsStored is w a ⊎ Memᴰ w s)
unfolding insert_stored
mem-insert_stored a w [] s = (inr, λ m. elim m [ inl m' ↦ absurd (Memᴰ.not-nil m') | inr m' ↦ m' ])
mem-insert_stored a w (call c ∷ is) s = (
  λ m. elim ((mem-insert_stored a w is s).0 m) [ inl m' ↦ inl (Memᴰ.tail m') | inr m' ↦ inr m' ],
  λ m.
      (mem-insert_stored a w is s).1
        (elim m [ inl m' ↦ inl (IsStored-skip (call c) is w a (λ e. cc) m') | inr m' ↦ inr m' ]),
)
mem-insert_stored a w (other ∷ is) s = (
  λ m. elim ((mem-insert_stored a w is s).0 m) [ inl m' ↦ inl (Memᴰ.tail m') | inr m' ↦ inr m' ],
  λ m.
      (mem-insert_stored a w is s).1
        (elim m [ inl m' ↦ inl (IsStored-skip other is w a (λ e. cc) m') | inr m' ↦ inr m' ]),
)
mem-insert_stored a w (store v p ∷ is) s = elim (Bool-cases (p == a)) [
  | inl same ↦
      let p_a = (==_iff p a).0 same in
      let ih = mem-insert_stored a w is (set_insert v s) in
      rw same (
        λ m. elim (ih.0 m) [
          | inl m' ↦ inl (Memᴰ.tail m')
          | inr m' ↦ elim ((mem-set_insert w v s).0 m') [
            | inl e ↦ inl (Memᴰ.head (rw (e, p_a) refl))
            | inr old ↦ inr old
          ]
        ],
        λ m. ih.1 (elim m [
          | inl m' ↦ elim ((Memᴰ-cons (store w a) (store v p) is).0 m') [
            | inl e ↦ inr ((mem-set_insert w v s).1 (inl cc))
            | inr later ↦ inl later
          ]
          | inr old ↦ inr ((mem-set_insert w v s).1 (inr old))
        ]),
      )
  | inr differs ↦
      let ih = mem-insert_stored a w is s in
      rw differs (
        λ m. elim (ih.0 m) [ inl m' ↦ inl (Memᴰ.tail m') | inr m' ↦ inr m' ],
        λ m. ih.1 (elim m [
          | inl m' ↦ inl (
              IsStored-skip (store v p) is w a
                (λ e. true-ne-false (sym ((==_iff p a).1 cc) ∙ differs)) m')
          | inr old ↦ inr old
        ]),
      )
]

Distinct-insert_stored :
    (a : ℕ) (is : List Instruction) (s : List ℕ) → Distinct s → Distinct (insert_stored a is s)
unfolding insert_stored
Distinct-insert_stored a [] s d = d
Distinct-insert_stored a (call c ∷ is) s d = Distinct-insert_stored a is s d
Distinct-insert_stored a (other ∷ is) s d = Distinct-insert_stored a is s d
Distinct-insert_stored a (store v p ∷ is) s d = elim (Bool-cases (p == a)) [
  | inl same ↦ rw same (Distinct-insert_stored a is (set_insert v s) (Distinct-set_insert v s d))
  | inr differs ↦ rw differs (Distinct-insert_stored a is s d)
]

some_inj : {A : Type 0} (a b : A) → some a ≡ some b → b ≡ a
some_inj a b e = cc

-- One visited call.
insert_parameters-call :
    (id : ℕ) (front : List Instruction) (c : CallInst) (is : List Instruction) (s r : List ℕ)
    → insert_parameters id front (call c ∷ is) s ≡ some r
    → ((has_tag_checked id (codes "batch_arg") c ≡ some false)
        × (insert_parameters id front is s ≡ some r))
      ⊎ ((a : ℕ) × (has_tag_checked id (codes "batch_arg") c ≡ some true)
          × (c.variable ≡ some a)
          × (insert_parameters id front is (insert_stored a front s) ≡ some r))
unfolding insert_parameters
insert_parameters-call id front c is s r h =
    let (hit, e, h') = >>=-eq-some (has_tag_checked id (codes "batch_arg") c) _ h in
    elim (Bool-cases hit) [
      | inl t ↦
          let (a, v, h'') = >>=-eq-some (c.variable) _ (rw t at h') in
          inr (a, e ∙ ap some t, v, h'')
      | inr f ↦ inl (e ∙ ap some f, rw f at h')
    ]

IsBatched-cons :
    (id : ℕ) (i : Instruction) (is : List Instruction) (a : ℕ)
    → IsBatched id (i ∷ is) a
    → ((c : CallInst) × (i ≡ call c)
        × (has_tag_checked id (codes "batch_arg") c ≡ some true)
        × (c.variable ≡ some a))
      ⊎ IsBatched id is a
IsBatched-cons id i is a (c, m, t, v) = elim ((Memᴰ-cons (call c) i is).0 m) [
  | inl e ↦ inl (c, sym e, t, v)
  | inr m' ↦ inr (c, m', t, v)
]

IsBatched-tail :
    (id : ℕ) (i : Instruction) (is : List Instruction) (a : ℕ)
    → IsBatched id is a
    → IsBatched id (i ∷ is) a
IsBatched-tail id i is a (c, m, t, v) = (c, Memᴰ.tail m, t, v)

call_inj : (c d : CallInst) → call c ≡ call d → c ≡ d
call_inj c d e = cc

-- What the visit of the instructions `is` adds.
abbrev Adds : ℕ → ℕ → List Instruction → List Instruction → List ℕ → List ℕ → Type 0
Adds id w front is s r = Memᴰ w r ↔ (((a : ℕ) × IsBatched id is a × IsStored front w a) ⊎ Memᴰ w s)

-- An instruction that is no marker adds nothing.
Adds-skip :
    (id w : ℕ) (front : List Instruction) (i : Instruction) (is : List Instruction) (s r : List ℕ)
    → ((c : CallInst) → i ≡ call c → has_tag_checked id (codes "batch_arg") c ≢ some true)
    → Adds id w front is s r
    → Adds id w front (i ∷ is) s r
Adds-skip id w front i is s r plain ih = (
  λ m. elim (ih.0 m) [
    | inl (a, b, st) ↦ inl (a, IsBatched-tail id i is a b, st)
    | inr old ↦ inr old
  ],
  λ m. ih.1 (elim m [
    | inl (a, b, st) ↦ elim (IsBatched-cons id i is a b) [
      | inl (c, e, t, v) ↦ absurd (plain c e t)
      | inr b' ↦ inl (a, b', st)
    ]
    | inr old ↦ inr old
  ]),
)

mem-insert_parameters :
    (id w : ℕ) (front is : List Instruction) (s r : List ℕ)
    → insert_parameters id front is s ≡ some r
    → Adds id w front is s r
unfolding insert_parameters
mem-insert_parameters id w front [] s r h =
    rw (some_inj s r h)
      (inr, λ m. elim m [ inl (a, (c, m', t, v), st) ↦ absurd (Memᴰ.not-nil m') | inr old ↦ old ])
mem-insert_parameters id w front (store v p ∷ is) s r h =
    Adds-skip id w front (store v p) is s r (λ c e t. cc)
      (mem-insert_parameters id w front is s r h)
mem-insert_parameters id w front (other ∷ is) s r h =
    Adds-skip id w front other is s r (λ c e t. cc) (mem-insert_parameters id w front is s r h)
mem-insert_parameters id w front (call c ∷ is) s r h =
    elim (insert_parameters-call id front c is s r h) [
      | inl (f, h') ↦
          Adds-skip id w front (call c) is s r
            (λ d e t.
              true-ne-false
                (cc (ap (λ x. has_tag_checked id (codes "batch_arg") x) (call_inj c d e))))
            (mem-insert_parameters id w front is s r h')
      | inr (a, t, v, h') ↦
          let ih = mem-insert_parameters id w front is (insert_stored a front s) r h' in
          let stored = mem-insert_stored a w front s in
          (
            λ m. elim (ih.0 m) [
              | inl (b, d, st) ↦ inl (b, IsBatched-tail id (call c) is b d, st)
              | inr m' ↦ elim (stored.0 m') [
                | inl st ↦ inl (a, (c, Memᴰ.head refl, t, v), st)
                | inr old ↦ inr old
              ]
            ],
            λ m. ih.1 (elim m [
              | inl (b, d, st) ↦ elim (IsBatched-cons id (call c) is b d) [
                | inl (c', e, t', v') ↦ inr (
                    stored.1 (
                      inl (
                        subst (λ x. IsStored front w x)
                          (some_inj a b (sym v ∙ ap (λ x. x.variable) (call_inj c c' e) ∙ v')) st)))
                | inr d' ↦ inl (b, d', st)
              ]
              | inr old ↦ inr (stored.1 (inr old))
            ]),
          )
    ]

-- The values that detectBatchParameters adds to the set are those that the entry block stores into a
-- variable that it marks as `batch_arg`, and no others; the set keeps its members.
pub mem-detect_batch_parameters :
    (id w : ℕ) (front : List Instruction) (s r : List ℕ)
    → detect_batch_parameters id front s ≡ some r
    → Memᴰ w r ↔ (((a : ℕ) × IsBatched id front a × IsStored front w a) ⊎ Memᴰ w s)
unfolding detect_batch_parameters
mem-detect_batch_parameters id w front s r h = mem-insert_parameters id w front front s r h

Distinct-insert_parameters :
    (id : ℕ) (front is : List Instruction) (s r : List ℕ)
    → insert_parameters id front is s ≡ some r
    → Distinct s
    → Distinct r
unfolding insert_parameters
Distinct-insert_parameters id front [] s r h d = rw (some_inj s r h) d
Distinct-insert_parameters id front (store v p ∷ is) s r h d =
    Distinct-insert_parameters id front is s r h d
Distinct-insert_parameters id front (other ∷ is) s r h d =
    Distinct-insert_parameters id front is s r h d
Distinct-insert_parameters id front (call c ∷ is) s r h d =
    elim (insert_parameters-call id front c is s r h) [
      | inl (f, h') ↦ Distinct-insert_parameters id front is s r h' d
      | inr (a, t, v, h') ↦
          Distinct-insert_parameters id front is (insert_stored a front s) r h'
            (Distinct-insert_stored a front s d)
    ]

-- detectBatchParameters keeps the values of its set distinct.
pub Distinct-detect_batch_parameters :
    (id : ℕ) (front : List Instruction) (s r : List ℕ)
    → detect_batch_parameters id front s ≡ some r
    → Distinct s
    → Distinct r
unfolding detect_batch_parameters
Distinct-detect_batch_parameters id front s r h d =
    Distinct-insert_parameters id front front s r h d
