-- ===== src/CacheUsage/Lines.antt =====
-- Lists of cache lines that grow without repetition, for MemoryCacheLineId of src/CacheUsageInfo.cpp.
use mem_opt.Common.{
  ℕ, ◌≡◌, ◌↔◌, ◌⊎◌, refl, true, List, [], ◌∷◌, arith, Memᴰ, Memᴰ-cons, Distinct, Bool-cases, inl,
  inr,
}
use mathlib.Core.List.Memᴰ
use mem_opt.CacheUsage.{CacheLine, insert_line, has_line, line_eq}

-- The list `r` has the items of `ls` and those of which `P` holds, and repeats none if `ls` does not.
abbrev pub Adds : (CacheLine → Type 0) → List CacheLine → List CacheLine → Type 0
Adds P ls r = (Distinct ls → Distinct r) × ((l : CacheLine) → Memᴰ l r ↔ (P l ⊎ Memᴰ l ls))

pub Adds-none : (ls : List CacheLine) → Adds (λ l. ⊥) ls ls
Adds-none ls = ((λ d. d), (λ l. ((λ m. inr m), (λ h. elim h [ inl e ↦ absurd e | inr m ↦ m ]))))

pub Adds-trans :
    (P Q : CacheLine → Type 0) (ls m r : List CacheLine)
    → Adds P ls m
    → Adds Q m r
    → Adds (λ l. P l ⊎ Q l) ls r
Adds-trans P Q ls m r (d, h) (d', k) = (
  (λ x. d' (d x)),
  (λ l. (
    (λ x. elim ((k l).0 x) [
      | inl q ↦ inl (inr q)
      | inr y ↦ elim ((h l).0 y) [ inl p ↦ inl (inl p) | inr z ↦ inr z ]
    ]),
    (λ x. elim x [
      | inl pq ↦ elim pq [ inl p ↦ (k l).1 (inr ((h l).1 (inl p))) | inr q ↦ (k l).1 (inl q) ]
      | inr z ↦ (k l).1 (inr ((h l).1 (inr z)))
    ]),
  )),
)

pub Adds-iff :
    (P Q : CacheLine → Type 0) (ls r : List CacheLine)
    → ((l : CacheLine) → P l ↔ Q l)
    → Adds P ls r
    → Adds Q ls r
Adds-iff P Q ls r same (d, h) = (
  d,
  (λ l. (
    (λ x. elim ((h l).0 x) [ inl p ↦ inl ((same l).0 p) | inr m ↦ inr m ]),
    (λ x. elim x [ inl q ↦ (h l).1 (inl ((same l).1 q)) | inr m ↦ (h l).1 (inr m) ]),
  )),
)

same_line :
    (o f n o' f' n' : ℕ)
    → o ≡ o'
    → f ≡ f'
    → n ≡ n'
    → ◌≡◌ {A = CacheLine}
        (record { object = o; field = f; line = n })
        (record { object = o'; field = f'; line = n' })
same_line o f n o' f' n' p q r = cc

line_eq_iff : (a b : CacheLine) → (line_eq a b ≡ true) ↔ (a ≡ b)
line_eq_iff a b = (
  (λ h.
      same_line a.object a.field a.line b.object b.field b.line (ground (arith, h))
        (ground (arith, h)) (ground (arith, h))),
  (λ e. rw e (ground arith)),
)

has_line-Memᴰ : (l : CacheLine) (ls : List CacheLine) → (has_line l ls ≡ true) ↔ Memᴰ l ls
has_line-Memᴰ l [] = ((λ e. cc), (λ m. absurd (Memᴰ.not-nil m)))
has_line-Memᴰ l (k ∷ ks) = (
  (λ h. elim (Bool-cases (line_eq l k)) [
    | inl same ↦ Memᴰ.head ((line_eq_iff l k).0 same)
    | inr other ↦ Memᴰ.tail ((has_line-Memᴰ l ks).0 (rw other at h))
  ]),
  (λ m. elim (Memᴰ.cases_cons m) [
    | inl e ↦ rw ((line_eq_iff l k).1 e) refl
    | inr t ↦ ground (arith, (has_line-Memᴰ l ks).1 t)
  ]),
)

pub Adds-insert_line :
    (new : CacheLine) (ls : List CacheLine) → Adds (λ l. l ≡ new) ls (insert_line new ls)
Adds-insert_line new ls = elim (Bool-cases (has_line new ls)) [
  | inl old ↦ rw old (
    (λ d. d),
    (λ l.
        ((λ m. inr m), (λ h. elim h [ inl e ↦ rw e ((has_line-Memᴰ new ls).0 old) | inr m ↦ m ]))),
  )
  | inr fresh ↦
      rw fresh
        ((λ d. ((λ m. cc (fresh, (has_line-Memᴰ new ls).1 m)), d)), (λ l. Memᴰ-cons l new ls))
]
