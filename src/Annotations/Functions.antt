-- ===== src/Annotations/Functions.antt =====
-- Which annotation getAnnotatedFnList keeps of a function, and setAnnotationInFunctionObject's attributes.
use mem_opt.Common.{
  ℕ, ◌≡◌, ◌↔◌, ◌⊎◌, inl, inr, refl, sym, ap, ◌∙◌, subst, All, Option, none, Option-cases, some,
  List, [], ◌∷◌, ◌==◌, if◌then◌else◌, Memᴰ, find, insert,
}
use mathlib.Core.Path.{ap₂}
use mathlib.Core.List.Memᴰ
use mem_opt.ExitNodes.Unified.{some_inj}
use mem_opt.Text.{Text}
use mem_opt.Annotations.{
  Annotation, add_annotations, add_attributes, get_annotated_fn_list,
  set_annotation_in_function_object,
}

-- The items as the pairs of a function and its text, in order; `none` where a text is no literal.
abbrev pub items_of : List (ℕ × Text) → List Annotation
items_of [] = []
items_of ((f, t) ∷ l) = record { function = some f; text = some t } ∷ items_of l

-- The last text of a function in a list, `d` if it has none.
abbrev pub last_text : ℕ → List (ℕ × Text) → Option Text → Option Text
last_text f [] d = d
last_text f ((g, t) ∷ l) d = last_text f l (if g == f then some t else d)

-- What the map holds is what a lookup finds.
find-add_annotations :
    (f : ℕ) (l fns : List (ℕ × Text))
    → (r : List (ℕ × Text)) × (add_annotations (items_of l) fns ≡ some r)
      × (find f r ≡ last_text f l (find f fns))
unfolding add_annotations
find-add_annotations f [] fns = (fns, refl, refl)
find-add_annotations f ((g, t) ∷ l) fns = find-add_annotations f l (insert g t fns)

-- getAnnotatedFnList maps a function to the last of its annotations in the module: of a function that
-- has two, the first is forgotten.
pub find-get_annotated_fn_list :
    (f : ℕ) (l fns : List (ℕ × Text))
    → (r : List (ℕ × Text)) × (get_annotated_fn_list (some (items_of l)) fns ≡ some r)
      × (find f r ≡ last_text f l (find f fns))
unfolding get_annotated_fn_list
find-get_annotated_fn_list f l fns = find-add_annotations f l fns

-- The text of an item that annotates a function is a literal.
abbrev pub IsReadable : Annotation → Type 0
IsReadable x = (f : ℕ) → x.function ≡ some f → (t : Text) × (x.text ≡ some t)

-- An item of the list gives the function the text.
abbrev pub IsAnnotated : List Annotation → ℕ → Text → Type 0
IsAnnotated items f t = (x : Annotation) × Memᴰ x items × (x.function ≡ some f) × (x.text ≡ some t)

IsAnnotated-cons :
    (x : Annotation) (items : List Annotation) (f : ℕ) (t : Text)
    → IsAnnotated (x ∷ items) f t
    → ((x.function ≡ some f) × (x.text ≡ some t)) ⊎ IsAnnotated items f t
IsAnnotated-cons x items f t (y, m, at, text) = elim (Memᴰ.cases_cons m) [
  | inl z ↦ inl (subst (λ w. w.function ≡ some f) z at, subst (λ w. w.text ≡ some t) z text)
  | inr later ↦ inr (y, later, at, text)
]

abbrev Added : List Annotation → List (ℕ × Text) → Type 0
Added items attrs =
    (r : List (ℕ × Text)) × (add_attributes items attrs ≡ some r)
    × ((f : ℕ) (t : Text) → Memᴰ (f, t) r ↔ (IsAnnotated items f t ⊎ Memᴰ (f, t) attrs))

Added-none :
    (x : Annotation) (items : List Annotation) (attrs : List (ℕ × Text))
    → x.function ≡ none
    → Added items attrs
    → Added (x ∷ items) attrs
unfolding add_attributes
Added-none x items attrs skipped (r, e, h) = (
  r,
  rw skipped e,
  (λ f t. (
    (λ m. elim ((h f t).0 m) [
      | inl (y, k, at, text) ↦ inl (y, Memᴰ.tail k, at, text)
      | inr old ↦ inr old
    ]),
    (λ m. (h f t).1 (elim m [
      | inl k ↦ elim (IsAnnotated-cons x items f t k) [
        | inl (at, text) ↦ cc
        | inr later ↦ inl later
      ]
      | inr old ↦ inr old
    ])),
  )),
)

Added-some :
    (x : Annotation) (items : List Annotation) (attrs : List (ℕ × Text)) (g : ℕ) (u : Text)
    → x.function ≡ some g
    → x.text ≡ some u
    → Added items ((g, u) ∷ attrs)
    → Added (x ∷ items) attrs
unfolding add_attributes
Added-some x items attrs g u is_g is_u (r, e, h) = (
  r,
  rw (is_g, is_u) e,
  (λ f t. (
    (λ m. elim ((h f t).0 m) [
      | inl (y, k, at, text) ↦ inl (y, Memᴰ.tail k, at, text)
      | inr here ↦ elim (Memᴰ.cases_cons here) [
        | inl z ↦ inl (
          x,
          Memᴰ.head refl,
          is_g ∙ ap (λ p. some p.0) (sym z),
          is_u ∙ ap (λ p. some p.1) (sym z),
        )
        | inr old ↦ inr old
      ]
    ]),
    (λ m. (h f t).1 (elim m [
      | inl k ↦ elim (IsAnnotated-cons x items f t k) [
        | inl (at, text) ↦ inr (Memᴰ.head (same_pair f g t u (sym at ∙ is_g) (sym text ∙ is_u)))
        | inr later ↦ inl later
      ]
      | inr old ↦ inr (Memᴰ.tail old)
    ])),
  )),
)
  where
    same_pair :
        (f g : ℕ) (t u : Text)
        → some f ≡ some g
        → some t ≡ some u
        → ◌≡◌ {A = ℕ × Text} (f, t) (g, u)
    same_pair f g t u e k = ap₂ (λ a b. (a, b)) (some_inj f g e) (some_inj t u k)

add_attributes-Added :
    (items : List Annotation) (attrs : List (ℕ × Text)) → All IsReadable items → Added items attrs
unfolding add_attributes
add_attributes-Added [] attrs h = (
  attrs,
  refl,
  (λ f t. (
    (λ m. inr m),
    (λ m. elim m [ inl (y, k, at, text) ↦ absurd (Memᴰ.not-nil k) | inr old ↦ old ]),
  )),
)
add_attributes-Added (x ∷ items) attrs (readable, h) = elim (Option-cases (x.function)) [
  | inl skipped ↦ Added-none x items attrs skipped (add_attributes-Added items attrs h)
  | inr (g, is_g) ↦
      let (u, is_u) = readable g is_g in
      Added-some x items attrs g u is_g is_u (add_attributes-Added items ((g, u) ∷ attrs) h)
]

-- Where every item that annotates a function has a literal as its text, setAnnotationInFunctionObject
-- returns, and a function has then the attributes that it had and the text of each item that
-- annotates it, wherever the item stands, and no others: an item that annotates something else is
-- passed over.
pub mem-set_annotation_in_function_object :
    (items : List Annotation) (attrs : List (ℕ × Text))
    → All IsReadable items
    → (r : List (ℕ × Text)) × (set_annotation_in_function_object (some items) attrs ≡ some r)
      × ((f : ℕ) (t : Text) → Memᴰ (f, t) r ↔ (IsAnnotated items f t ⊎ Memᴰ (f, t) attrs))
unfolding set_annotation_in_function_object
mem-set_annotation_in_function_object items attrs h = add_attributes-Added items attrs h
