-- ===== src/Text.antt =====
-- std::string as the list of its bytes, with the calls that the program makes: find_last_of with one
-- character, substr, comparison, and text literals.
use Prim.Native.Char.{code}
use Prim.Native.String.{String}
use mem_opt.Common.{
  ℕ, zero, suc, ◌≡◌, ◌↔◌, refl, ap, sym, Bool, true, false, ◌&&◌, Option, none, some, List, [], ◌∷◌,
  ◌++◌, Memᴰ, ◌==◌, ==_ne, ==_self, if◌then◌else◌, arith, length,
}

abbrev pub Text : Type 0
Text = List ℕ

abbrev pub codes : String → Text
codes String.[] = []
codes (String.◌∷◌ c s) = code c ∷ codes s

abbrev pub is_empty : Text → Bool
is_empty [] = true
is_empty (c ∷ s) = false

-- s.compare(t) == 0
abbrev pub text_eq : Text → Text → Bool
text_eq [] [] = true
text_eq [] (d ∷ t) = false
text_eq (c ∷ s) [] = false
text_eq (c ∷ s) (d ∷ t) = c == d && text_eq s t

-- `none` is npos.
unfoldable pub find_last_of : ℕ → Text → Option ℕ
find_last_of c [] = none
find_last_of c (x ∷ s) = elim (find_last_of c s) [
  | some i ↦ some (suc i)
  | none ↦ if x == c then some 0 else none
]

abbrev pub take : ℕ → Text → Text
take zero s = []
take (suc n) [] = []
take (suc n) (x ∷ s) = x ∷ take n s

abbrev pub drop : ℕ → Text → Text
drop zero s = s
drop (suc n) [] = []
drop (suc n) (x ∷ s) = drop n s

-- substr(0, n), where npos takes the whole text
abbrev pub substr_to : Option ℕ → Text → Text
substr_to none s = s
substr_to (some i) s = take i s

-- substr(n + 1), where npos + 1 is 0
abbrev pub substr_from : Option ℕ → Text → Text
substr_from none s = s
substr_from (some i) s = drop (suc i) s

find_last_of-eq-none : (c : ℕ) (s : Text) → ¬ Memᴰ c s → find_last_of c s ≡ none
unfolding find_last_of
find_last_of-eq-none c [] out = refl
find_last_of-eq-none c (x ∷ s) out =
    rw
      (
        find_last_of-eq-none c s (λ m. out (Memᴰ.tail m)),
        find_last_of,
        ==_ne x c (λ e. out (Memᴰ.head (sym e))),
      )
      refl

-- The last dot of a name is the one in front of its extension.
pub find_last_of-append :
    (c : ℕ) (stem ext : Text) → ¬ Memᴰ c ext → find_last_of c (stem ++ c ∷ ext) ≡ some (length stem)
unfolding find_last_of
find_last_of-append c [] ext out = rw (find_last_of-eq-none c ext out, find_last_of, ==_self c) refl
find_last_of-append c (x ∷ stem) ext out =
    rw (find_last_of-append c stem ext out, find_last_of) refl

pub take-length : (s t : Text) → take (length s) (s ++ t) ≡ s
take-length [] t = refl
take-length (x ∷ s) t = ap (λ l. x ∷ l) (take-length s t)

pub drop-length : (s : Text) (c : ℕ) (t : Text) → drop (suc (length s)) (s ++ c ∷ t) ≡ t
drop-length [] c t = refl
drop-length (x ∷ s) c t = drop-length s c t

-- compare tells texts apart.
pub text_eq_iff : (s t : Text) → (text_eq s t ≡ true) ↔ (s ≡ t)
text_eq_iff [] [] = ((λ _. refl), (λ _. refl))
text_eq_iff [] (d ∷ t) = ((λ h. cc), (λ h. cc))
text_eq_iff (c ∷ s) [] = ((λ h. cc), (λ h. cc))
text_eq_iff (c ∷ s) (d ∷ t) = ground (arith, text_eq_iff s t)
