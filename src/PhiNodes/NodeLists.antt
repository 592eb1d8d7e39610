-- ===== src/PhiNodes/NodeLists.antt =====
-- A function by the list of its nodes with their blocks: an instance of the interface is made of it.
use mem_opt.Common.{
  ℕ, suc, ◌+◌, ◌≤◌, ◌≡◌, ◌≢◌, refl, ap, Bool, true, false, List, [], ◌∷◌, ◌==◌, if◌then◌else◌, All,
  map, arith,
}
use mem_opt.PhiNodes.{Phi, without}

abbrev pub Nodes : Type 0
Nodes = List (ℕ × Phi)

abbrev pub heads : Nodes → ℕ → List Phi
heads [] c = []
heads ((b, p) ∷ s) c = if b == c then p ∷ heads s c else heads s c

abbrev pub each : (Phi → Phi) → Nodes → Nodes
each f [] = []
each f ((b, p) ∷ s) = (b, f p) ∷ each f s

abbrev pub drop : ℕ → Nodes → Nodes
drop n [] = []
drop n ((b, p) ∷ s) = if p.node == n then drop n s else (b, p) ∷ drop n s

abbrev values : List (ℕ × ℕ) → ℕ
values [] = 0
values (i ∷ is) = i.0 + values is

abbrev pub total : Nodes → ℕ
total [] = 0
total ((b, p) ∷ s) = p.node + values p.incoming + total s

map-if :
    (f : Phi → Phi) (t : Bool) (p : Phi) (ps : List Phi)
    → (if t then f p ∷ map f ps else map f ps) ≡ map f (if t then p ∷ ps else ps)
map-if f true p ps = refl
map-if f false p ps = refl

pub heads-each : (f : Phi → Phi) (s : Nodes) (c : ℕ) → heads (each f s) c ≡ map f (heads s c)
heads-each f [] c = refl
heads-each f ((b, p) ∷ s) c = rw (heads-each f s c) (map-if f (b == c) p (heads s c))

heads-if :
    (t u : Bool) (n b c : ℕ) (p : Phi) (s : Nodes) (ps : List Phi)
    → (p.node == n) ≡ t
    → (b == c) ≡ u
    → heads (drop n s) c ≡ without n ps
    → heads (if t then drop n s else (b, p) ∷ drop n s) c ≡ without n (if u then p ∷ ps else ps)
heads-if true true n b c p s ps same here h = rw same h
heads-if true false n b c p s ps same here h = h
heads-if false true n b c p s ps same here h = rw (same, here) (ap (λ l. p ∷ l) h)
heads-if false false n b c p s ps same here h = rw here h

pub heads-drop : (n : ℕ) (s : Nodes) (c : ℕ) → heads (drop n s) c ≡ without n (heads s c)
heads-drop n [] c = refl
heads-drop n ((b, p) ∷ s) c =
    heads-if (p.node == n) (b == c) n b c p s (heads s c) refl refl (heads-drop n s c)

at_most : (is : List (ℕ × ℕ)) (t : ℕ) → values is ≤ t → All (λ i. i.0 ≢ suc t) is
at_most [] t h = tt
at_most (i ∷ is) t h = ((λ e. omega arith), at_most is t (omega arith))

All-if :
    (P : Phi → Type 0) (t : Bool) (p : Phi) (ps : List Phi)
    → P p
    → All P ps
    → All P (if t then p ∷ ps else ps)
All-if P true p ps h hs = (h, hs)
All-if P false p ps h hs = hs

abbrev pub Fresh : ℕ → Phi → Type 0
Fresh t p = (p.node ≢ suc t) × All (λ i. i.0 ≢ suc t) p.incoming

pub heads-Fresh : (s : Nodes) (t : ℕ) (c : ℕ) → total s ≤ t → All (Fresh t) (heads s c)
heads-Fresh [] t c h = tt
heads-Fresh ((b, p) ∷ s) t c h =
    All-if (Fresh t) (b == c) p (heads s c) ((λ e. omega arith), at_most p.incoming t (omega arith))
      (heads-Fresh s t c (omega arith))
