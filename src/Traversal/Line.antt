-- ===== src/Traversal/Line.antt =====
-- visitSuccessor on blocks without branches.
use mem_opt.Common.{
  ℕ, zero, suc, ◌≡◌, ◌≢◌, refl, ap, ◌<◌, some, List, [], ◌∷◌, ◌++◌, ==_ne, ==_self, ◌>>=◌, length,
  arith,
}
use mathlib.Core.List.{append_assoc, append-nil}
use mem_opt.Traversal.{visit_until, visit_successor}

-- The blocks of the list lead by single successors from the start to the end.
abbrev pub Between : (ℕ → List ℕ) → ℕ → ℕ → List ℕ → Type 0
Between succs end start [] = succs start ≡ end ∷ []
Between succs end start (b ∷ bs) = (succs start ≡ b ∷ []) × (b ≢ end) × Between succs end b bs

-- Between two blocks that a line of blocks without branches joins, visitSuccessor adds these blocks, in
-- their order, with fuel for each and one more.
pub visit_successor-line :
    (succs : ℕ → List ℕ) (end n : ℕ) (blocks : List ℕ) (start : ℕ) (bs : List ℕ)
    → Between succs end start bs
    → length bs < n
    → visit_successor succs end n blocks start ≡ some (blocks ++ bs)
unfolding visit_successor visit_until
visit_successor-line succs end zero blocks start bs line enough = absurd (omega (arith, enough))
visit_successor-line succs end (suc n) blocks start [] line enough =
    rw (line, ==_self end, append-nil blocks) refl
visit_successor-line succs end (suc n) blocks start (b ∷ bs) (next, on, line) enough =
    rw (next, ==_ne b end on)
      (rw
        (
          visit_successor-line succs end n (blocks ++ b ∷ []) b bs line (omega (arith, enough)),
          ◌>>=◌,
        )
        (ap (λ l. some l) (append_assoc blocks (b ∷ []) bs)))
