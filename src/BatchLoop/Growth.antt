-- ===== src/BatchLoop/Growth.antt =====
-- What the ends of the returns do to a function only adds to it, so a marker is kept.
use mem_opt.Common.{
  ℕ, ◌≡◌, sym, subst, inl, inr, none, some, List, [], ◌∷◌, ◌++◌, Memᴰ, ◌==◌, ==_ne, ==_iff,
  >>=-eq-some, Bool-cases,
}
use mathlib.Core.List.Memᴰ
use mem_opt.Llvm.{Llvm, Inst, Term, br}
use mem_opt.Annotations.{Instruction}
use mem_opt.ExitNodes.{return_operand, branch_all}
use mem_opt.Loops.{append_insts}
use mem_opt.Loops.Fresh.{some_inj, kept}
use mem_opt.BatchLoop.{store_result, store_and_branch}
use mem_opt.BatchLoop.Markers.{HasMarker}

-- Blocks and instructions are only added.
abbrev pub Grows : (L : Llvm) → L.Ir → L.Ir → Type 0
Grows L s r =
    (b : ℕ)
    → Memᴰ b (L.blocks s)
    → Memᴰ b (L.blocks r) × ((i : Inst) → Memᴰ i (L.insts s b) → Memᴰ i (L.insts r b))

pub HasMarker-grown :
    (L : Llvm) (read : Inst → Instruction) (id : ℕ) (s r : L.Ir)
    → Grows L s r
    → HasMarker L read id s
    → HasMarker L read id r
HasMarker-grown L read id s r grows (b, m, i, at, h) = (b, (grows b m).0, i, (grows b m).1 i at, h)

module _ (L : Llvm) where
  open L use {Ir, blocks, entry, term, insts, new_block, create_block, set_term, set_insts}

  pub Grows-trans : (s r t : Ir) → Grows L s r → Grows L r t → Grows L s t
  Grows-trans s r t g h b m = ((h b (g b m).0).0, (λ i at. (h b (g b m).0).1 i ((g b m).1 i at)))

  pub Grows-create_block : (s : Ir) → Grows L s (create_block none s)
  Grows-create_block s b m = (
    kept L none s b m,
    (λ i at.
        rw
          (L.insts-create_block none s b, ==_ne (new_block s) b (λ e. L.new_block_fresh s (rw e m)))
          at),
  )

  Grows-set_term : (b : ℕ) (t : Term) (s : Ir) → Grows L s (set_term b t s)
  Grows-set_term b t s c m =
      (rw (L.blocks-set_term b t s) m, (λ i at. rw (L.insts-set_term b t s c) at))

  pub Grows-set_insts :
      (b : ℕ) (l : List Inst) (s : Ir)
      → ((i : Inst) → Memᴰ i (insts s b) → Memᴰ i l)
      → Grows L s (set_insts b l s)
  Grows-set_insts b l s more c m = (
    rw (L.blocks-set_insts b l s) m,
    (λ i at. rw (L.insts-set_insts b l s c) (elim (Bool-cases (b == c)) [
      | inl e ↦ rw e (more i (subst (λ x. Memᴰ i (insts s x)) (sym ((==_iff b c).0 e)) at))
      | inr e ↦ rw e at
    ])),
  )

  pub Grows-branch_all : (target : ℕ) (bs : List ℕ) (s : Ir) → Grows L s (branch_all L target bs s)
  unfolding branch_all
  Grows-branch_all target [] s = λ b m. (m, (λ i at. at))
  Grows-branch_all target (b ∷ bs) s =
      Grows-trans s (set_term b (br target) s) (branch_all L target bs (set_term b (br target) s))
        (Grows-set_term b (br target) s) (Grows-branch_all target bs (set_term b (br target) s))

  mem-append : (i : Inst) (xs ys : List Inst) → Memᴰ i xs → Memᴰ i (xs ++ ys)
  mem-append i [] ys m = absurd (Memᴰ.not-nil m)
  mem-append i (x ∷ xs) ys m = elim (Memᴰ.cases_cons m) [
    | inl z ↦ Memᴰ.head z
    | inr later ↦ Memᴰ.tail (mem-append i xs ys later)
  ]

  pub Grows-store_and_branch :
      (slot idx target : ℕ) (bs : List ℕ) (s r : Ir)
      → store_and_branch L slot idx target bs s ≡ some r
      → Grows L s r
  unfolding store_and_branch
  Grows-store_and_branch slot idx target [] s r e =
      subst (λ z. Grows L s z) (sym (some_inj s r e)) (λ b m. (m, (λ i at. at)))
  Grows-store_and_branch slot idx target (b ∷ bs) s r e =
      let (v, _, e') = >>=-eq-some (return_operand (term s b)) _ e in
      let s1 = append_insts L b (store_result slot idx v) s in
      Grows-trans s (set_term b (br target) s1) r
        (Grows-trans s s1 (set_term b (br target) s1)
          (Grows-set_insts b (insts s b ++ store_result slot idx v) s
            (λ i at. mem-append i (insts s b) (store_result slot idx v) at))
          (Grows-set_term b (br target) s1))
        (Grows-store_and_branch slot idx target bs (set_term b (br target) s1) r e')
