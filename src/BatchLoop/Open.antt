-- ===== src/BatchLoop/Open.antt =====
-- A block without a terminator as the exiting block, and when addBatchLoop makes one.
use mem_opt.Common.{
  ℕ, suc, ◌≡◌, ◌≢◌, refl, sym, ◌∙◌, subst, inl, inr, Option, none, some, List, [], ◌∷◌, Memᴰ, ◌==◌,
  ==_ne, ==_self, ==_iff, ◌>>=◌, >>=-eq-some, >>=-eq-none, if◌then◌else◌, Bool-cases,
}
use mathlib.Core.List.Memᴰ
use mem_opt.Llvm.{Llvm, br, load, store, int32, compute, succs_of}
use mem_opt.Loops.{
  TasForLoop, is_conditional, below_trip_count, increment, append_insts, set_successor,
  add_increment_index_op, stitch_entry, add_empty_loop, set_loop_body,
}
use mem_opt.Loops.Fresh.{
  kept, created, new-ne, some_inj, set_successor-other, blocks-set_successor, set_successor-eq-none,
  set_successor-open,
}
use mem_opt.BatchLoop.{redirect_all, unique_exiting_block, add_batch_loop}

-- Two items that differ make a list of two or more.
two_of_mem :
    (x y : ℕ) (l : List ℕ)
    → Memᴰ x l
    → Memᴰ y l
    → x ≢ y
    → (a : ℕ) × (b : ℕ) × (bs : List ℕ) × (l ≡ a ∷ b ∷ bs)
two_of_mem x y [] mx my ne = absurd (Memᴰ.not-nil mx)
two_of_mem x y (a ∷ []) mx my ne = elim (Memᴰ.cases_cons mx) [
  | inl e ↦ elim (Memᴰ.cases_cons my) [
    | inl z ↦ absurd (ne (e ∙ sym z))
    | inr m ↦ absurd (Memᴰ.not-nil m)
  ]
  | inr m ↦ absurd (Memᴰ.not-nil m)
]
two_of_mem x y (a ∷ b ∷ bs) mx my ne = (a, b, bs, refl)

module _ (L : Llvm) where
  open L use {
    Ir, blocks, entry, term, insts, preds, new_block, create_block, split_block, set_term,
    set_insts,
  }

  redirect_all-open :
      (target : ℕ) (bs : List ℕ) (s r : Ir)
      → redirect_all L target bs s ≡ some r
      → Memᴰ target (blocks s)
      → term s target ≡ none
      → Memᴰ target (blocks r) × (term r target ≡ none)
  unfolding redirect_all
  redirect_all-open target [] s r h m bare = rw (some_inj s r h) (m, bare)
  redirect_all-open target (b ∷ bs) s r h m bare =
      let (s', e, h') = >>=-eq-some (set_successor L b target 0 s) _ h in
      redirect_all-open target bs s' r h' (rw (blocks-set_successor L b target 0 s s' e) m)
        (set_successor-open L b target 0 s s' target e bare)

  unique_exiting_block-open :
      (u v : ℕ) (us : List ℕ) (ret_block : ℕ) (s : Ir) (q : ℕ × Ir)
      → unique_exiting_block L (u ∷ v ∷ us) ret_block s ≡ some q
      → Memᴰ q.0 (blocks q.1) × (term q.1 q.0 ≡ none)
  unfolding unique_exiting_block
  unique_exiting_block-open u v us ret_block s q h =
      let new = new_block s in
      let s' = create_block (some ret_block) s in
      let (r, e, h') = >>=-eq-some (redirect_all L new (u ∷ v ∷ us) s') _ h in
      let same = some_inj (new, r) q h' in
      subst (λ x. Memᴰ x.0 (blocks x.1) × (term x.1 x.0 ≡ none)) (sym same)
        (redirect_all-open new (u ∷ v ∷ us) s' r e (created L (some ret_block) s)
          (L.term-create_block (some ret_block) s new ∙ rw (==_self new) refl))

  module _ (p exit tc idx x : ℕ) (s : Ir) (x_in : Memᴰ x (blocks s)) (bare : term s x ≡ none) where
    abbrev s1 : Ir
    s1 = create_block (some exit) s

    abbrev s2 : Ir
    s2 = create_block (some exit) s1

    abbrev s3 : Ir
    s3 = create_block (some exit) s2

    abbrev pre : ℕ
    pre = new_block s

    abbrev header : ℕ
    header = new_block s1

    abbrev latch : ℕ
    latch = new_block s2

    -- The function before the entry point is stitched.
    abbrev s6 : Ir
    s6 =
        append_insts L header
          (compute (load tc) ∷ compute (load idx) ∷ compute (below_trip_count idx tc) ∷ [])
          (append_insts L latch (increment idx) (
            set_term latch (br header)
              (set_term pre (br header) (append_insts L pre (store (int32 0) idx ∷ []) s3))))

    pre-ne : pre ≢ x
    pre-ne = new-ne L s x x_in

    header-ne : header ≢ x
    header-ne = new-ne L s1 x (kept L (some exit) s x x_in)

    latch-ne : latch ≢ x
    latch-ne = new-ne L s2 x (kept L (some exit) s1 x (kept L (some exit) s x x_in))

    term-s6 : term s6 x ≡ none
    term-s6 =
        simp
          (
            L.term-set_term,
            L.term-set_insts,
            L.term-create_block,
            ==_ne pre x pre-ne,
            ==_ne header x header-ne,
            ==_ne latch x latch-ne,
          )
          bare

    -- Building the loop leaves a block without a terminator without one, and it is not the header.
    add_empty_loop-open :
        (l : TasForLoop) (r : Ir)
        → add_empty_loop L (some p) (some exit) (some tc) (some idx) s ≡ some (l, r)
        → (term r x ≡ none) × (l.header ≢ x)
    unfolding add_empty_loop stitch_entry add_increment_index_op
    add_empty_loop-open l r h =
        let (s7, stitched, h1) = >>=-eq-some (stitch_entry L (some p) pre s6) _ h in
        let (t, at_p, placed) = >>=-eq-some (term s6 p) _ stitched in
        let open_s7 =
          set_successor-open L p pre (if is_conditional t then 1 else 0) s6 s7 x placed term-s6 in
        let same = some_inj _ (l, r) h1 in
        subst (λ q. (term q.1 x ≡ none) × (q.0.header ≢ x)) (sym same)
          (simp (L.term-set_term, ==_ne header x header-ne) open_s7, header-ne)

    -- Then the loop's body cannot be set to end in it.
    loop-eq-none :
        (first : ℕ)
        → ◌>>=◌ {B = Option TasForLoop × Ir}
            (add_empty_loop L (some p) (some exit) (some tc) (some idx) s)
            (λ (l, s'). set_loop_body L first x l s' >>= λ (l', s''). some (some l', s''))
          ≡ none
    unfolding set_loop_body
    loop-eq-none first =
        >>=-eq-none (add_empty_loop L (some p) (some exit) (some tc) (some idx) s) _ (λ r made.
          let (open_r, header_other) = add_empty_loop-open r.0 r.1 made in
          >>=-eq-none (set_loop_body L first x r.0 r.1) _ (λ q set.
            let (s', at_header, set') =
              >>=-eq-some (set_successor L r.0.header first 0 r.1) _ set in
            let (s'', at_x, _) = >>=-eq-some (set_successor L x r.0.latch 0 s') _ set' in
            absurd (
              cc (
                at_x,
                set_successor-eq-none L x r.0.latch 0 s' (
                    set_successor-other L r.0.header first 0 r.1 s' x at_header header_other
                    ∙ open_r),
              ))))

  -- Two blocks that differ and go to RetBlock make the exiting block a new one.
  module _ (ret_block parent i tc idx b c : ℕ) (s : Ir) (b_in : Memᴰ b (blocks s))
      (c_in : Memᴰ c (blocks s)) (apart : b ≢ c) (b_term : term s b ≡ some (br ret_block))
      (c_term : term s c ≡ some (br ret_block)) where
    abbrev split : Ir
    split = split_block parent (suc i) s

    -- The block that goes to RetBlock behind the split.
    abbrev moved : ℕ → ℕ
    moved x = if parent == x then new_block s else x

    moved_in :
        (x : ℕ)
        → Memᴰ x (blocks s)
        → term s x ≡ some (br ret_block)
        → Memᴰ (moved x) (preds split ret_block)
    unfolding succs_of
    moved_in x m e = elim (Bool-cases (parent == x)) [
      | inl same ↦ rw same (
          L.mem-preds split (new_block s) ret_block
            ((L.blocks-split_block parent (suc i) s (new_block s)).1 (inl refl))
            (rw (L.term-split_block, ==_self, (==_iff parent x).0 same, e, succs_of)
              (Memᴰ.head refl)))
      | inr other ↦ rw other (
          L.mem-preds split x ret_block ((L.blocks-split_block parent (suc i) s x).1 (inr m)) (
            rw (L.term-split_block, ==_ne (new_block s) x (new-ne L s x m), other, e, succs_of)
              (Memᴰ.head refl)))
    ]

    moved_apart : moved b ≢ moved c
    moved_apart = elim (Bool-cases (parent == b)) [
      | inl same_b ↦ elim (Bool-cases (parent == c)) [
        | inl same_c ↦
            absurd (apart (sym ((==_iff parent b).0 same_b) ∙ (==_iff parent c).0 same_c))
        | inr other_c ↦ rw (same_b, other_c) (new-ne L s c c_in)
      ]
      | inr other_b ↦ elim (Bool-cases (parent == c)) [
        | inl same_c ↦ rw (other_b, same_c) (λ e. new-ne L s b b_in (sym e))
        | inr other_c ↦ rw (other_b, other_c) apart
      ]
    ]

    pub add_batch_loop-eq-none : add_batch_loop L (some (parent, i)) tc ret_block idx s ≡ none
    unfolding add_batch_loop unique_exiting_block
    add_batch_loop-eq-none =
        let (u, v, us, several) =
          two_of_mem (moved b) (moved c) (preds split ret_block) (moved_in b b_in b_term)
            (moved_in c c_in c_term) moved_apart in
        rw several (
          >>=-eq-none (unique_exiting_block L (u ∷ v ∷ us) ret_block split) _ (λ q e.
            let (x_in, bare) = unique_exiting_block-open u v us ret_block split q e in
            loop-eq-none parent ret_block tc idx q.0 q.1 x_in bare (new_block s)))
