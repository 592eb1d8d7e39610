-- ===== src/Clones/LoopBlocks.antt =====
-- The clones of a loop's blocks, and the edge into them.
use mem_opt.Common.{
  ℕ, ◌≡◌, refl, sym, ap, ◌∙◌, subst, inl, inr, some, List, [], ◌∷◌, Memᴰ, find, insert, ==_ne,
  ==_self, All, Distinct, map,
}
use mathlib.Core.List.Memᴰ
use mem_opt.Llvm.{Llvm, Value, cond_br, set_succ, succs_of}
use mem_opt.Loops.{set_successor}
use mem_opt.Clones.{ValueMap, Cloning, mapped, clone_blocks, clone_loop_basic_blocks}

-- The relation holds between the items of two lists, in order.
abbrev pub Each : (ℕ → ℕ → Type 0) → List ℕ → List ℕ → Type 0
Each P [] [] = Unit
Each P (b ∷ bs) (c ∷ cs) = P b c × Each P bs cs
Each P _ _ = ⊥

Each-map :
    {P Q : ℕ → ℕ → Type 0} (bs cs : List ℕ)
    → ((b c : ℕ) → Memᴰ b bs → Memᴰ c cs → P b c → Q b c)
    → Each P bs cs
    → Each Q bs cs
Each-map [] [] f h = tt
Each-map [] (c ∷ cs) f h = absurd h
Each-map (b ∷ bs) [] f h = absurd h
Each-map (b ∷ bs) (c ∷ cs) f (h, hs) = (
  f b c (Memᴰ.head refl) (Memᴰ.head refl) h,
  Each-map bs cs (λ x y i j. f x y (Memᴰ.tail i) (Memᴰ.tail j)) hs,
)

mem_of_All : (P : ℕ → Type 0) (xs : List ℕ) → All P xs → (x : ℕ) → Memᴰ x xs → P x
mem_of_All P [] h x m = absurd (Memᴰ.not-nil m)
mem_of_All P (y ∷ xs) (h, hs) x m = elim (Memᴰ.cases_cons m) [
  | inl z ↦ subst P (sym z) h
  | inr later ↦ mem_of_All P xs hs x later
]

module _ (L : Llvm) (C : Cloning L) where
  open L use {Ir, blocks, term, set_term}
  open C use {clone_basic_block, insert_into, remap_instructions}

  -- A block, and its clone in front of the remapping.
  abbrev IsCopy : ValueMap → Ir → Ir → ℕ → ℕ → Type 0
  IsCopy m' s s' b c =
      (find b m' ≡ some c) × (¬ Memᴰ c (blocks s)) × Memᴰ c (blocks s') × (term s' c ≡ term s b)

  -- What the loop leaves: the clones in the order of the blocks, the keys and the blocks of before as
  -- they were.
  abbrev Cloned : List ℕ → ValueMap → Ir → List ℕ → ValueMap → Ir → Type 0
  Cloned bs m s cs m' s' =
      Each (IsCopy m' s s') bs cs
      × Distinct cs
      × ((x : ℕ) → Memᴰ x (blocks s) → ¬ Memᴰ x bs → find x m' ≡ find x m)
      × ((x : ℕ) → Memᴰ x (blocks s) → ¬ Memᴰ x cs)
      × ((x : ℕ) → Memᴰ x (blocks s) → Memᴰ x (blocks s'))
      × ((x : ℕ) → Memᴰ x (blocks s) → term s' x ≡ term s x)

  module _ (e b : ℕ) (m : ValueMap) (s : Ir) where
    abbrev cloned : ℕ
    cloned = (clone_basic_block b m s).0

    abbrev with_clone : Ir
    with_clone = insert_into cloned e (clone_basic_block b m s).2

    clone_in : Memᴰ cloned (blocks with_clone)
    clone_in = (C.blocks-insert_into cloned e (clone_basic_block b m s).2 cloned).1 (inl refl)

    kept : (x : ℕ) → Memᴰ x (blocks s) → Memᴰ x (blocks with_clone)
    kept x h =
        (C.blocks-insert_into cloned e (clone_basic_block b m s).2 x).1
          (inr (rw (C.blocks-clone_basic_block) h))

    term_kept : (x : ℕ) → Memᴰ x (blocks s) → term with_clone x ≡ term s x
    term_kept x h =
        C.term-insert_into cloned e (clone_basic_block b m s).2 x
        ∙ C.term-clone_basic_block b m s x h

    term_cloned : term with_clone cloned ≡ term s b
    term_cloned =
        C.term-insert_into cloned e (clone_basic_block b m s).2 cloned ∙ C.term_of_clone b m s

    all_kept :
        (l : List ℕ) → All (λ x. Memᴰ x (blocks s)) l → All (λ x. Memᴰ x (blocks with_clone)) l
    all_kept [] h = tt
    all_kept (x ∷ l) (h, hs) = (kept x h, all_kept l hs)

    -- One more clone.
    cloned_more :
        (bs cs : List ℕ) (m' : ValueMap) (s' : Ir)
        → Memᴰ b (blocks s)
        → ¬ Memᴰ b bs
        → All (λ x. Memᴰ x (blocks s)) bs
        → Cloned bs (insert b cloned (clone_basic_block b m s).1) with_clone cs m' s'
        → Cloned (b ∷ bs) m s (cloned ∷ cs) m' s'
    cloned_more bs cs m' s' b_in off inside (copies, apart, others, new, blocks_kept, terms) = (
      (
        (
          others b (kept b b_in) off ∙ rw (==_self b) refl,
          C.clone_new b m s,
          blocks_kept cloned clone_in,
          terms cloned clone_in ∙ term_cloned,
        ),
        Each-map bs cs
            (λ x c at _ (found, is_new, there, same). (
              found,
              (λ k. is_new (kept c k)),
              there,
              same ∙ term_kept x (mem_of_All (λ x. Memᴰ x (blocks s)) bs inside x at),
            ))
            copies,
      ),
      (new cloned clone_in, apart),
      (λ x h k.
          others x (kept x h) (λ t. k (Memᴰ.tail t))
          ∙ rw (==_ne b x (λ z. k (Memᴰ.head (sym z)))) (C.find-clone_basic_block b m s x h)),
      (λ x h k. elim (Memᴰ.cases_cons k) [
        | inl z ↦ C.clone_new b m s (subst (λ y. Memᴰ y (blocks s)) z h)
        | inr t ↦ new x (kept x h) t
      ]),
      (λ x h. blocks_kept x (kept x h)),
      (λ x h. terms x (kept x h) ∙ term_kept x h),
    )

  clone_blocks_lem :
      (e : ℕ) (bs : List ℕ) (m : ValueMap) (s : Ir)
      → All (λ b. Memᴰ b (blocks s)) bs
      → Distinct bs
      → (cs : List ℕ) × (m' : ValueMap) × (s' : Ir) × (clone_blocks L C (some e) bs m s
          ≡ some (cs, m', s'))
        × Cloned bs m s cs m' s'
  unfolding clone_blocks
  clone_blocks_lem e [] m s inside apart = (
    [],
    m,
    s,
    refl,
    (tt, tt, (λ x h k. refl), (λ x h k. Memᴰ.not-nil k), (λ x h. h), (λ x h. refl)),
  )
  clone_blocks_lem e (b ∷ bs) m s (b_in, inside) (off, apart) =
      let c = cloned e b m s in
      let (cs, m2, s2, ran, more) =
        clone_blocks_lem e bs (insert b c (clone_basic_block b m s).1) (with_clone e b m s)
          (all_kept e b m s bs inside) apart in
      (c ∷ cs, m2, s2, rw ran refl, cloned_more e b m s bs cs m2 s2 b_in off inside more)

  -- A block of the loop, and its clone: it is mapped to the clone, a new block of the function, which
  -- leads where the block did, by the map.
  abbrev pub IsClone : ValueMap → Ir → Ir → ℕ → ℕ → Type 0
  IsClone m' s r b c =
      (find b m' ≡ some c)
      × (¬ Memᴰ c (blocks s))
      × Memᴰ c (blocks r)
      × (succs_of (term r c) ≡ map (mapped m') (succs_of (term s b)))

  -- The edge into the clones.
  linked :
      (first : ℕ) (bs : List ℕ) (e x : ℕ) (m : ValueMap) (s : Ir) (cond : Value) (t f : ℕ)
      (cs : List ℕ) (m' : ValueMap) (s' : Ir)
      → Memᴰ x (blocks s)
      → term s x ≡ some (cond_br cond t f)
      → clone_blocks L C (some e) (first ∷ bs) m s ≡ some (cs, m', s')
      → Cloned (first ∷ bs) m s cs m' s'
      → (c : ℕ) × (cs : List ℕ) × (m' : ValueMap) × (r : Ir) × (clone_loop_basic_blocks L C
            (first ∷ bs)
            (some e)
            (some x)
            m
            s
          ≡ some (m', r))
        × Each (IsClone m' s r) (first ∷ bs) (c ∷ cs)
        × Distinct (c ∷ cs)
        × (term r x ≡ some (cond_br cond t c))
  unfolding clone_loop_basic_blocks set_successor set_succ
  linked first bs e x m s cond t f [] m' s' x_in branches ran (copies, _, _, _, _, _) =
      absurd copies
  linked first bs e x m s cond t f (c ∷ cs) m' s' x_in branches ran
        (copies, apart, others, new, blocks_kept, terms) =
      let s2 = remap_instructions (c ∷ cs) m' s' in
      let r = set_term x (cond_br cond t c) s2 in
      (
        c,
        cs,
        m',
        r,
        rw ran (
            rw (C.term-remap_instructions (c ∷ cs) m' s' x (new x x_in), terms x x_in, branches)
              refl),
        Each-map (first ∷ bs) (c ∷ cs)
            (λ b d _ at (found, is_new, there, same). (
              found,
              is_new,
              rw (L.blocks-set_term x (cond_br cond t c) s2, C.blocks-remap_instructions) there,
              ap succs_of (
                    L.term-set_term x (cond_br cond t c) s2 d
                    ∙ rw (==_ne x d (λ z. is_new (rw z at x_in))) refl)
                  ∙ C.succs-remap_instructions (c ∷ cs) m' s' d at
                  ∙ ap (λ o. map (mapped m') (succs_of o)) same,
            ))
            copies,
        apart,
        L.term-set_term x (cond_br cond t c) s2 x ∙ rw (==_self x) refl,
      )

  -- A loop with an exit block and one exiting block, which ends in a conditional branch, is copied:
  -- each of its blocks, which are different, is mapped to a clone; the clones are different from each
  -- other and from the blocks of the function before, and are blocks of the function now; the
  -- successors of a clone are, in order, those of its block, each replaced by what the map has for it,
  -- such as the clone of a block of the loop; and the edge of the exiting block to its second successor
  -- goes to the clone of the loop's first block.
  pub clone_loop_basic_blocks-entered :
      (first : ℕ) (bs : List ℕ) (e x : ℕ) (m : ValueMap) (s : Ir) (cond : Value) (t f : ℕ)
      → All (λ b. Memᴰ b (blocks s)) (first ∷ bs)
      → Distinct (first ∷ bs)
      → Memᴰ x (blocks s)
      → term s x ≡ some (cond_br cond t f)
      → (c : ℕ) × (cs : List ℕ) × (m' : ValueMap) × (r : Ir) × (clone_loop_basic_blocks L C
            (first ∷ bs)
            (some e)
            (some x)
            m
            s
          ≡ some (m', r))
        × Each (IsClone m' s r) (first ∷ bs) (c ∷ cs)
        × Distinct (c ∷ cs)
        × (term r x ≡ some (cond_br cond t c))
  clone_loop_basic_blocks-entered first bs e x m s cond t f inside apart x_in branches =
      let (cs, m', s', ran, made) = clone_blocks_lem e (first ∷ bs) m s inside apart in
      linked first bs e x m s cond t f cs m' s' x_in branches ran made
