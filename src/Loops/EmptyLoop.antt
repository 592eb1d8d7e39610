-- ===== src/Loops/EmptyLoop.antt =====
-- The loop that IRLoop builds empty, with an exit and a body set, and that it runs the body.
use mem_opt.Common.{
  ℕ, ◌^◌, ◌<◌, ◌≡◌, ◌≢◌, refl, sym, ◌∙◌, none, some, List, [], ◌∷◌, Memᴰ, ==_ne, ==_self, ◌>>=◌,
}
use mem_opt.Llvm.{Llvm, Term, int32, load, store, compute, br, cond_br, set_succ}
use mem_opt.Llvm.Steps.{Slots, Steps}
use mem_opt.Loops.{
  IrLoop, below_trip_count, increment, append_insts, set_successor, add_increment_index_op, front,
  back, construct_empty_loop, set_exit_block, set_loop_blocks,
}
use mem_opt.Loops.Skeleton.{IsLoop, IsBody, rounds, loop_rounds}
use mem_opt.Loops.Fresh.{kept, created, new-ne}

some_inj : {a b : ℕ} → some a ≡ some b → a ≡ b
some_inj e = cc

module _ (L : Llvm) (s : L.Ir) (tc idx : ℕ) where
  open L use {Ir, blocks, term, insts, new_block, create_block, set_term, set_insts}

  abbrev pub latch : ℕ
  latch = new_block s

  abbrev pub s1 : Ir
  s1 = create_block none s

  abbrev pub header : ℕ
  header = new_block s1

  abbrev pub s2 : Ir
  s2 = create_block (some latch) s1

  abbrev pub pre : ℕ
  pre = new_block s2

  abbrev pub s3 : Ir
  s3 = create_block (some header) s2

  abbrev pub hollow : ℕ
  hollow = new_block s3

  abbrev pub s4 : Ir
  s4 = create_block (some latch) s3

  latch-ne : (b : ℕ) → Memᴰ b (blocks s) → latch ≢ b
  latch-ne b m = new-ne L s b m

  pub header-ne : (b : ℕ) → Memᴰ b (blocks s) → header ≢ b
  header-ne b m = new-ne L s1 b (kept L none s b m)

  in_s2 : (b : ℕ) → Memᴰ b (blocks s) → Memᴰ b (blocks s2)
  in_s2 b m = kept L (some latch) s1 b (kept L none s b m)

  in_s3 : (b : ℕ) → Memᴰ b (blocks s) → Memᴰ b (blocks s3)
  in_s3 b m = kept L (some header) s2 b (in_s2 b m)

  pre-ne : (b : ℕ) → Memᴰ b (blocks s) → pre ≢ b
  pre-ne b m = new-ne L s2 b (in_s2 b m)

  hollow-ne : (b : ℕ) → Memᴰ b (blocks s) → hollow ≢ b
  hollow-ne b m = new-ne L s3 b (in_s3 b m)

  header-ne-latch : header ≢ latch
  header-ne-latch = new-ne L s1 latch (created L none s)

  pre-ne-latch : pre ≢ latch
  pre-ne-latch = new-ne L s2 latch (kept L (some latch) s1 latch (created L none s))

  pre-ne-header : pre ≢ header
  pre-ne-header = new-ne L s2 header (created L (some latch) s1)

  hollow-ne-latch : hollow ≢ latch
  hollow-ne-latch =
      new-ne L s3 latch
        (kept L (some header) s2 latch (kept L (some latch) s1 latch (created L none s)))

  hollow-ne-header : hollow ≢ header
  hollow-ne-header = new-ne L s3 header (kept L (some header) s2 header (created L (some latch) s1))

  hollow-ne-pre : hollow ≢ pre
  hollow-ne-pre = new-ne L s3 pre (created L (some header) s2)

  entry-not :
      (new : ℕ)
      → ((b : ℕ) → Memᴰ b (blocks s) → new ≢ b)
      → (r : Ir) → some new ≡ some (L.entry r)
      → Memᴰ (L.entry s) (blocks s)
      → ¬ (L.entry r ≡ L.entry s)
  entry-not new ne r e m same = ne (L.entry s) m (some_inj e ∙ same)

  entry-s1 : L.entry s1 ≡ L.entry s
  entry-s1 = L.entry-create_block none s (λ e. cc)

  entry-s2 : Memᴰ (L.entry s) (blocks s) → L.entry s2 ≡ L.entry s
  entry-s2 m =
      L.entry-create_block (some latch) s1 (λ e. entry-not latch latch-ne s1 e m (entry-s1))
      ∙ entry-s1

  entry-s3 : Memᴰ (L.entry s) (blocks s) → L.entry s3 ≡ L.entry s
  entry-s3 m =
      L.entry-create_block (some header) s2 (λ e. entry-not header header-ne s2 e m (entry-s2 m))
      ∙ entry-s2 m

  -- What construct_empty_loop leaves.
  abbrev pub s8 : Ir
  s8 = set_term header (cond_br (below_trip_count idx tc) hollow hollow) (
      append_insts L header
        (compute (load idx) ∷ compute (load tc) ∷ compute (below_trip_count idx tc) ∷ [])
        (set_term hollow (br latch) (
          append_insts L latch (increment idx) (
            set_term latch (br header)
              (set_term pre (br header) (append_insts L pre (store (int32 0) idx ∷ []) s4))))))

  abbrev pub empty_loop : IrLoop
  empty_loop = record {
    pre_header = some pre;
    header = header;
    latch = some latch;
    empty_body = some hollow;
    body = [];
    exit_block = none;
    idx_alloca = none;
  }

  pub construct_empty_loop_lem : construct_empty_loop L tc idx s ≡ (empty_loop, s8)
  unfolding construct_empty_loop add_increment_index_op
  construct_empty_loop_lem = refl

  -- The old blocks and their terminators stay.
  pub term-s8_old : (c : ℕ) → Memᴰ c (blocks s) → term s8 c ≡ term s c
  term-s8_old c m = simp (
    L.term-set_term,
    L.term-set_insts,
    L.term-create_block,
    ==_ne pre c (pre-ne c m),
    ==_ne header c (header-ne c m),
    ==_ne latch c (latch-ne c m),
    ==_ne hollow c (hollow-ne c m),
  )

  pub in_s8 : (c : ℕ) → Memᴰ c (blocks s) → Memᴰ c (blocks s8)
  in_s8 c m =
      rw
        (
          L.blocks-set_term, L.blocks-set_insts, L.blocks-set_term, L.blocks-set_insts,
          L.blocks-set_term, L.blocks-set_term, L.blocks-set_insts,
        )
        (kept L (some latch) s3 c (in_s3 c m))

  pub entry-s8 : Memᴰ (L.entry s) (blocks s) → L.entry s8 ≡ L.entry s
  entry-s8 m =
      simp (L.entry-set_term, L.entry-set_insts)
        (L.entry-create_block (some latch) s3 (λ e. entry-not latch latch-ne s3 e m (entry-s3 m))
          ∙ entry-s3 m)

  -- The loop with an exit and a body: `bs` from `first` to `last`.
  module _ (exit first last : ℕ) (te te' : Term) (last_old : Memᴰ last (blocks s)) where
    abbrev pub s9 : Ir
    s9 = set_term header (cond_br (below_trip_count idx tc) hollow exit) s8

    abbrev pub s10 : Ir
    s10 = set_term header (cond_br (below_trip_count idx tc) first exit) s9

    abbrev pub s11 : Ir
    s11 = set_term last te' s10

    term-s11-pre : term s11 pre ≡ some (br header)
    term-s11-pre = simp (
      L.term-set_term,
      L.term-set_insts,
      ==_self,
      ==_ne last pre (λ e. pre-ne last last_old (sym e)),
      ==_ne header pre (λ e. pre-ne-header (sym e)),
      ==_ne hollow pre hollow-ne-pre,
      ==_ne latch pre (λ e. pre-ne-latch (sym e)),
    )

    term-s11_header : term s11 header ≡ some (cond_br (below_trip_count idx tc) first exit)
    term-s11_header =
        simp (L.term-set_term, ==_self, ==_ne last header (λ e. header-ne last last_old (sym e)))

    term-s11_latch : term s11 latch ≡ some (br header)
    term-s11_latch = simp (
      L.term-set_term,
      L.term-set_insts,
      ==_self,
      ==_ne last latch (λ e. latch-ne last last_old (sym e)),
      ==_ne header latch header-ne-latch,
      ==_ne hollow latch hollow-ne-latch,
    )

    insts-s11-pre : insts s11 pre ≡ store (int32 0) idx ∷ []
    insts-s11-pre = simp (
      L.insts-set_term,
      L.insts-set_insts,
      L.insts-create_block,
      ==_self,
      ==_ne header pre (λ e. pre-ne-header (sym e)),
      ==_ne hollow pre hollow-ne-pre,
      ==_ne latch pre (λ e. pre-ne-latch (sym e)),
    )

    insts-s11_header :
        insts s11 header
        ≡ compute (load idx) ∷ compute (load tc) ∷ compute (below_trip_count idx tc) ∷ []
    insts-s11_header = simp (
      L.insts-set_term,
      L.insts-set_insts,
      L.insts-create_block,
      ==_self,
      ==_ne latch header (λ e. header-ne-latch (sym e)),
      ==_ne pre header pre-ne-header,
      ==_ne hollow header hollow-ne-header,
    )

    insts-s11_latch : insts s11 latch ≡ increment idx
    insts-s11_latch = simp (
      L.insts-set_term,
      L.insts-set_insts,
      L.insts-create_block,
      ==_self,
      ==_ne header latch header-ne-latch,
      ==_ne pre latch pre-ne-latch,
      ==_ne hollow latch hollow-ne-latch,
    )

    pub built-IsLoop : IsLoop L s11 pre header latch first exit idx tc
    built-IsLoop = record {
      pre_insts = insts-s11-pre;
      pre_term = term-s11-pre;
      header_insts = λ env m. rw insts-s11_header refl;
      header_term = term-s11_header;
      latch_insts = insts-s11_latch;
      latch_term = term-s11_latch;
    }

    term-s10-last : term s10 last ≡ term s last
    term-s10-last = simp (
      L.term-set_term,
      L.term-set_insts,
      L.term-create_block,
      ==_ne pre last (pre-ne last last_old),
      ==_ne header last (header-ne last last_old),
      ==_ne latch last (latch-ne last last_old),
      ==_ne hollow last (hollow-ne last last_old),
    )

    term-s8_header : term s8 header ≡ some (cond_br (below_trip_count idx tc) hollow hollow)
    term-s8_header = simp (L.term-set_term, ==_self)

    term-s9_header : term s9 header ≡ some (cond_br (below_trip_count idx tc) hollow exit)
    term-s9_header = simp (L.term-set_term, ==_self)

    set_exit_block_lem : set_exit_block L empty_loop exit s8 ≡ some s9
    unfolding set_exit_block set_successor set_succ
    set_exit_block_lem = rw (term-s8_header, ◌>>=◌) refl

    set_loop_blocks_lem :
        (bs : List ℕ)
        → front bs ≡ some first
        → back bs ≡ some last
        → term s last ≡ some te
        → set_succ 0 latch te ≡ some te'
        → set_loop_blocks L bs empty_loop s9 ≡ some (record empty_loop { body = bs }, s11)
    unfolding set_loop_blocks set_successor set_succ
    set_loop_blocks_lem bs f b t closed =
        rw (f, term-s9_header, set_succ, ◌>>=◌) (rw (b, term-s10-last ∙ t, closed) refl)

    -- constructEmptyLoop, then setExitBlock and setLoopBlocks with the blocks of a body whose last
    -- terminator has a successor to replace, all succeed, and from its preheader the loop runs the body
    -- for each index from 0 to n - 1, in this order, and goes on to the exit, where n, the trip count,
    -- is below 2^31 and the body leaves it and the index.
    pub set_loop_blocks-rounds :
        (bs : List ℕ) (n : ℕ) (body : Slots → Slots) (m : Slots)
        → idx ≢ tc
        → front bs ≡ some first
        → back bs ≡ some last
        → term s last ≡ some te
        → set_succ 0 latch te ≡ some te'
        → n < 2 ^ 31
        → m tc ≡ n
        → IsBody L s11 latch first idx tc n body
        → ((set_exit_block L
                (construct_empty_loop L tc idx s).0
                exit
                (construct_empty_loop L tc idx s).1
              >>= set_loop_blocks L bs (construct_empty_loop L tc idx s).0)
            ≡ some (record empty_loop { body = bs }, s11))
          × Steps L s11 exit (rounds idx body n 0 m) pre m
    set_loop_blocks-rounds bs n body m differ f b t closed small count is_body = (
      rw (construct_empty_loop_lem, set_exit_block_lem) (set_loop_blocks_lem bs f b t closed),
      loop_rounds L s11 pre header latch first exit idx tc n body built-IsLoop differ m small count
          is_body,
    )
