-- ===== src/Loops/ForLoop.antt =====
-- The loop that TASForLoop builds, and that it runs its body.
use mem_opt.Common.{
  ℕ, ◌^◌, ◌<◌, ◌≤◌, ◌≡◌, ◌≢◌, refl, sym, ◌∙◌, false, Option, none, some, [], ◌∷◌, Memᴰ, ◌==◌, ==_ne,
  ==_self, ◌>>=◌, if◌then◌else◌,
}
use mem_opt.Llvm.{Llvm, Term, int32, load, store, compute, br, cond_br, set_succ}
use mem_opt.Llvm.Steps.{Slots, Steps, write}
use mem_opt.Loops.{
  TasForLoop, below_trip_count, increment, is_conditional, append_insts, set_successor,
  add_increment_index_op, stitch_entry, add_empty_loop, set_loop_body,
}
use mem_opt.Loops.Skeleton.{IsLoop, IsBody, rounds, loop_rounds, loop_negative}
use mem_opt.LoopVariables.{LlvmLoop, get_loop_index_var, get_loop_trip_count}
use mem_opt.Loops.Found.{found}
use mem_opt.Loops.Fresh.{kept, created, new-ne}

module _ (L : Llvm) (s : L.Ir) (p exit entry exiting tc idx : ℕ) (t t' te te' : Term)
    (p_old : Memᴰ p (L.blocks s)) (exiting_old : Memᴰ exiting (L.blocks s)) (apart : p ≢ exiting)
    (p_term : L.term s p ≡ some t) (exiting_term : L.term s exiting ≡ some te) where
  open L use {Ir, blocks, term, insts, new_block, create_block, set_term, set_insts}

  abbrev pub s1 : Ir
  s1 = create_block (some exit) s

  abbrev pub s2 : Ir
  s2 = create_block (some exit) s1

  abbrev pub s3 : Ir
  s3 = create_block (some exit) s2

  abbrev pub pre : ℕ
  pre = new_block s

  abbrev pub header : ℕ
  header = new_block s1

  abbrev pub latch : ℕ
  latch = new_block s2

  pre-ne : (b : ℕ) → Memᴰ b (blocks s) → pre ≢ b
  pre-ne b m = new-ne L s b m

  header-ne : (b : ℕ) → Memᴰ b (blocks s) → header ≢ b
  header-ne b m = new-ne L s1 b (kept L (some exit) s b m)

  latch-ne : (b : ℕ) → Memᴰ b (blocks s) → latch ≢ b
  latch-ne b m = new-ne L s2 b (kept L (some exit) s1 b (kept L (some exit) s b m))

  header-ne-pre : header ≢ pre
  header-ne-pre = new-ne L s1 pre (created L (some exit) s)

  latch-ne-header : latch ≢ header
  latch-ne-header = new-ne L s2 header (created L (some exit) s1)

  latch-ne-pre : latch ≢ pre
  latch-ne-pre = new-ne L s2 pre (kept L (some exit) s1 pre (created L (some exit) s))

  -- The function when the loop is built, before the entry point is stitched.
  abbrev pub s6 : Ir
  s6 =
      append_insts L header
        (compute (load tc) ∷ compute (load idx) ∷ compute (below_trip_count idx tc) ∷ [])
        (append_insts L latch (increment idx) (
          set_term latch (br header)
            (set_term pre (br header) (append_insts L pre (store (int32 0) idx ∷ []) s3))))

  abbrev pub s7 : Ir
  s7 = set_term p t' s6

  abbrev pub s8 : Ir
  s8 = set_term header (cond_br (below_trip_count idx tc) latch exit) s7

  abbrev pub s9 : Ir
  s9 = set_term header (cond_br (below_trip_count idx tc) entry exit) s8

  abbrev pub s10 : Ir
  s10 = set_term exiting te' s9

  -- The names of the blocks as tests.
  abbrev apart_by : (a b : ℕ) → a ≢ b → ((a == b) ≡ false) × ((b == a) ≡ false)
  apart_by a b h = (==_ne a b h, ==_ne b a (λ e. h (sym e)))

  term-s6_old : (c : ℕ) → Memᴰ c (blocks s) → term s6 c ≡ term s c
  term-s6_old c m = simp (
    L.term-set_term,
    L.term-set_insts,
    L.term-create_block,
    ==_ne pre c (pre-ne c m),
    ==_ne header c (header-ne c m),
    ==_ne latch c (latch-ne c m),
  )

  add_empty_loop_lem :
      set_succ (if is_conditional t then 1 else 0) pre t ≡ some t'
      → add_empty_loop L (some p) (some exit) (some tc) (some idx) s
        ≡ some (
          record {
            pre_header = pre;
            header = header;
            latch = latch;
            index_var = load idx;
            entry_body = none;
            exiting_body = none;
          },
          s8,
        )
  unfolding add_empty_loop stitch_entry set_successor add_increment_index_op
  add_empty_loop_lem stitched = rw (term-s6_old p p_old ∙ p_term, stitched) refl

  term-s10-pre : term s10 pre ≡ some (br header)
  term-s10-pre = simp (
    L.term-set_term,
    L.term-set_insts,
    ==_self,
    ==_ne exiting pre (λ e. pre-ne exiting exiting_old (sym e)),
    ==_ne header pre header-ne-pre,
    ==_ne latch pre latch-ne-pre,
    ==_ne p pre (λ e. pre-ne p p_old (sym e)),
  )

  term-s10_header : term s10 header ≡ some (cond_br (below_trip_count idx tc) entry exit)
  term-s10_header =
      simp (
        L.term-set_term,
        ==_self,
        ==_ne exiting header (λ e. header-ne exiting exiting_old (sym e)),
      )

  term-s10_latch : term s10 latch ≡ some (br header)
  term-s10_latch = simp (
    L.term-set_term,
    L.term-set_insts,
    ==_self,
    ==_ne exiting latch (λ e. latch-ne exiting exiting_old (sym e)),
    ==_ne header latch (λ e. latch-ne-header (sym e)),
    ==_ne p latch (λ e. latch-ne p p_old (sym e)),
  )

  insts-s10-pre : insts s10 pre ≡ store (int32 0) idx ∷ []
  insts-s10-pre = simp (
    L.insts-set_term,
    L.insts-set_insts,
    L.insts-create_block,
    ==_self,
    ==_ne header pre header-ne-pre,
    ==_ne latch pre latch-ne-pre,
  )

  insts-s10_latch : insts s10 latch ≡ increment idx
  insts-s10_latch = simp (
    L.insts-set_term,
    L.insts-set_insts,
    L.insts-create_block,
    ==_self,
    ==_ne header latch (λ e. latch-ne-header (sym e)),
    ==_ne pre latch (λ e. latch-ne-pre (sym e)),
  )

  insts-s10_header :
      insts s10 header
      ≡ compute (load tc) ∷ compute (load idx) ∷ compute (below_trip_count idx tc) ∷ []
  insts-s10_header = simp (
    L.insts-set_term,
    L.insts-set_insts,
    L.insts-create_block,
    ==_self,
    ==_ne latch header latch-ne-header,
    ==_ne pre header (λ e. header-ne-pre (sym e)),
  )

  built-IsLoop : IsLoop L s10 pre header latch entry exit idx tc
  built-IsLoop = record {
    pre_insts = insts-s10-pre;
    pre_term = term-s10-pre;
    header_insts = λ env m. rw insts-s10_header refl;
    header_term = term-s10_header;
    latch_insts = insts-s10_latch;
    latch_term = term-s10_latch;
  }

  term-s9_exiting : term s9 exiting ≡ some te
  term-s9_exiting =
      simp
        (
          L.term-set_term,
          L.term-set_insts,
          L.term-create_block,
          ==_ne pre exiting (pre-ne exiting exiting_old),
          ==_ne header exiting (header-ne exiting exiting_old),
          ==_ne latch exiting (latch-ne exiting exiting_old),
          ==_ne p exiting apart,
        )
        exiting_term

  term-s8_header : term s8 header ≡ some (cond_br (below_trip_count idx tc) latch exit)
  term-s8_header = simp (L.term-set_term, ==_self)

  term-s10_old : (c : ℕ) → Memᴰ c (blocks s) → c ≢ p → c ≢ exiting → term s10 c ≡ term s c
  term-s10_old c m not_p not_exiting = simp (
    L.term-set_term,
    L.term-set_insts,
    L.term-create_block,
    ==_ne pre c (pre-ne c m),
    ==_ne header c (header-ne c m),
    ==_ne latch c (latch-ne c m),
    ==_ne p c (λ e. not_p (sym e)),
    ==_ne exiting c (λ e. not_exiting (sym e)),
  )

  insts-s10_old : (c : ℕ) → Memᴰ c (blocks s) → insts s10 c ≡ insts s c
  insts-s10_old c m = simp (
    L.insts-set_term,
    L.insts-set_insts,
    L.insts-create_block,
    ==_ne pre c (pre-ne c m),
    ==_ne header c (header-ne c m),
    ==_ne latch c (latch-ne c m),
  )

  -- The constructor of TASForLoop and setLoopBody.
  abbrev pub build_loop : Option (TasForLoop × Ir)
  build_loop = add_empty_loop L (some p) (some exit) (some tc) (some idx) s >>= λ (l, s').
      set_loop_body L entry exiting l s'

  abbrev pub built_loop : TasForLoop
  built_loop = record {
    pre_header = pre;
    header = header;
    latch = latch;
    index_var = load idx;
    entry_body = some entry;
    exiting_body = some exiting;
  }

  build_loop_lem :
      set_succ (if is_conditional t then 1 else 0) pre t ≡ some t'
      → set_succ 0 latch te ≡ some te'
      → build_loop ≡ some (built_loop, s10)
  unfolding set_loop_body set_successor set_succ
  build_loop_lem stitched closed =
      rw (add_empty_loop_lem stitched) (
        rw (term-s8_header, set_succ, ◌>>=◌)
          (rw (term-s9_exiting, ◌>>=◌) (rw (closed, ◌>>=◌) refl)))

  -- Where the terminators of the block in front and of the last block of the body have the successor
  -- that is replaced, TASForLoop and its setLoopBody succeed, the block in front leads to the
  -- preheader, the other old blocks keep their code, and from the preheader the function runs the body
  -- for each index from 0 to n - 1, in this order, and goes on to the exit, where n, the trip count, is
  -- below 2^31 and the body leaves it and the index.
  pub build_loop-rounds :
      (n : ℕ) (body : Slots → Slots) (m : Slots)
      → idx ≢ tc
      → set_succ (if is_conditional t then 1 else 0) pre t ≡ some t'
      → set_succ 0 latch te ≡ some te'
      → n < 2 ^ 31
      → m tc ≡ n
      → IsBody L s10 latch entry idx tc n body
      → (build_loop ≡ some (built_loop, s10))
        × (term s10 p ≡ some t')
        × ((c : ℕ) → Memᴰ c (blocks s) → c ≢ p → c ≢ exiting → term s10 c ≡ term s c)
        × ((c : ℕ) → Memᴰ c (blocks s) → insts s10 c ≡ insts s c)
        × Steps L s10 exit (rounds idx body n 0 m) pre m
  build_loop-rounds n body m differ stitched closed small count is_body = (
    build_loop_lem stitched closed,
    simp (
      L.term-set_term,
      L.term-set_insts,
      ==_self,
      ==_ne exiting p (λ e. apart (sym e)),
      ==_ne header p (header-ne p p_old),
    ),
    term-s10_old,
    insts-s10_old,
    loop_rounds L s10 pre header latch entry exit idx tc n body built-IsLoop differ m small count
        is_body,
  )

  -- A loop that is built in the same way goes on to the exit without a round if its trip count, from
  -- 2^31 on and below 2^32, is negative as an i32.
  pub build_loop-negative :
      (m : Slots)
      → idx ≢ tc
      → set_succ (if is_conditional t then 1 else 0) pre t ≡ some t'
      → set_succ 0 latch te ≡ some te'
      → 2 ^ 31 ≤ m tc
      → m tc < 2 ^ 32
      → (build_loop ≡ some (built_loop, s10)) × Steps L s10 exit (write idx 0 m) pre m
  build_loop-negative m differ stitched closed lo hi = (
    build_loop_lem stitched closed,
    loop_negative L s10 pre header latch entry exit idx tc built-IsLoop differ m lo hi,
  )

  -- In the function that TASForLoop and setLoopBody leave, getLoopIndexVar and getLoopTripCount give back
  -- the index and the trip count that the loop was built with, for an LLVM loop that has the header
  -- and the latch of the built one.
  pub build_loop-found :
      (l : LlvmLoop)
      → set_succ (if is_conditional t then 1 else 0) pre t ≡ some t'
      → set_succ 0 latch te ≡ some te'
      → l.loop_header ≡ header
      → l.loop_latch ≡ some latch
      → (build_loop ≡ some (built_loop, s10))
        × (get_loop_index_var L l s10 ≡ some idx)
        × (get_loop_trip_count L l s10 ≡ some tc)
  build_loop-found l stitched closed at_header at_latch =
      let (index, count) =
        found L s10 pre header latch entry exit idx tc l built-IsLoop at_header at_latch in
      (build_loop_lem stitched closed, index, count)
