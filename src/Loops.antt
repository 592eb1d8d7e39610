-- ===== src/Loops.antt =====
-- src/ForLoop.{h,cpp} and IRLoop of src/IRLoop.{h,cpp}, with setSuccessor and addIncrementIndexOp of
-- src/Util.cpp: the loops that the program builds in a function. `none` is a failed assertion, or a
-- null pointer that is read.
pub mod Skeleton
pub mod Fresh
pub mod Found
pub mod ForLoop
pub mod EmptyLoop
mod Examples
use mem_opt.Common.{
  ℕ, Bool, true, false, Option, none, some, List, [], ◌∷◌, ◌++◌, ◌==◌, ◌>>=◌, if◌then◌else◌,
  contains, map,
}
use mem_opt.LoopVariables.{LlvmLoop, get_loop_index_var}
use mem_opt.Llvm.{
  Llvm, Value, Inst, Term, int32, load, icmp_slt, add, store, compute, br, cond_br, other_term,
  set_succ,
}

-- CreateLoad(IdxPtr), and the comparison of the index with the trip count
abbrev pub below_trip_count : ℕ → ℕ → Value
below_trip_count idx tc = icmp_slt (load idx) (load tc)

-- The instructions of addIncrementIndexOp.
abbrev pub increment : ℕ → List Inst
increment idx =
    compute (load idx)
    ∷ compute (add (load idx) (int32 1))
    ∷ store (add (load idx) (int32 1)) idx
    ∷ []

-- getNumOperands() == 3, which a conditional branch has, and so have some other terminators, such as an
-- invoke without arguments
abbrev pub is_conditional : Term → Bool
is_conditional (cond_br c t f) = true
is_conditional (other_term n ts) = n == 3
is_conditional _ = false

-- TASForLoop's members that are set; the body's are null until setLoopBody.
pub record TasForLoop : Type 0 where
  pub pre_header : ℕ
  pub header : ℕ
  pub latch : ℕ
  pub index_var : Value
  pub entry_body : Option ℕ
  pub exiting_body : Option ℕ

-- getBody
unfoldable pub get_body : TasForLoop → Option ℕ
get_body l = l.entry_body >>= λ a. l.exiting_body >>= λ b. if a == b then some a else none

-- IRLoop's members; `blocks` are those of the body.
pub record IrLoop : Type 0 where
  pub pre_header : Option ℕ
  pub header : ℕ
  pub latch : Option ℕ
  pub empty_body : Option ℕ
  pub body : List ℕ
  pub exit_block : Option ℕ
  pub idx_alloca : Option ℕ

-- The blocks of a list that is not empty: front() and back().
abbrev pub front : List ℕ → Option ℕ
front [] = none
front (b ∷ bs) = some b

abbrev pub back : List ℕ → Option ℕ
back [] = none
back (b ∷ []) = some b
back (b ∷ c ∷ bs) = back (c ∷ bs)

-- IRLoop::contains
unfoldable pub loop_contains : IrLoop → ℕ → Bool
loop_contains l b = contains b l.body

abbrev pub exit_of : Term → Option ℕ
exit_of (cond_br c t f) = some f
exit_of (other_term n (t ∷ f ∷ ts)) = some f
exit_of _ = none

module _ (L : Llvm) where
  open L use {Ir, insts, term, new_block, create_block, set_term, set_insts}

  -- instructions in front of the terminator, or at the end of a block without one
  abbrev pub append_insts : ℕ → List Inst → Ir → Ir
  append_insts b is s = set_insts b (insts s b ++ is) s

  unfoldable pub set_successor : ℕ → ℕ → ℕ → Ir → Option Ir
  set_successor b succ idx s =
      term s b >>= λ t. set_succ idx succ t >>= λ t'. some (set_term b t' s)

  -- The instruction to insert before is the terminator of `b`.
  unfoldable pub add_increment_index_op : ℕ → ℕ → Ir → Ir
  add_increment_index_op idx b s = append_insts b (increment idx) s

  -- The part of addEmptyLoop that stitches the entry point; without Prev it does nothing.
  unfoldable pub stitch_entry : Option ℕ → ℕ → Ir → Option Ir
  unfolding set_successor
  stitch_entry none pre s = some s
  stitch_entry (some p) pre s =
      term s p >>= λ t. set_successor p pre (if is_conditional t then 1 else 0) s

  unfoldable pub add_empty_loop :
      Option ℕ → Option ℕ → Option ℕ → Option ℕ → Ir → Option (TasForLoop × Ir)
  unfolding add_increment_index_op stitch_entry
  add_empty_loop prev next trip_count idx_ptr s = idx_ptr >>= λ idx. trip_count >>= λ tc.
      let pre = new_block s in
      let s1 = create_block next s in
      let header = new_block s1 in
      let s2 = create_block next s1 in
      let latch = new_block s2 in
      let s3 = create_block next s2 in
      let s4 = set_term pre (br header) (append_insts pre (store (int32 0) idx ∷ []) s3) in
      let s5 = add_increment_index_op idx latch (set_term latch (br header) s4) in
      let test = compute (load tc) ∷ compute (load idx) ∷ compute (below_trip_count idx tc) ∷ [] in
      let s6 = append_insts header test s5 in
      stitch_entry prev pre s6 >>= λ s7. next >>= λ exit. some (
        record {
          pre_header = pre;
          header = header;
          latch = latch;
          index_var = load idx;
          entry_body = none;
          exiting_body = none;
        },
        set_term header (cond_br (below_trip_count idx tc) latch exit) s7,
      )

  -- setLoopBody of two blocks, and of one.
  unfoldable pub set_loop_body : ℕ → ℕ → TasForLoop → Ir → Option (TasForLoop × Ir)
  unfolding set_successor
  set_loop_body entry exiting l s = set_successor l.header entry 0 s >>= λ s'.
      set_successor exiting l.latch 0 s' >>= λ s''.
      some (record l { entry_body = some entry; exiting_body = some exiting }, s'')

  unfoldable pub set_loop_body_block : ℕ → TasForLoop → Ir → Option (TasForLoop × Ir)
  unfolding set_loop_body
  set_loop_body_block b l s = set_loop_body b b l s

  -- extractLoopSkeleton: ExitBlock is successor 1 of the header's terminator.
  unfoldable pub extract_loop_skeleton : LlvmLoop → Ir → Option IrLoop
  extract_loop_skeleton l s = term s l.loop_header >>= λ t. exit_of t >>= λ exit.
      get_loop_index_var L l s >>= λ idx. some record {
        pre_header = l.loop_preheader;
        header = l.loop_header;
        latch = l.loop_latch;
        empty_body = none;
        body = [];
        exit_block = some exit;
        idx_alloca = some idx;
      }

  unfoldable pub analyze : LlvmLoop → Ir → Option IrLoop
  unfolding extract_loop_skeleton
  analyze l s =
      extract_loop_skeleton l s >>= λ r. some (record r { body = r.body ++ l.loop_blocks })

  unfoldable pub construct_empty_loop : ℕ → ℕ → Ir → IrLoop × Ir
  unfolding add_increment_index_op
  construct_empty_loop tc idx s =
      let latch = new_block s in
      let s1 = create_block none s in
      let header = new_block s1 in
      let s2 = create_block (some latch) s1 in
      let pre = new_block s2 in
      let s3 = create_block (some header) s2 in
      let body = new_block s3 in
      let s4 = create_block (some latch) s3 in
      let s5 = set_term pre (br header) (append_insts pre (store (int32 0) idx ∷ []) s4) in
      let s6 = add_increment_index_op idx latch (set_term latch (br header) s5) in
      let s7 = set_term body (br latch) s6 in
      let test = compute (load idx) ∷ compute (load tc) ∷ compute (below_trip_count idx tc) ∷ [] in
      (
        record {
          pre_header = some pre;
          header = header;
          latch = some latch;
          empty_body = some body;
          body = [];
          exit_block = none;
          idx_alloca = none;
        },
        set_term header (cond_br (below_trip_count idx tc) body body) (append_insts header test s7),
      )

  -- setExitBlock
  unfoldable pub set_exit_block : IrLoop → ℕ → Ir → Option Ir
  unfolding set_successor
  set_exit_block l exit s = set_successor l.header exit 1 s

  unfoldable pub set_loop_blocks : List ℕ → IrLoop → Ir → Option (IrLoop × Ir)
  unfolding set_successor
  set_loop_blocks bs l s =
      let body = l.body ++ bs in
      front body >>= λ first. set_successor l.header first 0 s >>= λ s'. l.latch >>= λ latch.
      back body >>= λ last.
      set_successor last latch 0 s' >>= λ s''. some (record l { body = body }, s'')
