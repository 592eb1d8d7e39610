-- ===== src/LoopSplitter/Short.antt =====
-- A body without branches: the traversal leaves one part too few for the loops.
use mem_opt.Common.{
  ℕ, ◌≤◌, ◌<◌, ◌≡◌, ◌≢◌, refl, sym, ap, ◌∙◌, true, Option, none, some, List, [], ◌∷◌, ◌++◌, Memᴰ,
  >>=-eq-some, >>=-eq-none, contains, contains_of_mem, length, length-append, arith, Distinct, All,
  All-mem,
}
use mem_opt.Llvm.{Llvm, succs_of}
use mem_opt.LoopVariables.{LlvmLoop, get_loop_index_var, get_loop_trip_count}
use mem_opt.Loops.{IrLoop, front, set_successor, extract_loop_skeleton, exit_of}
use mem_opt.Loops.Fresh.{set_successor-other}
use mem_opt.LoopSplitter.{
  first_pre_header, pop_back, construct_loops, stitch_exits, divide_body, split_loop,
}
use mem_opt.LoopSplitter.Straight.{parts, LeadsTo, traverse_loop_body-straight}
use mem_opt.LoopSplitter.Parts.{
  length-parts-le, length-pop_back, length-construct_loops, assign_parts-eq-none,
}
use mem_opt.LoopSplitter.Kept.{stitch_exits-other, construct_loops-other, entry-construct_loops}

-- A chain is one by any successors that agree on it.
LeadsTo-same :
    (f g : ℕ → List ℕ) (end : ℕ) (bs : List ℕ)
    → ((b : ℕ) → Memᴰ b bs → g b ≡ f b)
    → LeadsTo f end bs
    → LeadsTo g end bs
LeadsTo-same f g end [] same line = line
LeadsTo-same f g end (b ∷ []) same line = line
LeadsTo-same f g end (b ∷ c ∷ bs) same (next, on, line) = (
  same b (Memᴰ.head refl) ∙ next,
  on,
  LeadsTo-same f g end (c ∷ bs) (λ x m. same x (Memᴰ.tail m)) line,
)

contains-last : (e : ℕ) (xs : List ℕ) → contains e (xs ++ e ∷ []) ≡ true
contains-last e xs = contains_of_mem e (xs ++ e ∷ []) (last xs)
  where
    last : (ys : List ℕ) → Memᴰ e (ys ++ e ∷ [])
    last [] = Memᴰ.head refl
    last (y ∷ ys) = Memᴰ.tail (last ys)

some_inj : {A : Type 0} {a b : A} → some a ≡ some b → b ≡ a
some_inj e = cc

module _ (L : Llvm) where
  open L use {Ir, blocks, entry, term, preds}

  header-extract :
      (l : LlvmLoop) (s : Ir) (r : IrLoop)
      → extract_loop_skeleton L l s ≡ some r
      → r.header ≡ l.loop_header
  unfolding extract_loop_skeleton
  header-extract l s r h =
      let (t, e, h') = >>=-eq-some (term s l.loop_header) _ h in
      let (x, e', h'') = >>=-eq-some (exit_of t) _ h' in
      let (i, e'', h3) = >>=-eq-some (get_loop_index_var L l s) _ h'' in
      ap (λ k. k.header) (some_inj h3)

  -- The traversal's parts are too few for the loops.
  divide_body-eq-none :
      (fuel : ℕ) (end_blocks : List ℕ) (end first : ℕ) (rest : List ℕ) (loops : List IrLoop)
      (s : Ir)
      → LeadsTo (λ b. succs_of (term s b)) end (first ∷ rest)
      → Distinct (first ∷ rest)
      → length end_blocks < length loops
      → length (first ∷ rest) ≤ fuel
      → divide_body L fuel end_blocks (some end) first loops s ≡ none
  unfolding divide_body
  divide_body-eq-none fuel end_blocks end first rest loops s line distinct few enough =
      let ends = end_blocks ++ end ∷ [] in
      rw
        (traverse_loop_body-straight (λ b. succs_of (term s b)) ends end
          (contains-last end end_blocks) fuel first rest (record { blocks = []; loop_blocks = [] })
          line enough)
        (>>=-eq-none (pop_back (parts ends [] (first ∷ rest))) _ (λ ps e.
          assign_parts-eq-none L loops ps s (
            omega (
              arith,
              length-pop_back (parts ends [] (first ∷ rest)) ps e,
              length-parts-le ends (first ∷ rest) distinct,
              length-append end_blocks (end ∷ []),
            ))))

  -- A block of the body ends as before.
  body_term :
      (n_vars tc idx : ℕ) (l : LlvmLoop) (parent : IrLoop) (s s2 s3 : Ir) (pre x b : ℕ)
      → Memᴰ (entry s) (blocks s)
      → extract_loop_skeleton L l s ≡ some parent
      → set_successor L
          (entry ((construct_loops L n_vars tc idx parent s).1))
          pre
          0
          ((construct_loops L n_vars tc idx parent s).1)
        ≡ some s2
      → stitch_exits L ((construct_loops L n_vars tc idx parent s).0) x s2 ≡ some s3
      → Memᴰ b (blocks s) × (b ≢ entry s) × (b ≢ l.loop_header)
      → term s3 b ≡ term s b
  body_term n_vars tc idx l parent s s2 s3 pre x b entry_in made entered stitched
        (m, not_entry, not_header) =
      let (same, spares) =
        construct_loops-other L n_vars tc idx parent s b m
          (λ e. not_header (sym e ∙ header-extract l s parent made)) in
      stitch_exits-other L ((construct_loops L n_vars tc idx parent s).0) x s2 s3 b stitched spares
      ∙ (set_successor-other L (entry ((construct_loops L n_vars tc idx parent s).1)) pre 0
            ((construct_loops L n_vars tc idx parent s).1) s2 b entered
            (λ e. not_entry (sym e ∙ entry-construct_loops L n_vars tc idx parent s entry_in))
          ∙ same)

  -- On a loop whose body leads without branches from the header's first successor to the latch's single
  -- predecessor, through blocks of the function that differ from each other, the entry block and the
  -- header, and with no more end blocks than annotated variables, `run` has undefined behaviour: at the
  -- latest, LoopBlocks is read past its end, since pop_back leaves fewer parts than there are loops.
  pub split_loop-eq-none :
      (fuel n_vars : ℕ) (end_blocks : List ℕ) (l : LlvmLoop) (exit : Option ℕ) (s : Ir)
      (first end latch : ℕ) (rest : List ℕ)
      → Memᴰ (entry s) (blocks s)
      → All (λ b. Memᴰ b (blocks s) × (b ≢ entry s) × (b ≢ l.loop_header)) (first ∷ rest)
      → front (succs_of (term s l.loop_header)) ≡ some first
      → l.loop_latch ≡ some latch
      → preds s latch ≡ end ∷ []
      → LeadsTo (λ b. succs_of (term s b)) end (first ∷ rest)
      → Distinct (first ∷ rest)
      → length end_blocks ≤ n_vars
      → length (first ∷ rest) ≤ fuel
      → split_loop L fuel n_vars end_blocks l exit s ≡ none
  unfolding split_loop
  split_loop-eq-none fuel n_vars end_blocks l exit s first end latch rest entry_in inside begins
        has_latch one_pred line distinct few enough =
      rw begins (
        >>=-eq-none l.loop_latch _ (λ la at_latch.
          rw (ap (λ b. preds s b) (some_inj (sym has_latch ∙ at_latch)) ∙ one_pred) (
            >>=-eq-none exit _ (λ x e. >>=-eq-none (get_loop_trip_count L l s) _ (λ tc _.
              >>=-eq-none (extract_loop_skeleton L l s) _ (λ parent made.
                >>=-eq-none (get_loop_index_var L l s) _ (λ idx _.
                  let loops = (construct_loops L n_vars tc idx parent s).0 in
                  let s1 = (construct_loops L n_vars tc idx parent s).1 in
                  >>=-eq-none (first_pre_header L.null loops) _ (λ pre has_pre.
                    >>=-eq-none (set_successor L (entry s1) pre 0 s1) _ (λ s2 entered.
                      >>=-eq-none (stitch_exits L loops x s2) _ (λ s3 stitched.
                        divide_body-eq-none fuel end_blocks end first rest loops s3
                          (LeadsTo-same (λ b. succs_of (term s b)) (λ b. succs_of (term s3 b)) end
                            (first ∷ rest)
                            (λ b m.
                              ap (λ t. succs_of t)
                                (body_term n_vars tc idx l parent s s2 s3 pre x b entry_in made
                                  entered stitched (All-mem _ (first ∷ rest) inside m)))
                            line)
                          distinct
                          (rw (length-construct_loops L n_vars tc idx parent s)
                            (omega (arith, few)))
                          enough))))))))))
