-- ===== src/BatchLoop/Kept.antt =====
-- What changes a function and leaves no block that returns a value, if there was none.
use mem_opt.Common.{
  ℕ, zero, suc, ◌≡◌, refl, sym, subst, inl, inr, false, Option, none, some, List, [], ◌∷◌, ◌++◌,
  Memᴰ, ◌==◌, ==_iff, >>=-eq-some, if◌then◌else◌, Bool-cases,
}
use mem_opt.Llvm.{
  Llvm, Value, Inst, Term, ret, br, cond_br, other_term, is_return, set_succ, unreachable,
}
use mem_opt.ExitNodes.{branch_all}
use mem_opt.Loops.{
  TasForLoop, append_insts, is_conditional, set_successor, stitch_entry, add_increment_index_op,
  add_empty_loop, set_loop_body,
}
use mem_opt.Loops.Fresh.{some_inj}
use mem_opt.BatchLoop.{redirect_all, unique_exiting_block, add_batch_loop}
use mem_opt.BatchLoop.Stored.{IsVoid, IsVoid-br}

other_term_returns :
    (n : ℕ) (o : Option (List ℕ))
    → is_return (elim o [ none ↦ none | some us ↦ some (other_term n us) ]) ≡ false
unfolding is_return
other_term_returns n none = refl
other_term_returns n (some us) = refl

is_return-set_succ : (i b : ℕ) (t : Term) → is_return (set_succ i b t) ≡ false
unfolding set_succ is_return
is_return-set_succ zero b (ret v) = refl
is_return-set_succ (suc zero) b (ret v) = refl
is_return-set_succ (suc (suc i)) b (ret v) = refl
is_return-set_succ zero b (br t) = refl
is_return-set_succ (suc zero) b (br t) = refl
is_return-set_succ (suc (suc i)) b (br t) = refl
is_return-set_succ zero b (cond_br c t f) = refl
is_return-set_succ (suc zero) b (cond_br c t f) = refl
is_return-set_succ (suc (suc i)) b (cond_br c t f) = refl
is_return-set_succ zero b unreachable = refl
is_return-set_succ (suc zero) b unreachable = refl
is_return-set_succ (suc (suc i)) b unreachable = refl
is_return-set_succ zero b (other_term n ts) = other_term_returns n _
is_return-set_succ (suc zero) b (other_term n ts) = other_term_returns n _
is_return-set_succ (suc (suc i)) b (other_term n ts) = other_term_returns n _

IsVoid-set_succ : (i b : ℕ) (t t' : Term) → set_succ i b t ≡ some t' → IsVoid (some t')
IsVoid-set_succ i b t t' e h = cc (is_return-set_succ i b t, e, h)

module _ (L : Llvm) where
  open L use {
    Ir, blocks, entry, term, insts, preds, new_block, create_block, split_block, set_term,
    set_insts,
  }

  -- No block returns a value.
  abbrev pub AllVoid : Ir → Type 0
  AllVoid s = (x : ℕ) → Memᴰ x (blocks s) → IsVoid (term s x)

  pub AllVoid-set_insts : (b : ℕ) (l : List Inst) (s : Ir) → AllVoid s → AllVoid (set_insts b l s)
  AllVoid-set_insts b l s h x m =
      subst IsVoid (sym (L.term-set_insts b l s x)) (h x (rw (L.blocks-set_insts) at m))

  AllVoid-set_term :
      (b : ℕ) (t : Term) (s : Ir) → IsVoid (some t) → AllVoid s → AllVoid (set_term b t s)
  AllVoid-set_term b t s ht h x m =
      subst IsVoid (sym (L.term-set_term b t s x)) (elim (Bool-cases (b == x)) [
        | inl here ↦ rw here ht
        | inr other ↦ rw other (h x (rw (L.blocks-set_term) at m))
      ])

  pub AllVoid-create_block : (p : Option ℕ) (s : Ir) → AllVoid s → AllVoid (create_block p s)
  unfolding is_return
  AllVoid-create_block p s h x m =
      subst IsVoid (sym (L.term-create_block p s x)) (elim (Bool-cases (new_block s == x)) [
        | inl new ↦ rw new (λ r. cc)
        | inr old ↦ rw old (elim ((L.blocks-create_block p s x).0 m) [
          | inl e ↦ cc (old, (==_iff (new_block s) x).1 (sym e))
          | inr m' ↦ h x m'
        ])
      ])

  pub AllVoid-split_block :
      (b i : ℕ) (s : Ir) → Memᴰ b (blocks s) → AllVoid s → AllVoid (split_block b i s)
  AllVoid-split_block b i s b_in h x m =
      subst IsVoid (sym (L.term-split_block b i s x)) (elim (Bool-cases (new_block s == x)) [
        | inl new ↦ rw new (h b b_in)
        | inr old ↦ rw old (elim (Bool-cases (b == x)) [
          | inl here ↦ rw here (IsVoid-br (new_block s))
          | inr other ↦ rw other (elim ((L.blocks-split_block b i s x).0 m) [
            | inl e ↦ cc (old, (==_iff (new_block s) x).1 (sym e))
            | inr m' ↦ h x m'
          ])
        ])
      ])

  pub AllVoid-branch_all :
      (target : ℕ) (bs : List ℕ) (s : Ir) → AllVoid s → AllVoid (branch_all L target bs s)
  unfolding branch_all
  AllVoid-branch_all target [] s h = h
  AllVoid-branch_all target (b ∷ bs) s h =
      AllVoid-branch_all target bs (set_term b (br target) s)
        (AllVoid-set_term b (br target) s (IsVoid-br target) h)

  AllVoid-set_successor :
      (b succ i : ℕ) (s r : Ir) → set_successor L b succ i s ≡ some r → AllVoid s → AllVoid r
  unfolding set_successor
  AllVoid-set_successor b succ i s r e h =
      let (t, _, e1) = >>=-eq-some (term s b) _ e in
      let (t', changed, e2) = >>=-eq-some (set_succ i succ t) _ e1 in
      subst AllVoid (sym (some_inj (set_term b t' s) r e2))
        (AllVoid-set_term b t' s (IsVoid-set_succ i succ t t' changed) h)

  AllVoid-redirect_all :
      (target : ℕ) (bs : List ℕ) (s r : Ir)
      → redirect_all L target bs s ≡ some r
      → AllVoid s
      → AllVoid r
  unfolding redirect_all
  AllVoid-redirect_all target [] s r e h = subst AllVoid (sym (some_inj s r e)) h
  AllVoid-redirect_all target (b ∷ bs) s r e h =
      let (s1, e1, e2) = >>=-eq-some (set_successor L b target 0 s) _ e in
      AllVoid-redirect_all target bs s1 r e2 (AllVoid-set_successor b target 0 s s1 e1 h)

  AllVoid-unique_exiting_block :
      (bs : List ℕ) (ret_block : ℕ) (s : Ir) (q : ℕ × Ir)
      → unique_exiting_block L bs ret_block s ≡ some q
      → AllVoid s
      → AllVoid q.1
  unfolding unique_exiting_block
  AllVoid-unique_exiting_block [] ret_block s q e h = cc
  AllVoid-unique_exiting_block (b ∷ []) ret_block s q e h =
      subst (λ q. AllVoid q.1) (sym (some_inj (b, s) q e)) h
  AllVoid-unique_exiting_block (b ∷ c ∷ bs) ret_block s q e h =
      let s1 = create_block (some ret_block) s in
      let (r, e1, e2) = >>=-eq-some (redirect_all L (new_block s) (b ∷ c ∷ bs) s1) _ e in
      subst (λ q. AllVoid q.1) (sym (some_inj (new_block s, r) q e2))
        (AllVoid-redirect_all (new_block s) (b ∷ c ∷ bs) s1 r e1
          (AllVoid-create_block (some ret_block) s h))

  AllVoid-stitch_entry :
      (prev : Option ℕ) (pre : ℕ) (s r : Ir)
      → stitch_entry L prev pre s ≡ some r
      → AllVoid s
      → AllVoid r
  unfolding stitch_entry
  AllVoid-stitch_entry none pre s r e h = subst AllVoid (sym (some_inj s r e)) h
  AllVoid-stitch_entry (some p) pre s r e h =
      let (t, _, e1) = >>=-eq-some (term s p) _ e in
      AllVoid-set_successor p pre (if is_conditional t then 1 else 0) s r e1 h

  -- The increment at the end of a block.
  AllVoid-append_insts :
      (b : ℕ) (l : List Inst) (s : Ir) → AllVoid s → AllVoid (append_insts L b l s)
  AllVoid-append_insts b l s h = AllVoid-set_insts b (insts s b ++ l) s h

  IsVoid-cond_br : (c : Value) (t f : ℕ) → IsVoid (some (cond_br c t f))
  unfolding is_return
  IsVoid-cond_br c t f h = cc

  AllVoid-add_empty_loop :
      (prev next : Option ℕ) (tc idx : ℕ) (s : Ir) (q : TasForLoop × Ir)
      → add_empty_loop L prev next (some tc) (some idx) s ≡ some q
      → AllVoid s
      → AllVoid q.1
  unfolding add_empty_loop add_increment_index_op
  AllVoid-add_empty_loop prev next tc idx s q e h =
      let (s7, e1, e2) = >>=-eq-some (stitch_entry L prev (new_block s) _) _ e in
      let (exit, _, e3) = >>=-eq-some next _ e2 in
      subst (λ q. AllVoid q.1) (sym (some_inj _ q e3))
        (AllVoid-set_term _ _ s7 (IsVoid-cond_br _ _ exit) (
          AllVoid-stitch_entry prev (new_block s) _ s7 e1 (
            AllVoid-append_insts _ _ _ (
              AllVoid-append_insts _ _ _ (
                AllVoid-set_term _ _ _ (IsVoid-br _) (
                  AllVoid-set_term _ _ _ (IsVoid-br _) (
                    AllVoid-append_insts _ _ _ (
                      AllVoid-create_block next _
                        (AllVoid-create_block next _ (AllVoid-create_block next s h))))))))))

  AllVoid-set_loop_body :
      (a b : ℕ) (l : TasForLoop) (s : Ir) (q : TasForLoop × Ir)
      → set_loop_body L a b l s ≡ some q
      → AllVoid s
      → AllVoid q.1
  unfolding set_loop_body
  AllVoid-set_loop_body a b l s q e h =
      let (s1, e1, e2) = >>=-eq-some (set_successor L l.header a 0 s) _ e in
      let (s2, e3, e4) = >>=-eq-some (set_successor L b l.latch 0 s1) _ e2 in
      subst (λ q. AllVoid q.1) (sym (some_inj _ q e4))
        (AllVoid-set_successor b l.latch 0 s1 s2 e3 (AllVoid-set_successor l.header a 0 s s1 e1 h))

  pub AllVoid-add_batch_loop :
      (marker : Option (ℕ × ℕ)) (tc ret_block idx : ℕ) (s : Ir) (q : Option TasForLoop × Ir)
      → add_batch_loop L marker tc ret_block idx s ≡ some q
      → ((at : ℕ × ℕ) → marker ≡ some at → Memᴰ at.0 (blocks s))
      → AllVoid s
      → AllVoid q.1
  unfolding add_batch_loop
  AllVoid-add_batch_loop none tc ret_block idx s q e found h =
      subst (λ q. AllVoid q.1) (sym (some_inj (none, s) q e)) h
  AllVoid-add_batch_loop (some (parent, i)) tc ret_block idx s q e found h =
      let s1 = split_block parent (suc i) s in
      let ((exiting, s2), e1, e2) =
        >>=-eq-some (unique_exiting_block L (preds s1 ret_block) ret_block s1) _ e in
      let ((l, s3), e3, e4) =
        >>=-eq-some (add_empty_loop L (some parent) (some ret_block) (some tc) (some idx) s2) _
          e2 in
      let ((l', s4), e5, e6) = >>=-eq-some (set_loop_body L (new_block s) exiting l s3) _ e4 in
      subst (λ q. AllVoid q.1) (sym (some_inj (some l', s4) q e6))
        (AllVoid-set_loop_body (new_block s) exiting l s3 (l', s4) e5
          (AllVoid-add_empty_loop (some parent) (some ret_block) tc idx s2 (l, s3) e3
            (AllVoid-unique_exiting_block (preds s1 ret_block) ret_block s1 (exiting, s2) e1
              (AllVoid-split_block parent (suc i) s (found (parent, i) refl) h))))
