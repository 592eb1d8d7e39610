-- ===== src/Loops/Skeleton.antt =====
-- What a loop with a preheader, a header and a latch does, wherever it comes from.
use mem_opt.Common.{
  ℕ, zero, suc, ◌+◌, ◌%◌, ◌^◌, ◌≤◌, ◌<◌, ◌≡◌, ◌≢◌, refl, sym, ap, ◌∙◌, subst, true, false, some, [],
  ◌∷◌, ==_self, ==_ne, ltb, arith,
}
use mem_opt.Llvm.{Llvm, Value, int32, store, br, cond_br}
use mem_opt.Llvm.Machine.{exec, as_signed}
use mem_opt.Llvm.Steps.{Slots, write, Steps, stays, jumps, takes, falls, Steps-trans}
use mem_opt.Loops.{below_trip_count, increment}

-- `for (i = start; i < start + k; i++) body`, with i in its slot.
abbrev pub rounds : ℕ → (Slots → Slots) → ℕ → ℕ → Slots → Slots
rounds idx body zero i m = write idx i m
rounds idx body (suc k) i m = rounds idx body k (suc i) (body (write idx i m))

-- The four parts of a loop in a function, and what leads to its exit.
pub record IsLoop (L : Llvm) (s : L.Ir) (pre header latch entry exit idx tc : ℕ) : Type 0 where
  pub pre_insts : L.insts s pre ≡ store (int32 0) idx ∷ []
  pub pre_term : L.term s pre ≡ some (br header)
  pub header_insts : (env : Value → ℕ) (m : Slots) → exec env (L.insts s header) m ≡ m
  pub header_term : L.term s header ≡ some (cond_br (below_trip_count idx tc) entry exit)
  pub latch_insts : L.insts s latch ≡ increment idx
  pub latch_term : L.term s latch ≡ some (br header)

-- The body, from its first block to the latch, has the effect `body` on the slots while the index is
-- below n, and leaves the index and the trip count.
abbrev pub IsBody : (L : Llvm) → L.Ir → ℕ → ℕ → ℕ → ℕ → ℕ → (Slots → Slots) → Type 0
IsBody L s latch entry idx tc n body =
    (m : Slots)
    → m tc ≡ n
    → m idx < n
    → Steps L s latch (body m) entry m × (body m idx ≡ m idx) × (body m tc ≡ n)

signed_lt : (i n : ℕ) → i < n → n < 2 ^ 31 → ltb (as_signed i) (as_signed n) ≡ true
signed_lt i n h b = ground arith

signed_self : (n : ℕ) → ltb (as_signed n) (as_signed n) ≡ false
signed_self n = ground arith

write_same : (idx v : ℕ) (m : Slots) → write idx v m idx ≡ v
write_same idx v m = rw (==_self idx) refl

write_other : (idx tc v : ℕ) (m : Slots) → idx ≢ tc → write idx v m tc ≡ m tc
write_other idx tc v m h = rw (==_ne idx tc h) refl

module _ (L : Llvm) (s : L.Ir) (pre header latch entry exit idx tc n : ℕ) (body : Slots → Slots)
    (loop : IsLoop L s pre header latch entry exit idx tc) (apart : idx ≢ tc) where
  -- The header leads to the body while the index is below the trip count, and else to the exit.
  header_enters :
      {c : ℕ} {m' : Slots} (m : Slots)
      → ltb (as_signed (m idx)) (as_signed (m tc)) ≡ true
      → Steps L s c m' entry m
      → Steps L s c m' header m
  header_enters {c} {m'} m h p =
      let env : Value → ℕ = λ v. 0 in
      takes env (below_trip_count idx tc) entry exit loop.header_term
        (rw (loop.header_insts env m, h) refl)
        (subst (λ x. Steps L s c m' entry x) (sym (loop.header_insts env m)) p)

  header_leaves :
      {c : ℕ} {m' : Slots} (m : Slots)
      → ltb (as_signed (m idx)) (as_signed (m tc)) ≡ false
      → Steps L s c m' exit m
      → Steps L s c m' header m
  header_leaves {c} {m'} m h p =
      let env : Value → ℕ = λ v. 0 in
      falls env (below_trip_count idx tc) entry exit loop.header_term
        (rw (loop.header_insts env m, h) refl)
        (subst (λ x. Steps L s c m' exit x) (sym (loop.header_insts env m)) p)

  -- The latch counts up.
  latch_counts :
      {c : ℕ} {m' : Slots} (m : Slots) (i : ℕ)
      → m idx ≡ i
      → i < 2 ^ 31
      → Steps L s c m' header (write idx (suc i) m)
      → Steps L s c m' latch m
  latch_counts {c} {m'} m i e h p =
      let env : Value → ℕ = λ v. 0 in
      jumps env header loop.latch_term
        (subst (λ x. Steps L s c m' header x) (sym (latch_effect env m i e h)) p)
    where
      next_index : (m i : ℕ) → m ≡ i → i < 2 ^ 31 → (m + 1) % 2 ^ 32 ≡ suc i
      next_index m i e h = omega arith

      latch_effect :
          (env : Value → ℕ) (m : Slots) (i : ℕ)
          → m idx ≡ i
          → i < 2 ^ 31
          → exec env (L.insts s latch) m ≡ write idx (suc i) m
      latch_effect env m i e h =
          rw loop.latch_insts (ap (λ v. write idx v m) (next_index (m idx) i e h))

  -- From the header with index i, k rounds before the trip count.
  header_rounds :
      (k i : ℕ) (m : Slots)
      → i + k ≡ n
      → n < 2 ^ 31
      → m tc ≡ n
      → IsBody L s latch entry idx tc n body
      → Steps L s exit (rounds idx body k i m) header (write idx i m)
  header_rounds zero i m e b t is_body =
      header_leaves (write idx i m)
        (rw (write_same idx i m, write_other idx tc i m apart, t) (ground arith)) (stays refl refl)
  header_rounds (suc k) i m e b t is_body =
      let at_i = write idx i m in
      let (run, same_idx, same_tc) =
        is_body at_i (write_other idx tc i m apart ∙ t) (rw (write_same idx i m) (omega arith)) in
      header_enters at_i
        (rw (write_same idx i m, write_other idx tc i m apart, t) (signed_lt i n (omega arith) b))
        (Steps-trans L s run (
          latch_counts (body at_i) i (same_idx ∙ write_same idx i m) (omega arith)
            (header_rounds k (suc i) (body at_i) (omega arith) b same_tc is_body)))

  -- A loop with a trip count n below 2^31 runs its body for each index from 0 to n - 1, in this order,
  -- and goes on to its exit.
  pub loop_rounds :
      (m : Slots)
      → n < 2 ^ 31
      → m tc ≡ n
      → IsBody L s latch entry idx tc n body
      → Steps L s exit (rounds idx body n 0 m) pre m
  loop_rounds m b t is_body =
      let env : Value → ℕ = λ v. 0 in
      jumps env header loop.pre_term (
        subst (λ x. Steps L s exit (rounds idx body n 0 m) header x)
          (sym (rw (loop.pre_insts) refl)) (header_rounds n 0 m (omega arith) b t is_body))

module _ (L : Llvm) (s : L.Ir) (pre header latch entry exit idx tc : ℕ)
    (loop : IsLoop L s pre header latch entry exit idx tc) (apart : idx ≢ tc) where
  -- A trip count that is negative as an i32 is no round.
  pub loop_negative :
      (m : Slots) → 2 ^ 31 ≤ m tc → m tc < 2 ^ 32 → Steps L s exit (write idx 0 m) pre m
  loop_negative m lo hi =
      let env : Value → ℕ = λ v. 0 in
      jumps env header loop.pre_term (
        subst (λ x. Steps L s exit (write idx 0 m) header x) (sym (rw (loop.pre_insts) refl))
          (header_leaves L s pre header latch entry exit idx tc 0 (λ x. x) loop apart
            (write idx 0 m) (rw (write_same idx 0 m, write_other idx tc 0 m apart) (ground arith))
            (stays refl refl)))
