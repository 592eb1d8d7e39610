-- ===== src/BatchLoop/Markers.antt =====
-- findBatchBeginMarkerInstruction over a function that has a marker.
use mem_opt.Common.{
  ℕ, ◌≡◌, ◌≢◌, Bool, ◌⊎◌, refl, sym, ap, ◌∙◌, subst, inl, inr, true, false, Option, none, some,
  List, [], ◌∷◌, Memᴰ, ◌>>=◌, if◌then◌else◌, map,
}
use mathlib.Core.List.Memᴰ
use mem_opt.Text.{codes}
use mem_opt.Llvm.{Llvm, Inst}
use mem_opt.Annotations.{
  CallInst, Instruction, call, store, other, has_tag, map_suc, find_batch_begin_marker_instruction,
}
use mem_opt.Loops.Fresh.{some_inj}
use mem_opt.BatchLoop.{find_marker_in, marker_of}

-- The call that marks where the batch begins.
abbrev pub IsMarker : ℕ → Instruction → Type 0
IsMarker id i = (c : CallInst) × (i ≡ call c) × (has_tag id (codes "batch_begin") c ≡ some true)

suc_found : (o : Option (Option ℕ)) → o ≢ some none → (o >>= λ o. some (map_suc o)) ≢ some none
suc_found none h e = cc
suc_found (some none) h e = h refl
suc_found (some (some i)) h e = cc

first_or_later :
    (o : Option Bool) (rest : Option (Option ℕ))
    → (o ≡ some true) ⊎ (rest ≢ some none)
    → (o >>= λ hit. if hit then some (some 0) else rest) ≢ some none
first_or_later none rest h e = cc
first_or_later (some true) rest h e = cc
first_or_later (some false) rest (inl h) e = cc
first_or_later (some false) rest (inr h) e = h e

-- A list with a marker has one that is found, or a null callee in front.
instruction_found :
    (id : ℕ) (is : List Instruction) (i : Instruction)
    → Memᴰ i is
    → IsMarker id i
    → find_batch_begin_marker_instruction id is ≢ some none
unfolding find_batch_begin_marker_instruction
instruction_found id [] i m h = absurd (Memᴰ.not-nil m)
instruction_found id (call c ∷ is) i m (d, is_call, tag) =
    first_or_later (has_tag id (codes "batch_begin") c)
      (find_batch_begin_marker_instruction id is >>= λ o. some (map_suc o))
      (elim (Memᴰ.cases_cons m) [
        | inl z ↦
            inl
              (ap (λ c. has_tag id (codes "batch_begin") c) (call_inj c d (sym z ∙ is_call)) ∙ tag)
        | inr later ↦ inr (
            suc_found (find_batch_begin_marker_instruction id is)
              (instruction_found id is i later (d, is_call, tag)))
      ])
  where
    call_inj : (c d : CallInst) → call c ≡ call d → c ≡ d
    call_inj c d e = cc
instruction_found id (store v p ∷ is) i m (d, is_call, tag) =
    suc_found (find_batch_begin_marker_instruction id is) (elim (Memᴰ.cases_cons m) [
      | inl z ↦ cc
      | inr later ↦ instruction_found id is i later (d, is_call, tag)
    ])
instruction_found id (other ∷ is) i m (d, is_call, tag) =
    suc_found (find_batch_begin_marker_instruction id is) (elim (Memᴰ.cases_cons m) [
      | inl z ↦ cc
      | inr later ↦ instruction_found id is i later (d, is_call, tag)
    ])

mem-map_read :
    (read : Inst → Instruction) (i : Inst) (is : List Inst)
    → Memᴰ i is
    → Memᴰ (read i) (map read is)
mem-map_read read i [] m = absurd (Memᴰ.not-nil m)
mem-map_read read i (x ∷ is) m = elim (Memᴰ.cases_cons m) [
  | inl z ↦ Memᴰ.head (ap read z)
  | inr later ↦ Memᴰ.tail (mem-map_read read i is later)
]

module _ (L : Llvm) (read : Inst → Instruction) (id : ℕ) where
  open L use {Ir, blocks, entry, term, insts, new_block, create_block, set_term, set_insts}

  -- A call in a block of the function marks where the batch begins.
  abbrev pub HasMarker : Ir → Type 0
  HasMarker s = (b : ℕ) × Memᴰ b (blocks s) × (i : Inst) × Memᴰ i (insts s b) × IsMarker id (read i)

  block_or_later :
      (b : ℕ) (o : Option (Option ℕ)) (rest : Option (Option (ℕ × ℕ)))
      → (o ≢ some none) ⊎ (rest ≢ some none)
      → (o >>= λ o. elim o [ none ↦ rest | some i ↦ some (some (b, i)) ]) ≢ some none
  block_or_later b none rest h e = cc
  block_or_later b (some none) rest (inl h) e = h refl
  block_or_later b (some none) rest (inr h) e = h e
  block_or_later b (some (some i)) rest h e = cc

  find_marker_in-found :
      (bs : List ℕ) (s : Ir) (b : ℕ) (i : Inst)
      → Memᴰ b bs
      → Memᴰ i (insts s b)
      → IsMarker id (read i)
      → find_marker_in L read id bs s ≢ some none
  unfolding find_marker_in
  find_marker_in-found [] s b i m at h = absurd (Memᴰ.not-nil m)
  find_marker_in-found (c ∷ bs) s b i m at h =
      block_or_later c (find_batch_begin_marker_instruction id (map read (insts s c)))
        (find_marker_in L read id bs s)
        (elim (Memᴰ.cases_cons m) [
          | inl z ↦ inl (
              instruction_found id (map read (insts s c)) (read i)
                (mem-map_read read i (insts s c) (subst (λ y. Memᴰ i (insts s y)) z at)) h)
          | inr later ↦ inr (find_marker_in-found bs s b i later at h)
        ])

  pub marker_of-found : (s : Ir) → HasMarker s → marker_of L read id s ≢ some none
  marker_of-found s (b, m, i, at, h) = find_marker_in-found (blocks s) s b i m at h

  in_block_or_later :
      (P : ℕ × ℕ → Type 0) (b : ℕ) (o : Option (Option ℕ)) (rest : Option (Option (ℕ × ℕ)))
      (at : ℕ × ℕ)
      → (o >>= λ o. elim o [ none ↦ rest | some i ↦ some (some (b, i)) ]) ≡ some (some at)
      → ((i : ℕ) → P (b, i))
      → (rest ≡ some (some at) → P at)
      → P at
  in_block_or_later P b none rest at e here later = cc
  in_block_or_later P b (some none) rest at e here later = later e
  in_block_or_later P b (some (some i)) rest at e here later =
      subst P (some_inj at (b, i) (some_inj (some (b, i)) (some at) e)) (here i)

  find_marker_in-mem :
      (bs : List ℕ) (s : Ir) (at : ℕ × ℕ)
      → find_marker_in L read id bs s ≡ some (some at)
      → Memᴰ at.0 bs
  unfolding find_marker_in
  find_marker_in-mem [] s at e = cc
  find_marker_in-mem (c ∷ bs) s at e =
      in_block_or_later (λ at. Memᴰ at.0 (c ∷ bs)) c
        (find_batch_begin_marker_instruction id (map read (insts s c)))
        (find_marker_in L read id bs s) at e (λ i. Memᴰ.head refl)
        (λ later. Memᴰ.tail (find_marker_in-mem bs s at later))

  -- The marker that is found is in a block of the function.
  pub marker_of-mem :
      (s : Ir) (at : ℕ × ℕ) → marker_of L read id s ≡ some (some at) → Memᴰ at.0 (blocks s)
  marker_of-mem s at e = find_marker_in-mem (blocks s) s at e
