-- ===== src/BlockPredication/Conditions.antt =====
-- setPathIDCondition over all blocks: what it appends to each block, and that it leaves the rest.
use mem_opt.Common.{
  ℕ, ◌≡◌, ◌≢◌, refl, sym, ap, ◌∙◌, inl, inr, true, false, Option, none, some, List, [], ◌∷◌, ◌++◌,
  Memᴰ, ==_ne, ==_self, Bool-cases, if◌then◌else◌, find, Distinct,
}
use mathlib.Core.Path.{ap₂}
use mathlib.Core.List.{append-nil}
use mathlib.Core.List.Memᴰ
use mem_opt.Llvm.{Llvm, Inst, Term, int32, store, br, cond_br, succs_of}
use mem_opt.BlockPredication.{
  append_insts, select_path, set_path_id_condition, is_block, set_path_conditions,
}

-- The id of a block that has one.
abbrev pub id_of : List (ℕ × ℕ) → ℕ → ℕ
id_of ids t = elim (find t ids) [ none ↦ 0 | some i ↦ i ]

-- What is written in front of a terminator whose targets have ids.
abbrev pub path_insts : List (ℕ × ℕ) → ℕ → Option Term → List Inst
path_insts ids mask (some (br t)) = store (int32 (id_of ids t)) mask ∷ []
path_insts ids mask (some (cond_br c t f)) = select_path c (id_of ids t) (id_of ids f) mask
path_insts ids mask other = []

abbrev pub AllMapped : List (ℕ × ℕ) → List ℕ → Type 0
AllMapped ids ts = (t : ℕ) → Memᴰ t ts → (i : ℕ) × (find t ids ≡ some i)

pub find-id_of : (ids : List (ℕ × ℕ)) (t i : ℕ) → find t ids ≡ some i → id_of ids t ≡ i
find-id_of ids t i e = rw (e, id_of)

module _ (L : Llvm) (ids : List (ℕ × ℕ)) (mask : ℕ) where
  open L use {
    Ir, blocks, entry, insts, term, rpo, set_insts, blocks-set_insts, entry-set_insts,
    term-set_insts, insts-set_insts, rpo-set_insts,
  }

  -- Only instructions differ, and those of one block by what stands at its end.
  pub record Extends (b : ℕ) (is : List Inst) (s s' : Ir) : Type 0 where
    pub term_eq : (c : ℕ) → term s' c ≡ term s c
    pub blocks_eq : blocks s' ≡ blocks s
    pub entry_eq : entry s' ≡ entry s
    pub rpo_eq : rpo s' ≡ rpo s
    pub at_block : insts s' b ≡ insts s b ++ is
    pub elsewhere : (c : ℕ) → c ≢ b → insts s' c ≡ insts s c

  append_insts-Extends : (b : ℕ) (is : List Inst) (s : Ir) → Extends b is s (append_insts L b is s)
  append_insts-Extends b is s = record {
    term_eq = λ c. term-set_insts b (insts s b ++ is) s c;
    blocks_eq = blocks-set_insts b (insts s b ++ is) s;
    entry_eq = entry-set_insts b (insts s b ++ is) s;
    rpo_eq = rpo-set_insts b (insts s b ++ is) s;
    at_block = rw (insts-set_insts b (insts s b ++ is) s b, ==_self b);
    elsewhere = λ c ne. rw (insts-set_insts b (insts s b ++ is) s c, ==_ne b c (λ e. ne (sym e)));
  }

  unchanged-Extends : (b : ℕ) (s : Ir) → Extends b [] s s
  unchanged-Extends b s = record {
    term_eq = λ c. refl;
    blocks_eq = refl;
    entry_eq = refl;
    rpo_eq = refl;
    at_block = sym (append-nil (insts s b));
    elsewhere = λ c ne. refl;
  }

  set_path_id_condition_lem :
      (b : ℕ) (t : Option Term) (s : Ir)
      → AllMapped ids (succs_of t)
      → (s' : Ir) × (set_path_id_condition L ids mask b t s ≡ some s')
        × Extends b (path_insts ids mask t) s s'
  unfolding set_path_id_condition succs_of
  set_path_id_condition_lem b (some (br t)) s h =
      let (i, e) = h t (Memᴰ.head refl) in
      (
        append_insts L b (path_insts ids mask (some (br t))) s,
        rw e (
            ap (λ k. some (append_insts L b (store (int32 k) mask ∷ []) s))
              (sym (find-id_of ids t i e))),
        append_insts-Extends b (path_insts ids mask (some (br t))) s,
      )
  set_path_id_condition_lem b (some (cond_br c t f)) s h =
      let (i, e) = h t (Memᴰ.head refl) in
      let (j, e') = h f (Memᴰ.tail (Memᴰ.head refl)) in
      (
        append_insts L b (path_insts ids mask (some (cond_br c t f))) s,
        rw (e, e')
            (ap₂ (λ k l. some (append_insts L b (select_path c k l mask) s))
              (sym (find-id_of ids t i e)) (sym (find-id_of ids f j e'))),
        append_insts-Extends b (path_insts ids mask (some (cond_br c t f))) s,
      )
  set_path_id_condition_lem b _ s h = (s, refl, unchanged-Extends b s)

  -- The function after the loop over `bs`.
  pub record Conditioned (r : Option ℕ) (bs : List ℕ) (s s' : Ir) : Type 0 where
    pub term_eq : (c : ℕ) → term s' c ≡ term s c
    pub blocks_eq : blocks s' ≡ blocks s
    pub entry_eq : entry s' ≡ entry s
    pub rpo_eq : rpo s' ≡ rpo s
    pub inside :
        (c : ℕ)
        → Memᴰ c bs
        → is_block r c ≡ false
        → insts s' c ≡ insts s c ++ path_insts ids mask (term s c)
    pub outside : (c : ℕ) → ¬ Memᴰ c bs → insts s' c ≡ insts s c
    pub at_return : (c : ℕ) → is_block r c ≡ true → insts s' c ≡ insts s c

  -- What one round does, the test on the return block included.
  record Round (r : Option ℕ) (b : ℕ) (s s' : Ir) : Type 0 where
    term_eq : (c : ℕ) → term s' c ≡ term s c
    blocks_eq : blocks s' ≡ blocks s
    entry_eq : entry s' ≡ entry s
    rpo_eq : rpo s' ≡ rpo s
    at_block : is_block r b ≡ false → insts s' b ≡ insts s b ++ path_insts ids mask (term s b)
    at_return : (c : ℕ) → is_block r c ≡ true → insts s' c ≡ insts s c
    elsewhere : (c : ℕ) → c ≢ b → insts s' c ≡ insts s c

  round_lem :
      (r : Option ℕ) (b : ℕ) (s : Ir)
      → AllMapped ids (succs_of (term s b))
      → (s' : Ir) × ((if is_block r b
            then some s
            else set_path_id_condition L ids mask b (term s b) s)
          ≡ some s')
        × Round r b s s'
  round_lem r b s h = elim (Bool-cases (is_block r b)) [
    | inl e ↦ (
      s,
      rw e,
      record {
        term_eq = λ c. refl;
        blocks_eq = refl;
        entry_eq = refl;
        rpo_eq = refl;
        at_block = λ e'. absurd (true_ne_false (sym e ∙ e'));
        at_return = λ c _. refl;
        elsewhere = λ c _. refl;
      },
    )
    | inr e ↦
        let (s', eq, x) = set_path_id_condition_lem b (term s b) s h in
        (
          s',
          rw e eq,
          record {
            term_eq = x.term_eq;
            blocks_eq = x.blocks_eq;
            entry_eq = x.entry_eq;
            rpo_eq = x.rpo_eq;
            at_block = λ _. x.at_block;
            at_return = λ c e'. x.elsewhere c (λ same. true_ne_false (sym e' ∙ rw same e));
            elsewhere = x.elsewhere;
          },
        )
  ]
    where
      true_ne_false : true ≡ false → ⊥
      true_ne_false z = cc

  Conditioned-cons :
      (r : Option ℕ) (b : ℕ) (bs : List ℕ) (s s1 s' : Ir)
      → ¬ Memᴰ b bs
      → Round r b s s1
      → Conditioned r bs s1 s'
      → Conditioned r (b ∷ bs) s s'
  Conditioned-cons r b bs s s1 s' new x y = record {
    term_eq = λ c. y.term_eq c ∙ x.term_eq c;
    blocks_eq = y.blocks_eq ∙ x.blocks_eq;
    entry_eq = y.entry_eq ∙ x.entry_eq;
    rpo_eq = y.rpo_eq ∙ x.rpo_eq;
    inside = λ c m ne. elim (Memᴰ.cases_cons m) [
      | inl e ↦ rw e (y.outside b new ∙ x.at_block (rw e at ne))
      | inr m' ↦ y.inside c m' ne ∙ rw (x.term_eq c, x.elsewhere c (λ e. new (rw e at m'))) refl
    ];
    outside =
        λ c out. y.outside c (λ m. out (Memᴰ.tail m)) ∙ x.elsewhere c (λ e. out (Memᴰ.head e));
    at_return = λ c e. y.at_return c e ∙ x.at_return c e;
  }

  -- With ids for all targets the loop returns.
  pub set_path_conditions_lem :
      (r : Option ℕ) (bs : List ℕ) (s : Ir)
      → Distinct bs
      → ((b : ℕ) → Memᴰ b bs → AllMapped ids (succs_of (term s b)))
      → (s' : Ir) × (set_path_conditions L ids mask r bs s ≡ some s') × Conditioned r bs s s'
  unfolding set_path_conditions
  set_path_conditions_lem r [] s d h = (
    s,
    refl,
    record {
      term_eq = λ c. refl;
      blocks_eq = refl;
      entry_eq = refl;
      rpo_eq = refl;
      inside = λ c m ne. absurd (Memᴰ.not-nil m);
      outside = λ c out. refl;
      at_return = λ c e. refl;
    },
  )
  set_path_conditions_lem r (b ∷ bs) s d h =
      let (s1, e1, x) = round_lem r b s (h b (Memᴰ.head refl)) in
      let (s', e2, y) =
        set_path_conditions_lem r bs s1 d.1 (λ c m. rw (x.term_eq c) (h c (Memᴰ.tail m))) in
      (s', rw e1 e2, Conditioned-cons r b bs s s1 s' d.0 x y)
