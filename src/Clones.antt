-- ===== src/Clones.antt =====
-- src/Util.cpp, cloneLoopBasicBlocks and cloneBasicBlocksInto: copies of the blocks of a loop and of a
-- function. `none` is a failed assertion, or an iterator that is read past its end. A value map is
-- an association list.
pub mod LoopBlocks
mod Examples
use mem_opt.Common.{
  ℕ, ◌≡◌, ◌↔◌, ◌⊎◌, Option, none, some, List, [], ◌∷◌, Memᴰ, find, insert, ◌>>=◌, map,
}
use mem_opt.Llvm.{Llvm, succs_of}
use mem_opt.Loops.{front, set_successor}

abbrev pub ValueMap : Type 0
ValueMap = List (ℕ × ℕ)

-- A block that the map has is replaced; another stays, RF_IgnoreMissingLocals.
abbrev pub mapped : ValueMap → ℕ → ℕ
mapped m b = elim (find b m) [ none ↦ b | some c ↦ c ]

module _ (L : Llvm) where
  open L use {Ir, blocks, term}

  -- CloneBasicBlock, which maps the instructions of the block, insertInto, and
  -- remapInstructionsInBlocks.
  pub record Cloning : Type 0 where
    pub clone_basic_block : ℕ → ValueMap → Ir → ℕ × ValueMap × Ir
    pub insert_into : (clone before : ℕ) → Ir → Ir
    pub remap_instructions : List ℕ → ValueMap → Ir → Ir
    pub clone_new :
        (b : ℕ) (m : ValueMap) (s : Ir) → ¬ Memᴰ ((clone_basic_block b m s).0) (blocks s)
    pub blocks-clone_basic_block :
        (b : ℕ) (m : ValueMap) (s : Ir) → blocks ((clone_basic_block b m s).2) ≡ blocks s
    pub term-clone_basic_block :
        (b : ℕ) (m : ValueMap) (s : Ir) (x : ℕ)
        → Memᴰ x (blocks s)
        → term ((clone_basic_block b m s).2) x ≡ term s x
    -- The clone has the terminator of its block until it is remapped.
    pub term_of_clone :
        (b : ℕ) (m : ValueMap) (s : Ir)
        → term ((clone_basic_block b m s).2) ((clone_basic_block b m s).0) ≡ term s b
    pub find-clone_basic_block :
        (b : ℕ) (m : ValueMap) (s : Ir) (x : ℕ)
        → Memᴰ x (blocks s)
        → find x ((clone_basic_block b m s).1) ≡ find x m
    pub blocks-insert_into :
        (c p : ℕ) (s : Ir) (x : ℕ)
        → Memᴰ x (blocks (insert_into c p s)) ↔ ((x ≡ c) ⊎ Memᴰ x (blocks s))
    pub term-insert_into : (c p : ℕ) (s : Ir) (x : ℕ) → term (insert_into c p s) x ≡ term s x
    pub term-remap_instructions :
        (cs : List ℕ) (m : ValueMap) (s : Ir) (x : ℕ)
        → ¬ Memᴰ x cs
        → term (remap_instructions cs m s) x ≡ term s x
    pub succs-remap_instructions :
        (cs : List ℕ) (m : ValueMap) (s : Ir) (x : ℕ)
        → Memᴰ x cs
        → succs_of (term (remap_instructions cs m s) x) ≡ map (mapped m) (succs_of (term s x))
    pub blocks-remap_instructions :
        (cs : List ℕ) (m : ValueMap) (s : Ir) → blocks (remap_instructions cs m s) ≡ blocks s

  module _ (C : Cloning) where
    open C use {clone_basic_block, insert_into, remap_instructions}

    -- The loop over the blocks; ClonedBlocks and VMap.
    unfoldable pub clone_blocks :
        Option ℕ → List ℕ → ValueMap → Ir → Option (List ℕ × ValueMap × Ir)
    clone_blocks exit [] m s = some ([], m, s)
    clone_blocks exit (b ∷ bs) m s =
        let (c, m1, s1) = clone_basic_block b m s in
        exit >>= λ e. clone_blocks exit bs (insert b c m1) (insert_into c e s1) >>= λ (cs, m2, s2).
        some (c ∷ cs, m2, s2)

    -- The loop by its blocks, getExitBlock and getExitingBlock, which are null unless there is one.
    unfoldable pub clone_loop_basic_blocks :
        List ℕ → (exit exiting : Option ℕ) → ValueMap → Ir → Option (ValueMap × Ir)
    unfolding clone_blocks set_successor
    clone_loop_basic_blocks bs exit exiting m s = clone_blocks exit bs m s >>= λ (cs, m1, s1).
        let s2 = remap_instructions cs m1 s1 in
        exiting >>= λ x. front cs >>= λ c. set_successor L x c 1 s2 >>= λ s3. some (m1, s3)

-- The arguments of the old function and of the new one, by position; the new ones are read past their
-- end where there are fewer.
unfoldable pub pair_args : ValueMap → (from to : List ℕ) → Option ValueMap
pair_args m [] to = some m
pair_args m (f ∷ from) [] = none
pair_args m (f ∷ from) (t ∷ to) = pair_args (insert f t m) from to

-- CloneFunctionInto is a parameter.
unfoldable pub clone_basic_blocks_into {ℓ} :
    {S : Type ℓ} → (ValueMap → S → S) → (from to : List ℕ) → S → Option S
unfolding pair_args
clone_basic_blocks_into clone_function_into from to s =
    pair_args [] from to >>= λ m. some (clone_function_into m s)
