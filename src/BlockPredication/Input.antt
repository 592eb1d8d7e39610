-- ===== src/BlockPredication/Input.antt =====
-- The functions for which the linear form is proved right, and what holds of them.
use mem_opt.Common.{
  ℕ, ◌<◌, ◌≡◌, ◌≢◌, refl, inl, inr, true, false, Option, none, some, List, [], ◌∷◌, Memᴰ, arith,
  Distinct, length,
}
use mathlib.Core.List.Memᴰ
use mem_opt.Llvm.{
  Llvm, Term, Value, ret, br, cond_br, unreachable, other_term, succs_of, is_branch, is_return,
  starts_with_phi,
}
use mem_opt.PacketPath.{calculate}
use mem_opt.PacketPath.Coverage.{calculate-succ-IsMapped}
use mem_opt.PacketPath.Unique.{IsStructured, calculate_injective}
use mem_opt.ExitNodes.Unified.{select_blocks-mem}
use mem_opt.ExitNodes.{get_return_blocks, get_unreachable_blocks}
use mem_opt.BlockPredication.{cfg_of}
use mem_opt.BlockPredication.Conditions.{AllMapped, id_of}
use mem_opt.BlockPredication.Simulation.{IsRegisterTest}

module _ (L : Llvm) where
  open L use {Ir, blocks, entry, insts, term, preds, rpo, mem-preds}

  -- Every successor stands further on in the list: the function has no loop.
  abbrev pub IsForward : Ir → List ℕ → Type 0
  IsForward s [] = Unit
  IsForward s (b ∷ rest) = ((t : ℕ) → Memᴰ t (succs_of (term s b)) → Memᴰ t rest) × IsForward s rest

  -- A loop-free function, with one return block and no `unreachable`, whose entry block ends in a
  -- test, and in which a block with one predecessor and one successor leads to a join. No block
  -- starts with a PHI node; the blocks in front of the return end in branches, no switches, and the
  -- tests of these are registers. `actions` is its reverse post order behind the entry block.
  pub record IsInput (s : Ir) (actions : List ℕ) (r : ℕ) : Type 0 where
    pub order : rpo s ≡ entry s ∷ actions
    pub distinct : Distinct (entry s ∷ actions)
    pub forward : IsForward s (entry s ∷ actions)
    pub reached :
        (b : ℕ)
        → Memᴰ b actions
        → (u : ℕ) × Memᴰ u (entry s ∷ actions) × Memᴰ b (succs_of (term s u))
    pub all_reached : (b : ℕ) → Memᴰ b (blocks s) → Memᴰ b (entry s ∷ actions)
    pub all_blocks : (b : ℕ) → Memᴰ b (entry s ∷ actions) → Memᴰ b (blocks s)
    pub blocks_distinct : Distinct (blocks s)
    pub large : 2 < length (blocks s)
    pub entry_splits : 1 < length (succs_of (term s (entry s)))
    pub structured : IsStructured (cfg_of L s) (entry s ∷ actions)
    pub one_return : get_return_blocks L s ≡ r ∷ []
    pub none_unreachable : get_unreachable_blocks L s ≡ []
    pub branches : (b : ℕ) → Memᴰ b (blocks s) → b ≢ r → is_branch (term s b) ≡ true
    pub no_phi : (b : ℕ) → Memᴰ b actions → starts_with_phi (insts s b) ≡ false
    pub tests : (b : ℕ) → Memᴰ b (blocks s) → IsRegisterTest (term s b)

length_of_mem : (b : ℕ) (xs : List ℕ) → Memᴰ b xs → 0 < length xs
length_of_mem b [] m = absurd (Memᴰ.not-nil m)
length_of_mem b (x ∷ xs) m = omega arith

-- A branch has a successor.
pub branch_succ : (t : Option Term) → is_branch t ≡ true → (b : ℕ) × Memᴰ b (succs_of t)
unfolding is_branch succs_of
branch_succ (some (br b)) h = (b, Memᴰ.head refl)
branch_succ (some (cond_br c b f)) h = (b, Memᴰ.head refl)
branch_succ (some (ret v)) h = cc
branch_succ (some unreachable) h = cc
branch_succ (some (other_term n ss)) h = cc
branch_succ none h = cc

return_value : (t : Option Term) → is_return t ≡ true → (v : Option Value) × (t ≡ some (ret v))
unfolding is_return
return_value (some (ret v)) h = (v, refl)
return_value (some (br b)) h = cc
return_value (some (cond_br c b f)) h = cc
return_value (some unreachable) h = cc
return_value (some (other_term n ss)) h = cc
return_value none h = cc

module _ (L : Llvm) where
  open L use {Ir, blocks, entry, insts, term, preds, rpo, mem-preds}

  module _ (s : Ir) (actions : List ℕ) (r : ℕ) (h : IsInput L s actions r) where
    abbrev path_ids : List (ℕ × ℕ)
    path_ids = (calculate (cfg_of L s)).ids

    rpo_mem : (b : ℕ) → Memᴰ b (entry s ∷ actions) → Memᴰ b (rpo s)
    rpo_mem b m = rw h.order m

    has_pred : (b : ℕ) → Memᴰ b actions → 0 < length (preds s b)
    has_pred b m =
        let (u, mu, e) = h.reached b m in
        length_of_mem u (preds s b) (mem-preds s u b (h.all_blocks u mu) e)

    -- The targets of every block have ids.
    pub targets-AllMapped :
        (b : ℕ) → Memᴰ b (entry s ∷ actions) → AllMapped path_ids (succs_of (term s b))
    unfolding cfg_of
    targets-AllMapped b m t e =
        calculate-succ-IsMapped (cfg_of L s) b t h.large (rpo_mem b m)
          (elim (Memᴰ.cases_cons m) [
            | inl is_entry ↦ inr (rw is_entry h.entry_splits)
            | inr later ↦ inl (has_pred b later)
          ])
          e

    -- So has every action block.
    pub actions-AllMapped : AllMapped path_ids actions
    actions-AllMapped b m = let (u, mu, e) = h.reached b m in targets-AllMapped u mu b e

    -- No two action blocks have one id.
    pub action_ids_injective :
        (x y : ℕ) → Memᴰ x actions → Memᴰ y actions → id_of path_ids x ≡ id_of path_ids y → x ≡ y
    unfolding cfg_of
    action_ids_injective x y mx my e =
        let (i, fx) = actions-AllMapped x mx in
        let (j, fy) = actions-AllMapped y my in
        let ij : i ≡ j = rw (fx, fy, id_of) at e in
        calculate_injective (cfg_of L s) x y i (rw h.order h.structured) fx (rw ij fy)

    -- The return block returns.
    pub return_term : (v : Option Value) × (term s r ≡ some (ret v))
    unfolding get_return_blocks
    return_term =
        let in_list : Memᴰ r (get_return_blocks L s) = rw h.one_return (Memᴰ.head refl) in
        return_value (term s r) (select_blocks-mem L is_return s (blocks s) in_list).0
