-- ===== src/BlockPredication/Heads.antt =====
-- Which instruction a block of BlockPredication starts with, when something is appended to it.
use mem_opt.Common.{ℕ, ◌≡◌, refl, Option, none, some, List, [], ◌∷◌, ◌++◌, false}
use mem_opt.Llvm.{
  Inst, Term, alloca, opaque_inst, store, store_through, compute, phi, ret, br, cond_br,
  unreachable, other_term, starts_with_phi,
}
use mem_opt.BlockPredication.Conditions.{path_insts}

-- Nothing that is appended to a block is a PHI node.
pub path_insts-starts :
    (ids : List (ℕ × ℕ)) (mask : ℕ) (t : Option Term)
    → starts_with_phi (path_insts ids mask t) ≡ false
path_insts-starts ids mask none = refl
path_insts-starts ids mask (some (ret v)) = refl
path_insts-starts ids mask (some (br t)) = refl
path_insts-starts ids mask (some (cond_br c t f)) = refl
path_insts-starts ids mask (some unreachable) = refl
path_insts-starts ids mask (some (other_term n ts)) = refl

pub starts_with_phi-append :
    (is js : List Inst)
    → starts_with_phi is ≡ false
    → starts_with_phi js ≡ false
    → starts_with_phi (is ++ js) ≡ false
starts_with_phi-append [] js h k = k
starts_with_phi-append (alloca x ∷ is) js h k = refl
starts_with_phi-append (opaque_inst x ∷ is) js h k = refl
starts_with_phi-append (store v x ∷ is) js h k = refl
starts_with_phi-append (store_through v w ∷ is) js h k = refl
starts_with_phi-append (compute v ∷ is) js h k = refl
starts_with_phi-append (phi l ∷ is) js h k = cc
