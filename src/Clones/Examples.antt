-- ===== src/Clones/Examples.antt =====
-- A loop of a header and a latch, copied in a small function.
use mem_opt.Common.{
  contains, contains_of_mem, contains_of_not_mem, Distinct, Option, ==_self, ℕ, ◌≡◌, refl, none,
  some, List, [], ◌∷◌, ◌==◌, ==_ne, if◌then◌else◌, map, mem_of_contains, not_mem_of_contains,
  Memᴰ-cons, true,
}
use mathlib.Core.List.Memᴰ
use mem_opt.Llvm.{Term, register, br, cond_br, ret, unreachable, other_term, succs_of}
use mem_opt.Llvm.Toy.{ToyFunction, toy}
use mem_opt.Clones.{ValueMap, Cloning, mapped, clone_loop_basic_blocks}
use mem_opt.Clones.LoopBlocks.{Each, IsClone, clone_loop_basic_blocks-entered}

abbrev copy : ℕ → ℕ → ToyFunction → ToyFunction
copy b c s = record s { ends = λ y. if c == y then s.ends b else s.ends y }

abbrev remap_term : ValueMap → Option Term → Option Term
remap_term m (some (br t)) = some (br (mapped m t))
remap_term m (some (cond_br c t f)) = some (cond_br c (mapped m t) (mapped m f))
remap_term m (some (other_term n ts)) = some (other_term n (map (mapped m) ts))
remap_term m (some (ret v)) = some (ret v)
remap_term m (some unreachable) = some unreachable
remap_term m none = none

succs-remap_term :
    (m : ValueMap) (t : Option Term) → succs_of (remap_term m t) ≡ map (mapped m) (succs_of t)
unfolding succs_of
succs-remap_term m none = refl
succs-remap_term m (some (br t)) = refl
succs-remap_term m (some (cond_br c t f)) = refl
succs-remap_term m (some (other_term n ts)) = refl
succs-remap_term m (some (ret v)) = refl
succs-remap_term m (some unreachable) = refl

abbrev toy_remap : List ℕ → ValueMap → ToyFunction → ToyFunction
toy_remap cs m s = record s {
  ends = λ y. if contains y cs then remap_term m (s.ends y) else s.ends y;
}

abbrev toy_clones : Cloning toy
toy_clones = record {
  clone_basic_block = λ b m s. (toy.new_block s, m, copy b (toy.new_block s) s);
  insert_into = λ c p s. record s { layout = c ∷ s.layout };
  remap_instructions = toy_remap;
  clone_new = λ b m s. toy.new_block_fresh s;
  blocks-clone_basic_block = λ b m s. refl;
  term-clone_basic_block =
      λ b m s x h. rw (==_ne (toy.new_block s) x (λ e. toy.new_block_fresh s (rw e h))) refl;
  find-clone_basic_block = λ b m s x h. refl;
  blocks-insert_into = λ c p s x. Memᴰ-cons x c s.layout;
  term-insert_into = λ c p s x. refl;
  term_of_clone = λ b m s. rw (==_self (toy.new_block s)) refl;
  term-remap_instructions = λ cs m s x h. rw (contains_of_not_mem x cs h) refl;
  succs-remap_instructions =
      λ cs m s x h. rw (contains_of_mem x cs h) (succs-remap_term m (s.ends x));
  blocks-remap_instructions = λ cs m s. refl;
}

-- 0: entry; 1: header, which leaves the loop to 3; 2: latch.
abbrev looping : ToyFunction
looping = record {
  layout = 0 ∷ 1 ∷ 2 ∷ 3 ∷ [];
  first = 0;
  code = λ b. [];
  ends = λ b.
      if b == 1
      then some (cond_br (register 7) 2 3)
      else if b == 3
      then some (ret none)
      else some (br 1);
  order = [];
  void = true;
  slot = 40;
  nodes = [];
}

clone_loop_basic_blocks-entered_example :
    (c : ℕ) × (cs : List ℕ) × (m : ValueMap) × (r : ToyFunction) × (clone_loop_basic_blocks toy
        toy_clones
        (1 ∷ 2 ∷ [])
        (some 3)
        (some 1)
        []
        looping
      ≡ some (m, r))
    × Each (IsClone toy toy_clones m looping r) (1 ∷ 2 ∷ []) (c ∷ cs)
    × Distinct (c ∷ cs)
    × (toy.term r 1 ≡ some (cond_br (register 7) 2 c))
clone_loop_basic_blocks-entered_example =
    clone_loop_basic_blocks-entered toy toy_clones 1 (2 ∷ []) 3 1 [] looping (register 7) 2 3
      (
        mem_of_contains 1 (0 ∷ 1 ∷ 2 ∷ 3 ∷ []) refl,
        (mem_of_contains 2 (0 ∷ 1 ∷ 2 ∷ 3 ∷ []) refl, tt),
      )
      (not_mem_of_contains 1 (2 ∷ []) refl, ((λ m. Memᴰ.not-nil m), tt))
      (mem_of_contains 1 (0 ∷ 1 ∷ 2 ∷ 3 ∷ []) refl) refl
