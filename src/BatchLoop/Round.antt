-- ===== src/BatchLoop/Round.antt =====
-- A function with one return: the batch loop runs what stands behind the marker for each packet.
use mem_opt.Common.{
  ℕ, suc, ◌^◌, ◌<◌, ◌≡◌, ◌≢◌, refl, ap, ◌∙◌, inr, Option, none, some, [], ◌∷◌, Memᴰ, ==_ne, ==_self,
  ◌>>=◌,
}
use mem_opt.Llvm.{Llvm, Term, br, set_succ}
use mem_opt.Llvm.Steps.{Slots, Steps}
use mem_opt.Loops.{TasForLoop, add_empty_loop, set_loop_body}
use mem_opt.Loops.Fresh.{new-ne}
use mem_opt.Loops.Skeleton.{IsBody, rounds}
use mem_opt.Loops.ForLoop
use mem_opt.BatchLoop.{unique_exiting_block, add_batch_loop}

>>=_assoc :
    {A B C : Type 0} (m : Option A) (f : A → Option B) (g : B → Option C)
    → (m >>= λ a. f a >>= g) ≡ ((m >>= f) >>= g)
>>=_assoc none f g = refl
>>=_assoc (some a) f g = refl

pub split_term :
    (L : Llvm) (s : L.Ir) (parent i : ℕ)
    → Memᴰ parent (L.blocks s)
    → L.term (L.split_block parent i s) parent ≡ some (br (L.new_block s))
split_term L s parent i m =
    simp (L.term-split_block, ==_self, ==_ne (L.new_block s) parent (new-ne L s parent m))

pub split_in :
    (L : Llvm) (s : L.Ir) (parent i : ℕ)
    → Memᴰ parent (L.blocks s)
    → Memᴰ parent (L.blocks (L.split_block parent i s))
split_in L s parent i m = (L.blocks-split_block parent i s parent).1 (inr m)

module _ (L : Llvm) (s : L.Ir) (parent i ret_block exiting tc idx : ℕ) (te te' : Term)
    (parent_in : Memᴰ parent (L.blocks s))
    (exiting_in : Memᴰ exiting (L.blocks (L.split_block parent (suc i) s)))
    (apart : parent ≢ exiting)
    (exiting_term : L.term (L.split_block parent (suc i) s) exiting ≡ some te) where
  open L use {Ir, blocks, term, preds, new_block, split_block}

  -- The function behind the split, where the batch block starts behind the marker.
  abbrev pub split : Ir
  split = split_block parent (suc i) s

  abbrev pub batch_block : ℕ
  batch_block = new_block s

  -- The function with the batch loop, and the loop.
  abbrev pub batched : Ir
  batched =
      ForLoop.s10 L split parent ret_block batch_block exiting tc idx (br batch_block)
        (br (new_block split)) te te' (split_in L s parent (suc i) parent_in) exiting_in apart
        (split_term L s parent (suc i) parent_in) exiting_term

  abbrev pub batch_loop : TasForLoop
  batch_loop =
      ForLoop.built_loop L split parent ret_block batch_block exiting tc idx (br batch_block)
        (br (new_block split)) te te' (split_in L s parent (suc i) parent_in) exiting_in apart
        (split_term L s parent (suc i) parent_in) exiting_term

  -- Where RetBlock has one predecessor, not the marker's block, whose terminator has a successor to
  -- replace, addBatchLoop succeeds, the marker's block leads to the preheader of the new loop, and from
  -- there the function runs what stands between the marker and RetBlock for each index from 0 to
  -- n - 1, in this order, and goes on to RetBlock, where n, the batch size, is below 2^31 and the
  -- code in between leaves it and the index.
  pub add_batch_loop-rounds :
      (n : ℕ) (body : Slots → Slots) (m : Slots)
      → idx ≢ tc
      → preds split ret_block ≡ exiting ∷ []
      → set_succ 0 batch_loop.latch te ≡ some te'
      → n < 2 ^ 31
      → m tc ≡ n
      → IsBody L batched batch_loop.latch batch_block idx tc n body
      → (add_batch_loop L (some (parent, i)) tc ret_block idx s ≡ some (some batch_loop, batched))
        × (term batched parent ≡ some (br batch_loop.pre_header))
        × Steps L batched ret_block (rounds idx body n 0 m) batch_loop.pre_header m
  unfolding add_batch_loop unique_exiting_block set_succ
  add_batch_loop-rounds n body m differ one_pred closed small count is_body =
      let (made, leads, _, _, run) =
        ForLoop.build_loop-rounds L split parent ret_block batch_block exiting tc idx
          (br batch_block) (br (new_block split)) te te' (split_in L s parent (suc i) parent_in)
          exiting_in apart (split_term L s parent (suc i) parent_in) exiting_term n body m differ
          refl closed small count is_body in
      (
        rw one_pred (
            >>=_assoc (add_empty_loop L (some parent) (some ret_block) (some tc) (some idx) split)
              (λ r. set_loop_body L batch_block exiting r.0 r.1) (λ r. some (some r.0, r.1))
            ∙ ap (λ o. o >>= λ r. some (some r.0, r.1)) made),
        leads,
        run,
      )
