-- ===== src/BatchLoop/Single.antt =====
-- The end of doBatchTransform on a function with one return.
use mem_opt.Common.{
  ◌>>=◌, ℕ, suc, ◌^◌, ◌<◌, ◌≡◌, ◌≢◌, refl, ap, ◌∙◌, ◌⊎◌, inl, inr, Option, none, some, [], ◌∷◌,
  ◌++◌, Memᴰ, length,
}
use mem_opt.Llvm.{Llvm, Value, Term, ret, br, alloca, store, set_succ}
use mem_opt.Llvm.Steps.{Slots, Steps}
use mem_opt.ExitNodes.{return_operand, get_return_inst_list}
use mem_opt.Loops.{TasForLoop}
use mem_opt.Loops.Skeleton.{IsBody, rounds}
use mem_opt.BatchLoop.{
  store_result, unify_returns, unify_return_block, store_and_split, store_returns,
  store_ret_val_in_ptr_arg, add_batch_loop, finish_batch,
}
use mem_opt.BatchLoop.Returns.{get_return_inst_list-set_insts}
use mem_opt.BatchLoop.Round

module _ (L : Llvm) where
  open L use {
    Ir, blocks, entry, insts, term, preds, new_block, new_slot, split_block, set_term, set_insts,
  }

  -- RetBlock and the function when the block `b`, which is the only one that returns, is split; where it
  -- returns the value `v`, that is stored first.
  abbrev pub split_return : (ret_arg : Option Value) → Value → ℕ → ℕ → Ir → ℕ × Ir
  split_return none v idx b s = (new_block s, split_block b (length (insts s b)) s)
  split_return (some ret_arg) v idx b s =
      let slot = new_slot s in
      let s1 = set_insts (entry s) (alloca slot ∷ store ret_arg slot ∷ insts s (entry s)) s in
      let s2 = set_insts b (insts s1 b ++ store_result slot idx v) s1 in
      (new_block s2, set_term (new_block s2) (ret none) (split_block b (length (insts s2 b)) s2))

  store_ret_val_in_ptr_arg-one_return :
      (ret_arg v : Value) (idx b : ℕ) (s : Ir)
      → get_return_inst_list L s ≡ b ∷ []
      → term s b ≡ some (ret (some v))
      → store_ret_val_in_ptr_arg L ret_arg idx s ≡ some (split_return (some ret_arg) v idx b s)
  unfolding store_ret_val_in_ptr_arg store_returns store_and_split return_operand
  store_ret_val_in_ptr_arg-one_return ret_arg v idx b s one returns =
      let l = alloca (new_slot s) ∷ store ret_arg (new_slot s) ∷ insts s (entry s) in
      rw (get_return_inst_list-set_insts L (entry s) l s ∙ one)
        (rw (L.term-set_insts (entry s) l s b ∙ returns) refl)

  finish_batch-one_return :
      (find_marker : Ir → Option (Option (ℕ × ℕ))) (ret_arg : Option Value) (v : Value)
      (tc idx b : ℕ) (s : Ir)
      → get_return_inst_list L s ≡ b ∷ []
      → (ret_arg ≡ none) ⊎ (term s b ≡ some (ret (some v)))
      → finish_batch L find_marker ret_arg tc idx s ≡ (
          find_marker (split_return ret_arg v idx b s).1 >>= λ at.
          add_batch_loop L at tc
            (split_return ret_arg v idx b s).0
            idx
            (split_return ret_arg v idx b s).1)
  unfolding finish_batch unify_return_block unify_returns
  finish_batch-one_return find_marker none v tc idx b s one returns = rw one refl
  finish_batch-one_return find_marker (some ret_arg) v tc idx b s one returns =
      rw (store_ret_val_in_ptr_arg-one_return ret_arg v idx b s one (valued returns)) refl
    where
      valued :
          (◌≡◌ {A = Option Value} (some ret_arg) none) ⊎ (term s b ≡ some (ret (some v)))
          → term s b ≡ some (ret (some v))
      valued (inl e) = cc
      valued (inr e) = e

module _ (L : Llvm) (ret_arg : Option Value) (v : Value) (idx b : ℕ) (s : L.Ir) where
  open L use {Ir, blocks, term, preds, split_block, new_block}

  abbrev pub ret_block : ℕ
  ret_block = (split_return L ret_arg v idx b s).0

  abbrev pub prepared : Ir
  prepared = (split_return L ret_arg v idx b s).1

  module _ (parent i exiting tc : ℕ) (te te' : Term) (parent_in : Memᴰ parent (blocks prepared))
      (exiting_in : Memᴰ exiting (blocks (split_block parent (suc i) prepared)))
      (apart : parent ≢ exiting)
      (exiting_term : term (split_block parent (suc i) prepared) exiting ≡ some te) where
    abbrev pub batched : Ir
    batched =
        Round.batched L prepared parent i ret_block exiting tc idx te te' parent_in exiting_in apart
          exiting_term

    abbrev pub batch_loop : TasForLoop
    batch_loop =
        Round.batch_loop L prepared parent i ret_block exiting tc idx te te' parent_in exiting_in
          apart exiting_term

    -- On a function with one return, in a block `b`, of a value or of nothing, the end of
    -- doBatchTransform succeeds where a marker is found and RetBlock, which is split off `b`, has one
    -- predecessor, not the marker's block, whose terminator has a successor to replace: the marker's
    -- block leads to the preheader of the new loop, and from there the function runs what stands
    -- between the marker and RetBlock for each index from 0 to n - 1, in this order, and goes on to
    -- RetBlock, where n, the batch size, is below 2^31 and the code in between leaves it and the index.
    pub finish_batch-rounds :
        (find_marker : Ir → Option (Option (ℕ × ℕ))) (n : ℕ) (body : Slots → Slots) (m : Slots)
        → get_return_inst_list L s ≡ b ∷ []
        → (ret_arg ≡ none) ⊎ (term s b ≡ some (ret (some v)))
        → find_marker prepared ≡ some (some (parent, i))
        → idx ≢ tc
        → preds (split_block parent (suc i) prepared) ret_block ≡ exiting ∷ []
        → set_succ 0 batch_loop.latch te ≡ some te'
        → n < 2 ^ 31
        → m tc ≡ n
        → IsBody L batched batch_loop.latch (new_block prepared) idx tc n body
        → (finish_batch L find_marker ret_arg tc idx s ≡ some (some batch_loop, batched))
          × (term batched parent ≡ some (br batch_loop.pre_header))
          × Steps L batched ret_block (rounds idx body n 0 m) batch_loop.pre_header m
    finish_batch-rounds find_marker n body m one returns found differ one_pred closed small count
          is_body =
        let (made, leads, run) =
          Round.add_batch_loop-rounds L prepared parent i ret_block exiting tc idx te te' parent_in
            exiting_in apart exiting_term n body m differ one_pred closed small count is_body in
        (
          finish_batch-one_return L find_marker ret_arg v tc idx b s one returns
              ∙ ap (λ o. o >>= λ at. add_batch_loop L at tc ret_block idx prepared) found
              ∙ made,
          leads,
          run,
        )
