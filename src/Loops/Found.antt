-- ===== src/Loops/Found.antt =====
-- The index and the trip count of a loop of the shape that the program builds are found again.
use mem_opt.Common.{ℕ, ◌≡◌, refl, some}
use mem_opt.Llvm.{Llvm}
use mem_opt.Loops.Skeleton.{IsLoop}
use mem_opt.LoopVariables.{
  LlvmLoop, get_loop_index_var, get_loop_trip_count, find_increment, adds_one, compared_with,
}

-- The loop is known to LLVM by its header and latch.
pub found :
    (L : Llvm) (s : L.Ir) (pre header latch entry exit idx tc : ℕ) (l : LlvmLoop)
    → IsLoop L s pre header latch entry exit idx tc
    → l.loop_header ≡ header
    → l.loop_latch ≡ some latch
    → (get_loop_index_var L l s ≡ some idx) × (get_loop_trip_count L l s ≡ some tc)
unfolding get_loop_index_var get_loop_trip_count find_increment adds_one compared_with
found L s pre header latch entry exit idx tc l loop at_header at_latch =
    (rw at_latch (rw (loop.latch_insts) refl), rw at_header (rw (loop.header_term) refl))
