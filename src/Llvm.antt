-- ===== src/Llvm.antt =====
-- The part of LLVM 8 that the passes call, as a parameter: what a basic block holds, and the laws
-- of the calls that read and write it. A basic block and a stack slot are named by their address.
mod Syntax
pub mod Machine
pub mod Steps
pub mod Toy
pub use Syntax.{
  Value, Inst, Term, int32, register, select, load, icmp_eq, icmp_slt, add, gep, phi_of,
}
pub use Syntax.{
  alloca, store, store_through, take, drop, starts_with_phi, opaque_inst, compute, phi,
}
pub use Syntax.{ret, br, cond_br, unreachable, other_term}
unfoldable pub use Syntax.{set_succ, succs_of, is_return, is_unreachable, is_branch}
pub use Syntax.{Llvm}
