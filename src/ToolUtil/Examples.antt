-- ===== src/ToolUtil/Examples.antt =====
-- The helpers on small file names, with commands that succeed.
use mem_opt.Common.{
  ℕ, ◌≡◌, refl, true, false, [], ◌∷◌, ◌++◌, ◌==◌, if◌then◌else◌, not_mem_of_contains,
}
use mem_opt.Text.{Text, codes}
use mem_opt.ToolUtil.{
  returned, exited, dot, ir_command, llc_command, opt_command, join_words, ll_name, generate_ir,
  generate_object, run_opt,
}
use mem_opt.ToolUtil.Laws.{generate_ir_lem, generate_object-c, generate_object-other}
use mem_opt.ToolUtil.Options.{dashed, run_opt-twice}

abbrev succeeds : Text → ℕ
succeeds cmd = 0

generated_ir : generate_ir succeeds (codes "a.b.c") (codes "d/") true [] ≡ (
  if 0 == 0 then returned (codes "a.b.ll") else exited,
  [] ++ ir_command (codes "a.b.c") (codes "d/") true ∷ [],
)
generated_ir =
    generate_ir_lem succeeds (codes "a.b") (codes "c") (codes "d/") true []
      (not_mem_of_contains dot (codes "c") refl)

object_of_c_file : generate_object succeeds (codes "a" ++ codes ".c") (codes "d/") [] ≡ (
    let clang = ir_command (codes "a" ++ codes ".c") (codes "d/") false in
    let llc = llc_command (codes "a" ++ codes ".ll") (codes "a" ++ codes ".c") (codes "d/") in
    if succeeds clang == 0
    then (
      if succeeds llc == 0 then returned (codes "d/" ++ codes "a" ++ codes ".o") else exited,
      [] ++ clang ∷ [] ++ llc ∷ [],
    )
    else (exited, [] ++ clang ∷ []))
object_of_c_file = generate_object-c succeeds (codes "a") (codes "d/") []

generate_object-other_example : generate_object succeeds (codes "a.bc") (codes "d/") [] ≡ (
  if 0 == 0 then returned (codes "d/a.o") else exited,
  [] ++ llc_command (codes "a.bc") (codes "a.bc") (codes "d/") ∷ [],
)
generate_object-other_example =
    generate_object-other succeeds (codes "a") (codes "bc") (codes "d/") []
      (not_mem_of_contains dot (codes "bc") refl) (λ e. cc)

run_opt-twice_example :
    (run_opt succeeds (codes "a.ll") [] (codes "mem2reg" ∷ []) [] ≡ (
      returned (ll_name (codes "a.ll"), dashed (codes "mem2reg" ∷ [])),
      [] ++ opt_command (join_words (dashed (codes "mem2reg" ∷ []))) (codes "a.ll") [] ∷ [],
    ))
    × ((run_opt succeeds (codes "a.ll") [] (dashed (codes "mem2reg" ∷ [])) []).1
        ≡ []
          ++ opt_command (join_words (dashed (dashed (codes "mem2reg" ∷ [])))) (codes "a.ll") []
            ∷ [])
run_opt-twice_example = run_opt-twice succeeds b'a' (codes ".ll") [] (codes "mem2reg" ∷ []) [] refl
