-- ===== src/ToolUtil.antt =====
-- src/ToolUtil.cpp: the command lines of clang, opt, llc and the linker. `system` is a parameter,
-- the status of a command; a text written to the console is left out.
pub mod Laws
pub mod Options
mod Examples
use mem_opt.Common.{
  ℕ, Bool, true, false, Option, none, some, List, [], ◌∷◌, ◌++◌, ◌==◌, if◌then◌else◌, map,
}
use mem_opt.Text.{Text, codes, is_empty, text_eq, find_last_of, substr_to, substr_from}

-- A function returns, or ends the process by exit(EXIT_FAILURE).
pub data Outcome (A : Type 0) : Type 0 where
  returned : A → Outcome A
  exited : Outcome A

-- The commands that were run so far go in and come out.
abbrev pub Shell : Type 0 → Type 0
Shell A = List Text → Outcome A × List Text

abbrev pub return : {A : Type 0} → A → Shell A
return a log = (returned a, log)

infixl 5 ◌>>=◌
abbrev pub ◌>>=◌ : {A B : Type 0} → Shell A → (A → Shell B) → Shell B
◌>>=◌ m f log = let (o, log') = m log in elim o [ returned a ↦ f a log' | exited ↦ (exited, log') ]

abbrev pub dot : ℕ
dot = b'.'

-- std::copy to an ostream_iterator that writes a space behind each item
abbrev pub join_words : List Text → Text
join_words [] = []
join_words (w ∷ ws) = w ++ codes " " ++ join_words ws

unfoldable pub tas_root_include : Text
tas_root_include = codes "-I/home/gp/mpi-sws/tas/"

unfoldable pub ir_tags : Bool → Text
unfolding tas_root_include
ir_tags is_tas =
    codes "-O0 -Xclang -disable-O0-optnone -S -emit-llvm "
    ++ (if is_tas
        then codes "-std=gnu99 -Wall -Werror -I."
          ++ tas_root_include
          ++ codes "include/ -march=native "
          ++ codes "-fno-omit-frame-pointer -Wno-unused-variable -Wno-unused-function "
          ++ codes "-Wno-address-of-packed-member -Wno-sometimes-uninitialized "
          ++ codes "-I/usr/share/dpdk/x86_64-native-linuxapp-gcc/include "
          ++ codes "-I/usr/share/dpdk/x86_64-native-linuxapp-gcc/include/dpdk "
          ++ codes "-I/usr/share/dpdk/x86_64-native-linuxapp-gcc/include/x86_64-linux-gnu/dpdk/ "
          ++ codes "-I/usr/include/dpdk "
          ++ tas_root_include
          ++ codes "lib/tas/include "
          ++ tas_root_include
          ++ codes "lib/sockets/include "
          ++ tas_root_include
          ++ codes "tas/include "
          ++ tas_root_include
          ++ codes "tas/fast "
        else [])

-- InFile.substr(0, InFile.find_last_of(".")) + ".ll"
unfoldable pub ll_name : Text → Text
ll_name file = substr_to (find_last_of dot file) file ++ codes ".ll"

unfoldable pub ir_command : Text → Text → Bool → Text
unfolding ll_name ir_tags
ir_command file dir is_tas =
    codes "clang "
    ++ ir_tags is_tas
    ++ codes "-o"
    ++ dir
    ++ ll_name file
    ++ codes " "
    ++ dir
    ++ file

-- the object's name, its path and the command of llc
unfoldable pub object_path : Text → Text → Text
object_path file dir = dir ++ substr_to (find_last_of dot file) file ++ codes ".o"

unfoldable pub llc_command : Text → Text → Text → Text
unfolding object_path
llc_command ir file dir =
    codes "llc -filetype=obj " ++ dir ++ ir ++ codes " -o " ++ object_path file dir

-- generateLongString with `pref` "-": `insert(0, "-")` is written into the caller's list, whatever
-- `pref` is.
unfoldable pub generate_long_string : List Text → Text → List Text × Text
generate_long_string strs pref =
    (map (λ s. codes "-" ++ s) strs, join_words (map (λ s. codes "-" ++ s) strs))

unfoldable pub opt_command : Text → Text → Text → Text
unfolding ll_name
opt_command opts file dir =
    codes "opt -S " ++ opts ++ codes " -o " ++ dir ++ ll_name file ++ codes " " ++ dir ++ file

abbrev pub compiler : Option Text → Text
compiler none = codes "clang"
compiler (some cc_name) = cc_name

abbrev pub output_name : Text → Text
output_name out = if is_empty out then codes "a.out" else out

unfoldable pub link_command : Option Text → List Text → Text → Text → Text
link_command cc_env files out dir =
    compiler cc_env
    ++ codes " -no-pie "
    ++ join_words files
    ++ codes " -o "
    ++ dir
    ++ output_name out

unfoldable pub driver_command : List Text → Text → Text
driver_command files dir =
    codes "clang -O0 -c " ++ join_words (if is_empty dir then files else map (λ f. dir ++ f) files)

module _ (system : Text → ℕ) where
  -- auto ret = system(cmd); if (ret != 0) exit(EXIT_FAILURE);
  unfoldable pub run_command : Text → Shell (Unit {0})
  run_command cmd log = (if system cmd == 0 then returned tt else exited, log ++ cmd ∷ [])

  unfoldable pub generate_ir : Text → Text → Bool → Shell Text
  generate_ir file dir is_tas =
      if is_empty file
      then return []
      else (run_command (ir_command file dir is_tas) >>= λ _. return (ll_name file))

  -- runOpt: the file that opt wrote, and the caller's list of options.
  unfoldable pub run_opt : Text → Text → List Text → Shell (Text × List Text)
  unfolding generate_long_string
  run_opt file dir opts =
      if is_empty file
      then return ([], opts)
      else (let (opts', line) = generate_long_string opts (codes "-") in
          run_command (opt_command line file dir) >>= λ _. return (ll_name file, opts'))

  unfoldable pub generate_object : Text → Text → Shell Text
  generate_object file dir =
      if is_empty file
      then return []
      else ((if text_eq (substr_from (find_last_of dot file) file) (codes "c")
            then generate_ir file dir false
            else return file)
          >>= λ ir. run_command (llc_command ir file dir) >>= λ _. return (object_path file dir))

  unfoldable pub link_objects : Option Text → List Text → Text → Text → Shell Text
  link_objects cc_env files out dir =
      run_command (link_command cc_env files out dir) >>= λ _. return (dir ++ output_name out)

  unfoldable pub compile_with_clang_driver : List Text → Text → Shell Bool
  compile_with_clang_driver files dir = run_command (driver_command files dir) >>= λ _. return true
