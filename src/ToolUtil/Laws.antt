-- ===== src/ToolUtil/Laws.antt =====
-- What the helpers return for a file name with an extension, and which commands they run.
use mem_opt.Common.{
  ℕ, ◌≡◌, ◌≢◌, refl, ap, ◌∙◌, Bool, true, false, List, [], ◌∷◌, ◌++◌, Memᴰ, ◌==◌, inl, inr,
  not_mem_of_contains, if◌then◌else◌, Bool-cases,
}
use mem_opt.Text.{
  Text, codes, is_empty, text_eq, find_last_of, find_last_of-append, take-length, drop-length,
  text_eq_iff, substr_from,
}
use mem_opt.ToolUtil.{
  Outcome, Shell, return, ◌>>=◌, returned, exited, dot, ll_name, ir_command, object_path,
  llc_command, run_command, generate_ir, generate_object,
}

pub bind-log :
    {A B : Type 0} (m : Shell A) (f : A → Shell B) (log : List Text) {l : List Text} {o : Outcome A}
    → m log ≡ (o, l)
    → (m >>= f) log ≡ elim o [ returned a ↦ f a l | exited ↦ (exited, l) ]
bind-log m f log e =
    ap (λ r. let (o, l) = r in elim o [ returned a ↦ f a l | exited ↦ (exited, l) ]) e

pub bind-step :
    {A B : Type 0} (b : Bool) (m : Shell A) (f : A → Shell B) (a : A) (log l : List Text)
    → (m log ≡ (if b then returned a else exited, l))
    → (m >>= f) log ≡ (if b then f a l else (exited, l))
bind-step true m f a log l e = bind-log m f log e
bind-step false m f a log l e = bind-log m f log e

-- A command and what follows it.
pub run_command-bind :
    {A : Type 0} (system : Text → ℕ) (cmd : Text) (f : Unit {0} → Shell A) (log : List Text)
    → (run_command system cmd >>= f) log
      ≡ (if system cmd == 0 then f tt (log ++ cmd ∷ []) else (exited, log ++ cmd ∷ []))
unfolding run_command
run_command-bind system cmd f log =
    bind-step (system cmd == 0) (run_command system cmd) f tt log (log ++ cmd ∷ []) refl

pub is_empty-append : (s : Text) (c : ℕ) (t : Text) → is_empty (s ++ c ∷ t) ≡ false
is_empty-append [] c t = refl
is_empty-append (x ∷ s) c t = refl

ll_name-append :
    (stem ext : Text) → ¬ Memᴰ dot ext → ll_name (stem ++ dot ∷ ext) ≡ stem ++ codes ".ll"
unfolding ll_name
ll_name-append stem ext out =
    rw (find_last_of-append dot stem ext out)
      (ap (λ s. s ++ codes ".ll") (take-length stem (dot ∷ ext)))

object_path-append :
    (stem ext dir : Text)
    → ¬ Memᴰ dot ext
    → object_path (stem ++ dot ∷ ext) dir ≡ dir ++ stem ++ codes ".o"
unfolding object_path
object_path-append stem ext dir out =
    rw (find_last_of-append dot stem ext out)
      (ap (λ s. dir ++ s ++ codes ".o") (take-length stem (dot ∷ ext)))

file_type-append :
    (stem ext : Text)
    → ¬ Memᴰ dot ext
    → substr_from (find_last_of dot (stem ++ dot ∷ ext)) (stem ++ dot ∷ ext) ≡ ext
file_type-append stem ext out = rw (find_last_of-append dot stem ext out) (drop-length stem dot ext)

pub returned-if :
    {A : Type 0} (b : Bool) (a : A) (l : List Text)
    → (if b then return a l else (exited, l)) ≡ (if b then returned a else exited, l)
returned-if true a l = refl
returned-if false a l = refl

-- generateIR on a file name with an extension runs one command, clang's, and returns the name with
-- the extension `ll` in place of its own if that succeeds; dots in front of the extension stay.
pub generate_ir_lem :
    (system : Text → ℕ) (stem ext dir : Text) (is_tas : Bool) (log : List Text)
    → ¬ Memᴰ dot ext
    → generate_ir system (stem ++ dot ∷ ext) dir is_tas log ≡ (
      if system (ir_command (stem ++ dot ∷ ext) dir is_tas) == 0
          then returned (stem ++ codes ".ll")
          else exited,
      log ++ ir_command (stem ++ dot ∷ ext) dir is_tas ∷ [],
    )
unfolding generate_ir
generate_ir_lem system stem ext dir is_tas log out =
    rw (is_empty-append stem dot ext, ll_name-append stem ext out)
      (run_command-bind system (ir_command (stem ++ dot ∷ ext) dir is_tas)
          (λ _. return (stem ++ codes ".ll")) log
        ∙ returned-if (system (ir_command (stem ++ dot ∷ ext) dir is_tas) == 0)
            (stem ++ codes ".ll") _)

no_dot : ¬ Memᴰ dot (codes "c")
no_dot = not_mem_of_contains dot (codes "c") refl

-- generateObject on a file name `stem.c` stops behind clang's command if that fails; else it runs llc
-- on `stem.ll`, and returns the path of `stem.o` if that succeeds too.
pub generate_object-c :
    (system : Text → ℕ) (stem dir : Text) (log : List Text)
    → generate_object system (stem ++ codes ".c") dir log ≡ (
        let clang = ir_command (stem ++ codes ".c") dir false in
        let llc = llc_command (stem ++ codes ".ll") (stem ++ codes ".c") dir in
        if system clang == 0
        then (
          if system llc == 0 then returned (dir ++ stem ++ codes ".o") else exited,
          log ++ clang ∷ [] ++ llc ∷ [],
        )
        else (exited, log ++ clang ∷ []))
unfolding generate_object
generate_object-c system stem dir log =
    let clang = ir_command (stem ++ codes ".c") dir false in
    let llc = llc_command (stem ++ codes ".ll") (stem ++ codes ".c") dir in
    rw
      (
        is_empty-append stem dot (codes "c"),
        file_type-append stem (codes "c") no_dot,
        object_path-append stem (codes "c") dir no_dot,
      )
      (bind-step (system clang == 0) (generate_ir system (stem ++ codes ".c") dir false)
          (λ ir. run_command system (llc_command ir (stem ++ codes ".c") dir) >>= λ _.
            return (dir ++ stem ++ codes ".o"))
          (stem ++ codes ".ll") log (log ++ clang ∷ [])
          (generate_ir_lem system stem (codes "c") dir false log no_dot)
        ∙ ap (λ t. if system clang == 0 then t else (exited, log ++ clang ∷ []))
            (run_command-bind system llc (λ _. return (dir ++ stem ++ codes ".o"))
                (log ++ clang ∷ [])
              ∙ returned-if (system llc == 0) (dir ++ stem ++ codes ".o") _))

text_ne : (s t : Text) → s ≢ t → text_eq s t ≡ false
text_ne s t differs = elim (Bool-cases (text_eq s t)) [
  | inl e ↦ absurd (differs ((text_eq_iff s t).0 e))
  | inr e ↦ e
]

-- generateObject on a file name with another extension than `c` runs llc alone.
pub generate_object-other :
    (system : Text → ℕ) (stem ext dir : Text) (log : List Text)
    → ¬ Memᴰ dot ext
    → ext ≢ codes "c"
    → generate_object system (stem ++ dot ∷ ext) dir log ≡ (
      let llc = llc_command (stem ++ dot ∷ ext) (stem ++ dot ∷ ext) dir in
          if system llc == 0 then returned (dir ++ stem ++ codes ".o") else exited,
      log ++ llc_command (stem ++ dot ∷ ext) (stem ++ dot ∷ ext) dir ∷ [],
    )
unfolding generate_object
generate_object-other system stem ext dir log out differs =
    let llc = llc_command (stem ++ dot ∷ ext) (stem ++ dot ∷ ext) dir in
    rw
      (
        is_empty-append stem dot ext,
        file_type-append stem ext out,
        object_path-append stem ext dir out,
        text_ne ext (codes "c") differs,
      )
      (run_command-bind system llc (λ _. return (dir ++ stem ++ codes ".o")) log
        ∙ returned-if (system llc == 0) (dir ++ stem ++ codes ".o") (log ++ llc ∷ []))
