-- ===== src/Launcher/Read.antt =====
-- launcher/main.cpp: the options of a written command line are read back.
use xylitol.Common.{
  ℕ, zero, suc, ◌<◌, ◌≡◌, refl, ap, ◌∙◌, arith, Bool, true, false, Option, none, some, List, [],
  ◌∷◌, Bytes, codes, get_or, length,
}
use xylitol.Launcher.{
  AppRuntime, Process, Android, new_runtime, strncpy, set_argv0, Options, no_options, known_option,
  read_option, read_options, rename, drop, start_runtime, run_launcher,
}
use xylitol.Launcher.Command.{
  Flag, zygote_flag, system_server_flag, application_flag, nice_name_flag, write_flag, Command,
  write_class, write_flags, separate, write_vm, behind_vm, write_command, IsDashed, AreOptions,
  HasPlainClass, IsCommand, TakesOptions, is_zygote, is_system_server, is_application, given,
  last_name, named, outcome,
}

-- The options behind the flags.
abbrev with_flags : Options → List Flag → Options
with_flags o flags = record o {
  zygote = given is_zygote o.zygote flags;
  start_system_server = given is_system_server o.start_system_server flags;
  application = given is_application o.application flags;
  nice_name = last_name o.nice_name flags;
}

abbrev with_class : Options → Option (Bytes × List Bytes) → Options
with_class o none = record o { rest = [] }
with_class o (some (name, args)) = record o { class_name = some name; rest = args }

known_option-write_flag :
    (f : Flag) (o : Options) → known_option (write_flag f) o ≡ some (with_flags o (f ∷ []))
unfolding known_option
known_option-write_flag zygote_flag o = refl
known_option-write_flag system_server_flag o = refl
known_option-write_flag application_flag o = refl
known_option-write_flag (nice_name_flag name) o = refl

known_option-plain : (name : Bytes) (o : Options) → ¬ IsDashed name → known_option name o ≡ none
unfolding known_option
known_option-plain [] o h = refl
known_option-plain (c ∷ name) o h = ground arith

read_option-behind :
    (arg : Bytes) (o : Options) (dir : Bytes)
    → o.parent_dir ≡ some dir
    → read_option arg o ≡ known_option arg o
unfolding read_option
read_option-behind arg o dir e =
    ap
      (λ (d : Option Bytes).
        let r : Option Options = elim d [
          | none ↦ some (record o { parent_dir = some arg })
          | some _ ↦ known_option arg o
        ] in
        r)
      e

read_options-known :
    (arg : Bytes) (args : List Bytes) (o o' : Options)
    → read_option arg o ≡ some o'
    → read_options (arg ∷ args) o ≡ read_options args o'
unfolding read_options
read_options-known arg args o o' e =
    ap
      (λ (r : Option Options).
        let read : Options = elim r [
          | some next ↦ read_options args next
          | none ↦ record o { class_name = some arg; rest = args }
        ] in
        read)
      e

read_options-class :
    (k : Option (Bytes × List Bytes)) (o : Options) (dir : Bytes)
    → o.parent_dir ≡ some dir
    → HasPlainClass k
    → read_options (write_class k) o ≡ with_class o k
unfolding read_options
read_options-class none o dir e h = refl
read_options-class (some (name, args)) o dir e h =
    ap
      (λ (r : Option Options).
        let read : Options = elim r [
          | some next ↦ read_options args next
          | none ↦ record o { class_name = some name; rest = args }
        ] in
        read)
      (read_option-behind name o dir e ∙ known_option-plain name o h)

read_options-flags :
    (flags : List Flag) (rest : List Bytes) (o : Options) (dir : Bytes)
    → o.parent_dir ≡ some dir
    → read_options (write_flags flags rest) o ≡ read_options rest (with_flags o flags)
read_options-flags [] rest o dir e = refl
read_options-flags (f ∷ flags) rest o dir e =
    read_options-known _ _ o _ (read_option-behind _ o dir e ∙ known_option-write_flag f o)
    ∙ read_options-flags flags rest (with_flags o (f ∷ [])) dir e
    ∙ one f
  where
    one :
        (g : Flag)
        → read_options rest (with_flags (with_flags o (g ∷ [])) flags)
          ≡ read_options rest (with_flags o (g ∷ flags))
    one zygote_flag = refl
    one system_server_flag = refl
    one application_flag = refl
    one (nice_name_flag name) = refl

drop-write_vm :
    (add : List Bytes → ℕ) (takes : TakesOptions add) (vm : List Bytes) (rest : List Bytes)
    → AreOptions vm
    → drop (add (write_vm vm rest)) (write_vm vm rest) ≡ drop (add rest) rest
drop-write_vm add takes [] rest h = refl
drop-write_vm add takes (arg ∷ vm) rest h =
    ap (λ n. drop n (arg ∷ write_vm vm rest)) (takes.option arg (write_vm vm rest) h.0 h.1)
    ∙ drop-write_vm add takes vm rest h.2

drop-separate :
    (add : List Bytes → ℕ) (takes : TakesOptions add) (b : Bool) (dir : Bytes) (rest : List Bytes)
    → (b ≡ false → ¬ IsDashed dir)
    → drop (add (separate b (dir ∷ rest))) (separate b (dir ∷ rest)) ≡ dir ∷ rest
drop-separate add takes true dir rest h =
    ap (λ n. drop n (codes "--" ∷ dir ∷ rest)) (takes.separator (dir ∷ rest))
drop-separate add takes false dir rest h =
    ap (λ n. drop n (dir ∷ rest)) (takes.plain dir rest (h refl))

read_option-first :
    (dir : Bytes) → read_option dir no_options ≡ some (record no_options { parent_dir = some dir })
unfolding read_option
read_option-first dir = refl

-- What main's loop leaves, of a written command line.
abbrev meaning : Command → Options
meaning c =
    with_class (with_flags (record no_options { parent_dir = some c.dir }) c.flags) c.main_class

read_options-write_command :
    (add : List Bytes → ℕ) (takes : TakesOptions add) (c : Command)
    → IsCommand c
    → read_options (drop (add (write_command c)) (write_command c)) no_options ≡ meaning c
read_options-write_command add takes c h =
    ap (λ args. read_options args no_options)
      (drop-write_vm add takes c.vm (separate c.separated (behind_vm c)) h.options
        ∙ drop-separate add takes c.separated c.dir _ h.plain_dir)
    ∙ read_options-known c.dir _ no_options _ (read_option-first c.dir)
    ∙ read_options-flags c.flags _ (record no_options { parent_dir = some c.dir }) c.dir refl
    ∙ read_options-class c.main_class _ c.dir refl h.plain_class

-- What main does behind its loop.
abbrev behind_options : Android → Bytes → Options → Option ℕ × Process
behind_options android argv0 o =
    let p = rename o.nice_name argv0 (record { runtime = new_runtime; events = [] }) in
    start_runtime android o (record p { runtime = record p.runtime { parent_dir = o.parent_dir } })

rename-named :
    (name : Option Bytes) (argv0 : Bytes) (r : AppRuntime)
    → rename name argv0 (record { runtime = r; events = [] })
      ≡ record { runtime = r; events = named argv0 name }
rename-named none argv0 r = refl
rename-named (some []) argv0 r = refl
rename-named (some (c ∷ name)) argv0 r = refl

abbrev prepared : Bytes → Options → Process
prepared argv0 o = record {
  runtime = record new_runtime { parent_dir = o.parent_dir };
  events = named argv0 o.nice_name;
}

behind_options-named :
    (android : Android) (argv0 : Bytes) (o : Options)
    → behind_options android argv0 o ≡ start_runtime android o (prepared argv0 o)
behind_options-named android argv0 o =
    ap
      (λ (p : Process).
        start_runtime android o
          (record p { runtime = record p.runtime { parent_dir = o.parent_dir } }))
      (rename-named o.nice_name argv0 new_runtime)

abbrev final : Command → Bool → Option (Bytes × List Bytes) → Options
final c z k =
    with_class
      (record (with_flags (record no_options { parent_dir = some c.dir }) c.flags) { zygote = z }) k

start_runtime-outcome :
    (android : Android) (argv0 : Bytes) (c : Command) (z : Bool) (k : Option (Bytes × List Bytes))
    → start_runtime android (final c z k) (prepared argv0 (final c z k))
      ≡ outcome android argv0 c z k
unfolding start_runtime
start_runtime-outcome android argv0 c true none = refl
start_runtime-outcome android argv0 c true (some (name, args)) = refl
start_runtime-outcome android argv0 c false none = refl
start_runtime-outcome android argv0 c false (some (name, args)) = refl

-- A command line of options of the machine, `--` where one is given, a directory, flags and a class
-- with arguments is read as it is written, where the class starts with no dash, nor the directory
-- without `--`: with `--zygote` ZygoteInit is started, else the class by RuntimeInit, and without
-- both nothing but the usage is shown and main returns 10, if LOG_ALWAYS_FATAL comes back.
pub run_launcher-write_command :
    (android : Android) (takes : TakesOptions android.add_vm_arguments) (argv0 : Bytes)
    (c : Command)
    → IsCommand c
    → run_launcher android argv0 (write_command c)
      ≡ outcome android argv0 c (given is_zygote false c.flags) c.main_class
unfolding run_launcher
run_launcher-write_command android takes argv0 c h =
    ap (behind_options android argv0)
      (read_options-write_command android.add_vm_arguments takes c h)
    ∙ behind_options-named android argv0 (meaning c)
    ∙ start_runtime-outcome android argv0 c _ c.main_class

length-strncpy : (s : Bytes) (n : ℕ) → length (strncpy s n) ≡ n
unfolding strncpy
length-strncpy s zero = refl
length-strncpy [] (suc n) = ap suc (length-strncpy [] n)
length-strncpy (c ∷ s) (suc n) = ap suc (length-strncpy s n)

get_or-strncpy : (s : Bytes) (n i : ℕ) → i < n → get_or (strncpy s n) i 0 ≡ get_or s i 0
unfolding strncpy
get_or-strncpy s zero i h = absurd (omega arith)
get_or-strncpy [] (suc n) zero h = refl
get_or-strncpy [] (suc n) (suc i) h = get_or-strncpy [] n i (omega arith)
get_or-strncpy (c ∷ s) (suc n) zero h = refl
get_or-strncpy (c ∷ s) (suc n) (suc i) h = get_or-strncpy s n i (omega arith)

-- In the place of argv[0] stand as many bytes as before: the first ones of the new name, and zeros
-- behind a shorter name.
set_argv0_lem :
    (argv0 name : Bytes)
    → (length (set_argv0 argv0 name) ≡ length argv0)
      × ((i : ℕ) → i < length argv0 → get_or (set_argv0 argv0 name) i 0 ≡ get_or name i 0)
unfolding set_argv0
set_argv0_lem argv0 name = (length-strncpy name (length argv0), get_or-strncpy name (length argv0))
