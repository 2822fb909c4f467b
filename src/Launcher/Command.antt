-- ===== src/Launcher/Command.antt =====
-- launcher/main.cpp: command lines written from their parts, and what the launcher makes of them.
use xylitol.Common.{
  ℕ, suc, ◌≡◌, ◌≢◌, Bool, true, false, ◌||◌, Option, none, some, List, [], ◌∷◌, ◌++◌, if◌then◌else◌,
  Bytes, codes, get_or,
}
use xylitol.Launcher.{
  argv0_written, process_named, runtime_started, usage_printed, Event, Process, Android, set_argv0,
}

pub data Flag : Type 0 where
  zygote_flag system_server_flag application_flag : Flag
  nice_name_flag : Bytes → Flag

abbrev pub write_flag : Flag → Bytes
write_flag zygote_flag = codes "--zygote"
write_flag system_server_flag = codes "--start-system-server"
write_flag application_flag = codes "--application"
write_flag (nice_name_flag name) = codes "--nice-name=" ++ name

-- The parts of a command line: options of the Java machine, whether `--` ends them, the directory,
-- flags, and a class with its arguments.
pub record Command : Type 0 where
  pub vm : List Bytes
  pub separated : Bool
  pub dir : Bytes
  pub flags : List Flag
  pub main_class : Option (Bytes × List Bytes)

abbrev pub write_class : Option (Bytes × List Bytes) → List Bytes
write_class none = []
write_class (some (name, args)) = name ∷ args

abbrev pub write_flags : List Flag → List Bytes → List Bytes
write_flags [] rest = rest
write_flags (f ∷ flags) rest = write_flag f ∷ write_flags flags rest

abbrev pub separate : Bool → List Bytes → List Bytes
separate true rest = codes "--" ∷ rest
separate false rest = rest

abbrev pub write_vm : List Bytes → List Bytes → List Bytes
write_vm [] rest = rest
write_vm (arg ∷ vm) rest = arg ∷ write_vm vm rest

abbrev pub behind_vm : Command → List Bytes
behind_vm c = c.dir ∷ write_flags c.flags (write_class c.main_class)

abbrev pub write_command : Command → List Bytes
write_command c = write_vm c.vm (separate c.separated (behind_vm c))

abbrev pub IsDashed : Bytes → Type 0
IsDashed arg = get_or arg 0 0 ≡ b'-'

abbrev pub AreOptions : List Bytes → Type 0
AreOptions [] = Unit
AreOptions (arg ∷ vm) = IsDashed arg × (arg ≢ codes "--") × AreOptions vm

abbrev pub HasPlainClass : Option (Bytes × List Bytes) → Type 0
HasPlainClass none = Unit
HasPlainClass (some (name, args)) = ¬ IsDashed name

pub record IsCommand (c : Command) : Type 0 where
  pub options : AreOptions c.vm
  pub plain_dir : c.separated ≡ false → ¬ IsDashed c.dir
  pub plain_class : HasPlainClass c.main_class

-- The comment in main.cpp: everything up to `--` or the first argument without a dash goes to the
-- machine.
pub record TakesOptions (add_vm_arguments : List Bytes → ℕ) : Type 0 where
  pub option :
      (arg : Bytes) (args : List Bytes)
      → IsDashed arg
      → arg ≢ codes "--"
      → add_vm_arguments (arg ∷ args) ≡ suc (add_vm_arguments args)
  pub separator : (args : List Bytes) → add_vm_arguments (codes "--" ∷ args) ≡ 1
  pub plain : (arg : Bytes) (args : List Bytes) → ¬ IsDashed arg → add_vm_arguments (arg ∷ args) ≡ 0

abbrev pub is_zygote : Flag → Bool
is_zygote zygote_flag = true
is_zygote _ = false

abbrev pub is_system_server : Flag → Bool
is_system_server system_server_flag = true
is_system_server _ = false

abbrev pub is_application : Flag → Bool
is_application application_flag = true
is_application _ = false

-- Whether a flag is among the flags, or `b` holds.
abbrev pub given : (Flag → Bool) → Bool → List Flag → Bool
given test b [] = b
given test b (f ∷ flags) = given test (test f || b) flags

-- The name that the last flag with one asks for.
abbrev pub last_name : Option Bytes → List Flag → Option Bytes
last_name name [] = name
last_name name (zygote_flag ∷ flags) = last_name (some (codes "zygote")) flags
last_name name (system_server_flag ∷ flags) = last_name name flags
last_name name (application_flag ∷ flags) = last_name name flags
last_name name (nice_name_flag n ∷ flags) = last_name (some n) flags

-- A name that is not empty is written and set.
abbrev pub named : Bytes → Option Bytes → List Event
named argv0 none = []
named argv0 (some []) = []
named argv0 (some (c ∷ name)) =
    process_named (c ∷ name) ∷ argv0_written (set_argv0 argv0 (c ∷ name)) ∷ []

-- What is to be started, by whether a zygote is asked for and by the class.
abbrev pub outcome :
    Android → Bytes → Command → Bool → Option (Bytes × List Bytes) → Option ℕ × Process
outcome android argv0 c true main_class = (
  some 0,
  record {
    runtime = record { parent_dir = some c.dir; class_name = none; class = none; arguments = [] };
    events =
        runtime_started (codes "com.android.internal.os.ZygoteInit")
          (if given is_system_server false c.flags then codes "start-system-server" else [])
        ∷ named argv0 (last_name none c.flags);
  },
)
outcome android argv0 c false (some (name, args)) = (
  some 0,
  record {
    runtime = record {
      parent_dir = some c.dir;
      class_name = some name;
      class = none;
      arguments = args;
    };
    events =
        runtime_started (codes "com.android.internal.os.RuntimeInit")
          (if given is_application false c.flags then codes "application" else codes "tool")
        ∷ named argv0 (last_name none c.flags);
  },
)
outcome android argv0 c false none = (
  if android.fatal_comes_back then some 10 else none,
  record {
    runtime = record { parent_dir = some c.dir; class_name = none; class = none; arguments = [] };
    events = usage_printed ∷ named argv0 (last_name none c.flags);
  },
)
