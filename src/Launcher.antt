-- ===== src/Launcher.antt =====
-- legacy/old-shashlik/src/launcher: main.cpp reads the command line of the launcher and starts the
-- Android runtime; AppRuntime.cpp is what the runtime calls back. AndroidRuntime, the classes of the
-- Java machine and the system's log are the parameter `Android`.
pub mod Command
pub mod Read
pub mod Started
mod Tests
use xylitol.Common.{
  ℕ, zero, suc, ◌-◌, Bool, true, false, Option, none, some, List, [], ◌∷◌, if◌then◌else◌, Bytes,
  codes, eqb_bytes, length, take,
}

-- A class of the Java machine, by its address.
pub record AppRuntime : Type 0 where
  pub parent_dir : Option Bytes
  pub class_name : Option Bytes
  pub class : Option ℕ
  -- m_argC strings from m_argV on
  pub arguments : List Bytes

-- What the launcher does to the outside.
pub data Event : Type 0 where
  -- the bytes in the place of argv[0]
  argv0_written : Bytes → Event
  process_named : Bytes → Event
  -- AndroidRuntime::start(className, options)
  runtime_started : Bytes → Bytes → Event
  usage_printed : Event
  class_not_found : Bytes → Event
  tracing_enabled : Event
  thread_pool_started : Event
  -- AndroidRuntime::callMain(className, class, arguments)
  main_called : Option Bytes → Option ℕ → List Bytes → Event
  process_stopped : Event
  -- AndroidRuntime::onExit(code)
  base_exit : ℕ → Event

-- A process of the launcher, with its events, newest first.
pub record Process : Type 0 where
  pub runtime : AppRuntime
  pub events : List Event

pub record Android : Type 0 where
  -- how many arguments AndroidRuntime::addVmArguments takes
  pub add_vm_arguments : List Bytes → ℕ
  pub to_slash_class_name : Bytes → Bytes
  pub find_class : Bytes → Option ℕ
  pub new_global_ref : Option ℕ → Option ℕ
  -- whether LOG_ALWAYS_FATAL comes back
  pub fatal_comes_back : Bool

abbrev pub emit : Event → Process → Process
emit event p = record p { events = event ∷ p.events }

-- AppRuntime::AppRuntime()
abbrev pub new_runtime : AppRuntime
new_runtime = record { parent_dir = none; class_name = none; class = none; arguments = [] }

-- strncpy: as many bytes as asked for, with zeros behind a shorter text.
unfoldable pub strncpy : Bytes → ℕ → Bytes
strncpy s zero = []
strncpy [] (suc n) = 0 ∷ strncpy [] n
strncpy (c ∷ s) (suc n) = c ∷ strncpy s n

-- The bytes in the place of argv[0], in front of its NUL.
unfoldable pub set_argv0 : Bytes → Bytes → Bytes
set_argv0 argv0 new_argv0 = strncpy new_argv0 (length argv0)

-- The variables of main that its loop sets, and argv + i.
pub record Options : Type 0 where
  pub zygote : Bool
  pub start_system_server : Bool
  pub application : Bool
  pub parent_dir : Option Bytes
  pub nice_name : Option Bytes
  pub class_name : Option Bytes
  pub rest : List Bytes

abbrev pub no_options : Options
no_options = record {
  zygote = false;
  start_system_server = false;
  application = false;
  parent_dir = none;
  nice_name = none;
  class_name = none;
  rest = [];
}

abbrev pub skip : ℕ → Bytes → Bytes
skip zero s = s
skip (suc n) [] = []
skip (suc n) (c ∷ s) = skip n s

-- An argument behind the directory that is an option.
unfoldable pub known_option : Bytes → Options → Option Options
known_option arg o =
    if eqb_bytes arg (codes "--zygote")
    then some (record o { zygote = true; nice_name = some (codes "zygote") })
    else if eqb_bytes arg (codes "--start-system-server")
    then some (record o { start_system_server = true })
    else if eqb_bytes arg (codes "--application")
    then some (record o { application = true })
    else if eqb_bytes (take 12 arg) (codes "--nice-name=")
    then some (record o { nice_name = some (skip 12 arg) })
    else none

unfoldable pub read_option : Bytes → Options → Option Options
read_option arg o = elim o.parent_dir [
  | none ↦ some (record o { parent_dir = some arg })
  | some dir ↦ known_option arg o
]

-- while (i < argc)
unfoldable pub read_options : List Bytes → Options → Options
read_options [] o = record o { rest = [] }
read_options (arg ∷ args) o = elim (read_option arg o) [
  | some o' ↦ read_options args o'
  | none ↦ record o { class_name = some arg; rest = args }
]

-- if (niceName && *niceName)
abbrev pub rename : Option Bytes → Bytes → Process → Process
rename none argv0 p = p
rename (some []) argv0 p = p
rename (some (c ∷ name)) argv0 p =
    emit (process_named (c ∷ name)) (emit (argv0_written (set_argv0 argv0 (c ∷ name))) p)

abbrev pub drop {ℓ} : {A : Type ℓ} → ℕ → List A → List A
drop zero xs = xs
drop (suc n) [] = []
drop (suc n) (x ∷ xs) = drop n xs

module _ (android : Android) where
  -- The status of main, or nothing where the process is aborted.
  unfoldable pub start_runtime : Options → Process → Option ℕ × Process
  start_runtime o p =
      if o.zygote
      then (
        some 0,
        emit
            (runtime_started (codes "com.android.internal.os.ZygoteInit")
              (if o.start_system_server then codes "start-system-server" else []))
            p,
      )
      else (elim o.class_name [
        | some name ↦ (
          some 0,
          emit
              (runtime_started (codes "com.android.internal.os.RuntimeInit")
                (if o.application then codes "application" else codes "tool"))
              (record p {
                runtime = record p.runtime { class_name = some name; arguments = o.rest };
              }),
        )
        | none ↦ (if android.fatal_comes_back then some 10 else none, emit usage_printed p)
      ])

  -- `args` is argv without argv[0].
  unfoldable pub run_launcher : Bytes → List Bytes → Option ℕ × Process
  run_launcher argv0 args =
      let o = read_options (drop (android.add_vm_arguments args) args) no_options in
      let p = rename o.nice_name argv0 (record { runtime = new_runtime; events = [] }) in
      start_runtime o (record p { runtime = record p.runtime { parent_dir = o.parent_dir } })

  unfoldable pub on_vm_created : Process → Process
  on_vm_created p = elim p.runtime.class_name [
    | none ↦ p
    | some name ↦ elim (android.find_class (android.to_slash_class_name name)) [
      | none ↦
          emit (class_not_found name)
            (record p { runtime = record p.runtime { class = android.new_global_ref none } })
      | some k ↦ record p { runtime = record p.runtime { class = android.new_global_ref (some k) } }
    ]
  ]

unfoldable pub on_started : Process → Process
on_started p =
    let r = p.runtime in
    emit process_stopped
      (emit (main_called r.class_name r.class r.arguments) (emit thread_pool_started p))

unfoldable pub on_zygote_init : Process → Process
on_zygote_init p = emit thread_pool_started (emit tracing_enabled p)

unfoldable pub on_exit : ℕ → Process → Process
on_exit code p = elim p.runtime.class_name [
  | none ↦ emit (base_exit code) (emit process_stopped p)
  | some name ↦ emit (base_exit code) p
]
