-- ===== src/Launcher/Tests.antt =====
-- A launcher over a runtime that takes options as it is documented.
use xylitol.Common.{
  ℕ, suc, ◌≡◌, refl, arith, Bool, true, false, none, some, List, [], ◌∷◌, ◌==◌, if◌then◌else◌,
  Bytes, codes, eqb_bytes, get_or,
}
use xylitol.Controller.{zygote, System, running_changed, started}
use xylitol.Controller.Services.{start_zygote}
use xylitol.Controller.Applications.{run_apk}
use xylitol.Controller.Trackers.{empty}
use xylitol.Common.Int.{pos}
use xylitol.Launcher.{
  Process, Event, runtime_started, base_exit, process_stopped, thread_pool_started, tracing_enabled,
  process_named, argv0_written, Android, strncpy, set_argv0, known_option, read_option,
  read_options, start_runtime, run_launcher, on_zygote_init, on_exit,
}
use xylitol.Launcher.Command.{
  application_flag, nice_name_flag, Command, IsCommand, TakesOptions, write_command, outcome,
}
use xylitol.Launcher.Read.{run_launcher-write_command}
use xylitol.Launcher.Started.{
  done_events, main_events, start_zygote-run_launcher, run_apk-run_launcher,
}

abbrev is_separator : Bytes → Bool
is_separator arg = eqb_bytes arg (codes "--")

take_options : List Bytes → ℕ
take_options [] = 0
take_options (arg ∷ args) =
    let more = take_options args in
    if get_or arg 0 0 == b'-' then (if is_separator arg then 1 else suc more) else 0

is_separator→eq : (arg : Bytes) → is_separator arg ≡ true → arg ≡ codes "--"
is_separator→eq [] h = cc
is_separator→eq (a ∷ []) h = ground arith
is_separator→eq (a ∷ b ∷ []) h = ground arith
is_separator→eq (a ∷ b ∷ c ∷ arg) h = ground arith

take_options-TakesOptions : TakesOptions take_options
unfolding take_options
take_options-TakesOptions = record {
  option = λ arg args d n. ground (arith, is_separator→eq arg);
  separator = λ args. refl;
  plain = λ arg args d. ground arith;
}

abbrev android : Android
android = record {
  add_vm_arguments = take_options;
  to_slash_class_name = λ name. name;
  find_class = λ name. some 5;
  new_global_ref = λ k. k;
  fatal_comes_back = true;
}

abbrev renamed : Command
renamed = record {
  vm = codes "-Xmx16m" ∷ [];
  separated = true;
  dir = codes "-d";
  flags = application_flag ∷ nice_name_flag (codes "app") ∷ [];
  main_class = some (codes "Main", codes "--zygote" ∷ []);
}

renamed-IsCommand : IsCommand renamed
renamed-IsCommand = record {
  options = (refl, (λ e. cc), tt);
  plain_dir = λ e. cc;
  plain_class = λ e. omega arith;
}

run_launcher-write_command_example :
    run_launcher android (codes "launcher") (write_command renamed)
    ≡ outcome android (codes "launcher") renamed false renamed.main_class
run_launcher-write_command_example =
    run_launcher-write_command android take_options-TakesOptions (codes "launcher") renamed
      renamed-IsCommand

-- No class and no zygote, and an exit then.
nothing : (run_launcher android (codes "launcher") (codes "-v" ∷ codes "/bin" ∷ [])).0 ≡ some 10
unfolding run_launcher take_options read_options read_option start_runtime
nothing = refl

abbrev zygote_events : List Event
zygote_events =
    base_exit 3
    ∷ process_stopped
    ∷ thread_pool_started
    ∷ tracing_enabled
    ∷ runtime_started (codes "com.android.internal.os.ZygoteInit") []
    ∷ process_named (codes "zygote")
    ∷ argv0_written (b'z' ∷ b'y' ∷ [])
    ∷ []

abbrev zygote_ended : Process
zygote_ended =
    on_exit 3
      (on_zygote_init (run_launcher android (codes "la") (codes "/bin" ∷ codes "--zygote" ∷ [])).1)

ended : zygote_ended.events ≡ zygote_events
unfolding run_launcher take_options read_options read_option known_option start_runtime on_exit
    on_zygote_init set_argv0 strncpy
ended = refl

abbrev sys : System
sys = record {
  android_root = codes "/opt";
  exists = λ _. true;
  to_lower = λ name. name;
  process_id = λ _ _. pos 9;
  cmdline = λ _ _. [];
}

start_zygote-run_launcher_example :
    (args : List Bytes) × ((start_zygote sys empty).events
      ≡ running_changed zygote
        ∷ started empty.fresh (codes "/opt/system/bin/shashlik_launcher") args
        ∷ [])
    × (run_launcher android (codes "/opt/system/bin/shashlik_launcher") args ≡ (
      some 0,
      record {
        runtime = record {
          parent_dir = some (codes "/opt/system/bin/");
          class_name = none;
          class = none;
          arguments = [];
        };
        events =
            runtime_started
              (codes "com.android.internal.os.ZygoteInit")
              (codes "start-system-server")
            ∷ process_named (codes "zygote")
            ∷ argv0_written (set_argv0 (codes "/opt/system/bin/shashlik_launcher") (codes "zygote"))
            ∷ [];
      },
    ))
start_zygote-run_launcher_example =
    start_zygote-run_launcher sys android take_options-TakesOptions empty refl refl

run_apk-run_launcher_example :
    (args : List Bytes) × ((run_apk sys (codes "file:///a.apk") empty).events
      ≡ started empty.fresh (codes "/opt/system/bin/shashlik_launcher") args ∷ [])
    × (done_events android (codes "/opt/system/bin/shashlik_launcher") args
        ≡ main_events android (codes "com.android.commands.launch.Launch") (codes "/a.apk" ∷ []) 5)
run_apk-run_launcher_example =
    run_apk-run_launcher sys android take_options-TakesOptions empty (codes "file:///a.apk") 5 refl
      refl refl
