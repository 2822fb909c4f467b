-- ===== src/Launcher/Started.antt =====
-- launcher/main.cpp with controller/Controller.cpp: what the launcher does in the processes that the
-- controller starts it in, up to the end of AppRuntime's callbacks.
use xylitol.Common.{
  ℕ, ◌≡◌, refl, ap, ◌∙◌, arith, true, false, Option, none, some, List, [], ◌∷◌, ◌++◌, Bytes, codes,
  get_or,
}
use xylitol.Controller.{zygote, Controller, System, started, running_changed}
use xylitol.Controller.Services.{running, system_bin, launch, start_zygote}
use xylitol.Controller.Applications.{local_file, run_apk}
use xylitol.Launcher.{
  runtime_started, process_named, argv0_written, set_argv0, thread_pool_started, main_called,
  process_stopped, Event, Process, Android, run_launcher, on_vm_created, on_started,
}
use xylitol.Launcher.Command.{
  zygote_flag, system_server_flag, Command, IsDashed, IsCommand, TakesOptions, write_command,
}
use xylitol.Launcher.Read.{run_launcher-write_command}

-- The root of the system is an absolute path.
abbrev pub HasRoot : System → Type 0
HasRoot sys = get_or sys.android_root 0 0 ≡ b'/'

plain-system_bin : (sys : System) (name : Bytes) → HasRoot sys → ¬ IsDashed (system_bin sys name)
plain-system_bin sys name h = plain sys.android_root h
  where
    plain :
        (root : Bytes) → get_or root 0 0 ≡ b'/' → ¬ IsDashed (root ++ codes "/system/bin/" ++ name)
    plain [] e d = omega arith
    plain (c ∷ root) e d = omega arith

module _ (sys : System) where
  abbrev pub zygote_command : Command
  zygote_command = record {
    vm = codes "-Xzygote" ∷ [];
    separated = false;
    dir = system_bin sys [];
    flags = zygote_flag ∷ system_server_flag ∷ [];
    main_class = none;
  }

  zygote_command-IsCommand : HasRoot sys → IsCommand zygote_command
  zygote_command-IsCommand h = record {
    options = (refl, (λ e. cc), tt);
    plain_dir = λ e. plain-system_bin sys [] h;
    plain_class = tt;
  }

  abbrev pub java_command : Bytes → List Bytes → Command
  java_command name args = record {
    vm = [];
    separated = false;
    dir = system_bin sys [];
    flags = [];
    main_class = some (name, args);
  }

  java_command-IsCommand :
      (name : Bytes) (args : List Bytes)
      → HasRoot sys
      → ¬ IsDashed name
      → IsCommand (java_command name args)
  java_command-IsCommand name args h plain = record {
    options = tt;
    plain_dir = λ e. plain-system_bin sys [] h;
    plain_class = plain;
  }

-- A controller without a zygote starts the launcher with arguments that it reads as follows: it
-- takes the name `zygote`, starts ZygoteInit with the system server, and returns 0. The root of the
-- system is an absolute path, and AndroidRuntime takes the options in front of the directory.
pub start_zygote-run_launcher :
    (sys : System) (android : Android) (takes : TakesOptions android.add_vm_arguments)
    (c : Controller)
    → HasRoot sys
    → running zygote c ≡ false
    → (args : List Bytes) × ((start_zygote sys c).events
        ≡ running_changed zygote
          ∷ started c.fresh (system_bin sys (codes "shashlik_launcher")) args
          ∷ c.events)
      × (run_launcher android (system_bin sys (codes "shashlik_launcher")) args ≡ (
        some 0,
        record {
          runtime = record {
            parent_dir = some (system_bin sys []);
            class_name = none;
            class = none;
            arguments = [];
          };
          events =
              runtime_started
                (codes "com.android.internal.os.ZygoteInit")
                (codes "start-system-server")
              ∷ process_named (codes "zygote")
              ∷ argv0_written
                  (set_argv0 (system_bin sys (codes "shashlik_launcher")) (codes "zygote"))
              ∷ [];
        },
      ))
unfolding start_zygote launch
start_zygote-run_launcher sys android takes c root idle = (
  write_command (zygote_command sys),
  rw idle refl,
  run_launcher-write_command android takes _ (zygote_command sys)
      (zygote_command-IsCommand sys root),
)

-- Between `start` and the end of the launcher: the machine is created, and then the class started.
abbrev pub callbacks : Android → Process → Process
callbacks android p = on_started (on_vm_created android p)

abbrev pub done_events : Android → Bytes → List Bytes → List Event
done_events android argv0 args =
    let p = callbacks android (run_launcher android argv0 args).1 in p.events

-- What the launcher with a class and its arguments has done when AppRuntime's callbacks are through,
-- newest first.
abbrev pub main_events : Android → Bytes → List Bytes → ℕ → List Event
main_events android name args k =
    process_stopped
    ∷ main_called (some name) (android.new_global_ref (some k)) args
    ∷ thread_pool_started
    ∷ runtime_started (codes "com.android.internal.os.RuntimeInit") (codes "tool")
    ∷ []

java_command-callbacks :
    (sys : System) (android : Android) (takes : TakesOptions android.add_vm_arguments)
    (name : Bytes) (args : List Bytes) (k : ℕ) (argv0 : Bytes)
    → HasRoot sys
    → ¬ IsDashed name
    → android.find_class (android.to_slash_class_name name) ≡ some k
    → done_events android argv0 (write_command (java_command sys name args))
      ≡ main_events android name args k
unfolding on_vm_created on_started
java_command-callbacks sys android takes name args k argv0 root plain found =
    ap (λ (r : Option ℕ × Process). let p = callbacks android r.1 in p.events)
      (run_launcher-write_command android takes argv0 (java_command sys name args)
        (java_command-IsCommand sys name args root plain))
    ∙ rw found refl

-- For a file that is there, the controller starts the launcher with arguments for which it calls
-- main of com.android.commands.launch.Launch with this file, in a process with a thread pool, and
-- then ends the process. The root of the system is an absolute path, the class is found, and
-- AndroidRuntime takes the options in front of the directory.
pub run_apk-run_launcher :
    (sys : System) (android : Android) (takes : TakesOptions android.add_vm_arguments)
    (c : Controller) (apk_file : Bytes) (k : ℕ)
    → HasRoot sys
    → sys.exists (local_file sys apk_file) ≡ true
    → android.find_class (android.to_slash_class_name (codes "com.android.commands.launch.Launch"))
      ≡ some k
    → (args : List Bytes) × ((run_apk sys apk_file c).events
        ≡ started c.fresh (system_bin sys (codes "shashlik_launcher")) args ∷ c.events)
      × (done_events android (system_bin sys (codes "shashlik_launcher")) args
          ≡ main_events android
              (codes "com.android.commands.launch.Launch")
              (local_file sys apk_file ∷ [])
              k)
unfolding run_apk
run_apk-run_launcher sys android takes c apk_file k root there found = (
  write_command (
      java_command sys (codes "com.android.commands.launch.Launch") (local_file sys apk_file ∷ [])),
  rw there refl,
  java_command-callbacks sys android takes _ _ k _ root (λ e. omega arith) found,
)
