-- ===== src/Controller/Signals.antt =====
-- Controller.cpp: the slots for the signals of processes and trackers, and the destructor. What
-- Qt's `sender()` returns is an argument, the address of the process or the tracker.
pub mod Steps
pub mod Ends
use xylitol.Common.{
  ℕ, ◌+◌, Bool, true, false, not, ◌||◌, Option, none, some, List, [], ◌∷◌, ◌==◌, if◌then◌else◌,
  Bytes,
}
use xylitol.Common.Int.{ℤ, pos, eqb_ℤ}
use xylitol.Controller.{
  Service, zygote, service_manager, surfaceflinger, installd, bootanimation, adbd, Tracker,
  Application, zygote_exited, service_manager_exited, surfaceflinger_exited, installd_exited,
  bootanimation_exited, adbd_exited, application_crashed, program_exited, warning_level,
  critical_level, Origin, from_service, from_application, from_unknown, error, running_changed,
  terminated, deleted_later, printed, normal_exit, Controller, System, set, emit, quit_if_asked,
}
use xylitol.Controller.Services.{stop}

-- The first of the services, in the order of the tests, that passes.
unfoldable pub first_of : (Service → Bool) → List Service → Option Service
first_of test [] = none
first_of test (s ∷ services) = if test s then some s else first_of test services

abbrev pub is_process : ℕ → Controller → Service → Bool
is_process proc c s = elim (c.process s) [ none ↦ false | some p ↦ proc == p ]

abbrev pub is_tracker : ℕ → Controller → Service → Bool
is_tracker sender c s = elim (c.tracker s) [ none ↦ false | some t ↦ sender == t.address ]

abbrev pub process_order : List Service
process_order = zygote ∷ service_manager ∷ surfaceflinger ∷ installd ∷ bootanimation ∷ adbd ∷ []

abbrev pub tracker_order : List Service
tracker_order = installd ∷ bootanimation ∷ adbd ∷ service_manager ∷ surfaceflinger ∷ zygote ∷ []

-- The application with that process.
unfoldable pub find_application : ℕ → List Application → Option Application
find_application proc [] = none
find_application proc (a ∷ applications) =
    if proc == a.address then some a else find_application proc applications

unfoldable pub origin : System → ℕ → Controller → Origin
origin sys proc c = elim (first_of (is_process proc c) process_order) [
  | some s ↦ from_service s
  | none ↦ elim (find_application proc c.applications) [
    | some a ↦ from_application a.name
    | none ↦ from_unknown (sys.process_id c.events proc)
  ]
]

unfoldable pub print_lines : Origin → List Bytes → Controller → Controller
print_lines from [] c = c
print_lines from (line ∷ lines) c = print_lines from lines (emit (printed from line) c)

-- The lines that can be read. A line is printed as it is; that the code passes it to `printf` as the
-- format is left out.
unfoldable pub log_something : System → ℕ → List Bytes → Controller → Controller
log_something sys proc lines c = print_lines (origin sys proc c) lines c

unfoldable pub service_exited : Service → ℤ → ℤ → Controller → Controller
service_exited zygote code status c =
    quit_if_asked (stop (emit (error zygote_exited critical_level) c))
service_exited service_manager code status c =
    quit_if_asked (stop (emit (error service_manager_exited critical_level) c))
service_exited surfaceflinger code status c =
    quit_if_asked (emit (error (surfaceflinger_exited code status) critical_level) c)
service_exited installd code status c = emit (error installd_exited warning_level) c
service_exited bootanimation code status c =
    emit (error (bootanimation_exited code status) warning_level) c
service_exited adbd code status c = emit (error adbd_exited warning_level) c

-- processExited(int, QProcess::ExitStatus); the exit code is compared with QProcess::CrashExit.
unfoldable pub process_exited : ℕ → ℤ → ℤ → Controller → Controller
process_exited proc code status c = elim (first_of (is_process proc c) process_order) [
  | some s ↦ service_exited s code status c
  | none ↦ elim (find_application proc c.applications) [
    | some a ↦ quit_if_asked (
        if eqb_ℤ code (pos 1)
        then emit (error (application_crashed a.name) warning_level) c
        else emit (normal_exit a.name) c)
    | none ↦ emit (error (program_exited proc) warning_level) c
  ]
]

unfoldable pub delete_tracker : Service → Controller → Controller
delete_tracker s c = elim (c.tracker s) [
  | none ↦ c
  | some t ↦ record c {
    tracker = set s none c.tracker;
    events = running_changed s ∷ deleted_later t.address ∷ c.events;
  }
]

unfoldable pub remove_all : ℕ → List Tracker → List Tracker
remove_all address [] = []
remove_all address (t ∷ trackers) =
    let rest = remove_all address trackers in if address == t.address then rest else t ∷ rest

unfoldable pub first_with_process : List Tracker → Option Tracker
first_with_process [] = none
first_with_process (t ∷ trackers) =
    if not (eqb_ℤ t.process_id (pos 0)) then some t else first_with_process trackers

-- The last branch of processExited().
unfoldable pub remove_application_tracker : Controller → Controller
remove_application_tracker c = elim (first_with_process c.application_trackers) [
  | none ↦ c
  | some t ↦ record c {
    application_trackers = remove_all t.address c.application_trackers;
    events = deleted_later t.address ∷ c.events;
  }
]

-- processExited()
unfoldable pub tracker_exited : ℕ → Controller → Controller
tracker_exited sender c = elim (first_of (is_tracker sender c) tracker_order) [
  | some s ↦ delete_tracker s c
  | none ↦ remove_application_tracker c
]

abbrev pub terminate : Service → Controller → Controller
terminate s c = elim (c.process s) [ none ↦ c | some p ↦ emit (terminated p) c ]

unfoldable pub terminate_applications : List Application → Controller → Controller
terminate_applications [] c = c
terminate_applications (a ∷ applications) c =
    terminate_applications applications (emit (terminated a.address) c)

-- ~Private()
unfoldable pub destroy : Controller → Controller
destroy c = terminate_applications c.applications (
    terminate bootanimation (
      terminate adbd (
        terminate installd
          (terminate surfaceflinger (terminate service_manager (terminate zygote c))))))
