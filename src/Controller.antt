-- ===== src/Controller.antt =====
-- legacy/old-shashlik/src/controller: the controller keeps a process and a process tracker for each
-- of the six services, and those of the applications that it started. This file has its state and
-- what it does to the outside; the calls of Qt and of the system are the parameter `System`.
pub mod Trackers
pub mod Services
pub mod Applications
pub mod Signals
pub mod Main
pub mod Environment
mod Tests
use xylitol.Common.{
  ℕ, Bool, true, false, Option, none, some, List, [], ◌∷◌, ◌==◌, if◌then◌else◌, Bytes,
}
use xylitol.Common.Int.{ℤ}

pub data Service : Type 0 where
  zygote service_manager surfaceflinger installd bootanimation adbd : Service

abbrev pub index : Service → ℕ
index zygote = 0
index service_manager = 1
index surfaceflinger = 2
index installd = 3
index bootanimation = 4
index adbd = 5

abbrev pub eqb_service : Service → Service → Bool
eqb_service s t = index s == index t

-- `ProcessTracker`, with its address.
pub record Tracker : Type 0 where
  pub address : ℕ
  pub process_id : ℤ
  pub arguments : List Bytes

-- A `QProcess` of an application, with its address and the name that is set for it.
pub record Application : Type 0 where
  pub address : ℕ
  pub name : Bytes

pub data ErrorLevel : Type 0 where
  debug_level warning_level critical_level : ErrorLevel

-- The texts that `error` is emitted with.
pub data Description : Type 0 where
  zygote_exited service_manager_exited : Description
  surfaceflinger_exited : ℤ → ℤ → Description
  installd_exited : Description
  bootanimation_exited : ℤ → ℤ → Description
  adbd_exited already_running no_environment : Description
  application_crashed : Bytes → Description
  program_exited : ℕ → Description

-- Whom a line of output comes from.
pub data Origin : Type 0 where
  from_service : Service → Origin
  from_application : Bytes → Origin
  from_unknown : ℤ → Origin

-- What the controller does to the outside. An address stands for a process or a tracker.
pub data Event : Type 0 where
  error : Description → ErrorLevel → Event
  running_changed : Service → Event
  quit_on_error_changed : Event
  -- quit() after so many milliseconds
  quit_scheduled : ℕ → Event
  started : ℕ → Bytes → List Bytes → Event
  killed : ℤ → Event
  terminated : ℕ → Event
  deleted_later : ℕ → Event
  printed : Origin → Bytes → Event
  normal_exit : Bytes → Event
  status_printed : Bytes → Bool → Event
  view_opened : Event

-- The members of `Controller::Private` that change, the address of the next object, and the events,
-- newest first.
pub record Controller : Type 0 where
  pub quit_on_error : Bool
  pub process : Service → Option ℕ
  pub tracker : Service → Option Tracker
  pub applications : List Application
  pub application_trackers : List Tracker
  pub fresh : ℕ
  pub events : List Event

pub record System : Type 0 where
  -- androidRootDir
  pub android_root : Bytes
  -- QFile::exists; QString::toLower
  pub exists : Bytes → Bool
  pub to_lower : Bytes → Bytes
  -- processId() of a process that was started
  pub process_id : List Event → ℕ → ℤ
  -- the arguments that a new tracker reads from /proc/<pid>/cmdline
  pub cmdline : List Event → ℤ → List Bytes

abbrev pub set {ℓ} : {A : Type ℓ} → Service → A → (Service → A) → Service → A
set s x f t = if eqb_service s t then x else f t

abbrev pub emit : Event → Controller → Controller
emit event c = record c { events = event ∷ c.events }

-- if(d->quitOnError) QTimer::singleShot(1000, qApp, SLOT(quit()));
abbrev pub quit_if_asked : Controller → Controller
quit_if_asked c = if c.quit_on_error then emit (quit_scheduled 1000) c else c

pub set_quit_on_error : Bool → Controller → Controller
set_quit_on_error new_value c = emit quit_on_error_changed (record c { quit_on_error = new_value })
