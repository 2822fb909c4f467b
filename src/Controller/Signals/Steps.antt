-- ===== src/Controller/Signals/Steps.antt =====
-- What can happen to a controller, in any order: its functions are called, and the signals of
-- processes and trackers arrive, from whatever sender.
pub mod Quiet
pub mod Notify
pub mod Exits
pub mod Made
use xylitol.Common.{ℕ, Bool, Option, some, List, ◌≡◌, Bytes}
use xylitol.Common.Int.{ℤ}
use xylitol.Controller.{Controller, System, set_quit_on_error}
use xylitol.Controller.Services.{
  stop, start_zygote, start_surfaceflinger, start_servicemanager, start_adbd, start_installd,
  start_bootanimation,
}
use xylitol.Controller.Applications.{run_apk, run_am}
use xylitol.Controller.Signals.{log_something, process_exited, tracker_exited}
use xylitol.Controller.Trackers.{Numbers, Entry, new_controller}

module _ (sys : System) where
  pub data Step (c : Controller) : Controller → Type 0 where
    quit_on_error_set : (new_value : Bool) → Step c (set_quit_on_error new_value c)
    zygote_started : Step c (start_zygote sys c)
    surfaceflinger_started : Step c (start_surfaceflinger sys c)
    servicemanager_started : Step c (start_servicemanager sys c)
    adbd_started : Step c (start_adbd sys c)
    installd_started : Step c (start_installd sys c)
    bootanimation_started : Step c (start_bootanimation sys c)
    all_stopped : Step c (stop c)
    apk_run : (file : Bytes) → Step c (run_apk sys file c)
    am_run : (arguments : Bytes) → Step c (run_am sys arguments c)
    output_ready : (proc : ℕ) (lines : List Bytes) → Step c (log_something sys proc lines c)
    process_ended : (proc : ℕ) (code status : ℤ) → Step c (process_exited proc code status c)
    tracker_ended : (sender : ℕ) → Step c (tracker_exited sender c)

  -- Any number of steps from the controller that the constructor makes.
  pub data Reachable (first : Controller) : Controller → Type 0 where
    here : Reachable first first
    step : {c c' : Controller} → Reachable first c → Step c c' → Reachable first c'
