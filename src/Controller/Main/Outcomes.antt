-- ===== src/Controller/Main/Outcomes.antt =====
-- An application is opened while the environment is not complete.
use xylitol.Common.{
  ◌≡◌, refl, ap, ◌∙◌, inl, inr, Bool, true, false, Bool-cases, Option, some, List, if◌then◌else◌,
  Bytes,
}
use xylitol.Controller.{
  Service, zygote, service_manager, surfaceflinger, installd, adbd, eqb_service, Tracker,
  no_environment, already_running, critical_level, Event, error, killed, quit_scheduled, Controller,
  System, emit, quit_if_asked,
}
use xylitol.Controller.Services.{
  running, stop, launch, start_zygote, start_surfaceflinger, start_servicemanager, start_installd,
  start_adbd, start, restart,
}
use xylitol.Controller.Services.Stopping.{Happened, before, stop-IsTracked}
use xylitol.Controller.Applications.{run_apk, local_file}
use xylitol.Controller.Main.{incomplete, open_apk}

-- A step that keeps the tracker of the service manager `t` and the event.
record Keeps (t : Tracker) (event : Event) (c : Controller) : Type 0 where
  holds : c.tracker service_manager ≡ some t
  happened : Happened event c.events

module _ (sys : System) (t : Tracker) (event : Event) where
  quit-Keeps : (c : Controller) → Keeps t event c → Keeps t event (quit_if_asked c)
  quit-Keeps c h = go c.quit_on_error
    where
      go : (b : Bool) → Keeps t event (if b then emit (quit_scheduled 1000) c else c)
      go true = record { holds = h.holds; happened = before h.happened }
      go false = h

  launch-Keeps :
      (s : Service) (program : Bytes) (arguments : List Bytes) (c : Controller)
      → eqb_service s service_manager ≡ false
      → Keeps t event c
      → Keeps t event (launch sys s program arguments c)
  unfolding launch
  launch-Keeps s program arguments c other h = record {
    holds = rw other h.holds;
    happened = before (before h.happened);
  }

  guarded-Keeps :
      (s : Service) (program : Bytes) (arguments : List Bytes) (c : Controller)
      → eqb_service s service_manager ≡ false
      → Keeps t event c
      → Keeps t event (if running s c then c else launch sys s program arguments c)
  guarded-Keeps s program arguments c other h = elim (Bool-cases (running s c)) [
    | inl e ↦ rw e h
    | inr e ↦ rw e (launch-Keeps s program arguments c other h)
  ]

  start_servicemanager-Keeps :
      (c : Controller) → Keeps t event c → Keeps t event (start_servicemanager sys c)
  unfolding start_servicemanager
  start_servicemanager-Keeps c h = rw h.holds (
      quit-Keeps (emit (error already_running critical_level) c)
        (record { holds = h.holds; happened = before h.happened }))

  start-Keeps : (c : Controller) → Keeps t event c → Keeps t event (start sys c)
  unfolding start start_adbd start_zygote start_surfaceflinger start_installd
  start-Keeps c h = guarded-Keeps adbd _ _ _ refl (
      guarded-Keeps zygote _ _ _ refl (
        guarded-Keeps surfaceflinger _ _ _ refl
          (guarded-Keeps installd _ _ _ refl (start_servicemanager-Keeps c h))))

  run_apk-Keeps :
      (file : Bytes) (c : Controller) → Keeps t event c → Keeps t event (run_apk sys file c)
  unfolding run_apk
  run_apk-Keeps file c h = elim (Bool-cases (sys.exists (local_file sys file))) [
    | inl e ↦ rw e (record { holds = h.holds; happened = before h.happened })
    | inr e ↦ rw e h
  ]

  told-Keeps :
      (c : Controller)
      → Keeps t event c
      → Keeps t event (
          if incomplete c
          then emit (quit_scheduled 0) (emit (error no_environment critical_level) c)
          else c)
  told-Keeps c h = elim (Bool-cases (incomplete c)) [
    | inl e ↦ rw e (record { holds = h.holds; happened = before (before h.happened) })
    | inr e ↦ rw e h
  ]

-- Where the service manager runs and zygote or SurfaceFlinger does not, opening a file sends SIGTERM
-- to the service manager and does not start it again: the controller holds the same tracker for it.
pub open_apk-killed :
    (sys : System) (file : Bytes) (c : Controller) (t : Tracker)
    → c.tracker service_manager ≡ some t
    → incomplete c ≡ true
    → ((open_apk sys file c).tracker service_manager ≡ some t)
      × Happened (killed t.process_id) (open_apk sys file c).events
unfolding open_apk restart
open_apk-killed sys file c t held broken =
    let stopped = stop-IsTracked c t (inl (service_manager, held)) in
    let kept : Keeps t (killed t.process_id) (stop c) = record {
      holds = ap (λ (tracker : Service → Option Tracker). tracker service_manager) stopped.2 ∙ held;
      happened = stopped.0;
    } in
    let opened : Keeps t (killed t.process_id) (open_apk sys file c) = rw broken (
      run_apk-Keeps sys t (killed t.process_id) file _ (
        told-Keeps sys t (killed t.process_id) _
          (start-Keeps sys t (killed t.process_id) (stop c) kept))) in
    (opened.holds, opened.happened)
