-- ===== src/Controller/Signals/Steps/Notify.antt =====
-- The property `…Running` of each service and the signal that it has changed.
use xylitol.Common.{
  ℕ, ◌==◌, ◌≡◌, refl, sym, ap, ◌∙◌, inl, inr, Bool, true, false, Option, none, some, List, ◌∷◌,
  if◌then◌else◌, Bytes, Bool-cases, ==_iff,
}
use xylitol.Controller.{
  Service, zygote, service_manager, surfaceflinger, installd, bootanimation, adbd, index,
  eqb_service, Tracker, error, already_running, critical_level, running_changed, deleted_later,
  Controller, System, set, emit, quit_if_asked,
}
use xylitol.Controller.Services.{
  is_some, running, launch, start_zygote, start_surfaceflinger, start_servicemanager, start_adbd,
  start_installd, start_bootanimation,
}
use xylitol.Controller.Trackers.{Numbers, Entry, new_controller}
use xylitol.Controller.Trackers.Arguments.{new_controller-events}
use xylitol.Controller.Signals.{
  first_of, is_tracker, tracker_order, delete_tracker, remove_application_tracker, tracker_exited,
}
use xylitol.Controller.Signals.Steps.{
  Step, quit_on_error_set, zygote_started, surfaceflinger_started, servicemanager_started,
  adbd_started, installd_started, bootanimation_started, all_stopped, apk_run, am_run, output_ready,
  process_ended, tracker_ended, Reachable, here, step,
}
use xylitol.Controller.Signals.Steps.Quiet.{
  shown, Quiet, Quiet-trans, quit-Quiet, error-Quiet, stop-Quiet, process_exited-Quiet,
  remove_application_tracker-Quiet, run_apk-Quiet, run_am-Quiet, set_quit_on_error-Quiet,
  log_something-Quiet,
}

service_at : ℕ → Service
service_at n =
    if n == 0
    then zygote
    else if n == 1
    then service_manager
    else if n == 2
    then surfaceflinger
    else if n == 3
    then installd
    else if n == 4
    then bootanimation
    else adbd

index_lem : (s : Service) → service_at (index s) ≡ s
unfolding service_at
index_lem zygote = refl
index_lem service_manager = refl
index_lem surfaceflinger = refl
index_lem installd = refl
index_lem bootanimation = refl
index_lem adbd = refl

pub eqb_service_sound : (s t : Service) → eqb_service s t ≡ true → s ≡ t
eqb_service_sound s t h =
    sym (index_lem s) ∙ ap service_at ((==_iff (index s) (index t)).0 h) ∙ index_lem t

-- What is shown for every service is whether it is running.
abbrev pub AllShown : (Service → Bool) → Controller → Type 0
AllShown initial c = (s : Service) → running s c ≡ shown (initial s) s c.events

quiet_lem :
    (initial : Service → Bool) {c c' : Controller}
    → Quiet c c'
    → AllShown initial c
    → AllShown initial c'
quiet_lem initial quiet h s =
    ap (λ (tracker : Service → Option Tracker). is_some (tracker s)) quiet.tracker_is
    ∙ h s
    ∙ sym (quiet.shown_is (initial s) s)

launch_lem :
    (initial : Service → Bool) (sys : System) (x : Service) (program : Bytes)
    (arguments : List Bytes) (c : Controller)
    → running x c ≡ false
    → AllShown initial c
    → AllShown initial (launch sys x program arguments c)
unfolding launch shown
launch_lem initial sys x program arguments c idle h s = elim (Bool-cases (eqb_service x s)) [
  | inl e ↦
      let was : shown (initial s) s c.events ≡ false =
        sym (h s) ∙ ap (λ (t : Service). running t c) (sym (eqb_service_sound x s e)) ∙ idle in
      rw (e, was) refl
  | inr e ↦ rw e (h s)
]

delete_lem :
    (initial : Service → Bool) (x : Service) (c : Controller)
    → AllShown initial c
    → AllShown initial (delete_tracker x c)
unfolding delete_tracker shown
delete_lem initial x c h = go (c.tracker x) refl
  where
    changed :
        (t : Tracker)
        → c.tracker x ≡ some t
        → AllShown initial (record c {
          tracker = set x none c.tracker;
          events = running_changed x ∷ deleted_later t.address ∷ c.events;
        })
    changed t held s = elim (Bool-cases (eqb_service x s)) [
      | inl e ↦
          let was : shown (initial s) s c.events ≡ true =
            sym (h s)
            ∙ ap (λ (t : Service). running t c) (sym (eqb_service_sound x s e))
            ∙ ap is_some held in
          rw (e, was) refl
      | inr e ↦ rw e (h s)
    ]

    go :
        (o : Option Tracker)
        → c.tracker x ≡ o
        → AllShown initial (elim o [
          | none ↦ c
          | some t ↦ record c {
            tracker = set x none c.tracker;
            events = running_changed x ∷ deleted_later t.address ∷ c.events;
          }
        ])
    go none held = h
    go (some t) held = changed t held

start_lem :
    (initial : Service → Bool) (sys : System) (x : Service) (program : Bytes)
    (arguments : List Bytes) (c c' : Controller)
    → (running x c ≡ true → AllShown initial c')
    → AllShown initial c
    → AllShown initial (if running x c then c' else launch sys x program arguments c)
start_lem initial sys x program arguments c c' again h = elim (Bool-cases (running x c)) [
  | inl e ↦ rw e (again e)
  | inr e ↦ rw e (launch_lem initial sys x program arguments c e h)
]

step_lem :
    (initial : Service → Bool) (sys : System) {c c' : Controller}
    → Step sys c c'
    → AllShown initial c
    → AllShown initial c'
unfolding start_zygote start_surfaceflinger start_servicemanager start_adbd start_installd
    start_bootanimation tracker_exited
step_lem initial sys {c} (quit_on_error_set b) h = quiet_lem initial (set_quit_on_error-Quiet b c) h
step_lem initial sys {c} zygote_started h = start_lem initial sys zygote _ _ c c (λ _. h) h
step_lem initial sys {c} surfaceflinger_started h =
    start_lem initial sys surfaceflinger _ _ c c (λ _. h) h
step_lem initial sys {c} servicemanager_started h =
    start_lem initial sys service_manager _ _ c
      (quit_if_asked (emit (error already_running critical_level) c))
      (λ _.
        quiet_lem initial
          (Quiet-trans (error-Quiet already_running critical_level c) (quit-Quiet _)) h)
      h
step_lem initial sys {c} adbd_started h = start_lem initial sys adbd _ _ c c (λ _. h) h
step_lem initial sys {c} installd_started h = start_lem initial sys installd _ _ c c (λ _. h) h
step_lem initial sys {c} bootanimation_started h =
    start_lem initial sys bootanimation _ _ c c (λ _. h) h
step_lem initial sys {c} all_stopped h = quiet_lem initial (stop-Quiet c) h
step_lem initial sys {c} (apk_run file) h = quiet_lem initial (run_apk-Quiet sys file c) h
step_lem initial sys {c} (am_run arguments) h = quiet_lem initial (run_am-Quiet sys arguments c) h
step_lem initial sys {c} (output_ready proc lines) h =
    quiet_lem initial (log_something-Quiet sys proc lines c) h
step_lem initial sys {c} (process_ended proc code status) h =
    quiet_lem initial (process_exited-Quiet proc code status c) h
step_lem initial sys {c} (tracker_ended sender) h =
    go (first_of (is_tracker sender c) tracker_order)
  where
    go :
        (o : Option Service)
        → AllShown initial
            (elim o [ some s ↦ delete_tracker s c | none ↦ remove_application_tracker c ])
    go (some s) = delete_lem initial s c h
    go none = quiet_lem initial (remove_application_tracker-Quiet c) h

reachable_lem :
    (initial : Service → Bool) (sys : System) {first c : Controller}
    → AllShown initial first
    → Reachable sys first c
    → AllShown initial c
reachable_lem initial sys h here = h
reachable_lem initial sys h (step reached last) =
    step_lem initial sys last (reachable_lem initial sys h reached)

-- Whatever is called and whatever signals arrive, in any order, behind the constructor: who reads
-- whether a service is running when the controller has just been made, and turns that with each
-- signal that it has changed, has at any time what the property of the service then says.
pub Reachable-shown :
    (sys : System) (numbers : Numbers) (entries : List Entry) (stale : ℕ → Bool)
    (first c : Controller) (s : Service)
    → new_controller sys numbers entries stale ≡ some first
    → Reachable sys first c
    → running s c ≡ shown (running s first) s c.events
unfolding shown
Reachable-shown sys numbers entries stale first c s made reached =
    reachable_lem (λ s. running s first) sys
      (λ s. rw (new_controller-events sys numbers entries stale first made) refl) reached s
