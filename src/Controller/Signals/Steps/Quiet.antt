-- ===== src/Controller/Signals/Steps/Quiet.antt =====
-- The functions of the controller that neither start a service nor forget its tracker.
use native.Mathlib.Nat.{le_trans}
use xylitol.Common.{
  ℕ, ◌≤◌, ◌≡◌, refl, ◌∙◌, inl, inr, Bool, true, false, not, Option, none, some, List, [], ◌∷◌,
  if◌then◌else◌, Bytes, Bool-cases, arith,
}
use xylitol.Common.Int.{ℤ, pos, eqb_ℤ}
use xylitol.Controller.{
  Service, zygote, service_manager, surfaceflinger, installd, bootanimation, adbd, eqb_service,
  Tracker, Application, Description, surfaceflinger_exited, application_crashed, program_exited,
  ErrorLevel, warning_level, critical_level, Origin, Event, error, running_changed, quit_scheduled,
  killed, deleted_later, printed, normal_exit, Controller, System, emit, quit_if_asked,
  set_quit_on_error,
}
use xylitol.Controller.Services.{kill_service, kill_applications, stop}
use xylitol.Controller.Applications.{local_file, run_apk, run_am}
use xylitol.Controller.Signals.{
  first_of, is_process, process_order, find_application, print_lines, log_something, service_exited,
  process_exited, remove_application_tracker, first_with_process, remove_all, origin,
}

-- What an observer holds for the property who read `initial` when there was no event yet, and
-- turns it with each signal that it has changed.
unfoldable pub shown : Bool → Service → List Event → Bool
shown initial s [] = initial
shown initial s (running_changed t ∷ events) =
    let before = shown initial s events in if eqb_service t s then not before else before
shown initial s (_ ∷ events) = shown initial s events

-- A step that changes neither a tracker nor what is shown, and takes no address back.
pub record Quiet (c c' : Controller) : Type 0 where
  pub tracker_is : c'.tracker ≡ c.tracker
  pub grows : c.fresh ≤ c'.fresh
  pub shown_is :
      (initial : Bool) (s : Service) → shown initial s c'.events ≡ shown initial s c.events

Quiet-refl : (c : Controller) → Quiet c c
Quiet-refl c = record { tracker_is = refl; grows = omega arith; shown_is = λ _ _. refl }

pub Quiet-trans : {a b c : Controller} → Quiet a b → Quiet b c → Quiet a c
Quiet-trans p q = record {
  tracker_is = q.tracker_is ∙ p.tracker_is;
  grows = le_trans p.grows q.grows;
  shown_is = λ initial s. q.shown_is initial s ∙ p.shown_is initial s;
}

pub quit-Quiet : (c : Controller) → Quiet c (quit_if_asked c)
unfolding shown
quit-Quiet c = go c.quit_on_error
  where
    go : (b : Bool) → Quiet c (if b then emit (quit_scheduled 1000) c else c)
    go true = record { tracker_is = refl; grows = omega arith; shown_is = λ _ _. refl }
    go false = Quiet-refl c

pub kill_service-Quiet : (s : Service) (c : Controller) → Quiet c (kill_service s c)
unfolding kill_service shown
kill_service-Quiet s c = go (c.tracker s)
  where
    go :
        (o : Option Tracker) → Quiet c (elim o [ none ↦ c | some t ↦ emit (killed t.process_id) c ])
    go none = Quiet-refl c
    go (some t) = record { tracker_is = refl; grows = omega arith; shown_is = λ _ _. refl }

pub kill_applications-Quiet :
    (trackers : List Tracker) (c : Controller) → Quiet c (kill_applications trackers c)
unfolding kill_applications shown
kill_applications-Quiet [] c = Quiet-refl c
kill_applications-Quiet (t ∷ trackers) c =
    let rest =
      kill_applications-Quiet trackers
        (emit (deleted_later t.address) (emit (killed t.process_id) c)) in
    record { tracker_is = rest.tracker_is; grows = rest.grows; shown_is = rest.shown_is }

pub stop-Quiet : (c : Controller) → Quiet c (stop c)
unfolding stop
stop-Quiet c =
    let all = Quiet-trans (kill_service-Quiet surfaceflinger c) (
      Quiet-trans (kill_service-Quiet installd _) (
        Quiet-trans (kill_service-Quiet bootanimation _) (
          Quiet-trans (kill_service-Quiet service_manager _) (
            Quiet-trans (kill_service-Quiet adbd _) (
              Quiet-trans (kill_service-Quiet zygote _)
                (kill_applications-Quiet c.application_trackers _)))))) in
    record { tracker_is = all.tracker_is; grows = all.grows; shown_is = all.shown_is }

pub print_lines-Quiet :
    (from : Origin) (lines : List Bytes) (c : Controller) → Quiet c (print_lines from lines c)
unfolding print_lines shown
print_lines-Quiet from [] c = Quiet-refl c
print_lines-Quiet from (line ∷ lines) c =
    let rest = print_lines-Quiet from lines (emit (printed from line) c) in
    record { tracker_is = rest.tracker_is; grows = rest.grows; shown_is = rest.shown_is }

pub error-Quiet :
    (what : Description) (level : ErrorLevel) (c : Controller) → Quiet c (emit (error what level) c)
unfolding shown
error-Quiet what level c = record { tracker_is = refl; grows = omega arith; shown_is = λ _ _. refl }

pub service_exited-Quiet :
    (s : Service) (code status : ℤ) (c : Controller) → Quiet c (service_exited s code status c)
unfolding service_exited
service_exited-Quiet zygote code status c =
    Quiet-trans (Quiet-trans (error-Quiet _ _ c) (stop-Quiet _)) (quit-Quiet _)
service_exited-Quiet service_manager code status c =
    Quiet-trans (Quiet-trans (error-Quiet _ _ c) (stop-Quiet _)) (quit-Quiet _)
service_exited-Quiet surfaceflinger code status c =
    Quiet-trans (error-Quiet (surfaceflinger_exited code status) critical_level c) (quit-Quiet _)
service_exited-Quiet installd code status c = error-Quiet _ _ c
service_exited-Quiet bootanimation code status c = error-Quiet _ _ c
service_exited-Quiet adbd code status c = error-Quiet _ _ c

pub application_exited-Quiet :
    (a : Application) (code : ℤ) (b : Bool) (c : Controller)
    → Quiet c (
        if b
        then emit (error (application_crashed a.name) warning_level) c
        else emit (normal_exit a.name) c)
unfolding shown
application_exited-Quiet a code true c = error-Quiet _ _ c
application_exited-Quiet a code false c = record {
  tracker_is = refl;
  grows = omega arith;
  shown_is = λ _ _. refl;
}

pub process_exited-Quiet :
    (proc : ℕ) (code status : ℤ) (c : Controller) → Quiet c (process_exited proc code status c)
unfolding process_exited
process_exited-Quiet proc code status c =
    go (first_of (is_process proc c) process_order) (find_application proc c.applications)
  where
    go :
        (s : Option Service) (a : Option Application)
        → Quiet c (elim s [
          | some s ↦ service_exited s code status c
          | none ↦ elim a [
            | some a ↦ quit_if_asked (
                if eqb_ℤ code (pos 1)
                then emit (error (application_crashed a.name) warning_level) c
                else emit (normal_exit a.name) c)
            | none ↦ emit (error (program_exited proc) warning_level) c
          ]
        ])
    go (some s) a = service_exited-Quiet s code status c
    go none (some a) =
        Quiet-trans (application_exited-Quiet a code (eqb_ℤ code (pos 1)) c) (quit-Quiet _)
    go none none = error-Quiet _ _ c

pub remove_application_tracker-Quiet : (c : Controller) → Quiet c (remove_application_tracker c)
unfolding remove_application_tracker shown
remove_application_tracker-Quiet c = go (first_with_process c.application_trackers)
  where
    go :
        (o : Option Tracker)
        → Quiet c (elim o [
          | none ↦ c
          | some t ↦ record c {
            application_trackers = remove_all t.address c.application_trackers;
            events = deleted_later t.address ∷ c.events;
          }
        ])
    go none = Quiet-refl c
    go (some t) = record { tracker_is = refl; grows = omega arith; shown_is = λ _ _. refl }

pub run_apk-Quiet : (sys : System) (file : Bytes) (c : Controller) → Quiet c (run_apk sys file c)
unfolding run_apk shown
run_apk-Quiet sys file c = elim (Bool-cases (sys.exists (local_file sys file))) [
  | inl e ↦ rw e (record { tracker_is = refl; grows = omega arith; shown_is = λ _ _. refl })
  | inr e ↦ rw e (Quiet-refl c)
]

pub run_am-Quiet :
    (sys : System) (arguments : Bytes) (c : Controller) → Quiet c (run_am sys arguments c)
unfolding run_am shown
run_am-Quiet sys arguments c = record {
  tracker_is = refl;
  grows = omega arith;
  shown_is = λ _ _. refl;
}

pub set_quit_on_error-Quiet : (b : Bool) (c : Controller) → Quiet c (set_quit_on_error b c)
unfolding set_quit_on_error shown
set_quit_on_error-Quiet b c = record {
  tracker_is = refl;
  grows = omega arith;
  shown_is = λ _ _. refl;
}

pub log_something-Quiet :
    (sys : System) (proc : ℕ) (lines : List Bytes) (c : Controller)
    → Quiet c (log_something sys proc lines c)
unfolding log_something
log_something-Quiet sys proc lines c = print_lines-Quiet (origin sys proc c) lines c
