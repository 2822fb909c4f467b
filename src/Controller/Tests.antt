-- ===== src/Controller/Tests.antt =====
-- A controller that finds the debugger daemon running, one with all services, and two applications.
use mathlib.Core.Option.{none-ne-some}
use xylitol.Common.{
  ℕ, ◌≡◌, refl, sym, ap, ◌∙◌, inl, inr, arith, true, false, Option, none, some, List, [], ◌∷◌,
  codes,
}
use xylitol.Common.Int.{pos}
use xylitol.Controller.{
  Service, zygote, service_manager, surfaceflinger, installd, bootanimation, adbd, index, Tracker,
  already_running, critical_level, error, killed, quit_scheduled, Controller, System, set, emit,
  quit_if_asked,
}
use xylitol.Controller.Services.{running, stop, restart}
use xylitol.Controller.Services.Stopping.{Happened, first, stop-IsTracked}
use xylitol.Controller.Services.Restart.{AllRunning, restart-AllRunning}
use xylitol.Controller.Trackers.{
  Numbers, Entry, read_arguments, arguments_of, get_trackers, track, sort_launchers, empty,
  new_controller,
}
use xylitol.Controller.Trackers.Arguments.{
  write_arguments, empty_text, text_byte, empty_argument, argument_byte, no_arguments, an_argument,
  read-write_arguments,
}
use xylitol.Controller.Signals.{first_of, process_exited, tracker_exited}
use xylitol.Controller.Signals.Ends.{
  essential_zygote, process_exited-IsEssential, tracker_exited-forgets,
}
use xylitol.Controller.Signals.Steps.{here, step, tracker_ended, all_stopped}
use xylitol.Controller.Signals.Steps.Quiet.{shown}
use xylitol.Controller.Signals.Steps.Notify.{Reachable-shown}
use xylitol.Controller.Signals.Steps.Exits.{
  IsDistinct, set_lem, address_of, tracker_exited-IsDistinct,
}
use xylitol.Controller.Signals.Steps.Made.{Reachable-IsDistinct}
use xylitol.Controller.Main.{open_apk}
use xylitol.Controller.Main.Outcomes.{open_apk-killed}

abbrev sys : System
sys = record {
  android_root = codes "/a";
  exists = λ _. true;
  to_lower = λ name. name;
  process_id = λ _ _. pos 42;
  cmdline = λ _ _. [];
}

abbrev numbers : Numbers
numbers = record { to_int = λ _. pos 7; number = λ _. codes "7"; decode = λ text. text }

abbrev entries : List Entry
entries =
    record { name = codes "7"; exe = codes "/a/system/bin/adbd"; cmdline = some (b'a' ∷ 0 ∷ []) }
    ∷ []

abbrev daemon : Tracker
daemon = record { address = 1; process_id = pos 7; arguments = (b'a' ∷ []) ∷ [] }

abbrev with_daemon : Controller
with_daemon = record empty { tracker = set adbd (some daemon) empty.tracker; fresh = 2 }

made : new_controller sys numbers entries (λ _. true) ≡ some with_daemon
unfolding new_controller get_trackers track sort_launchers read_arguments
made = refl

Reachable-shown_example :
    running adbd (tracker_exited 1 (stop with_daemon))
    ≡ shown true adbd (tracker_exited 1 (stop with_daemon)).events
Reachable-shown_example =
    Reachable-shown sys numbers entries (λ _. true) with_daemon
      (tracker_exited 1 (stop with_daemon)) adbd made
      (step (step here all_stopped) (tracker_ended 1))

-- The tracker of each service, and that of an application.
abbrev tracked : ℕ → Tracker
tracked n = record { address = n; process_id = pos 42; arguments = [] }

abbrev trackers : Service → Option Tracker
trackers zygote = some (tracked 1)
trackers service_manager = some (tracked 2)
trackers surfaceflinger = some (tracked 3)
trackers installd = some (tracked 4)
trackers bootanimation = none
trackers adbd = some (tracked 5)

abbrev processes : Service → Option ℕ
processes zygote = some 11
processes _ = none

abbrev all_services : Controller
all_services = record empty {
  process = processes;
  tracker = trackers;
  application_trackers = tracked 6 ∷ tracked 7 ∷ [];
  fresh = 20;
}

all_running : AllRunning all_services
all_running = record {
  zygote_runs = refl;
  service_manager_runs = refl;
  surfaceflinger_runs = refl;
  installd_runs = refl;
  adbd_runs = refl;
}

restart-AllRunning_example :
    restart sys all_services
    ≡ quit_if_asked (emit (error already_running critical_level) (stop all_services))
restart-AllRunning_example = restart-AllRunning sys all_services all_running

stop-IsTracked_example :
    Happened (killed (pos 42)) (stop all_services).events
    × ((stop all_services).application_trackers ≡ [])
    × ((stop all_services).tracker ≡ trackers)
    × ((stop all_services).process ≡ processes)
stop-IsTracked_example = stop-IsTracked all_services (tracked 6) (inr first)

-- Its only tracker is that of the daemon.
only_daemon :
    (s : Service) (t : Tracker) → with_daemon.tracker s ≡ some t → (adbd ≡ s) × (t.address ≡ 1)
only_daemon s t e = elim (set_lem empty adbd s (some daemon) t e) [
  | inl (same, held) ↦ (same, sym (address_of daemon t held))
  | inr never ↦ absurd (none-ne-some t never)
]

with_daemon-IsDistinct : IsDistinct with_daemon
with_daemon-IsDistinct = record {
  given = λ s t e. omega (arith, (only_daemon s t e).1);
  apart = λ s u t v e k same. sym (only_daemon s t e).0 ∙ (only_daemon u v k).0;
}

Reachable-IsDistinct_example : IsDistinct (tracker_exited 1 (stop with_daemon))
Reachable-IsDistinct_example =
    Reachable-IsDistinct sys numbers entries (λ _. true) with_daemon
      (tracker_exited 1 (stop with_daemon)) made (step (step here all_stopped) (tracker_ended 1))

tracker_exited-IsDistinct_example :
    (running adbd (tracker_exited 1 with_daemon) ≡ false)
    × ((tracker_exited 1 with_daemon).tracker zygote ≡ none)
    × ((tracker_exited 1 with_daemon).application_trackers ≡ [])
    × ((tracker_exited 1 with_daemon).process ≡ empty.process)
tracker_exited-IsDistinct_example =
    tracker_exited-IsDistinct with_daemon adbd zygote daemon with_daemon-IsDistinct
      (λ e. omega (arith, ap index e)) refl

process_exited-IsEssential_example :
    Happened (killed (pos 42)) (process_exited 11 (pos 0) (pos 0) all_services).events
    × Happened (quit_scheduled 1000) (process_exited 11 (pos 0) (pos 0) all_services).events
    × ((process_exited 11 (pos 0) (pos 0) all_services).application_trackers ≡ [])
unfolding first_of
process_exited-IsEssential_example =
    process_exited-IsEssential 11 (pos 0) (pos 0) zygote all_services (tracked 6) essential_zygote
      refl refl (inr first)

tracker_exited-forgets_example :
    (tracker_exited 7 all_services).application_trackers ≡ tracked 7 ∷ []
unfolding first_of
tracker_exited-forgets_example =
    tracker_exited-forgets all_services (tracked 6) (tracked 7) refl refl (omega arith) refl

abbrev two_arguments : Entry
two_arguments = record {
  name = codes "7";
  exe = codes "/a/system/bin/adbd";
  cmdline = some (write_arguments ((b'a' ∷ []) ∷ [] ∷ []));
}

read-write_arguments_example : arguments_of numbers two_arguments ≡ some ((b'a' ∷ []) ∷ [] ∷ [])
read-write_arguments_example =
    read-write_arguments numbers two_arguments (b'a' ∷ []) ([] ∷ [])
      (record { reads = λ text ascii. refl }) refl
      (an_argument (argument_byte (omega arith) empty_argument)
        (text_byte (omega arith) (omega arith) empty_text)
        (an_argument empty_argument empty_text no_arguments))

-- Only the service manager runs.
abbrev with_manager : Controller
with_manager = record empty {
  tracker = set service_manager (some (tracked 2)) empty.tracker;
  fresh = 3;
}

open_apk-killed_example :
    ((open_apk sys (codes "b.apk") with_manager).tracker service_manager ≡ some (tracked 2))
    × Happened (killed (pos 42)) (open_apk sys (codes "b.apk") with_manager).events
open_apk-killed_example = open_apk-killed sys (codes "b.apk") with_manager (tracked 2) refl refl
