-- ===== src/Controller/Signals/Steps/Exits.antt =====
-- The end of a service's tracker clears that service and no other.
use native.Mathlib.Nat.{le_trans}
use mathlib.Core.Option.{some-injective, none-ne-some}
use xylitol.Common.{
  ◌==◌, ◌<◌, ◌≡◌, ◌≢◌, refl, sym, ap, ◌∙◌, ◌⊎◌, inl, inr, Bool, true, false, Option, none, some,
  List, [], ◌∷◌, if◌then◌else◌, Bytes, Bool-cases, ==_iff, arith,
}
use xylitol.Controller.{
  Service, zygote, service_manager, surfaceflinger, installd, bootanimation, adbd, eqb_service,
  Tracker, error, already_running, critical_level, running_changed, deleted_later, Controller,
  System, set, emit, quit_if_asked,
}
use xylitol.Controller.Services.{
  running, launch, start_zygote, start_surfaceflinger, start_servicemanager, start_adbd,
  start_installd, start_bootanimation,
}
use xylitol.Controller.Signals.{
  first_of, is_tracker, tracker_order, delete_tracker, remove_application_tracker, tracker_exited,
}
use xylitol.Controller.Signals.Steps.{
  Step, quit_on_error_set, zygote_started, surfaceflinger_started, servicemanager_started,
  adbd_started, installd_started, bootanimation_started, all_stopped, apk_run, am_run, output_ready,
  process_ended, tracker_ended, Reachable, here, step,
}
use xylitol.Controller.Signals.Steps.Quiet.{
  Quiet, Quiet-trans, quit-Quiet, error-Quiet, stop-Quiet, process_exited-Quiet,
  remove_application_tracker-Quiet, run_apk-Quiet, run_am-Quiet, set_quit_on_error-Quiet,
  log_something-Quiet,
}
use xylitol.Controller.Signals.Steps.Notify.{eqb_service_sound}

-- No two services have the same tracker, and no tracker has an address that is not yet given.
pub record IsDistinct (c : Controller) : Type 0 where
  pub given : (s : Service) (t : Tracker) → c.tracker s ≡ some t → t.address < c.fresh
  pub apart :
      (s u : Service) (t v : Tracker)
      → c.tracker s ≡ some t
      → c.tracker u ≡ some v
      → t.address ≡ v.address
      → s ≡ u

quiet_lem : {c c' : Controller} → Quiet c c' → IsDistinct c → IsDistinct c'
quiet_lem {c} {c'} quiet h =
    let same : (s : Service) → c.tracker s ≡ c'.tracker s =
      λ s. ap (λ (tracker : Service → Option Tracker). tracker s) (sym quiet.tracker_is) in
    record {
      given = λ s t e. le_trans (h.given s t (same s ∙ e)) quiet.grows;
      apart = λ s u t v e k. h.apart s u t v (same s ∙ e) (same u ∙ k);
    }

-- The trackers behind `set`: the new one, or one from before.
pub set_lem :
    (c : Controller) (x s : Service) (o : Option Tracker) (t : Tracker)
    → set x o c.tracker s ≡ some t
    → ((x ≡ s) × (o ≡ some t)) ⊎ (c.tracker s ≡ some t)
set_lem c x s o t h = elim (Bool-cases (eqb_service x s)) [
  | inl e ↦ inl (eqb_service_sound x s e, rw e at h)
  | inr e ↦ inr (rw e at h)
]

pub address_of : (t u : Tracker) → some t ≡ some u → t.address ≡ u.address
address_of t u e = ap (λ (t : Tracker). t.address) (some-injective t u e)

launch_lem :
    (sys : System) (x : Service) (program : Bytes) (arguments : List Bytes) (c : Controller)
    → IsDistinct c
    → IsDistinct (launch sys x program arguments c)
unfolding launch
launch_lem sys x program arguments c h = record {
  given = λ s t e. elim (set_lem c x s _ t e) [
    | inl (_, new) ↦ omega (arith, address_of _ t new)
    | inr old ↦ omega (arith, h.given s t old)
  ];
  apart = λ s u t v e k same. elim (set_lem c x s _ t e) [
    | inl (xs, new) ↦ elim (set_lem c x u _ v k) [
      | inl (xu, _) ↦ sym xs ∙ xu
      | inr old ↦ absurd (omega (arith, address_of _ t new, h.given u v old, same))
    ]
    | inr old ↦ elim (set_lem c x u _ v k) [
      | inl (_, new) ↦ absurd (omega (arith, address_of _ v new, h.given s t old, same))
      | inr older ↦ h.apart s u t v old older same
    ]
  ];
}

delete_lem : (x : Service) (c : Controller) → IsDistinct c → IsDistinct (delete_tracker x c)
unfolding delete_tracker
delete_lem x c h = go (c.tracker x)
  where
    kept : (s : Service) (t : Tracker) → set x none c.tracker s ≡ some t → c.tracker s ≡ some t
    kept s t e = elim (set_lem c x s none t e) [
      | inl (_, never) ↦ absurd (none-ne-some t never)
      | inr old ↦ old
    ]

    go :
        (o : Option Tracker)
        → IsDistinct (elim o [
          | none ↦ c
          | some t ↦ record c {
            tracker = set x none c.tracker;
            events = running_changed x ∷ deleted_later t.address ∷ c.events;
          }
        ])
    go none = h
    go (some gone) = record {
      given = λ s t e. h.given s t (kept s t e);
      apart = λ s u t v e k. h.apart s u t v (kept s t e) (kept u v k);
    }

start_lem :
    (sys : System) (x : Service) (program : Bytes) (arguments : List Bytes) (c c' : Controller)
    → IsDistinct c'
    → IsDistinct c
    → IsDistinct (if running x c then c' else launch sys x program arguments c)
start_lem sys x program arguments c c' again h = elim (Bool-cases (running x c)) [
  | inl e ↦ rw e again
  | inr e ↦ rw e (launch_lem sys x program arguments c h)
]

step_lem : (sys : System) {c c' : Controller} → Step sys c c' → IsDistinct c → IsDistinct c'
unfolding start_zygote start_surfaceflinger start_servicemanager start_adbd start_installd
    start_bootanimation tracker_exited
step_lem sys {c} (quit_on_error_set b) h = quiet_lem (set_quit_on_error-Quiet b c) h
step_lem sys {c} zygote_started h = start_lem sys zygote _ _ c c h h
step_lem sys {c} surfaceflinger_started h = start_lem sys surfaceflinger _ _ c c h h
step_lem sys {c} servicemanager_started h =
    start_lem sys service_manager _ _ c
      (quit_if_asked (emit (error already_running critical_level) c))
      (quiet_lem (Quiet-trans (error-Quiet already_running critical_level c) (quit-Quiet _)) h) h
step_lem sys {c} adbd_started h = start_lem sys adbd _ _ c c h h
step_lem sys {c} installd_started h = start_lem sys installd _ _ c c h h
step_lem sys {c} bootanimation_started h = start_lem sys bootanimation _ _ c c h h
step_lem sys {c} all_stopped h = quiet_lem (stop-Quiet c) h
step_lem sys {c} (apk_run file) h = quiet_lem (run_apk-Quiet sys file c) h
step_lem sys {c} (am_run arguments) h = quiet_lem (run_am-Quiet sys arguments c) h
step_lem sys {c} (output_ready proc lines) h = quiet_lem (log_something-Quiet sys proc lines c) h
step_lem sys {c} (process_ended proc code status) h =
    quiet_lem (process_exited-Quiet proc code status c) h
step_lem sys {c} (tracker_ended sender) h = go (first_of (is_tracker sender c) tracker_order)
  where
    go :
        (o : Option Service)
        → IsDistinct (elim o [ some s ↦ delete_tracker s c | none ↦ remove_application_tracker c ])
    go (some s) = delete_lem s c h
    go none = quiet_lem (remove_application_tracker-Quiet c) h

pub reachable_lem :
    (sys : System) (first c : Controller) → IsDistinct first → Reachable sys first c → IsDistinct c
reachable_lem sys first c h here = h
reachable_lem sys first c h (step reached last) =
    step_lem sys last (reachable_lem sys first _ h reached)

first_of_congr :
    (f g : Service → Bool)
    → ((x : Service) → f x ≡ g x)
    → (services : List Service) → first_of f services ≡ first_of g services
unfolding first_of
first_of_congr f g h [] = refl
first_of_congr f g h (x ∷ services) = rw (h x, first_of_congr f g h services) refl

eqb_service_refl : (s : Service) → eqb_service s s ≡ true
eqb_service_refl s = ground arith

-- The order of the tests has every service.
found_lem : (s : Service) → first_of (λ x. eqb_service x s) tracker_order ≡ some s
unfolding first_of
found_lem zygote = refl
found_lem service_manager = refl
found_lem surfaceflinger = refl
found_lem installd = refl
found_lem bootanimation = refl
found_lem adbd = refl

differ :
    (t v : Tracker) → (t.address == v.address) ≡ false → ¬ Path (Option Tracker) (some t) (some v)
differ t v other same = absurd (ground (arith, other, address_of t v same))

is_tracker_lem :
    (c : Controller) (s x : Service) (t : Tracker)
    → IsDistinct c
    → c.tracker s ≡ some t
    → is_tracker t.address c x ≡ eqb_service x s
is_tracker_lem c s x t h e = go (c.tracker x) refl
  where
    go :
        (o : Option Tracker)
        → c.tracker x ≡ o
        → (elim o [ none ↦ false | some v ↦ t.address == v.address ]) ≡ eqb_service x s
    go none k = elim (Bool-cases (eqb_service x s)) [
      | inl same ↦ absurd (none-ne-some t (sym k ∙ ap c.tracker (eqb_service_sound x s same) ∙ e))
      | inr other ↦ sym other
    ]
    go (some v) k = elim (Bool-cases (t.address == v.address)) [
      | inl same ↦
          same
          ∙ sym (
              ap (λ (u : Service). eqb_service x u)
                (h.apart s x t v e k ((==_iff t.address v.address).0 same))
              ∙ eqb_service_refl x)
      | inr other ↦ elim (Bool-cases (eqb_service x s)) [
        | inl same ↦
            absurd (differ t v other (sym e ∙ sym (ap c.tracker (eqb_service_sound x s same)) ∙ k))
        | inr apart ↦ other ∙ sym apart
      ]
    ]

exited_lem :
    (c : Controller) (s : Service) (t : Tracker)
    → IsDistinct c
    → c.tracker s ≡ some t
    → tracker_exited t.address c ≡ record c {
      tracker = set s none c.tracker;
      events = running_changed s ∷ deleted_later t.address ∷ c.events;
    }
unfolding tracker_exited delete_tracker
exited_lem c s t h e =
    let which : first_of (is_tracker t.address c) tracker_order ≡ some s =
      first_of_congr _ (λ x. eqb_service x s) (λ x. is_tracker_lem c s x t h e) tracker_order
      ∙ found_lem s in
    ap
      (λ (o : Option Service). elim o [
        | some s ↦ delete_tracker s c
        | none ↦ remove_application_tracker c
      ])
      which
    ∙ ap
        (λ (o : Option Tracker). elim o [
          | none ↦ c
          | some t ↦ record c {
            tracker = set s none c.tracker;
            events = running_changed s ∷ deleted_later t.address ∷ c.events;
          }
        ])
        e

not_equal : (s u : Service) → s ≢ u → eqb_service s u ≡ false
not_equal s u differs = elim (Bool-cases (eqb_service s u)) [
  | inl e ↦ absurd (differs (eqb_service_sound s u e))
  | inr e ↦ e
]

-- When the tracker of a service that the controller holds reports the end of its process, just
-- that service stops running: it has no tracker any more, and the tracker of any other service, those
-- of the applications, and every process, stay as they are.
pub tracker_exited-IsDistinct :
    (c : Controller) (s u : Service) (t : Tracker)
    → IsDistinct c
    → s ≢ u
    → c.tracker s ≡ some t
    → (running s (tracker_exited t.address c) ≡ false)
      × ((tracker_exited t.address c).tracker u ≡ c.tracker u)
      × ((tracker_exited t.address c).application_trackers ≡ c.application_trackers)
      × ((tracker_exited t.address c).process ≡ c.process)
tracker_exited-IsDistinct c s u t h differs e =
    rw (exited_lem c s t h e)
      (rw (eqb_service_refl s) refl, rw (not_equal s u differs) refl, refl, refl)
