-- ===== src/Controller/Signals/Steps/Made.antt =====
-- The constructor gives each service a tracker of its own.
use native.Mathlib.Nat.{le_trans}
use mathlib.Core.Path.{subst}
use mathlib.Core.Option.{some-injective, none-ne-some}
use xylitol.Common.{
  ℕ, ◌≤◌, ◌<◌, ◌≡◌, ◌≢◌, refl, sym, ap, ◌∙◌, inl, inr, Bool, false, Bool-cases, Option, none, some,
  List, [], ◌∷◌, ◌++◌, Bytes, codes, arith,
}
use xylitol.Controller.{
  Service, zygote, service_manager, surfaceflinger, installd, bootanimation, adbd, index,
  eqb_service, Tracker, Controller, System, set,
}
use xylitol.Controller.Services.{system_bin}
use xylitol.Controller.Trackers.{
  Entry, Numbers, get_trackers, found, track, is_zygote, sort_launchers, empty, new_controller,
}
use xylitol.Controller.Signals.Steps.{Reachable}
use xylitol.Controller.Signals.Steps.Exits.{IsDistinct, set_lem, address_of, reachable_lem}
use xylitol.Controller.Signals.Steps.Notify.{eqb_service_sound}
use xylitol.Controller.Trackers.Given.{AllIn, no_trackers, a_tracker, IsGiven, get_trackers-IsGiven}

-- A new tracker for a service.
set-IsDistinct :
    (c : Controller) (x : Service) (t : Tracker) (fresh : ℕ)
    → IsDistinct c
    → c.fresh ≤ t.address
    → t.address < fresh
    → IsDistinct (record c { tracker = set x (some t) c.tracker; fresh = fresh })
set-IsDistinct c x t fresh h new below = record {
  given = λ s u e. elim (set_lem c x s (some t) u e) [
    | inl (_, made) ↦ omega (arith, address_of t u made)
    | inr old ↦ omega (arith, h.given s u old)
  ];
  apart = λ s r u v e k same. elim (set_lem c x s (some t) u e) [
    | inl (xs, made) ↦ elim (set_lem c x r (some t) v k) [
      | inl (xr, _) ↦ sym xs ∙ xr
      | inr old ↦ absurd (omega (arith, address_of t u made, h.given r v old, same))
    ]
    | inr old ↦ elim (set_lem c x r (some t) v k) [
      | inl (_, made) ↦ absurd (omega (arith, address_of t v made, h.given s u old, same))
      | inr older ↦ h.apart s r u v old older same
    ]
  ];
}

grown-IsDistinct :
    (c : Controller) (fresh : ℕ)
    → IsDistinct c
    → c.fresh ≤ fresh
    → IsDistinct (record c { fresh = fresh })
grown-IsDistinct c fresh h grows = record {
  given = λ s t e. le_trans (h.given s t e) grows;
  apart = h.apart;
}

found-IsDistinct :
    (s : Service) (trackers : List Tracker) (c : Controller) (fresh : ℕ)
    → IsDistinct c
    → c.fresh ≤ fresh
    → AllIn c.fresh fresh trackers
    → IsDistinct (record (found s trackers c) { fresh = fresh })
found-IsDistinct s [] c fresh h grows no_trackers = grown-IsDistinct c fresh h grows
found-IsDistinct s (t ∷ trackers) c fresh h grows (a_tracker above below all) =
    set-IsDistinct c s t fresh h above below

-- A controller, where there is one, in which services have trackers of their own.
abbrev AllDistinct : Option Controller → Type 0
AllDistinct o = (c : Controller) → o ≡ some c → IsDistinct c

none_lem : AllDistinct none
none_lem c e = absurd (none-ne-some c e)

some_lem : (c : Controller) → IsDistinct c → AllDistinct (some c)
some_lem c h d e = subst IsDistinct (some-injective c d e) h

track_lem :
    (numbers : Numbers) (s : Service) (path : Bytes) (entries : List Entry) (o : Option Controller)
    → AllDistinct o
    → AllDistinct (track numbers s path entries o)
unfolding track
track_lem numbers s path entries none h = none_lem
track_lem numbers s path entries (some c) h =
    go (get_trackers numbers path entries c.fresh)
      (get_trackers-IsGiven numbers path entries c.fresh)
  where
    go :
        (o : Option (List Tracker × ℕ))
        → IsGiven c.fresh o
        → AllDistinct (elim o [
          | none ↦ none
          | some (trackers, fresh) ↦ some (record (found s trackers c) { fresh = fresh })
        ])
    go none given = none_lem
    go (some (trackers, fresh)) given =
        some_lem _ (found-IsDistinct s trackers c fresh (h c refl) given.0 given.1)

-- While the launchers are sorted only zygote may have a tracker from `base` on.
record IsSorted (base : ℕ) (c : Controller) : Type 0 where
  distinct : IsDistinct c
  below : (s : Service) (t : Tracker) → zygote ≢ s → c.tracker s ≡ some t → t.address < base

not_zygote : (s : Service) → eqb_service zygote s ≡ false → zygote ≢ s
not_zygote s h e = ground (arith, h, ap index e)

zygote-IsSorted :
    (base : ℕ) (c : Controller) (t : Tracker)
    → IsSorted base c
    → base ≤ t.address
    → t.address < c.fresh
    → IsSorted base (record c { tracker = set zygote (some t) c.tracker })
zygote-IsSorted base c t h above under = record {
  distinct = record {
    given = λ s u e. elim (set_lem c zygote s (some t) u e) [
      | inl (_, made) ↦ omega (arith, address_of t u made)
      | inr old ↦ (h.distinct).given s u old
    ];
    apart = λ s r u v e k same. elim (Bool-cases (eqb_service zygote s)) [
      | inl es ↦ elim (Bool-cases (eqb_service zygote r)) [
        | inl er ↦ sym (eqb_service_sound zygote s es) ∙ eqb_service_sound zygote r er
        | inr er ↦ absurd (
            omega (
              arith,
              address_of t u (rw es at e),
              h.below r v (not_zygote r er) (rw er at k),
              same,
            ))
      ]
      | inr es ↦ elim (Bool-cases (eqb_service zygote r)) [
        | inl er ↦ absurd (
            omega (
              arith,
              address_of t v (rw er at k),
              h.below s u (not_zygote s es) (rw es at e),
              same,
            ))
        | inr er ↦ (h.distinct).apart s r u v (rw es at e) (rw er at k) same
      ]
    ];
  };
  below = λ s u other e. elim (set_lem c zygote s (some t) u e) [
    | inl (is, _) ↦ absurd (other is)
    | inr old ↦ h.below s u other old
  ];
}

sort_lem :
    (stale : ℕ → Bool) (base : ℕ) (trackers : List Tracker) (c : Controller)
    → IsSorted base c
    → AllIn base c.fresh trackers
    → IsDistinct (sort_launchers stale trackers c)
unfolding sort_launchers
sort_lem stale base [] c h no_trackers = h.distinct
sort_lem stale base (t ∷ trackers) c h (a_tracker above under all) =
    elim (Bool-cases (is_zygote (stale t.address) t.arguments)) [
      | inl e ↦ rw e (sort_lem stale base trackers _ (zygote-IsSorted base c t h above under) all)
      | inr e ↦ rw e (
          sort_lem stale base trackers
            (record c { application_trackers = c.application_trackers ++ (t ∷ []) })
            (record {
              distinct = record { given = (h.distinct).given; apart = (h.distinct).apart };
              below = h.below;
            })
            all)
    ]

empty-IsDistinct : IsDistinct empty
empty-IsDistinct = record {
  given = λ s t e. absurd (none-ne-some t e);
  apart = λ s u t v e k same. absurd (none-ne-some t e);
}

-- The launchers are sorted into zygote and applications.
launchers_lem :
    (stale : ℕ → Bool) (c : Controller) (o : Option (List Tracker × ℕ))
    → IsDistinct c
    → IsGiven c.fresh o
    → AllDistinct (elim o [
      | none ↦ none
      | some (launchers, fresh) ↦ some (sort_launchers stale launchers (record c { fresh = fresh }))
    ])
launchers_lem stale c none h given = none_lem
launchers_lem stale c (some (launchers, fresh)) h given = some_lem _ (
    sort_lem stale c.fresh launchers (record c { fresh = fresh })
      (record { distinct = grown-IsDistinct c fresh h given.0; below = λ s t _ e. h.given s t e })
      given.1)

new_controller-IsDistinct :
    (sys : System) (numbers : Numbers) (entries : List Entry) (stale : ℕ → Bool)
    → AllDistinct (new_controller sys numbers entries stale)
unfolding new_controller
new_controller-IsDistinct sys numbers entries stale = go _ (
    track_lem numbers adbd (system_bin sys (codes "adbd")) entries _ (
      track_lem numbers bootanimation (system_bin sys (codes "bootanimation")) entries _ (
        track_lem numbers installd (system_bin sys (codes "installd")) entries _ (
          track_lem numbers surfaceflinger (system_bin sys (codes "surfaceflinger")) entries _ (
            track_lem numbers service_manager (system_bin sys (codes "servicemanager")) entries _
              (some_lem empty empty-IsDistinct))))))
  where
    go :
        (o : Option Controller)
        → AllDistinct o
        → AllDistinct (elim o [
          | none ↦ none
          | some c ↦
              elim (get_trackers numbers
                (system_bin sys (codes "shashlik_launcher"))
                entries
                c.fresh) [
                  | none ↦ none
                  | some (launchers, fresh) ↦
                      some (sort_launchers stale launchers (record c { fresh = fresh }))
                ]
        ])
    go none h = none_lem
    go (some c) h =
        launchers_lem stale c
          (get_trackers numbers (system_bin sys (codes "shashlik_launcher")) entries c.fresh)
          (h c refl)
          (get_trackers-IsGiven numbers (system_bin sys (codes "shashlik_launcher")) entries
            c.fresh)

-- Behind the constructor, whatever is called and whatever signals arrive, in any order: the address
-- of each service's tracker is one that was given to an object, and no two services have the same
-- tracker.
pub Reachable-IsDistinct :
    (sys : System) (numbers : Numbers) (entries : List Entry) (stale : ℕ → Bool)
    (first c : Controller)
    → new_controller sys numbers entries stale ≡ some first
    → Reachable sys first c
    → IsDistinct c
Reachable-IsDistinct sys numbers entries stale first c made reached =
    reachable_lem sys first c (new_controller-IsDistinct sys numbers entries stale first made)
      reached
