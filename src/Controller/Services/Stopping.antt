-- ===== src/Controller/Services/Stopping.antt =====
-- What stopping does.
use xylitol.Common.{◌≡◌, refl, ◌⊎◌, inl, inr, Option, none, some, List, [], ◌∷◌}
use xylitol.Controller.{
  Service, zygote, service_manager, surfaceflinger, installd, bootanimation, adbd, Tracker, Event,
  killed, deleted_later, Controller, emit,
}
use xylitol.Controller.Services.{kill_service, kill_applications, stop}

-- The events of `stop` for one tracker, for the services, and for the applications.
abbrev kills : Option Tracker → List Event → List Event
kills none events = events
kills (some t) events = killed t.process_id ∷ events

abbrev service_kills : (Service → Option Tracker) → List Event → List Event
service_kills tracker events = kills (tracker zygote) (
    kills (tracker adbd) (
      kills (tracker service_manager) (
        kills (tracker bootanimation)
          (kills (tracker installd) (kills (tracker surfaceflinger) events)))))

abbrev application_kills : List Tracker → List Event → List Event
application_kills [] events = events
application_kills (t ∷ trackers) events =
    application_kills trackers (deleted_later t.address ∷ killed t.process_id ∷ events)

kill_service_lem :
    (s : Service) (c : Controller)
    → kill_service s c ≡ record c { events = kills (c.tracker s) c.events }
unfolding kill_service
kill_service_lem s c = go (c.tracker s)
  where
    go :
        (o : Option Tracker)
        → (elim o [ none ↦ c | some t ↦ emit (killed t.process_id) c ])
          ≡ record c { events = kills o c.events }
    go none = refl
    go (some t) = refl

kill_applications_lem :
    (trackers : List Tracker) (c : Controller)
    → kill_applications trackers c ≡ record c { events = application_kills trackers c.events }
unfolding kill_applications
kill_applications_lem [] c = refl
kill_applications_lem (t ∷ trackers) c =
    kill_applications_lem trackers (emit (deleted_later t.address) (emit (killed t.process_id) c))

-- The controller behind `stop`: the trackers of the applications are dropped, the rest stays.
pub stop_lem :
    (c : Controller)
    → stop c ≡ record c {
      application_trackers = [];
      events = application_kills c.application_trackers (service_kills c.tracker c.events);
    }
unfolding stop
stop_lem c = simp (kill_service_lem, kill_applications_lem) refl

-- An event that has happened.
pub data Happened (event : Event) : List Event → Type 0 where
  now : {events : List Event} → Happened event (event ∷ events)
  before :
      {other : Event} {events : List Event}
      → Happened event events
      → Happened event (other ∷ events)

pub data IsIn (t : Tracker) : List Tracker → Type 0 where
  first : {trackers : List Tracker} → IsIn t (t ∷ trackers)
  later : {u : Tracker} {trackers : List Tracker} → IsIn t trackers → IsIn t (u ∷ trackers)

keeps :
    (event : Event) (o : Option Tracker) {events : List Event}
    → Happened event events
    → Happened event (kills o events)
keeps event none h = h
keeps event (some t) h = before h

application_keeps :
    (event : Event) (trackers : List Tracker) (events : List Event)
    → Happened event events
    → Happened event (application_kills trackers events)
application_keeps event [] events h = h
application_keeps event (t ∷ trackers) events h =
    application_keeps event trackers _ (before (before h))

makes :
    (o : Option Tracker) (t : Tracker) (events : List Event)
    → o ≡ some t
    → Happened (killed t.process_id) (kills o events)
makes o t events e = rw e now

application_makes :
    (t : Tracker) (trackers : List Tracker) (events : List Event)
    → IsIn t trackers
    → Happened (killed t.process_id) (application_kills trackers events)
application_makes t [] events h = elim h [ ]
application_makes t (_ ∷ trackers) events first = application_keeps _ trackers _ (before now)
application_makes t (u ∷ trackers) events (later h) = application_makes t trackers _ h

service_makes :
    (t : Tracker) (s : Service) (tracker : Service → Option Tracker) (events : List Event)
    → tracker s ≡ some t
    → Happened (killed t.process_id) (service_kills tracker events)
service_makes t zygote tracker events e = makes _ t _ e
service_makes t adbd tracker events e = keeps _ (tracker zygote) (makes _ t _ e)
service_makes t service_manager tracker events e =
    keeps _ (tracker zygote) (keeps _ (tracker adbd) (makes _ t _ e))
service_makes t bootanimation tracker events e =
    keeps _ (tracker zygote)
      (keeps _ (tracker adbd) (keeps _ (tracker service_manager) (makes _ t _ e)))
service_makes t installd tracker events e = keeps _ (tracker zygote) (
    keeps _ (tracker adbd)
      (keeps _ (tracker service_manager) (keeps _ (tracker bootanimation) (makes _ t _ e))))
service_makes t surfaceflinger tracker events e = keeps _ (tracker zygote) (
    keeps _ (tracker adbd) (
      keeps _ (tracker service_manager)
        (keeps _ (tracker bootanimation) (keeps _ (tracker installd) (makes _ t _ e)))))

-- A tracker that the controller holds, of a service or of an application.
abbrev pub IsTracked : Tracker → Controller → Type 0
IsTracked t c = ((s : Service) × (c.tracker s ≡ some t)) ⊎ IsIn t c.application_trackers

-- `stop` sends SIGTERM to the process of every tracker that the controller holds. It forgets those
-- of the applications, and leaves each service as it was, running or not, until its tracker reports.
pub stop-IsTracked :
    (c : Controller) (t : Tracker)
    → IsTracked t c
    → Happened (killed t.process_id) (stop c).events
      × ((stop c).application_trackers ≡ [])
      × ((stop c).tracker ≡ c.tracker)
      × ((stop c).process ≡ c.process)
stop-IsTracked c t (inl (s, e)) = rw stop_lem (
  application_keeps _ c.application_trackers _ (service_makes t s c.tracker c.events e),
  refl,
  refl,
  refl,
)
stop-IsTracked c t (inr h) =
    rw stop_lem (application_makes t c.application_trackers _ h, refl, refl, refl)
