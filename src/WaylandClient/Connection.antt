-- ===== src/WaylandClient/Connection.antt =====
-- WaylandClient.cpp: what connect makes.
use mathlib.Core.Path.{subst}
use xylitol.Common.{
  ℕ, ◌≡◌, refl, sym, ap, ◌∙◌, arith, ◌⊎◌, inl, inr, Option, none, some, List, [], ◌∷◌,
}
use xylitol.WaylandClient.{
  display, registry, event_queue, emit, listening, dispatched, and_then, Wayland, Client, make,
  dispatch, with_queue, with_registry, with_display, connect,
}
use xylitol.WaylandClient.Ledger.{
  live, remove, objects, Ensures, Ensures-map, Ensures-and_then, with_object, make-cases,
}
use xylitol.WaylandClient.Sessions.{
  display_session, registry_session, queue_session, KeepsSession, handle_all-KeepsSession,
}

-- No connection is open.
pub record Idle (c : Client) : Type 0 where
  pub no_display : c.display ≡ none
  pub display_gone : live display c.events ≡ some []
  pub registry_gone : live registry c.events ≡ some []
  pub queue_gone : live event_queue c.events ≡ some []

-- The display and the registry, and the event queue if there is one, are all that is alive of their
-- kinds.
pub record Connected (c : Client) : Type 0 where
  pub display_object : ℕ
  pub registry_object : ℕ
  pub same_display : c.display ≡ some display_object
  pub same_registry : c.registry ≡ some registry_object
  pub display_alive : live display c.events ≡ some (display_object ∷ [])
  pub registry_alive : live registry c.events ≡ some (registry_object ∷ [])
  pub queue_alive : live event_queue c.events ≡ some (objects c.event_queue)

abbrev pub IsSettled : Client → Type 0
IsSettled c = Idle c ⊎ Connected c

one_more :
    (n : ℕ) (alive : Option (List ℕ))
    → alive ≡ some []
    → and_then alive (λ l. some (n ∷ l)) ≡ some (n ∷ [])
one_more n alive e = ap (λ a. and_then a (λ l. some (n ∷ l))) e

pub one_less :
    (n : ℕ) (alive : Option (List ℕ)) → alive ≡ some (n ∷ []) → and_then alive (remove n) ≡ some []
one_less n alive e = rw e (ground arith)

-- A registry is there, and no queue yet.
record Registered (c : Client) (d r : ℕ) : Type 0 where
  with_display : c.display ≡ some d
  with_registry : c.registry ≡ some r
  display_alive : live display c.events ≡ some (d ∷ [])
  registry_alive : live registry c.events ≡ some (r ∷ [])
  queue_gone : live event_queue c.events ≡ some []

Registered-KeepsSession :
    (c c' : Client) (d r : ℕ) → Registered c d r → KeepsSession c c' → Registered c' d r
Registered-KeepsSession c c' d r g k = record {
  with_display = k.same_display ∙ g.with_display;
  with_registry = k.same_registry ∙ g.with_registry;
  display_alive = k.same_live display display_session ∙ g.display_alive;
  registry_alive = k.same_live registry registry_session ∙ g.registry_alive;
  queue_gone = k.same_live event_queue queue_session ∙ g.queue_gone;
}

module _ (wayland : Wayland) where
  with_queue-Connected :
      (c : Client) (d r : ℕ)
      → Registered c d r
      → Ensures IsSettled (with_queue (make wayland event_queue c))
  unfolding with_queue
  with_queue-Connected c d r g =
      make-cases wayland event_queue c (λ m. Ensures IsSettled (with_queue m))
        (inr (record {
          display_object = d;
          registry_object = r;
          same_display = g.with_display;
          same_registry = g.with_registry;
          display_alive = g.display_alive;
          registry_alive = g.registry_alive;
          queue_alive = one_more c.fresh _ g.queue_gone;
        }))
        (inr (record {
          display_object = d;
          registry_object = r;
          same_display = g.with_display;
          same_registry = g.with_registry;
          display_alive = g.display_alive;
          registry_alive = g.registry_alive;
          queue_alive = g.queue_gone;
        }))

  behind_registry :
      (c : Client) (d r : ℕ)
      → Registered c d r
      → Ensures IsSettled
          (and_then (dispatch wayland d c) (λ c'. with_queue (make wayland event_queue c')))
  behind_registry c d r g =
      Ensures-and_then (λ c'. Registered c' d r) IsSettled _ _
        (Ensures-map {P = KeepsSession (emit (dispatched d) c)} {Q = λ c'. Registered c' d r}
          (λ c' k.
            Registered-KeepsSession (emit (dispatched d) c) c' d r
              (record {
                with_display = g.with_display;
                with_registry = g.with_registry;
                display_alive = g.display_alive;
                registry_alive = g.registry_alive;
                queue_gone = g.queue_gone;
              })
              k)
          _ (handle_all-KeepsSession wayland (wayland.messages c.events) (emit (dispatched d) c)))
        (λ c' h. with_queue-Connected c' d r h)

  with_registry-IsSettled :
      (c : Client) (d : ℕ)
      → c.display ≡ some d
      → live display c.events ≡ some (d ∷ [])
      → live registry c.events ≡ some []
      → live event_queue c.events ≡ some []
      → Ensures IsSettled (with_registry wayland d (make wayland registry c))
  unfolding with_registry
  with_registry-IsSettled c d e x y z =
      make-cases wayland registry c (λ m. Ensures IsSettled (with_registry wayland d m))
        (behind_registry
          (emit (listening registry c.fresh)
            (record (with_object registry c) { registry = some c.fresh }))
          d c.fresh
          (record {
            with_display = e;
            with_registry = refl;
            display_alive = x;
            registry_alive = one_more c.fresh _ y;
            queue_gone = z;
          }))
        (tt {0})

  pub connect-IsSettled : (c : Client) → Idle c → Ensures IsSettled (connect wayland c)
  unfolding connect with_display
  connect-IsSettled c h =
      subst
        (λ o.
          Ensures IsSettled
            (elim o [ some d ↦ none | none ↦ with_display wayland (make wayland display c) ]))
        (sym h.no_display)
        (make-cases wayland display c (λ m. Ensures IsSettled (with_display wayland m))
          (with_registry-IsSettled (record (with_object display c) { display = some c.fresh })
            c.fresh refl (one_more c.fresh _ h.display_gone) h.registry_gone h.queue_gone)
          (inl (record {
            no_display = h.no_display;
            display_gone = h.display_gone;
            registry_gone = h.registry_gone;
            queue_gone = h.queue_gone;
          })))
