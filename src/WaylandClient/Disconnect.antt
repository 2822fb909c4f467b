-- ===== src/WaylandClient/Disconnect.antt =====
-- WaylandClient.cpp: what connect makes, which calls disconnect makes, and what it forgets.
use mathlib.Core.Option.{none-ne-some}
use mathlib.Core.Path.{subst}
use xylitol.Common.{
  ℕ, ◌≡◌, refl, sym, ap, ◌∙◌, inl, inr, true, false, Option, none, some, List, [], ◌∷◌,
  if◌then◌else◌,
}
use xylitol.WaylandClient.{
  Device, Kind, display, registry, event_queue, compositor, seat, shell, shm, cursor_theme, device,
  Event, Message, destroyed, flushed, and_then, Wayland, Client, handle_all, connect,
  destroy_events, destroy_if, destroy_session, disconnect,
}
use xylitol.WaylandClient.Ledger.{live, remove, is_kind, objects, Ensures}
use xylitol.WaylandClient.Sessions.{
  display_session, registry_session, queue_session, KeepsSession, handle_all-KeepsSession,
}
use xylitol.WaylandClient.Connection.{Idle, Connected, IsSettled, one_less, connect-IsSettled}

-- The objects that disconnect leaves alive.
pub data IsLeft : Kind → Type 0 where
  seat_left : IsLeft seat
  shell_left : IsLeft shell
  shm_left : IsLeft shm
  device_left : (d : Device) → IsLeft (device d)

abbrev pub before_session : Client → Client
before_session c = destroy_if compositor c.compositor (destroy_if cursor_theme c.cursor_theme c)

-- The calls before that which destroys the queue.
abbrev before_queue : Client → ℕ → ℕ → List Event
before_queue c r d =
    destroyed display d ∷ flushed d ∷ destroyed registry r ∷ (before_session c).events

abbrev ended : Client → ℕ → ℕ → ℕ → Client
ended c r d q = record c { events = destroyed event_queue q ∷ before_queue c r d; display = none }

disconnect-ended :
    (c : Client) (r d q : ℕ)
    → c.registry ≡ some r
    → c.display ≡ some d
    → c.event_queue ≡ some q
    → disconnect c ≡ some (ended c r d q)
unfolding disconnect destroy_session
disconnect-ended c r d q er ed eq = λ i. destroy_session c (er i) (ed i) (eq i)

pub live-destroy_events :
    (k g : Kind) (p : Option ℕ) (events : List Event)
    → is_kind k g ≡ false
    → live k (destroy_events g p events) ≡ live k events
live-destroy_events k g none events e = refl
live-destroy_events k g (some n) events e =
    ap (λ b. if b then and_then (live k events) (remove n) else live k events) e

live-before_session :
    (k : Kind) (c : Client)
    → is_kind k compositor ≡ false
    → is_kind k cursor_theme ≡ false
    → live k (before_session c).events ≡ live k c.events
live-before_session k c e g =
    live-destroy_events k compositor c.compositor _ e
    ∙ live-destroy_events k cursor_theme c.cursor_theme c.events g

left_alive :
    (c : Client) (r d : ℕ) (k : Kind) → IsLeft k → live k (before_queue c r d) ≡ live k c.events
left_alive c r d k seat_left = live-before_session seat c refl refl
left_alive c r d k shell_left = live-before_session shell c refl refl
left_alive c r d k shm_left = live-before_session shm c refl refl
left_alive c r d k (device_left e) = live-before_session (device e) c refl refl

-- Of a kind of which only the object named is alive, none is left once it is destroyed.
named_gone :
    (k : Kind) (p : Option ℕ) (events : List Event)
    → is_kind k k ≡ true
    → live k events ≡ some (objects p)
    → live k (destroy_events k p events) ≡ some []
named_gone k none events same alive = alive
named_gone k (some n) events same alive =
    ap (λ b. if b then and_then (live k events) (remove n) else live k events) same
    ∙ one_less n (live k events) alive

pub Ensures-some :
    (P : Client → Type 0) (r : Option Client) (c : Client) → Ensures P r → r ≡ some c → P c
Ensures-some P r c h e = subst (Ensures P) e h

settled-Connected : (c : Client) (d : ℕ) → IsSettled c → c.display ≡ some d → Connected c
settled-Connected c d (inl h) e = absurd (none-ne-some d (sym h.no_display ∙ e))
settled-Connected c d (inr h) e = h

Connected-KeepsSession : (c c' : Client) → Connected c → KeepsSession c c' → Connected c'
Connected-KeepsSession c c' h k = record {
  display_object = h.display_object;
  registry_object = h.registry_object;
  same_display = k.same_display ∙ h.same_display;
  same_registry = k.same_registry ∙ h.same_registry;
  display_alive = k.same_live display display_session ∙ h.display_alive;
  registry_alive = k.same_live registry registry_session ∙ h.registry_alive;
  queue_alive =
      k.same_live event_queue queue_session
      ∙ h.queue_alive
      ∙ ap (λ p. some (objects p)) (sym k.same_queue);
}

-- Once a client without a connection has made one with an event queue, and whatever messages were
-- handled in between, disconnect makes these calls, where only the compositor and the cursor theme
-- that the client names are alive: first each object of the connection that it destroys is alive, and
-- none of their kinds is left, but the seat, its devices, the shell and the shared memory stay alive.
-- Then it destroys the event queue, which is alive, when its display is gone; libwayland forbids
-- this. The display is reset, and the compositor and the theme that are gone stay named.
pub disconnect-connect :
    (wayland : Wayland) (messages : List Message) (c c1 c2 : Client) (d q : ℕ)
    → Idle c
    → connect wayland c ≡ some c1
    → c1.display ≡ some d
    → c1.event_queue ≡ some q
    → handle_all wayland messages c1 ≡ some c2
    → live compositor c2.events ≡ some (objects c2.compositor)
    → live cursor_theme c2.events ≡ some (objects c2.cursor_theme)
    → (c3 : Client) × (before : List Event) × (disconnect c2 ≡ some c3)
      × (c3.events ≡ destroyed event_queue q ∷ before)
      × (live display before ≡ some [])
      × (live registry before ≡ some [])
      × (live compositor before ≡ some [])
      × (live cursor_theme before ≡ some [])
      × (live event_queue before ≡ some (q ∷ []))
      × ((k : Kind) → IsLeft k → live k before ≡ live k c2.events)
      × (c3.display ≡ none)
      × (c3.compositor ≡ c2.compositor)
      × (c3.cursor_theme ≡ c2.cursor_theme)
disconnect-connect wayland messages c c1 c2 d q idle made_up there queue handled drawn themed =
    let first =
      settled-Connected c1 d
        (Ensures-some IsSettled (connect wayland c) c1 (connect-IsSettled wayland c idle) made_up)
        there in
    let kept =
      Ensures-some (KeepsSession c1) (handle_all wayland messages c1) c2
        (handle_all-KeepsSession wayland messages c1) handled in
    let open_ = Connected-KeepsSession c1 c2 first kept in
    let queue' = kept.same_queue ∙ queue in
    let d' = open_.display_object in
    let r' = open_.registry_object in
    let themes = destroy_events cursor_theme c2.cursor_theme c2.events in
    (
      ended c2 r' d' q,
      before_queue c2 r' d',
      disconnect-ended c2 _ _ q open_.same_registry open_.same_display queue',
      refl,
      one_less d' _ (live-before_session display c2 refl refl ∙ open_.display_alive),
      one_less r' _ (live-before_session registry c2 refl refl ∙ open_.registry_alive),
      named_gone compositor c2.compositor themes refl
          (live-destroy_events compositor cursor_theme c2.cursor_theme c2.events refl ∙ drawn),
      live-destroy_events cursor_theme compositor c2.compositor themes refl
          ∙ named_gone cursor_theme c2.cursor_theme c2.events refl themed,
      live-before_session event_queue c2 refl refl
          ∙ open_.queue_alive
          ∙ ap (λ p. some (objects p)) queue',
      left_alive c2 r' d',
      refl,
      refl,
      refl,
    )
