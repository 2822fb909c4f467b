-- ===== src/WaylandClient/Sessions.antt =====
-- WaylandClient.cpp: connections, from connect to disconnect.
use xylitol.Common.{ℕ, ◌≡◌, refl, ◌∙◌, Bool, true, false, Option, none, some, List, [], ◌∷◌}
use xylitol.WaylandClient.{
  Device, pointer, keyboard, touch, Kind, display, registry, event_queue, device, Event, Message,
  announced, removed, capabilities, made, destroyed, and_then, Wayland, Client, with_device,
  get_device, update_device, handle_device, seat_handle_capabilities, handle_registry, handle,
  handle_all,
}
use xylitol.WaylandClient.Ledger.{live, Ensures, Ensures-map, Ensures-and_then, make-cases}
use xylitol.WaylandClient.Registry.{
  IsOuter, display_outer, registry_outer, queue_outer, Keeps, handle_registry-Keeps,
}

-- The kinds of objects of a connection itself.
pub data IsSession : Kind → Type 0 where
  display_session : IsSession display
  registry_session : IsSession registry
  queue_session : IsSession event_queue

session-IsOuter : {k : Kind} → IsSession k → IsOuter k
session-IsOuter display_session = display_outer
session-IsOuter registry_session = registry_outer
session-IsOuter queue_session = queue_outer

pub record KeepsSession (c c' : Client) : Type 0 where
  pub same_display : c'.display ≡ c.display
  pub same_registry : c'.registry ≡ c.registry
  pub same_queue : c'.event_queue ≡ c.event_queue
  pub same_live : (k : Kind) → IsSession k → live k c'.events ≡ live k c.events

KeepsSession-trans : (a b c : Client) → KeepsSession a b → KeepsSession b c → KeepsSession a c
KeepsSession-trans a b c f g = record {
  same_display = g.same_display ∙ f.same_display;
  same_registry = g.same_registry ∙ f.same_registry;
  same_queue = g.same_queue ∙ f.same_queue;
  same_live = λ k o. g.same_live k o ∙ f.same_live k o;
}

KeepsSession-Keeps : (c c' : Client) → Keeps c c' → KeepsSession c c'
KeepsSession-Keeps c c' h = record {
  same_display = h.same_display;
  same_registry = h.same_registry;
  same_queue = h.same_queue;
  same_live = λ k o. h.same_live k (session-IsOuter o);
}

-- Events and members of devices.
live-device_made :
    (k : Kind) (d : Device) (n : ℕ) (events : List Event)
    → IsSession k
    → live k (made (device d) n ∷ events) ≡ live k events
live-device_made k d n events display_session = refl
live-device_made k d n events registry_session = refl
live-device_made k d n events queue_session = refl

live-device_destroyed :
    (k : Kind) (d : Device) (n : ℕ) (events : List Event)
    → IsSession k
    → live k (destroyed (device d) n ∷ events) ≡ live k events
live-device_destroyed k d n events display_session = refl
live-device_destroyed k d n events registry_session = refl
live-device_destroyed k d n events queue_session = refl

with_same :
    (c c' : Client)
    → c'.display ≡ c.display
    → c'.registry ≡ c.registry
    → c'.event_queue ≡ c.event_queue
    → ((k : Kind) → IsSession k → live k c'.events ≡ live k c.events)
    → KeepsSession c c'
with_same c c' d r q l = record {
  same_display = d;
  same_registry = r;
  same_queue = q;
  same_live = l;
}

module _ (wayland : Wayland) where
  get_device-KeepsSession :
      (d : Device) (s : Option ℕ) (c : Client) → Ensures (KeepsSession c) (get_device wayland d s c)
  unfolding get_device with_device
  get_device-KeepsSession d none c = tt
  get_device-KeepsSession d (some s) c =
      make-cases wayland (device d) c (λ r. Ensures (KeepsSession c) (with_device d r))
        (with_same c _ refl refl refl (λ k o. live-device_made k d c.fresh c.events o)) (tt {0})

  update_device-KeepsSession :
      (d : Device) (b : Bool) (p : Option ℕ) (c : Client)
      → Ensures (KeepsSession c) (update_device wayland d b p c)
  unfolding update_device
  update_device-KeepsSession d true none c = get_device-KeepsSession d c.seat c
  update_device-KeepsSession d true (some n) c = with_same c c refl refl refl (λ k o. refl)
  update_device-KeepsSession d false none c = with_same c c refl refl refl (λ k o. refl)
  update_device-KeepsSession d false (some n) c =
      with_same c _ refl refl refl (λ k o. live-device_destroyed k d n c.events o)

  Ensures-KeepsSession :
      (a : Client) (r : Option Client) (f : Client → Option Client)
      → Ensures (KeepsSession a) r
      → ((b : Client) → Ensures (KeepsSession b) (f b))
      → Ensures (KeepsSession a) (and_then r f)
  Ensures-KeepsSession a r f h k =
      Ensures-and_then (KeepsSession a) (KeepsSession a) r f h (λ b kept.
        Ensures-map {P = KeepsSession b} {Q = KeepsSession a}
          (λ c next. KeepsSession-trans a b c kept next) (f b) (k b))

  seat_handle_capabilities-KeepsSession :
      (caps : ℕ) (c : Client) → Ensures (KeepsSession c) (seat_handle_capabilities wayland caps c)
  unfolding seat_handle_capabilities handle_device
  seat_handle_capabilities-KeepsSession caps c =
      Ensures-KeepsSession c _ _ (update_device-KeepsSession pointer _ _ c) (λ c1.
        Ensures-KeepsSession c1 _ _ (update_device-KeepsSession keyboard _ _ c1)
          (λ c2. update_device-KeepsSession touch _ _ c2))

  handle-KeepsSession : (m : Message) (c : Client) → Ensures (KeepsSession c) (handle wayland m c)
  unfolding handle
  handle-KeepsSession (announced name interface) c =
      Ensures-map (KeepsSession-Keeps c) (handle_registry wayland name interface c)
        (handle_registry-Keeps wayland name interface c)
  handle-KeepsSession (removed name) c = with_same c c refl refl refl (λ k o. refl)
  handle-KeepsSession (capabilities caps) c = seat_handle_capabilities-KeepsSession caps c

  pub handle_all-KeepsSession :
      (messages : List Message) (c : Client)
      → Ensures (KeepsSession c) (handle_all wayland messages c)
  unfolding handle_all
  handle_all-KeepsSession [] c = with_same c c refl refl refl (λ k o. refl)
  handle_all-KeepsSession (m ∷ messages) c =
      Ensures-KeepsSession c _ _ (handle-KeepsSession m c) (handle_all-KeepsSession messages)
