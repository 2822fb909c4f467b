-- ===== src/WaylandClient/Tests.antt =====
-- A server with a seat, a compositor and a shell, and one that says nothing.
use xylitol.Common.{
  ℕ, ◌%◌, ◌/◌, ◌≡◌, refl, Bool, true, Option, none, some, List, [], ◌∷◌, ◌==◌, codes,
}
use xylitol.Common.Int.{pos}
use xylitol.WaylandClient.{
  Device, pointer, keyboard, touch, Kind, display, registry, event_queue, compositor, cursor_theme,
  device, Event, made, destroyed, Message, announced, capabilities, Wayland, Client, new_client,
  and_then, make, with_device, get_device, update_device, handle_device, seat_handle_capabilities,
  with_compositor, with_seat, with_shell, with_theme, with_shm, handle_registry, handle, handle_all,
  with_queue, with_registry, with_display, connect, disconnect,
}
use xylitol.WaylandClient.Ledger.{live, Ensures}
use xylitol.WaylandClient.Devices.{OwnsDevices, HasExactly, handle_all-seat_handle_capabilities}
use xylitol.WaylandClient.Disconnect.{IsLeft, disconnect-connect}
use xylitol.WaylandClient.Window.{native_create_window}
use xylitol.WaylandClient.Window.Shown.{IsShown, connect-native_create_window}

abbrev has_device : ℕ → Device → Bool
has_device caps pointer = caps % 2 == 1
has_device caps keyboard = (caps / 2) % 2 == 1
has_device caps touch = (caps / 4) % 2 == 1

abbrev server : List Message → Wayland
server messages = record {
  succeeds = λ _ _. true;
  has_cursor = λ _. true;
  has_device = has_device;
  messages = λ _. messages;
}

abbrev greetings : List Message
greetings =
    announced 1 (codes "wl_compositor")
    ∷ announced 2 (codes "wl_seat")
    ∷ announced 3 (codes "wl_shm")
    ∷ capabilities 3
    ∷ announced 4 (codes "wl_output")
    ∷ announced 5 (codes "wl_shell")
    ∷ []

abbrev first : Client
first = new_client 1 []

abbrev or_first : Option Client → Client
or_first none = first
or_first (some c) = c

handle_all-seat_handle_capabilities_example :
    Ensures
      (λ c. OwnsDevices c × HasExactly (server []) 5 c)
      (and_then (handle_all (server []) greetings first) (seat_handle_capabilities (server []) 5))
handle_all-seat_handle_capabilities_example =
    handle_all-seat_handle_capabilities (server []) greetings 5 first (λ d. refl)

-- The pointer stays, the keyboard goes and a touch screen comes.
changed :
    (let c = or_first (
        and_then
          (handle_all (server []) greetings first)
          (seat_handle_capabilities (server []) 5)) in
      live (device touch) c.events)
    ≡ some (8 ∷ [])
unfolding handle_all handle handle_registry with_compositor with_seat with_shell with_shm with_theme
    make seat_handle_capabilities handle_device update_device get_device with_device
changed = refl

abbrev second : Client
second = or_first (connect (server greetings) first)

abbrev third : Client
third = or_first (handle_all (server greetings) (capabilities 0 ∷ []) second)

disconnect-connect_example :
    (c : Client) × (before : List Event) × (disconnect third ≡ some c)
    × (c.events ≡ destroyed event_queue 10 ∷ before)
    × (live display before ≡ some [])
    × (live registry before ≡ some [])
    × (live compositor before ≡ some [])
    × (live cursor_theme before ≡ some [])
    × (live event_queue before ≡ some (10 ∷ []))
    × ((k : Kind) → IsLeft k → live k before ≡ live k third.events)
    × (c.display ≡ none)
    × (c.compositor ≡ third.compositor)
    × (c.cursor_theme ≡ third.cursor_theme)
unfolding connect with_display with_registry with_queue handle_all handle handle_registry
    with_compositor with_seat with_shell with_shm with_theme make seat_handle_capabilities
    handle_device update_device get_device with_device
disconnect-connect_example =
    disconnect-connect (server greetings) (capabilities 0 ∷ []) first second third 1 10
      (record { no_display = refl; display_gone = refl; registry_gone = refl; queue_gone = refl })
      refl refl refl refl refl refl

abbrev bound : Client
bound = record first {
  display = some 1;
  registry = some 2;
  compositor = some 3;
  event_queue = some 4;
  fresh = 5;
  events = made event_queue 4 ∷ made compositor 3 ∷ made registry 2 ∷ made display 1 ∷ [];
}

abbrev unbound : Client
unbound = or_first (disconnect bound)

abbrev bound_again : Client
bound_again = or_first (connect (server []) unbound)

abbrev unbound_again : Client
unbound_again = or_first (disconnect bound_again)

connect-native_create_window_example :
    (c : Client) × (connect (server greetings) (new_client 1 []) ≡ some c)
    × IsShown
        (server greetings)
        (λ _ _. refl)
        (pos 640)
        (pos 480)
        c
        (native_create_window (server greetings) (pos 640) (pos 480) c)
connect-native_create_window_example =
    connect-native_create_window (server greetings) (λ _ _. refl) greetings 1 [] (pos 640) (pos 480)
      (λ _. refl) (refl, tt) refl refl
