-- ===== src/WaylandClient.antt =====
-- legacy/old-shashlik/src/deps/surfaceflinger/WaylandClient.cpp: the connection to the display's
-- server, the globals that it announces and the devices of its seat. The libraries of Wayland are
-- the parameter `Wayland`. A call on a NULL object and a failed assertion have no result.
pub mod Ledger
pub mod Registry
pub mod Devices
pub mod Sessions
pub mod Connection
pub mod Disconnect
pub mod Forgotten
pub mod Window
mod Tests
pub mod Globals
pub mod Announced
use xylitol.Common.{
  ℕ, ◌+◌, Bool, true, false, Option, none, some, List, [], ◌∷◌, ◌==◌, if◌then◌else◌, Bytes, codes,
  eqb_bytes,
}

pub data Device : Type 0 where
  pointer keyboard touch : Device

pub data Kind : Type 0 where
  display registry event_queue compositor seat shell shm cursor_theme : Kind
  surface shell_surface egl_window : Kind
  device : Device → Kind

-- What is asked of the libraries. An object is named by its address.
pub data Event : Type 0 where
  made : Kind → ℕ → Event
  not_made : Kind → Event
  destroyed : Kind → ℕ → Event
  listening : Kind → ℕ → Event
  flushed : ℕ → Event
  dispatched : ℕ → Event
  cursor_taken : ℕ → Event
  -- "WaylandClient not connected", "wl_display_connect FAILED" and the other messages
  warned : Event
  -- set_toplevel, set_title and commit of a shell surface
  toplevel : ℕ → Event
  titled : ℕ → Bytes → Event
  committed : ℕ → Event
  -- wl_shell_surface_pong(surface, serial)
  answered_ping : ℕ → ℕ → Event

-- What the server tells the listeners of the registry and of the seat.
pub data Message : Type 0 where
  announced : ℕ → Bytes → Message
  removed : ℕ → Message
  capabilities : ℕ → Message

pub record Wayland : Type 0 where
  -- whether the call that makes an object does so
  pub succeeds : Kind → List Event → Bool
  pub has_cursor : List Event → Bool
  -- caps & WL_SEAT_CAPABILITY_POINTER, …
  pub has_device : ℕ → Device → Bool
  -- what one dispatch brings to the listeners
  pub messages : List Event → List Message

-- The members of the client, the address of the next object, and the events, newest first. Before
-- the first connection the constructor leaves the event queue as it is in memory.
pub record Client : Type 0 where
  pub display : Option ℕ
  pub registry : Option ℕ
  pub event_queue : Option ℕ
  pub compositor : Option ℕ
  pub seat : Option ℕ
  pub device : Device → Option ℕ
  pub shell : Option ℕ
  pub shm : Option ℕ
  pub cursor_theme : Option ℕ
  -- the theme of the default cursor
  pub default_cursor : Option ℕ
  pub fresh : ℕ
  pub events : List Event

-- The constructor, in a process with these events.
abbrev pub new_client : ℕ → List Event → Client
new_client fresh events = record {
  display = none;
  registry = none;
  event_queue = none;
  compositor = none;
  seat = none;
  device = λ _. none;
  shell = none;
  shm = none;
  cursor_theme = none;
  default_cursor = none;
  fresh = fresh;
  events = events;
}

abbrev pub emit : Event → Client → Client
emit event c = record c { events = event ∷ c.events }

abbrev pub device_index : Device → ℕ
device_index pointer = 0
device_index keyboard = 1
device_index touch = 2

abbrev pub set_device : Device → Option ℕ → (Device → Option ℕ) → Device → Option ℕ
set_device d x f e = if device_index d == device_index e then x else f e

abbrev pub and_then {ℓ} : {A B : Type ℓ} → Option A → (A → Option B) → Option B
and_then none f = none
and_then (some x) f = f x

-- getCompositor, getShell, getDisplay, getEventQueue and getShm, by the member.
abbrev pub warn_events : Option ℕ → List Event → List Event
warn_events none events = warned ∷ events
warn_events (some d) events = events

abbrev pub warn_unconnected : Client → Client
warn_unconnected c = record c { events = warn_events c.display c.events }

abbrev pub get_compositor : Client → Option ℕ × Client
get_compositor c = (c.compositor, warn_unconnected c)

abbrev pub get_shell : Client → Option ℕ × Client
get_shell c = (c.shell, warn_unconnected c)

abbrev pub get_display : Client → Option ℕ × Client
get_display c = (c.display, warn_unconnected c)

abbrev pub get_event_queue : Client → Option ℕ × Client
get_event_queue c = (c.event_queue, warn_unconnected c)

abbrev pub get_shm : Client → Option ℕ × Client
get_shm c = (c.shm, warn_unconnected c)

-- What is done with the object that a call has returned, or with NULL.
unfoldable pub with_device : Device → Option ℕ × Client → Option Client
with_device d (none, c) = none
with_device d (some n, c) =
    some (emit (listening (device d) n) (record c { device = set_device d (some n) c.device }))

unfoldable pub with_compositor : Option ℕ × Client → Option Client
with_compositor (bound, c) = some (record c { compositor = bound })

unfoldable pub with_seat : Option ℕ × Client → Option Client
with_seat (none, c) = none
with_seat (some n, c) = some (emit (listening seat n) (record c { seat = some n }))

unfoldable pub with_shell : Option ℕ × Client → Option Client
with_shell (bound, c) = some (record c { shell = bound })

unfoldable pub with_queue : Option ℕ × Client → Option Client
with_queue (queue, c) = some (record c { event_queue = queue })

module _ (wayland : Wayland) where
  -- A call that returns a new object or NULL.
  unfoldable pub make : Kind → Client → Option ℕ × Client
  make k c =
      if wayland.succeeds k c.events
      then (some c.fresh, record c { fresh = c.fresh + 1; events = made k c.fresh ∷ c.events })
      else (none, emit (not_made k) c)

  -- wl_seat_get_pointer(mSeat), and a listener on it
  unfoldable pub get_device : Device → Option ℕ → Client → Option Client
  get_device d none c = none
  get_device d (some s) c = with_device d (make (device d) c)

  -- One device, by whether the seat has it and by the object that there is.
  unfoldable pub update_device : Device → Bool → Option ℕ → Client → Option Client
  update_device d true none c = get_device d c.seat c
  update_device d true (some n) c = some c
  update_device d false none c = some c
  update_device d false (some n) c =
      some (emit (destroyed (device d) n) (record c { device = set_device d none c.device }))

  unfoldable pub handle_device : Device → ℕ → Client → Option Client
  handle_device d caps c = update_device d (wayland.has_device caps d) (c.device d) c

  unfoldable pub seat_handle_capabilities : ℕ → Client → Option Client
  seat_handle_capabilities caps c =
      and_then (handle_device pointer caps c)
        (λ c1. and_then (handle_device keyboard caps c1) (λ c2. handle_device touch caps c2))

  -- mCursorTheme = wl_cursor_theme_load(…), and the default cursor
  unfoldable pub with_theme : Option ℕ × Client → Option Client
  with_theme (none, c) = some (emit warned (record c { cursor_theme = none }))
  with_theme (some n, c) = some (
      if wayland.has_cursor c.events
      then emit (cursor_taken n) (record c { cursor_theme = some n; default_cursor = some n })
      else emit warned (record c { cursor_theme = some n; default_cursor = none }))

  -- mShm = wl_registry_bind(…), and its cursor theme
  unfoldable pub with_shm : Option ℕ × Client → Option Client
  with_shm (none, c) = none
  with_shm (some n, c) = with_theme (make cursor_theme (record c { shm = some n }))

  unfoldable pub handle_registry : ℕ → Bytes → Client → Option Client
  handle_registry name interface c =
      if eqb_bytes interface (codes "wl_compositor")
      then with_compositor (make compositor c)
      else if eqb_bytes interface (codes "wl_seat")
      then with_seat (make seat c)
      else if eqb_bytes interface (codes "wl_shell")
      then with_shell (make shell c)
      else if eqb_bytes interface (codes "wl_shm")
      then with_shm (make shm c)
      else some c

  abbrev pub handle_registry_remove : ℕ → Client → Option Client
  handle_registry_remove name c = some c

  unfoldable pub handle : Message → Client → Option Client
  handle (announced name interface) c = handle_registry name interface c
  handle (removed name) c = handle_registry_remove name c
  handle (capabilities caps) c = seat_handle_capabilities caps c

  -- The listeners of what one dispatch brings.
  unfoldable pub handle_all : List Message → Client → Option Client
  handle_all [] c = some c
  handle_all (m ∷ messages) c = and_then (handle m c) (handle_all messages)

  abbrev pub dispatch : ℕ → Client → Option Client
  dispatch d c = handle_all (wayland.messages c.events) (emit (dispatched d) c)

  -- connect behind wl_display_get_registry
  unfoldable pub with_registry : ℕ → Option ℕ × Client → Option Client
  with_registry d (none, c) = none
  with_registry d (some r, c) =
      and_then (dispatch d (emit (listening registry r) (record c { registry = some r })))
        (λ c'. with_queue (make event_queue c'))

  -- connect behind wl_display_connect
  unfoldable pub with_display : Option ℕ × Client → Option Client
  with_display (none, c) = some (emit warned c)
  with_display (some d, c) = with_registry d (make registry (record c { display = some d }))

  unfoldable pub connect : Client → Option Client
  connect c = elim c.display [ some d ↦ none | none ↦ with_display (make display c) ]

abbrev pub destroy_events : Kind → Option ℕ → List Event → List Event
destroy_events k none events = events
destroy_events k (some n) events = destroyed k n ∷ events

-- if (m…) wl_…_destroy(m…);
abbrev pub destroy_if : Kind → Option ℕ → Client → Client
destroy_if k p c = record c { events = destroy_events k p c.events }

-- The events are the calls that the source makes, in order, also those that libwayland forbids: an
-- object that is not alive is destroyed again, or a queue behind the display that it belongs to. What
-- such a call then does is not modelled; the theorems tell where the source makes one.
unfoldable pub destroy_session : Client → Option ℕ → Option ℕ → Option ℕ → Option Client
destroy_session c (some r) (some d) (some q) =
    some
      (record (emit (destroyed event_queue q) (
        emit (destroyed display d) (
          emit (flushed d) (
            emit (destroyed registry r)
              (destroy_if compositor c.compositor (destroy_if cursor_theme c.cursor_theme c)))))) {
                display = none;
              })
destroy_session c (some r) (some d) none = none
destroy_session c (some r) none q = none
destroy_session c none d q = none

unfoldable pub disconnect : Client → Option Client
disconnect c = destroy_session c c.registry c.display c.event_queue
