-- ===== src/WaylandClient/Devices.antt =====
-- WaylandClient.cpp: the devices of the seat over all that the server says.
use xylitol.Common.{
  ℕ, ◌≡◌, refl, sym, ap, ◌∙◌, arith, Bool, true, false, Option, none, some, List, [], ◌∷◌, ◌==◌,
  if◌then◌else◌,
}
use xylitol.WaylandClient.{
  Device, pointer, keyboard, touch, device, Message, announced, removed, capabilities, made,
  destroyed, device_index, set_device, and_then, Wayland, Client, with_device, get_device,
  update_device, handle_device, seat_handle_capabilities, handle_registry, handle, handle_all,
}
use xylitol.Controller.Services.{is_some}
use xylitol.WaylandClient.Registry.{device_outer, Keeps, handle_registry-Keeps}
use xylitol.WaylandClient.Ledger.{
  live, objects, Ensures, Ensures-map, Ensures-both, Ensures-and_then, make-cases,
}

-- Each device that the client has is the one object of its kind that is alive.
abbrev pub OwnsDevices : Client → Type 0
OwnsDevices c = (d : Device) → live (device d) c.events ≡ some (objects (c.device d))

added-OwnsDevices :
    (d : Device) (n : ℕ) (c : Client)
    → c.device d ≡ none
    → OwnsDevices c
    → (e : Device)
    → live (device e) (made (device d) n ∷ c.events)
      ≡ some (objects (set_device d (some n) c.device e))
added-OwnsDevices pointer n c x h e = grind (arith, x, h)
added-OwnsDevices keyboard n c x h e = grind (arith, x, h)
added-OwnsDevices touch n c x h e = grind (arith, x, h)

removed-OwnsDevices :
    (d : Device) (n : ℕ) (c : Client)
    → c.device d ≡ some n
    → OwnsDevices c
    → (e : Device)
    → live (device e) (destroyed (device d) n ∷ c.events)
      ≡ some (objects (set_device d none c.device e))
removed-OwnsDevices pointer n c x h e = grind (arith, x, h)
removed-OwnsDevices keyboard n c x h e = grind (arith, x, h)
removed-OwnsDevices touch n c x h e = grind (arith, x, h)

Keeps-OwnsDevices : (c : Client) → OwnsDevices c → (c' : Client) → Keeps c c' → OwnsDevices c'
Keeps-OwnsDevices c h c' k d =
    k.same_live (device d) (device_outer d)
    ∙ h d
    ∙ ap (λ f. some (objects (f d))) (sym k.same_device)

-- Other devices are left, and this one is there if the seat has it.
abbrev Updated : Device → Bool → (Device → Option ℕ) → (Device → Option ℕ) → Type 0
Updated d b f g =
    (is_some (g d) ≡ b) × ((e : Device) → (device_index d == device_index e) ≡ false → g e ≡ f e)

set_device-same : (d : Device) (x : Option ℕ) (f : Device → Option ℕ) → set_device d x f d ≡ x
set_device-same pointer x f = refl
set_device-same keyboard x f = refl
set_device-same touch x f = refl

set_device-Updated :
    (d : Device) (x : Option ℕ) (f : Device → Option ℕ) → Updated d (is_some x) f (set_device d x f)
set_device-Updated d x f =
    (ap is_some (set_device-same d x f), λ o n. ap (λ t. if t then x else f o) n)

module _ (wayland : Wayland) where
  get_device-OwnsDevices :
      (d : Device) (s : Option ℕ) (c : Client)
      → c.device d ≡ none
      → OwnsDevices c
      → Ensures OwnsDevices (get_device wayland d s c)
  unfolding get_device with_device
  get_device-OwnsDevices d none c e h = tt
  get_device-OwnsDevices d (some s) c e h =
      make-cases wayland (device d) c (λ r. Ensures OwnsDevices (with_device d r))
        (added-OwnsDevices d c.fresh c e h) (tt {0})

  update_device-OwnsDevices :
      (d : Device) (b : Bool) (p : Option ℕ) (c : Client)
      → c.device d ≡ p
      → OwnsDevices c
      → Ensures OwnsDevices (update_device wayland d b p c)
  unfolding update_device
  update_device-OwnsDevices d true none c e h = get_device-OwnsDevices d c.seat c e h
  update_device-OwnsDevices d true (some n) c e h = h
  update_device-OwnsDevices d false none c e h = h
  update_device-OwnsDevices d false (some n) c e h = removed-OwnsDevices d n c e h

  handle_device-OwnsDevices :
      (d : Device) (caps : ℕ) (c : Client)
      → OwnsDevices c
      → Ensures OwnsDevices (handle_device wayland d caps c)
  unfolding handle_device
  handle_device-OwnsDevices d caps c h =
      update_device-OwnsDevices d (wayland.has_device caps d) (c.device d) c refl h

  seat_handle_capabilities-OwnsDevices :
      (caps : ℕ) (c : Client)
      → OwnsDevices c
      → Ensures OwnsDevices (seat_handle_capabilities wayland caps c)
  unfolding seat_handle_capabilities
  seat_handle_capabilities-OwnsDevices caps c h =
      Ensures-and_then OwnsDevices OwnsDevices _ _ (handle_device-OwnsDevices pointer caps c h)
        (λ c1 h1.
          Ensures-and_then OwnsDevices OwnsDevices _ _
            (handle_device-OwnsDevices keyboard caps c1 h1) (handle_device-OwnsDevices touch caps))

  handle-OwnsDevices :
      (m : Message) (c : Client) → OwnsDevices c → Ensures OwnsDevices (handle wayland m c)
  unfolding handle
  handle-OwnsDevices (announced name interface) c h =
      Ensures-map (Keeps-OwnsDevices c h) (handle_registry wayland name interface c)
        (handle_registry-Keeps wayland name interface c)
  handle-OwnsDevices (removed name) c h = h
  handle-OwnsDevices (capabilities caps) c h = seat_handle_capabilities-OwnsDevices caps c h

  handle_all-OwnsDevices :
      (messages : List Message) (c : Client)
      → OwnsDevices c
      → Ensures OwnsDevices (handle_all wayland messages c)
  unfolding handle_all
  handle_all-OwnsDevices [] c h = h
  handle_all-OwnsDevices (m ∷ messages) c h =
      Ensures-and_then OwnsDevices OwnsDevices _ _ (handle-OwnsDevices m c h)
        (λ c'. handle_all-OwnsDevices messages c')

  get_device-Updated :
      (d : Device) (s : Option ℕ) (c : Client)
      → Ensures (λ c'. Updated d true c.device c'.device) (get_device wayland d s c)
  unfolding get_device with_device
  get_device-Updated d none c = tt
  get_device-Updated d (some s) c =
      make-cases wayland (device d) c
        (λ r. Ensures (λ c'. Updated d true c.device c'.device) (with_device d r))
        (set_device-Updated d (some c.fresh) c.device) (tt {0})

  update_device-Updated :
      (d : Device) (b : Bool) (p : Option ℕ) (c : Client)
      → c.device d ≡ p
      → Ensures (λ c'. Updated d b c.device c'.device) (update_device wayland d b p c)
  unfolding update_device
  update_device-Updated d true none c e = get_device-Updated d c.seat c
  update_device-Updated d true (some n) c e = (ap is_some e, λ o h. refl)
  update_device-Updated d false none c e = (ap is_some e, λ o h. refl)
  update_device-Updated d false (some n) c e = set_device-Updated d none c.device

  handle_device-Updated :
      (d : Device) (caps : ℕ) (c : Client)
      → Ensures
          (λ c'. Updated d (wayland.has_device caps d) c.device c'.device)
          (handle_device wayland d caps c)
  unfolding handle_device
  handle_device-Updated d caps c =
      update_device-Updated d (wayland.has_device caps d) (c.device d) c refl

  -- The devices that the client has are those of the capabilities.
  abbrev pub HasExactly : ℕ → Client → Type 0
  HasExactly caps c = (d : Device) → is_some (c.device d) ≡ wayland.has_device caps d

  seat_handle_capabilities-HasExactly :
      (caps : ℕ) (c : Client) → Ensures (HasExactly caps) (seat_handle_capabilities wayland caps c)
  unfolding seat_handle_capabilities
  seat_handle_capabilities-HasExactly caps c =
      Ensures-and_then (λ c'. Updated pointer (wayland.has_device caps pointer) c.device c'.device)
        (HasExactly caps) _ _ (handle_device-Updated pointer caps c)
        (λ c1 h1.
          Ensures-and_then
            (λ c'. Updated keyboard (wayland.has_device caps keyboard) c1.device c'.device)
            (HasExactly caps) _ _ (handle_device-Updated keyboard caps c1)
            (λ c2 h2.
              Ensures-map
                {P = λ c'. Updated touch (wayland.has_device caps touch) c2.device c'.device}
                {Q = HasExactly caps}
                (λ c3 h3.
                  three c3.device (ap is_some (h3.1 pointer refl ∙ h2.1 pointer refl) ∙ h1.0)
                    (ap is_some (h3.1 keyboard refl) ∙ h2.0) h3.0)
                _ (handle_device-Updated touch caps c2)))
    where
      three :
          (f : Device → Option ℕ)
          → is_some (f pointer) ≡ wayland.has_device caps pointer
          → is_some (f keyboard) ≡ wayland.has_device caps keyboard
          → is_some (f touch) ≡ wayland.has_device caps touch
          → (d : Device) → is_some (f d) ≡ wayland.has_device caps d
      three f p k t pointer = p
      three f p k t keyboard = k
      three f p k t touch = t

  -- Whatever the server has said, when it says what devices the seat has, in a sequence of messages
  -- that is handled to its end, the client has these devices and no others, and each is the one
  -- object of its kind that is alive: none is lost and none destroyed twice.
  pub handle_all-seat_handle_capabilities :
      (messages : List Message) (caps : ℕ) (c : Client)
      → OwnsDevices c
      → Ensures
          (λ c'. OwnsDevices c' × HasExactly caps c')
          (and_then (handle_all wayland messages c) (seat_handle_capabilities wayland caps))
  handle_all-seat_handle_capabilities messages caps c h =
      Ensures-and_then OwnsDevices (λ c'. OwnsDevices c' × HasExactly caps c') _ _
        (handle_all-OwnsDevices messages c h)
        (λ c' o.
          Ensures-both OwnsDevices (HasExactly caps) (seat_handle_capabilities wayland caps c')
            (seat_handle_capabilities-OwnsDevices caps c' o)
            (seat_handle_capabilities-HasExactly caps c'))
