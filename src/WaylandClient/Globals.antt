-- ===== src/WaylandClient/Globals.antt =====
-- WaylandClient.cpp with WaylandWindow.cpp: a server that announces a compositor and a shell, and
-- where every call for an object succeeds, gets windows on its screen.
use xylitol.Common.{
  ℕ, ◌≡◌, refl, ap, ◌∙◌, arith, Bool, true, false, ◌||◌, Option, none, some, List, [], ◌∷◌, Bytes,
  codes, eqb_bytes,
}
use xylitol.Controller.Services.{is_some}
use xylitol.WaylandClient.{
  Device, pointer, keyboard, touch, Kind, device, Event, Message, announced, removed, capabilities,
  and_then, Wayland, Client, make, with_device, get_device, update_device, handle_device,
  seat_handle_capabilities,
}
use xylitol.WaylandClient.Ledger.{with_object}

pub eqb_bytes-eq : (s t : Bytes) → eqb_bytes s t ≡ true → s ≡ t
eqb_bytes-eq [] [] e = refl
eqb_bytes-eq [] (y ∷ t) e = cc
eqb_bytes-eq (x ∷ s) [] e = cc
eqb_bytes-eq (x ∷ s) (y ∷ t) e = ground (arith, eqb_bytes-eq s t)

abbrev pub announces : Bytes → Message → Bool
announces interface (announced name other) = eqb_bytes other interface
announces interface (removed name) = false
announces interface (capabilities caps) = false

-- Some message announces the interface.
abbrev pub announced_in : Bytes → List Message → Bool
announced_in interface [] = false
announced_in interface (m ∷ messages) = announces interface m || announced_in interface messages

-- Capabilities are told only of a seat that was announced before.
abbrev pub InOrder : Bool → List Message → Type 0
InOrder seated [] = Unit
InOrder seated (announced name interface ∷ messages) =
    InOrder (eqb_bytes interface (codes "wl_seat") || seated) messages
InOrder seated (removed name ∷ messages) = InOrder seated messages
InOrder seated (capabilities caps ∷ messages) = (seated ≡ true) × InOrder seated messages

-- What the client has of the three globals.
abbrev pub Has : Bool → Bool → Bool → Client → Type 0
Has c s h client =
    (is_some client.compositor ≡ c) × (is_some client.seat ≡ s) × (is_some client.shell ≡ h)

pub or_swap : (x y z : Bool) → (x || (y || z)) ≡ ((y || x) || z)
or_swap true true z = refl
or_swap true false z = refl
or_swap false true z = refl
or_swap false false z = refl

-- Every call for an object makes it.
abbrev pub IsAble : Wayland → Type 0
IsAble wayland = (k : Kind) (events : List Event) → wayland.succeeds k events ≡ true

abbrev pub SameGlobals : Client → Client → Type 0
SameGlobals c c' = (c'.compositor ≡ c.compositor) × (c'.seat ≡ c.seat) × (c'.shell ≡ c.shell)

-- A result with the property.
abbrev pub Gives : (Client → Type 0) → Option Client → Type 0
Gives P r = (c : Client) × (r ≡ some c) × P c

Gives-and_then :
    (P Q : Client → Type 0) (r : Option Client) (f : Client → Option Client)
    → Gives P r
    → ((c : Client) → P c → Gives Q (f c))
    → Gives Q (and_then r f)
Gives-and_then P Q r f (c, e, h) k = ((k c h).0, ap (λ o. and_then o f) e ∙ (k c h).1, (k c h).2)

pub seat_of : (p : Option ℕ) → is_some p ≡ true → (n : ℕ) × (p ≡ some n)
seat_of none e = absurd cc
seat_of (some n) e = (n, refl)

module _ (wayland : Wayland) (able : IsAble wayland) where
  pub make-able : (k : Kind) (c : Client) → make wayland k c ≡ (some c.fresh, with_object k c)
  unfolding make
  make-able k c = rw (able k c.events) refl

  update_device-SameGlobals :
      (d : Device) (b : Bool) (p : Option ℕ) (c : Client)
      → is_some c.seat ≡ true
      → Gives (SameGlobals c) (update_device wayland d b p c)
  unfolding update_device get_device with_device
  update_device-SameGlobals d true none c e = (
    _,
    ap (λ o. get_device wayland d o c) (seat_of c.seat e).1
        ∙ ap (with_device d) (make-able (device d) c),
    (refl, refl, refl),
  )
  update_device-SameGlobals d true (some n) c e = (c, refl, (refl, refl, refl))
  update_device-SameGlobals d false none c e = (c, refl, (refl, refl, refl))
  update_device-SameGlobals d false (some n) c e = (_, refl, (refl, refl, refl))

  handle_device-SameGlobals :
      (a : Client) (d : Device) (caps : ℕ) (c : Client)
      → is_some a.seat ≡ true
      → SameGlobals a c
      → Gives (SameGlobals a) (handle_device wayland d caps c)
  unfolding handle_device
  handle_device-SameGlobals a d caps c e (x, y, z) =
      let (c', done, (x', y', z')) =
        update_device-SameGlobals d (wayland.has_device caps d) (c.device d) c (ap is_some y ∙ e) in
      (c', done, (x' ∙ x, y' ∙ y, z' ∙ z))

  pub capabilities-SameGlobals :
      (caps : ℕ) (c : Client)
      → is_some c.seat ≡ true
      → Gives (SameGlobals c) (seat_handle_capabilities wayland caps c)
  unfolding seat_handle_capabilities
  capabilities-SameGlobals caps c e =
      Gives-and_then (SameGlobals c) (SameGlobals c) _ _
        (handle_device-SameGlobals c pointer caps c e (refl, refl, refl))
        (λ c1 h1.
          Gives-and_then (SameGlobals c) (SameGlobals c) _ _
            (handle_device-SameGlobals c keyboard caps c1 e h1)
            (λ c2 h2. handle_device-SameGlobals c touch caps c2 e h2))
