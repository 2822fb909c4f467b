-- ===== src/WaylandClient/Ledger.antt =====
-- WaylandClient.cpp: the objects of one kind that are alive, by the events.
use xylitol.Common.{
  ℕ, ◌+◌, Bool, true, false, Option, none, some, List, [], ◌∷◌, ◌==◌, if◌then◌else◌,
}
use xylitol.WaylandClient.{
  Kind, display, registry, event_queue, compositor, seat, shell, shm, cursor_theme, surface,
  shell_surface, egl_window, device, Event, made, not_made, destroyed, listening, flushed,
  dispatched, cursor_taken, warned, toplevel, titled, committed, answered_ping, device_index,
  and_then, Client, emit, make, Wayland,
}

abbrev pub kind_index : Kind → ℕ
kind_index display = 0
kind_index registry = 1
kind_index event_queue = 2
kind_index compositor = 3
kind_index seat = 4
kind_index shell = 5
kind_index shm = 6
kind_index cursor_theme = 7
kind_index surface = 8
kind_index shell_surface = 9
kind_index egl_window = 10
kind_index (device d) = 11

abbrev pub is_kind : Kind → Kind → Bool
is_kind (device d) (device e) = device_index d == device_index e
is_kind (device d) _ = false
is_kind k (device e) = false
is_kind k l = kind_index k == kind_index l

abbrev pub remove : ℕ → List ℕ → Option (List ℕ)
remove n [] = none
remove n (m ∷ alive) =
    let rest = remove n alive in
    if n == m then some alive else and_then rest (λ others. some (m ∷ others))

-- The objects of a kind that were made and not destroyed, newest first, or nothing where an object
-- is destroyed that is not alive.
abbrev pub live : Kind → List Event → Option (List ℕ)
live k [] = some []
live k (made l n ∷ events) =
    let alive = live k events in
    if is_kind k l then and_then alive (λ others. some (n ∷ others)) else alive
live k (destroyed l n ∷ events) =
    let alive = live k events in if is_kind k l then and_then alive (remove n) else alive
live k (not_made l ∷ events) = live k events
live k (listening l n ∷ events) = live k events
live k (flushed n ∷ events) = live k events
live k (dispatched n ∷ events) = live k events
live k (cursor_taken n ∷ events) = live k events
live k (warned ∷ events) = live k events
live k (toplevel n ∷ events) = live k events
live k (titled n name ∷ events) = live k events
live k (committed n ∷ events) = live k events
live k (answered_ping n serial ∷ events) = live k events

-- The object of a pointer, if it is not NULL.
abbrev pub objects : Option ℕ → List ℕ
objects none = []
objects (some n) = n ∷ []

-- What a result is like, where there is one.
abbrev pub Ensures {ℓ} : {A : Type ℓ} → (A → Type 0) → Option A → Type 0
Ensures P none = Unit
Ensures P (some x) = P x

pub Ensures-and_then :
    {A B : Type 0} (P : A → Type 0) (Q : B → Type 0) (r : Option A) (f : A → Option B)
    → Ensures P r
    → ((x : A) → P x → Ensures Q (f x))
    → Ensures Q (and_then r f)
Ensures-and_then P Q none f h k = tt
Ensures-and_then P Q (some x) f h k = k x h

pub Ensures-map :
    {A : Type 0} {P Q : A → Type 0}
    → ((x : A) → P x → Q x)
    → (r : Option A) → Ensures P r
    → Ensures Q r
Ensures-map f none h = tt
Ensures-map f (some x) h = f x h

pub Ensures-both :
    {A : Type 0} (P Q : A → Type 0) (r : Option A)
    → Ensures P r
    → Ensures Q r
    → Ensures (λ x. P x × Q x) r
Ensures-both P Q none h k = tt
Ensures-both P Q (some x) h k = (h, k)

abbrev pub with_object : Kind → Client → Client
with_object k c = record c { fresh = c.fresh + 1; events = made k c.fresh ∷ c.events }

-- An object is made, or NULL is returned.
pub make-cases :
    (wayland : Wayland) (k : Kind) (c : Client) (P : Option ℕ × Client → Type 0)
    → P (some c.fresh, with_object k c)
    → P (none, emit (not_made k) c)
    → P (make wayland k c)
unfolding make
make-cases wayland k c P h g =
    elim (wayland.succeeds k c.events)
      as (λ b. P (if b then (some c.fresh, with_object k c) else (none, emit (not_made k) c))) [
        | true ↦ h
        | false ↦ g
      ]
