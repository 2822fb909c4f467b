-- ===== src/WaylandClient/Registry.antt =====
-- WaylandClient.cpp: what the announcements of globals leave as it is, the connection and the devices.
use xylitol.Common.{
  ℕ, ◌≡◌, refl, ◌∙◌, Bool, true, false, Option, none, some, if◌then◌else◌, Bytes, codes, eqb_bytes,
}
use xylitol.WaylandClient.{
  Device, Kind, display, registry, event_queue, compositor, seat, shell, shm, cursor_theme, device,
  not_made, emit, warned, cursor_taken, Wayland, Client, make, with_compositor, with_seat,
  with_shell, with_theme, with_shm, handle_registry,
}
use xylitol.WaylandClient.Ledger.{live, is_kind, Ensures, Ensures-map, with_object, make-cases}

-- The kinds of objects that no announcement makes.
pub data IsOuter : Kind → Type 0 where
  display_outer : IsOuter display
  registry_outer : IsOuter registry
  queue_outer : IsOuter event_queue
  device_outer : (d : Device) → IsOuter (device d)

pub record Keeps (c c' : Client) : Type 0 where
  pub same_device : c'.device ≡ c.device
  pub same_display : c'.display ≡ c.display
  pub same_registry : c'.registry ≡ c.registry
  pub same_queue : c'.event_queue ≡ c.event_queue
  pub same_live : (k : Kind) → IsOuter k → live k c'.events ≡ live k c.events

Keeps-trans : (a b c : Client) → Keeps a b → Keeps b c → Keeps a c
Keeps-trans a b c f g = record {
  same_device = g.same_device ∙ f.same_device;
  same_display = g.same_display ∙ f.same_display;
  same_registry = g.same_registry ∙ f.same_registry;
  same_queue = g.same_queue ∙ f.same_queue;
  same_live = λ k o. g.same_live k o ∙ f.same_live k o;
}

abbrev IsGlobal : Kind → Type 0
IsGlobal g = (k : Kind) → IsOuter k → is_kind k g ≡ false

outer :
    (k : Kind)
    → IsOuter k
    → (is_kind k compositor ≡ false)
      × (is_kind k seat ≡ false)
      × (is_kind k shell ≡ false)
      × (is_kind k shm ≡ false)
      × (is_kind k cursor_theme ≡ false)
outer k display_outer = (refl, refl, refl, refl, refl)
outer k registry_outer = (refl, refl, refl, refl, refl)
outer k queue_outer = (refl, refl, refl, refl, refl)
outer k (device_outer d) = (refl, refl, refl, refl, refl)

Keeps-refl : (c : Client) → Keeps c c
Keeps-refl c = record {
  same_device = refl;
  same_display = refl;
  same_registry = refl;
  same_queue = refl;
  same_live = λ k o. refl;
}

Keeps-with_object : (g : Kind) (c : Client) → IsGlobal g → Keeps c (with_object g c)
Keeps-with_object g c h = record {
  same_device = refl;
  same_display = refl;
  same_registry = refl;
  same_queue = refl;
  same_live = λ k o. rw (h k o) refl;
}

unchanged :
    (c c' : Client)
    → c'.device ≡ c.device
    → c'.display ≡ c.display
    → c'.registry ≡ c.registry
    → c'.event_queue ≡ c.event_queue
    → ((k : Kind) → IsOuter k → live k c'.events ≡ live k c.events)
    → Keeps c c'
unchanged c c' d s r q l = record {
  same_device = d;
  same_display = s;
  same_registry = r;
  same_queue = q;
  same_live = l;
}

module _ (wayland : Wayland) where
  -- An object is made, and then the members of the client that `Keeps` does not name are changed.
  Keeps-make :
      (g : Kind) (c : Client) (f : Option ℕ × Client → Option Client)
      → IsGlobal g
      → ((n : ℕ) → Ensures (Keeps (with_object g c)) (f (some n, with_object g c)))
      → Ensures (Keeps c) (f (none, emit (not_made g) c))
      → Ensures (Keeps c) (f (make wayland g c))
  Keeps-make g c f h kept failed =
      make-cases wayland g c (λ r. Ensures (Keeps c) (f r))
        (Ensures-map (λ c'. Keeps-trans c (with_object g c) c' (Keeps-with_object g c h)) _
          (kept c.fresh))
        failed

  if-Ensures :
      (P : Client → Type 0) (b : Bool) (x y : Option Client)
      → Ensures P x
      → Ensures P y
      → Ensures P (if b then x else y)
  if-Ensures P true x y hx hy = hx
  if-Ensures P false x y hx hy = hy

  with_theme-Keeps : (r : Option ℕ) (c : Client) → Ensures (Keeps c) (with_theme wayland (r, c))
  unfolding with_theme
  with_theme-Keeps none c = unchanged c _ refl refl refl refl (λ k o. refl)
  with_theme-Keeps (some n) c =
      elim (wayland.has_cursor c.events)
        as (λ b. Keeps c (
          if b
          then emit (cursor_taken n) (record c { cursor_theme = some n; default_cursor = some n })
          else emit warned (record c { cursor_theme = some n; default_cursor = none }))) [
            | true ↦ unchanged c _ refl refl refl refl (λ k o. refl)
            | false ↦ unchanged c _ refl refl refl refl (λ k o. refl)
          ]

  with_shm-Keeps : (n : ℕ) (c : Client) → Ensures (Keeps c) (with_shm wayland (some n, c))
  unfolding with_shm
  with_shm-Keeps n c =
      Ensures-map
        (λ c'. Keeps-trans c shared c' (unchanged c shared refl refl refl refl (λ k o. refl))) _
        (Keeps-make cursor_theme shared (with_theme wayland) (λ k o. (outer k o).4)
          (λ t. with_theme-Keeps (some t) (with_object cursor_theme shared)) failed)
    where
      shared : Client
      shared = record c { shm = some n }

      failed :
          Ensures (Keeps shared) (with_theme wayland (none, emit (not_made cursor_theme) shared))
      failed =
          Ensures-map
            (λ c'.
              Keeps-trans shared (emit (not_made cursor_theme) shared) c'
                (unchanged shared _ refl refl refl refl (λ k o. refl)))
            _ (with_theme-Keeps none (emit (not_made cursor_theme) shared))

  compositor-Keeps : (c : Client) → Ensures (Keeps c) (with_compositor (make wayland compositor c))
  unfolding with_compositor
  compositor-Keeps c =
      Keeps-make compositor c with_compositor (λ k o. (outer k o).0)
        (λ n. unchanged (with_object compositor c) _ refl refl refl refl (λ k o. refl))
        (unchanged c _ refl refl refl refl (λ k o. refl))

  seat-Keeps : (c : Client) → Ensures (Keeps c) (with_seat (make wayland seat c))
  unfolding with_seat
  seat-Keeps c =
      Keeps-make seat c with_seat (λ k o. (outer k o).1)
        (λ n. unchanged (with_object seat c) _ refl refl refl refl (λ k o. refl)) (tt {0})

  shell-Keeps : (c : Client) → Ensures (Keeps c) (with_shell (make wayland shell c))
  unfolding with_shell
  shell-Keeps c =
      Keeps-make shell c with_shell (λ k o. (outer k o).2)
        (λ n. unchanged (with_object shell c) _ refl refl refl refl (λ k o. refl))
        (unchanged c _ refl refl refl refl (λ k o. refl))

  shm-Keeps : (c : Client) → Ensures (Keeps c) (with_shm wayland (make wayland shm c))
  shm-Keeps c =
      Keeps-make shm c (with_shm wayland) (λ k o. (outer k o).3)
        (λ n. with_shm-Keeps n (with_object shm c)) (unfold with_shm in tt {0})

  -- An announcement leaves the connection and the devices.
  pub handle_registry-Keeps :
      (name : ℕ) (interface : Bytes) (c : Client)
      → Ensures (Keeps c) (handle_registry wayland name interface c)
  unfolding handle_registry
  handle_registry-Keeps name interface c =
      if-Ensures (Keeps c) (eqb_bytes interface (codes "wl_compositor"))
        (with_compositor (make wayland compositor c)) _ (compositor-Keeps c)
        (if-Ensures (Keeps c) (eqb_bytes interface (codes "wl_seat"))
          (with_seat (make wayland seat c)) _ (seat-Keeps c)
          (if-Ensures (Keeps c) (eqb_bytes interface (codes "wl_shell"))
            (with_shell (make wayland shell c)) _ (shell-Keeps c)
            (if-Ensures (Keeps c) (eqb_bytes interface (codes "wl_shm"))
              (with_shm wayland (make wayland shm c)) (some c) (shm-Keeps c) (Keeps-refl c))))
