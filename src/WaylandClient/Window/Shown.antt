-- ===== src/WaylandClient/Window/Shown.antt =====
-- WaylandWindow.cpp over WaylandClient.cpp: a client gets its windows.
use xylitol.Common.{ℕ, ◌+◌, ◌≡◌, refl, ap, ◌∙◌, true, false, ◌||◌, Option, some, List, ◌∷◌, codes}
use xylitol.Common.Int.{ℤ}
use xylitol.Controller.Services.{is_some}
use xylitol.WaylandClient.{
  display, registry, event_queue, surface, shell_surface, egl_window, Event, Message, made, warned,
  committed, titled, toplevel, emit, listening, dispatched, warn_unconnected, and_then, Wayland,
  Client, new_client, make, handle_all, with_queue, with_registry, with_display, connect,
}
use xylitol.WaylandClient.Ledger.{with_object}
use xylitol.WaylandClient.Globals.{announced_in, InOrder, IsAble, Gives, seat_of, make-able}
use xylitol.WaylandClient.Announced.{handle_all-Gives}
use xylitol.WaylandClient.Window.{
  Window, new_window, set_up, with_native, with_shell_surface, with_surface, init,
  native_create_window,
}

-- A client with a compositor and a shell.
abbrev HasBoth : Client → Type 0
HasBoth c = (is_some c.compositor ≡ true) × (is_some c.shell ≡ true)

module _ (wayland : Wayland) (able : IsAble wayland) where
  connect-HasBoth :
      (messages : List Message) (fresh : ℕ) (events : List Event)
      → ((earlier : List Event) → wayland.messages earlier ≡ messages)
      → InOrder false messages
      → announced_in (codes "wl_compositor") messages ≡ true
      → announced_in (codes "wl_shell") messages ≡ true
      → Gives HasBoth (connect wayland (new_client fresh events))
  unfolding connect with_display with_registry with_queue
  connect-HasBoth messages fresh events tells order compositor shell =
      let c0 = new_client fresh events in
      let c1 : Client = record (with_object display c0) { display = some fresh } in
      let c2 : Client = emit (dispatched fresh) (
        emit (listening registry c1.fresh)
          (record (with_object registry c1) { registry = some c1.fresh })) in
      let (c3, done, (x, z)) =
        handle_all-Gives wayland able messages c2 false false false order (refl, refl, refl) in
      (
        record (with_object event_queue c3) { event_queue = some c3.fresh },
        ap (with_display wayland) (make-able wayland able display c0)
            ∙ ap (with_registry wayland fresh) (make-able wayland able registry c1)
            ∙ ap (λ r. and_then r (λ c. with_queue (make wayland event_queue c)))
                (ap (λ m. handle_all wayland m c2) (tells _) ∙ done)
            ∙ ap with_queue (make-able wayland able event_queue c3),
        (x ∙ ap (λ b. b || false) compositor, z ∙ ap (λ b. b || false) shell),
      )

  -- A window of the size asked for, on the surfaces that come next.
  abbrev pub new_surfaces : ℤ → ℤ → Client → Window
  new_surfaces width height c = record {
    width = width;
    height = height;
    surface = some c.fresh;
    shell_surface = some (c.fresh + 1);
    native = some (c.fresh + 1 + 1);
  }

  -- The surface is a window of the shell with the title, its contents are committed, and the native
  -- window is made on it.
  abbrev pub IsShown : ℤ → ℤ → Client → Option (Window × Client) → Type 0
  IsShown width height c r =
      (c' : Client) × (earlier : List Event) × (r ≡ some (new_surfaces width height c, c'))
      × (c'.events
          ≡ warned
            ∷ made egl_window (c.fresh + 1 + 1)
            ∷ committed c.fresh
            ∷ titled (c.fresh + 1) (codes "android")
            ∷ toplevel (c.fresh + 1)
            ∷ earlier)

  init-IsShown :
      (width height : ℤ) (c : Client)
      → HasBoth c
      → IsShown width height c (native_create_window wayland width height c)
  unfolding init with_surface with_shell_surface with_native
  init-IsShown width height c (x, z) =
      let w0 = new_window width height in
      let c1 = with_object surface (warn_unconnected c) in
      let w1 : Window = record w0 { surface = some c.fresh } in
      let c2 = with_object shell_surface (warn_unconnected c1) in
      let c3 = set_up c.fresh c1.fresh c2 in
      let w2 : Window = record w1 { shell_surface = some c1.fresh } in
      (
        emit warned (with_object egl_window c3),
        _,
        ap
              (λ o.
                and_then o
                  (λ _. with_surface wayland w0 (make wayland surface (warn_unconnected c))))
              (seat_of c.compositor x).1
            ∙ ap (with_surface wayland w0) (make-able wayland able surface (warn_unconnected c))
            ∙ ap
                (λ o. and_then o (λ _.
                  with_shell_surface wayland w1 c.fresh
                    (make wayland shell_surface (warn_unconnected c1))))
                (seat_of c.shell z).1
            ∙ ap (with_shell_surface wayland w1 c.fresh)
                (make-able wayland able shell_surface (warn_unconnected c1))
            ∙ ap (with_native w2) (make-able wayland able egl_window c3),
        refl,
      )

-- A new client connects to a server whose dispatch brings a list of messages in which a compositor
-- and a shell are announced and capabilities come only behind a seat, and where every call for an
-- object succeeds: then it is connected, and a window that is created has a surface, a titled
-- toplevel surface of the shell, committed, and a native window, and has the size asked for.
pub connect-native_create_window :
    (wayland : Wayland) (able : IsAble wayland) (messages : List Message) (fresh : ℕ)
    (events : List Event) (width height : ℤ)
    → ((earlier : List Event) → wayland.messages earlier ≡ messages)
    → InOrder false messages
    → announced_in (codes "wl_compositor") messages ≡ true
    → announced_in (codes "wl_shell") messages ≡ true
    → (c : Client) × (connect wayland (new_client fresh events) ≡ some c)
      × IsShown wayland able width height c (native_create_window wayland width height c)
connect-native_create_window wayland able messages fresh events width height tells order compositor
      shell =
    let (c, done, both) =
      connect-HasBoth wayland able messages fresh events tells order compositor shell in
    (c, done, init-IsShown wayland able width height c both)
