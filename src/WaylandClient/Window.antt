-- ===== src/WaylandClient/Window.antt =====
-- surfaceflinger/WaylandWindow.cpp, and what libjni/android_view_Wayland.cpp calls of the client and
-- of a window. The client is a singleton, which the state of the process holds.
pub mod Shown
use xylitol.Common.{ℕ, ◌+◌, Bool, true, false, Option, none, some, List, [], ◌∷◌, Bytes, codes}
use xylitol.Common.Int.{ℤ}
use xylitol.WaylandClient.{
  Kind, surface, shell_surface, egl_window, Event, listening, toplevel, titled, committed, warned,
  answered_ping, emit, and_then, Wayland, Client, new_client, get_compositor, get_shell,
  get_display, make, dispatch, connect,
}

-- A member that init has not set is as it is in memory.
pub record Window : Type 0 where
  pub width : ℤ
  pub height : ℤ
  pub surface : Option ℕ
  pub shell_surface : Option ℕ
  pub native : Option ℕ

abbrev pub new_window : ℤ → ℤ → Window
new_window width height = record {
  width = width;
  height = height;
  surface = none;
  shell_surface = none;
  native = none;
}

-- Both branches write to the log.
unfoldable pub with_native : Window → Option ℕ × Client → Option (Window × Client)
with_native window (native, c) = some (record window { native = native }, emit warned c)

-- A listener on a shell surface, set_toplevel, set_title, and the commit of the surface.
abbrev pub set_up : ℕ → ℕ → Client → Client
set_up s h c =
    emit (committed s)
      (emit (titled h (codes "android")) (emit (toplevel h) (emit (listening shell_surface h) c)))

module _ (wayland : Wayland) where
  unfoldable pub with_shell_surface : Window → ℕ → Option ℕ × Client → Option (Window × Client)
  with_shell_surface window s (none, c) =
      some (record window { shell_surface = none }, emit warned c)
  with_shell_surface window s (some h, c) =
      with_native (record window { shell_surface = some h })
        (make wayland egl_window (set_up s h c))

  unfoldable pub with_surface : Window → Option ℕ × Client → Option (Window × Client)
  with_surface window (none, c) = none
  with_surface window (some s, c) =
      let (bound, c') = get_shell c in
      and_then bound (λ _.
        with_shell_surface (record window { surface = some s }) s (make wayland shell_surface c'))

  unfoldable pub init : Window → Client → Option (Window × Client)
  init window c =
      let (bound, c') = get_compositor c in
      and_then bound (λ _. with_surface window (make wayland surface c'))

  abbrev pub native_create_window : ℤ → ℤ → Client → Option (Window × Client)
  native_create_window width height c = init (new_window width height) c

  abbrev pub native_connect : Client → Option Client
  native_connect c = connect wayland c

  abbrev pub native_dispatch : Client → Option Client
  native_dispatch c = let (d, c') = get_display c in and_then d (λ n. dispatch wayland n c')

-- The instance is deleted, and the next use makes another one.
abbrev pub native_clear_instance : Client → Client
native_clear_instance c = new_client c.fresh c.events

abbrev pub native_egl_display : Client → Option ℕ × Client
native_egl_display c = get_display c

abbrev pub shell_handle_ping : ℕ → ℕ → Client → Client
shell_handle_ping pinged serial c = emit (answered_ping pinged serial) c
