-- ===== src/WaylandClient/Announced.antt =====
-- WaylandClient.cpp: the globals that a server announces are bound.
use mathlib.Core.Path.{subst}
use xylitol.Common.{
  Bool-cases, ℕ, ◌≡◌, refl, sym, ap, ◌∙◌, ◌⊎◌, inl, inr, Bool, true, false, ◌||◌, none, some, List,
  [], ◌∷◌, if◌then◌else◌, Bytes, codes, eqb_bytes,
}
use xylitol.Controller.Services.{is_some}
use xylitol.WaylandClient.{
  compositor, seat, shell, shm, cursor_theme, Message, announced, removed, capabilities, emit,
  cursor_taken, warned, and_then, Wayland, Client, make, with_compositor, with_seat, with_shell,
  with_theme, with_shm, handle_registry, handle, handle_all,
}
use xylitol.WaylandClient.Ledger.{with_object}
use xylitol.WaylandClient.Globals.{
  eqb_bytes-eq, announces, announced_in, InOrder, Has, or_swap, IsAble, Gives, make-able,
  capabilities-SameGlobals,
}

-- An interface that the client binds, or another one.
abbrev Interface : Bytes → Type 0
Interface i =
    (i ≡ codes "wl_compositor")
    ⊎ (i ≡ codes "wl_seat")
    ⊎ (i ≡ codes "wl_shell")
    ⊎ (i ≡ codes "wl_shm")
    ⊎ ((eqb_bytes i (codes "wl_compositor") ≡ false)
        × (eqb_bytes i (codes "wl_seat") ≡ false)
        × (eqb_bytes i (codes "wl_shell") ≡ false)
        × (eqb_bytes i (codes "wl_shm") ≡ false))

Interface-cases : (i : Bytes) → Interface i
Interface-cases i = elim (Bool-cases (eqb_bytes i (codes "wl_compositor"))) [
  | inl e ↦ inl (eqb_bytes-eq i (codes "wl_compositor") e)
  | inr a ↦ elim (Bool-cases (eqb_bytes i (codes "wl_seat"))) [
    | inl e ↦ inr (inl (eqb_bytes-eq i (codes "wl_seat") e))
    | inr b ↦ elim (Bool-cases (eqb_bytes i (codes "wl_shell"))) [
      | inl e ↦ inr (inr (inl (eqb_bytes-eq i (codes "wl_shell") e)))
      | inr d ↦ elim (Bool-cases (eqb_bytes i (codes "wl_shm"))) [
        | inl e ↦ inr (inr (inr (inl (eqb_bytes-eq i (codes "wl_shm") e))))
        | inr g ↦ inr (inr (inr (inr (a, b, d, g))))
      ]
    ]
  ]
]

-- The client behind an announcement, of one with these globals.
abbrev HasMore : Bytes → Bool → Bool → Bool → Client → Type 0
HasMore i c s h =
    Has (eqb_bytes i (codes "wl_compositor") || c) (eqb_bytes i (codes "wl_seat") || s)
      (eqb_bytes i (codes "wl_shell") || h)

module _ (wayland : Wayland) (able : IsAble wayland) where
  theme-Gives :
      (n : ℕ) (c : Client) (a s h : Bool)
      → Has a s h c
      → Gives (Has a s h) (with_theme wayland (some n, c))
  unfolding with_theme
  theme-Gives n c a s h g = (
    _,
    refl,
    elim (wayland.has_cursor c.events)
        as (λ b. Has a s h (
          if b
          then emit (cursor_taken n) (record c { cursor_theme = some n; default_cursor = some n })
          else emit warned (record c { cursor_theme = some n; default_cursor = none }))) [
            | true ↦ g
            | false ↦ g
          ],
  )

  shm-Gives :
      (c : Client) (a s h : Bool)
      → Has a s h c
      → Gives (Has a s h) (with_shm wayland (make wayland shm c))
  unfolding with_shm
  shm-Gives c a s h g =
      let shared : Client = record (with_object shm c) { shm = some c.fresh } in
      let (c', done, has) = theme-Gives shared.fresh (with_object cursor_theme shared) a s h g in
      (
        c',
        ap (with_shm wayland) (make-able wayland able shm c)
            ∙ ap (with_theme wayland) (make-able wayland able cursor_theme shared)
            ∙ done,
        has,
      )

  handle_registry-HasMore :
      (name : ℕ) (i : Bytes) (c : Client) (a s h : Bool)
      → Interface i
      → Has a s h c
      → Gives (HasMore i a s h) (handle_registry wayland name i c)
  unfolding handle_registry with_compositor with_seat with_shell
  handle_registry-HasMore name i c a s h (inl e) g =
      subst (λ t. Gives (HasMore t a s h) (handle_registry wayland name t c)) (sym e)
        (_, ap with_compositor (make-able wayland able compositor c), (refl, g.1, g.2))
  handle_registry-HasMore name i c a s h (inr (inl e)) g =
      subst (λ t. Gives (HasMore t a s h) (handle_registry wayland name t c)) (sym e)
        (_, ap with_seat (make-able wayland able seat c), (g.0, refl, g.2))
  handle_registry-HasMore name i c a s h (inr (inr (inl e))) g =
      subst (λ t. Gives (HasMore t a s h) (handle_registry wayland name t c)) (sym e)
        (_, ap with_shell (make-able wayland able shell c), (g.0, g.1, refl))
  handle_registry-HasMore name i c a s h (inr (inr (inr (inl e)))) g =
      subst (λ t. Gives (HasMore t a s h) (handle_registry wayland name t c)) (sym e)
        (shm-Gives c a s h g)
  handle_registry-HasMore name i c a s h (inr (inr (inr (inr (x, y, z, w))))) g = (
    c,
    rw (x, y, z, w) refl,
    (
      g.0 ∙ sym (ap (λ b. b || a) x),
      g.1 ∙ sym (ap (λ b. b || s) y),
      g.2 ∙ sym (ap (λ b. b || h) z),
    ),
  )

  handle-Gives :
      (m : Message) (messages : List Message) (c : Client) (a s h : Bool)
      → InOrder s (m ∷ messages)
      → Has a s h c
      → Gives
          (λ c'.
            Has
              (announces (codes "wl_compositor") m || a)
              (announces (codes "wl_seat") m || s)
              (announces (codes "wl_shell") m || h)
              c')
          (handle wayland m c)
  unfolding handle
  handle-Gives (announced name i) messages c a s h o g =
      handle_registry-HasMore name i c a s h (Interface-cases i) g
  handle-Gives (removed name) messages c a s h o g = (c, refl, g)
  handle-Gives (capabilities caps) messages c a s h o (x, y, z) =
      let (c', done, (x', y', z')) = capabilities-SameGlobals wayland able caps c (y ∙ o.0) in
      (c', done, (ap is_some x' ∙ x, ap is_some y' ∙ y, ap is_some z' ∙ z))

  InOrder-tail :
      (m : Message) (messages : List Message) (s : Bool)
      → InOrder s (m ∷ messages)
      → InOrder (announces (codes "wl_seat") m || s) messages
  InOrder-tail (announced name i) messages s o = o
  InOrder-tail (removed name) messages s o = o
  InOrder-tail (capabilities caps) messages s o = o.1

  -- The globals that are announced are bound.
  pub handle_all-Gives :
      (messages : List Message) (c : Client) (a s h : Bool)
      → InOrder s messages
      → Has a s h c
      → Gives
          (λ c'.
            (is_some c'.compositor ≡ (announced_in (codes "wl_compositor") messages || a))
            × (is_some c'.shell ≡ (announced_in (codes "wl_shell") messages || h)))
          (handle_all wayland messages c)
  unfolding handle_all
  handle_all-Gives [] c a s h o (x, y, z) = (c, refl, (x, z))
  handle_all-Gives (m ∷ messages) c a s h o g =
      let (c1, first, g1) = handle-Gives m messages c a s h o g in
      let (c2, rest, (x, z)) =
        handle_all-Gives messages c1 _ _ _ (InOrder-tail m messages s o) g1 in
      (
        c2,
        ap (λ r. and_then r (handle_all wayland messages)) first ∙ rest,
        (
          x
              ∙ or_swap (announced_in (codes "wl_compositor") messages)
                  (announces (codes "wl_compositor") m) a,
          z ∙ or_swap (announced_in (codes "wl_shell") messages) (announces (codes "wl_shell") m) h,
        ),
      )
