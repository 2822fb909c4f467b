-- ===== src/Gralloc/Framebuffer/Screen.antt =====
-- A screen that answers, up to the call of `mmap`.
use xylitol.Common.{ℕ, ◌/◌, ◌≡◌, ◌≢◌, refl, ap, ◌∙◌, arith, false, Option, none, some, ◌∷◌, ◌==◌}
use xylitol.Common.Int.{pos, to_int}
use xylitol.Gralloc.{
  round_up_to_page_size, Handle, FixInfo, VarInfo, duplicated, device_opened, screen_read,
  screen_written, History, Env, private_handle,
}
use xylitol.Gralloc.Framebuffer.{
  Module, mul32, requested, page_flip_of, open_device, failed, map_answer, map_screen, read_screen,
  set_up_screen, map_frame_buffer_locked,
}

not_zero : (a : ℕ) → a ≢ 0 → (a == 0) ≡ false
not_zero a h = ground arith

module _ (env : Env) where
  -- A screen that answers all that it is asked up to `mmap`.
  pub record IsScreen (m : Module) (log : History) : Type 0 where
    pub fd : ℕ
    pub fix_before : FixInfo
    pub info_before : VarInfo
    pub info : VarInfo
    pub finfo : FixInfo
    pub not_mapped : m.framebuffer ≡ none
    pub opens : env.open_device log 0 ≡ some fd
    pub fix_is : env.get_fix (device_opened 0 ∷ log) (pos fd) ≡ some fix_before
    pub var_is :
        env.get_var (screen_read (pos fd) ∷ device_opened 0 ∷ log) (pos fd) ≡ some info_before
    pub info_is :
        env.get_var
          (screen_written (pos fd) (requested info_before)
            ∷ screen_read (pos fd)
            ∷ screen_read (pos fd)
            ∷ device_opened 0
            ∷ log)
          (pos fd)
        ≡ some info
    pub finfo_is :
        env.get_fix
          (screen_read (pos fd)
            ∷ screen_written (pos fd) (requested info_before)
            ∷ screen_read (pos fd)
            ∷ screen_read (pos fd)
            ∷ device_opened 0
            ∷ log)
          (pos fd)
        ≡ some finfo
    pub some_memory : finfo.smem_len ≢ 0
    pub some_lines : info.yres ≢ 0

  -- The calls before the descriptor is duplicated, and before `mmap`.
  abbrev pub asked : (m : Module) (log : History) → IsScreen m log → History
  asked m log screen =
      let fd = screen.fd in
      screen_read (pos fd)
      ∷ screen_read (pos fd)
      ∷ screen_written (pos fd) (requested screen.info_before)
      ∷ screen_read (pos fd)
      ∷ screen_read (pos fd)
      ∷ device_opened 0
      ∷ log

  abbrev pub before_mapping : (m : Module) (log : History) → IsScreen m log → History
  before_mapping m log screen =
      let before = asked m log screen in
      duplicated (pos screen.fd) (env.dup before (pos screen.fd)) ∷ before

  -- The bytes that are mapped.
  abbrev pub screen_size : (m : Module) (log : History) → IsScreen m log → ℕ
  screen_size m log screen =
      round_up_to_page_size (mul32 (screen.finfo).line_length (screen.info).yres_virtual)

  -- The handle of the framebuffer before it is mapped, and the module that has it.
  abbrev pub screen_handle : (m : Module) (log : History) → IsScreen m log → Handle
  screen_handle m log screen =
      private_handle env (env.dup (asked m log screen) (pos screen.fd))
        (to_int (pos (screen_size m log screen))) 0 0 0

  abbrev pub set_up : (m : Module) (log : History) (screen : IsScreen m log) → Module
  set_up m log screen = record m {
    page_flip = page_flip_of (
        env.put_var
          (screen_read (pos screen.fd) ∷ screen_read (pos screen.fd) ∷ device_opened 0 ∷ log)
          (pos screen.fd) (requested screen.info_before));
    info = screen.info;
    finfo = screen.finfo;
    framebuffer = some (screen_handle m log screen);
    num_buffers = (screen.info).yres_virtual / (screen.info).yres;
    buffer_mask = 0;
  }

  screen_lem :
      (m : Module) (log : History) (screen : IsScreen m log)
      → set_up_screen env screen.fd m (device_opened 0 ∷ log)
        ≡ some (
            map_answer env
              (env.mmap (before_mapping m log screen) (pos screen.fd) (screen_size m log screen))
              screen.fd
              (screen_size m log screen)
              (set_up m log screen)
              (before_mapping m log screen))
  unfolding set_up_screen read_screen map_screen
  screen_lem m log screen =
      simp
        (
          set_up_screen,
          read_screen,
          map_screen,
          screen.fix_is,
          screen.var_is,
          screen.info_is,
          screen.finfo_is,
          not_zero (screen.finfo).smem_len screen.some_memory,
          not_zero (screen.info).yres screen.some_lines,
        )
        refl

  opened_lem :
      (log : History) (fd : ℕ)
      → env.open_device log 0 ≡ some fd
      → open_device env log ≡ (some fd, device_opened 0 ∷ log)
  unfolding open_device
  opened_lem log fd h = rw (h, open_device) refl

  pub map_lem :
      (m : Module) (log : History) (screen : IsScreen m log)
      → map_frame_buffer_locked env m log
        ≡ some (
            map_answer env
              (env.mmap (before_mapping m log screen) (pos screen.fd) (screen_size m log screen))
              screen.fd
              (screen_size m log screen)
              (set_up m log screen)
              (before_mapping m log screen))
  unfolding map_frame_buffer_locked
  map_lem m log screen =
      ap
        (λ (o : Option Handle). elim o [
          | some hnd ↦ some (record { status = pos 0; target = m; log = log })
          | none ↦
              let (fd, log') = open_device env log in
              elim fd [ none ↦ some (failed env m log') | some fd ↦ set_up_screen env fd m log' ]
        ])
        screen.not_mapped
      ∙ ap
          (λ (o : Option ℕ × History). elim (o.0) [
            | none ↦ some (failed env m o.1)
            | some fd ↦ set_up_screen env fd m o.1
          ])
          (opened_lem log screen.fd screen.opens)
      ∙ screen_lem m log screen
