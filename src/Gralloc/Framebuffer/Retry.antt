-- ===== src/Gralloc/Framebuffer/Retry.antt =====
-- The framebuffer is mapped, or `mmap` fails; what a later call then finds.
use xylitol.Common.{ℕ, ◌≡◌, refl, ap, ◌∙◌, false, Option, none, some, ◌∷◌}
use xylitol.Common.Int.{pos, eqb_ℤ_refl}
use xylitol.Gralloc.{
  negated, Handle, map_failed, History, Env, in_framebuffer, private_handle, validate,
}
use xylitol.Gralloc.Mapper.Balance.{lock_lem}
use xylitol.Gralloc.Framebuffer.{
  Module, Mapping, open_device, failed, map_answer, set_up_screen, map_frame_buffer_locked,
  copy_to_screen, post, fb_post,
}
use xylitol.Gralloc.Framebuffer.Screen.{
  IsScreen, before_mapping, screen_size, screen_handle, set_up, map_lem,
}

module _ (env : Env) where
  post_lem :
      (framebuffer buffer : Handle) (m : Module) (log : History)
      → m.framebuffer ≡ some framebuffer
      → validate env (some framebuffer) ≡ pos 0
      → validate env (some buffer) ≡ pos 0
      → in_framebuffer buffer ≡ false
      → framebuffer.base ≡ 0
      → fb_post env (some buffer) m log ≡ none
  unfolding fb_post post copy_to_screen
  post_lem framebuffer buffer m log held screen_valid valid ordinary no_base = rw valid (
      ap (λ (o : Option Handle). post env o buffer m log) held
      ∙ rw
          (
            ordinary,
            lock_lem env framebuffer log screen_valid,
            lock_lem env buffer log valid,
            no_base,
          )
          refl)

  again_lem :
      (hnd : Handle) (m : Module) (log : History)
      → m.framebuffer ≡ some hnd
      → map_frame_buffer_locked env m log ≡ some (record { status = pos 0; target = m; log = log })
  unfolding map_frame_buffer_locked
  again_lem hnd m log held =
      ap
        (λ (o : Option Handle). elim o [
          | some hnd ↦ some (record { status = pos 0; target = m; log = log })
          | none ↦
              let (fd, log') = open_device env log in
              elim fd [ none ↦ some (failed env m log') | some fd ↦ set_up_screen env fd m log' ]
        ])
        held

  screen_handle_valid :
      (m : Module) (log : History) (screen : IsScreen env m log)
      → validate env (some (screen_handle env m log screen)) ≡ pos 0
  unfolding validate private_handle
  screen_handle_valid m log screen =
      rw (eqb_ℤ_refl env.native_handle_size, eqb_ℤ_refl env.num_ints) refl

  failed_mapping_lem :
      (m : Module) (log : History) (screen : IsScreen env m log)
      → env.mmap (before_mapping env m log screen) (pos screen.fd) (screen_size env m log screen)
        ≡ none
      → let log' =
          map_failed (pos screen.fd) (screen_size env m log screen)
          ∷ before_mapping env m log screen in
        map_frame_buffer_locked env m log
        ≡ some (record {
          status = negated (env.errno log');
          target = set_up env m log screen;
          log = log';
        })
  unfolding map_answer failed
  failed_mapping_lem m log screen fails =
      map_lem env m log screen
      ∙ ap
          (λ (o : Option ℕ). some (
            map_answer env o screen.fd (screen_size env m log screen) (set_up env m log screen)
              (before_mapping env m log screen)))
          fails

  -- The screen answers all that is asked, but its memory cannot be mapped: the call returns
  -- -errno, and leaves a valid framebuffer in the module, with the address 0. So the next call
  -- returns 0 and does nothing, and posting a valid buffer outside the framebuffer has no defined
  -- result, since it copies to a null pointer.
  pub map_frame_buffer_locked-retry :
      (m : Module) (log log' : History) (screen : IsScreen env m log) (buffer : Handle)
      → env.mmap (before_mapping env m log screen) (pos screen.fd) (screen_size env m log screen)
        ≡ none
      → validate env (some buffer) ≡ pos 0
      → in_framebuffer buffer ≡ false
      → (first : Mapping) × (map_frame_buffer_locked env m log ≡ some first)
        × (first.status
            ≡ negated (
                env.errno (
                  map_failed (pos screen.fd) (screen_size env m log screen)
                  ∷ before_mapping env m log screen)))
        × ((fb : Handle) × ((first.target).framebuffer ≡ some fb)
            × (fb.base ≡ 0)
            × (validate env (some fb) ≡ pos 0))
        × (map_frame_buffer_locked env first.target log'
            ≡ some (record { status = pos 0; target = first.target; log = log' }))
        × (fb_post env (some buffer) first.target log' ≡ none)
  unfolding private_handle
  map_frame_buffer_locked-retry m log log' screen buffer fails valid ordinary =
      let m' = set_up env m log screen in
      let hnd = screen_handle env m log screen in
      (
        _,
        failed_mapping_lem m log screen fails,
        refl,
        (hnd, refl, refl, screen_handle_valid m log screen),
        again_lem hnd m' log' refl,
        post_lem hnd buffer m' log' refl (screen_handle_valid m log screen) valid ordinary refl,
      )
