-- ===== src/Gralloc/Mapper.antt =====
-- legacy/old-shashlik/src/libs/gralloc-shashlik/mapper.cpp.
pub mod Balance
use xylitol.Common.{ℕ, ◌+◌, ◌%◌, ◌^◌, not, Option, none, some, ◌∷◌, ◌==◌, if◌then◌else◌}
use xylitol.Common.Int.{ℤ, pos, ltb_ℤ}
use xylitol.Gralloc.{
  einval, to_size, negated, Handle, mapped, map_failed, unmapped, History, Env, in_framebuffer,
  validate,
}

-- How a call ends: its status, the handle, what it writes to `*vaddr`, and the calls so far.
pub record Done : Type 0 where
  pub status : ℤ
  pub handle : Option Handle
  pub vaddr : Option ℕ
  pub log : History

abbrev pub refused : Option Handle → History → Done
refused handle log = record { status = einval; handle = handle; vaddr = none; log = log }

module _ (env : Env) where
  pub gralloc_map_at : Option ℕ → Handle → History → Done
  gralloc_map_at none hnd log =
      let log' = map_failed hnd.fd (to_size hnd.size) ∷ log in
      record { status = negated (env.errno log'); handle = some hnd; vaddr = none; log = log' }
  gralloc_map_at (some address) hnd log =
      let base = (address + to_size hnd.offset) % 2 ^ 64 in
      record {
        status = pos 0;
        handle = some (record hnd { base = base });
        vaddr = some base;
        log = mapped hnd.fd (to_size hnd.size) address ∷ log;
      }

  pub gralloc_map : Handle → History → Done
  gralloc_map hnd log =
      if not (in_framebuffer hnd)
      then gralloc_map_at (env.mmap log hnd.fd (to_size hnd.size)) hnd log
      else record { status = pos 0; handle = some hnd; vaddr = some hnd.base; log = log }

  -- What `munmap` returns is only logged.
  pub gralloc_unmap : Handle → History → Done
  gralloc_unmap hnd log = record {
    status = pos 0;
    handle = some (record hnd { base = 0 });
    vaddr = none;
    log = if not (in_framebuffer hnd) then unmapped hnd.base (to_size hnd.size) ∷ log else log;
  }

  pub map_buffer : Handle → History → Done
  map_buffer hnd log = gralloc_map hnd log

  pub terminate_buffer : Handle → History → Done
  terminate_buffer hnd log =
      if not (hnd.base == 0)
      then record (gralloc_unmap hnd log) { status = pos 0 }
      else record { status = pos 0; handle = some hnd; vaddr = none; log = log }

  -- The rest of a call whose handle has passed `validate`, which a null one does not.
  abbrev pub with_handle : Option Handle → (Handle → Done) → History → Done
  with_handle none f log = refused none log
  with_handle (some hnd) f log = f hnd

  pub gralloc_register_buffer : Option Handle → History → Done
  gralloc_register_buffer handle log =
      if ltb_ℤ (validate env handle) (pos 0)
      then refused handle log
      else with_handle handle (λ hnd. gralloc_map hnd log) log

  pub gralloc_unregister_buffer : Option Handle → History → Done
  gralloc_unregister_buffer handle log =
      if ltb_ℤ (validate env handle) (pos 0)
      then refused handle log
      else with_handle handle
          (λ hnd.
            if not (hnd.base == 0)
            then record (gralloc_unmap hnd log) { status = pos 0 }
            else record { status = pos 0; handle = some hnd; vaddr = none; log = log })
          log

  pub gralloc_lock : Option Handle → History → Done
  gralloc_lock handle log =
      if ltb_ℤ (validate env handle) (pos 0)
      then refused handle log
      else with_handle handle
          (λ hnd. record { status = pos 0; handle = some hnd; vaddr = some hnd.base; log = log })
          log

  pub gralloc_unlock : Option Handle → History → Done
  gralloc_unlock handle log =
      if ltb_ℤ (validate env handle) (pos 0)
      then refused handle log
      else record { status = pos 0; handle = handle; vaddr = none; log = log }
