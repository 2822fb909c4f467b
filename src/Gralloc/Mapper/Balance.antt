-- ===== src/Gralloc/Mapper/Balance.antt =====
-- Mappings are given back.
use xylitol.Common.{
  ℕ, ◌+◌, ◌%◌, ◌^◌, ◌<◌, ◌≡◌, ◌≢◌, refl, arith, false, Option, none, some, ◌∷◌, ◌==◌,
}
use xylitol.Common.Int.{ℤ, pos, negsuc}
use xylitol.Gralloc.{
  einval, to_size, negated, Handle, mapped, map_failed, unmapped, History, Env, in_framebuffer,
  validate,
}
use xylitol.Gralloc.Mapper.{
  refused, gralloc_map_at, gralloc_map, gralloc_unmap, map_buffer, gralloc_register_buffer,
  gralloc_unregister_buffer, gralloc_lock, gralloc_unlock,
}

module _ (env : Env) where
  -- The entry points of the mapper leave a handle that `validate` refuses alone: registering,
  -- unregistering, locking and unlocking it returns -EINVAL, changes nothing of the handle, writes
  -- no address, and neither maps nor unmaps anything.
  refused_lem :
      (handle : Option Handle) (log : History)
      → validate env handle ≡ einval
      → (gralloc_register_buffer env handle log ≡ refused handle log)
        × (gralloc_unregister_buffer env handle log ≡ refused handle log)
        × (gralloc_lock env handle log ≡ refused handle log)
        × (gralloc_unlock env handle log ≡ refused handle log)
  unfolding gralloc_register_buffer gralloc_unregister_buffer gralloc_lock gralloc_unlock
  refused_lem handle log e = (rw e, rw e, rw e, rw e)

  pub map_buffer_lem :
      (hnd : Handle) (address : ℕ) (log : History)
      → in_framebuffer hnd ≡ false
      → env.mmap log hnd.fd (to_size hnd.size) ≡ some address
      → let base = (address + to_size hnd.offset) % 2 ^ 64 in
        map_buffer env hnd log ≡ record {
          status = pos 0;
          handle = some (record hnd { base = base });
          vaddr = some base;
          log = mapped hnd.fd (to_size hnd.size) address ∷ log;
        }
  unfolding map_buffer gralloc_map gralloc_map_at
  map_buffer_lem hnd address log outside maps = rw (outside, maps)

  map_buffer_failed_lem :
      (hnd : Handle) (log : History)
      → in_framebuffer hnd ≡ false
      → env.mmap log hnd.fd (to_size hnd.size) ≡ none
      → (map_buffer env hnd log).status
        ≡ negated (env.errno (map_failed hnd.fd (to_size hnd.size) ∷ log))
  unfolding map_buffer gralloc_map gralloc_map_at
  map_buffer_failed_lem hnd log outside maps = rw (outside, maps)

  registered_lem :
      (hnd : Handle) (address : ℕ) (log : History)
      → validate env (some hnd) ≡ pos 0
      → in_framebuffer hnd ≡ false
      → env.mmap log hnd.fd (to_size hnd.size) ≡ some address
      → let base = (address + to_size hnd.offset) % 2 ^ 64 in
        gralloc_register_buffer env (some hnd) log ≡ record {
          status = pos 0;
          handle = some (record hnd { base = base });
          vaddr = some base;
          log = mapped hnd.fd (to_size hnd.size) address ∷ log;
        }
  unfolding gralloc_register_buffer gralloc_map gralloc_map_at
  registered_lem hnd address log valid outside maps = rw (valid, outside, maps)

  is_mapped : (base : ℕ) → base ≢ 0 → (base == 0) ≡ false
  is_mapped base h = ground arith

  unregistered_lem :
      (hnd : Handle) (log : History)
      → validate env (some hnd) ≡ pos 0
      → in_framebuffer hnd ≡ false
      → hnd.base ≢ 0
      → gralloc_unregister_buffer env (some hnd) log ≡ record {
        status = pos 0;
        handle = some (record hnd { base = 0 });
        vaddr = none;
        log = unmapped hnd.base (to_size hnd.size) ∷ log;
      }
  unfolding gralloc_unregister_buffer gralloc_unmap
  unregistered_lem hnd log valid outside held = rw (valid, outside, is_mapped hnd.base held)

  pub lock_lem :
      (hnd : Handle) (log : History)
      → validate env (some hnd) ≡ pos 0
      → (gralloc_lock env (some hnd) log).vaddr ≡ some hnd.base
  unfolding gralloc_lock
  lock_lem hnd log valid = rw valid

  validate-base :
      (hnd : Handle) (base : ℕ)
      → validate env (some hnd) ≡ pos 0
      → validate env (some (record hnd { base = base })) ≡ pos 0
  unfolding validate
  validate-base hnd base valid = valid

  to_size_range : (z : ℤ) → to_size z < 2 ^ 64
  unfolding to_size
  to_size_range (pos n) = omega arith
  to_size_range (negsuc n) = omega arith

  same_address :
      (address offset : ℕ)
      → address < 2 ^ 64
      → offset < 2 ^ 64
      → ((address + offset) % 2 ^ 64 == address) ≡ (offset == 0)
  same_address address offset low small = ground arith

  -- A valid handle of a buffer outside the framebuffer, whose file `mmap` maps at a 64-bit address
  -- whose sum with the offset is not 0 in 64 bits: it is registered with the status 0, and a lock then gives that sum.
  -- Unregistering it returns 0, leaves the handle as it was with the address 0, and unmaps the sum,
  -- with the size that was mapped: this is the address that was mapped just where the offset is 0.
  pub unregister-register :
      (hnd : Handle) (address : ℕ) (log : History)
      → validate env (some hnd) ≡ pos 0
      → in_framebuffer hnd ≡ false
      → env.mmap log hnd.fd (to_size hnd.size) ≡ some address
      → address < 2 ^ 64
      → (address + to_size hnd.offset) % 2 ^ 64 ≢ 0
      → let base = (address + to_size hnd.offset) % 2 ^ 64 in
        let registered = gralloc_register_buffer env (some hnd) log in
        let done = gralloc_unregister_buffer env registered.handle registered.log in
        (registered.status ≡ pos 0)
        × ((gralloc_lock env registered.handle registered.log).vaddr ≡ some base)
        × (done.status ≡ pos 0)
        × (done.handle ≡ some (record hnd { base = 0 }))
        × (done.log
            ≡ unmapped base (to_size hnd.size) ∷ mapped hnd.fd (to_size hnd.size) address ∷ log)
        × ((base == address) ≡ (to_size hnd.offset == 0))
  unregister-register hnd address log valid outside maps low held =
      let base = (address + to_size hnd.offset) % 2 ^ 64 in
      let hnd' = record hnd { base = base } in
      let log' = mapped hnd.fd (to_size hnd.size) address ∷ log in
      let valid' = validate-base hnd base valid in
      let undone = unregistered_lem hnd' log' valid' outside held in
      rw (registered_lem hnd address log valid outside maps) (
        refl,
        lock_lem hnd' log' valid',
        rw undone,
        rw undone,
        rw undone,
        same_address address (to_size hnd.offset) low (to_size_range hnd.offset),
      )
