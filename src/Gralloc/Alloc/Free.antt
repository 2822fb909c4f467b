-- ===== src/Gralloc/Alloc/Free.antt =====
-- What a framebuffer allocation takes, and what `gralloc_free` does with it.
use native.Mathlib.Nat.{
  mul-div_cancel, le_trans, add-div_right, mod-add-div', pow-le-pow_right, mul-le-mul_right,
}
use xylitol.Common.{
  ℕ, suc, ◌+◌, ◌-◌, ◌*◌, ◌/◌, ◌%◌, ◌^◌, ◌≤◌, ◌<◌, ◌≡◌, ◌≢◌, refl, sym, ap, ◌∙◌, arith, true, false,
  Option, none, some, ◌==◌, leb,
}
use xylitol.Common.Int.{pos, eqb_ℤ_refl}
use xylitol.Gralloc.{Handle, History, Env, private_handle, validate}
use xylitol.Gralloc.Framebuffer.{Module, mul32, map_frame_buffer_locked}
use xylitol.Gralloc.Alloc.{
  Allocated, is_free, fake_handle, take_slot, behind_mapping, gralloc_alloc_framebuffer, clear_slot,
  give_back, freed, gralloc_free,
}
use xylitol.Gralloc.Alloc.Slots.{pow2_pos, slot_div, find_slot-IsLowest}

-- mask + 1 is a multiple of 2 ^ slot: all slots below are taken.
below_taken : (mask above p : ℕ) → 0 < p → mask + 1 ≡ suc above * p → mask % p ≡ p - 1
below_taken mask above p h e =
    let whole : mask % p + above * p ≡ mask =
      ap (λ (q : ℕ). mask % p + q * p) (sym (slot_div mask above p h e)) ∙ mod-add-div' mask p in
    grind arith

is_taken : (mask p : ℕ) → 0 < p → (mask / p % 2 == 0) ≡ true → ((mask + p) / p % 2 == 0) ≡ false
is_taken mask p h e = rw (add-div_right mask h) (ground arith)

clear-set : (slot mask : ℕ) → is_free mask slot ≡ true → clear_slot slot (mask + 2 ^ slot) ≡ mask
unfolding clear_slot
clear-set slot mask t = rw (is_taken mask (2 ^ slot) (pow2_pos slot) t) (omega arith)

times_one : (x : ℕ) → x * 2 ^ 0 ≡ x
times_one x = omega arith

from_zero : (slot n : ℕ) → slot < 0 + n → slot < n
from_zero slot n h = omega arith

from_slot_zero : (base slot bytes : ℕ) → base + (slot - 0) * bytes ≡ base + slot * bytes
from_slot_zero base slot bytes = let same : slot - 0 ≡ slot = omega arith in rw same refl

powers : (n : ℕ) → n ≤ 32 → 2 ^ n ≤ 2 ^ 32
powers n h = pow-le-pow_right {n = 2} (omega arith) h

not_equal : (a b : ℕ) → a ≢ b → (a == b) ≡ false
not_equal a b h = ground arith

below_64 : (n : ℕ) → n ≤ 32 → leb 64 n ≡ false
below_64 n h = ground arith

not_full : (mask p : ℕ) → mask + 1 < p → leb (p - 1) mask ≡ false
not_full mask p h = ground arith

index_lem :
    (base slot bytes : ℕ)
    → 0 < bytes
    → base + slot * bytes < 2 ^ 64
    → slot < 32
    → (base + slot * bytes + 2 ^ 64 - base) % 2 ^ 64 / bytes % 2 ^ 32 ≡ slot
index_lem base slot bytes h v few =
    let offset : (base + slot * bytes + 2 ^ 64 - base) % 2 ^ 64 ≡ slot * bytes = omega arith in
    rw (offset, mul-div_cancel slot h) (omega arith)

slot_inside :
    (base slot n bytes : ℕ) → slot < n → base + n * bytes < 2 ^ 64 → base + slot * bytes < 2 ^ 64
slot_inside base slot n bytes h v =
    let before : slot ≤ n = omega arith in omega (arith, mul-le-mul_right bytes before)

positive : (a : ℕ) → 0 < a → (a == 0) ≡ false
positive a h = ground arith

below_32 : (slot n : ℕ) → slot < n → n ≤ 32 → leb 32 slot ≡ false
below_32 slot n h k = ground arith

-- An allocation in the framebuffer `fb`: the slot it takes is the lowest that is free, the mask
-- records it and stays in its range, and the handle of the framebuffer stands for its address.
pub record IsTaken (env : Env) (fb : Handle) (m : Module) (a : Allocated) : Type 0 where
  pub slot : ℕ
  pub slot_in : slot < m.num_buffers
  pub free : is_free m.buffer_mask slot ≡ true
  pub below : m.buffer_mask % 2 ^ slot ≡ 2 ^ slot - 1
  pub status_is : a.status ≡ pos 0
  pub target_is : a.target ≡ record m { buffer_mask = m.buffer_mask + 2 ^ slot }
  pub bounded : m.buffer_mask + 2 ^ slot < 2 ^ m.num_buffers
  pub hnd : Handle
  pub buffer_is : a.buffer ≡ some hnd
  pub flags_are : hnd.flags ≡ 1
  pub base_is : hnd.base ≡ fb.base + slot * mul32 m.finfo.line_length m.info.yres
  pub valid : validate env (some hnd) ≡ pos 0
  pub pool_is : hnd.pool ≡ 0

module _ (env : Env) (fb : Handle) (m : Module) where
  -- There is room: the mask is not full, and the buffers fit in the address space.
  pub record HasRoom : Type 0 where
    pub framebuffer_is : m.framebuffer ≡ some fb
    pub many : m.num_buffers ≢ 1
    pub few : m.num_buffers ≤ 32
    pub not_full : m.buffer_mask + 1 < 2 ^ m.num_buffers
    pub addressable : fb.base + m.num_buffers * mul32 m.finfo.line_length m.info.yres < 2 ^ 64

  fake_handle-IsTaken :
      (size : ℕ) (log : History)
      → HasRoom
      → IsTaken env fb m (fake_handle env fb size (mul32 m.finfo.line_length m.info.yres) m log)
  unfolding fake_handle private_handle validate
  fake_handle-IsTaken size log room =
      let n = m.num_buffers in
      let bytes = mul32 m.finfo.line_length m.info.yres in
      let found =
        find_slot-IsLowest n 0 bytes m.buffer_mask fb.base m.buffer_mask (omega arith)
          (rw times_one room.not_full) (rw times_one (powers n room.few)) room.addressable in
      record {
        slot = found.slot;
        slot_in = from_zero found.slot n (found.slot_in).1;
        free = found.free;
        below =
            below_taken m.buffer_mask found.above (2 ^ found.slot) (pow2_pos found.slot)
              found.lowest;
        status_is = refl;
        target_is = ap (λ (mask : ℕ). record m { buffer_mask = mask }) found.mask_is;
        bounded = rw (sym (times_one (2 ^ n))) found.fits;
        hnd = _;
        buffer_is = refl;
        flags_are = refl;
        base_is = found.vaddr_is ∙ from_slot_zero fb.base found.slot bytes;
        valid = rw (eqb_ℤ_refl env.native_handle_size, eqb_ℤ_refl env.num_ints) refl;
        pool_is = refl;
      }

  take_slot_lem :
      (size : ℕ) (log : History)
      → HasRoom
      → take_slot env (some fb) size m log
        ≡ some (fake_handle env fb size (mul32 m.finfo.line_length m.info.yres) m log)
  unfolding take_slot
  take_slot_lem size log room =
      rw
        (
          not_equal m.num_buffers 1 room.many,
          below_64 m.num_buffers room.few,
          not_full m.buffer_mask (2 ^ m.num_buffers) room.not_full,
        )
        refl

  alloc_lem :
      (size : ℕ) (log : History)
      → m.framebuffer ≡ some fb
      → gralloc_alloc_framebuffer env size m log ≡ take_slot env (some fb) size m log
  unfolding gralloc_alloc_framebuffer
  alloc_lem size log h =
      ap
        (λ (o : Option Handle). elim o [
          | none ↦ behind_mapping env (map_frame_buffer_locked env m log) size
          | some fb ↦ take_slot env (some fb) size m log
        ])
        h

  give_back_lem :
      (hnd : Handle) (slot : ℕ) (log : History)
      → HasRoom
      → 0 < mul32 m.finfo.line_length m.info.yres
      → slot < m.num_buffers
      → is_free m.buffer_mask slot ≡ true
      → hnd.flags ≡ 1
      → hnd.base ≡ fb.base + slot * mul32 m.finfo.line_length m.info.yres
      → give_back env hnd (record m { buffer_mask = m.buffer_mask + 2 ^ slot }) log ≡ some (m, log)
  unfolding give_back
  give_back_lem hnd slot log room some_bytes within free flags_are base_is =
      let bytes = mul32 m.finfo.line_length m.info.yres in
      let inside = slot_inside fb.base slot m.num_buffers bytes within room.addressable in
      simp
        (
          flags_are,
          room.framebuffer_is,
          base_is,
          index_lem fb.base slot bytes some_bytes inside (le_trans within room.few),
          positive bytes some_bytes,
          below_32 slot m.num_buffers within room.few,
          clear-set slot m.buffer_mask free,
        )
        (ap (λ (f : Option Handle). some (record m { framebuffer = f }, log))
          (sym room.framebuffer_is))

  free_lem :
      (hnd : Handle) (taken : Module) (log : History)
      → validate env (some hnd) ≡ pos 0
      → give_back env hnd taken log ≡ some (m, log)
      → hnd.pool ≡ 0
      → gralloc_free env (some hnd) taken log ≡ none
  unfolding gralloc_free freed
  free_lem hnd taken log valid given_back no_pool = rw (valid, given_back, no_pool) refl

  -- An allocation in a framebuffer with two to 32 buffers, whose mask is not full and whose buffers
  -- lie in the address space and are not empty, returns a valid handle of the lowest free slot: its
  -- address is that of the slot, only the mask of the module changes, by the bit of the slot, and
  -- stays below 2 ^ num_buffers. The part of `gralloc_free` that gives the slot back leaves the module
  -- as it was before the allocation; but `gralloc_free` has no defined result on the handle, whatever
  -- was called in between, since it then destroys the pool of the handle, which is null.
  pub free-alloc :
      (size : ℕ) (log log' : History)
      → HasRoom
      → 0 < mul32 m.finfo.line_length m.info.yres
      → (a : Allocated) × (gralloc_alloc_framebuffer env size m log ≡ some a)
        × (taken : IsTaken env fb m a) × (give_back env taken.hnd a.target log' ≡ some (m, log'))
        × (gralloc_free env a.buffer a.target log' ≡ none)
  free-alloc size log log' room some_bytes =
      let a = fake_handle env fb size (mul32 m.finfo.line_length m.info.yres) m log in
      let taken = fake_handle-IsTaken size log room in
      let restored =
        give_back_lem taken.hnd taken.slot log' room some_bytes taken.slot_in taken.free
          taken.flags_are taken.base_is in
      (
        a,
        alloc_lem size log room.framebuffer_is ∙ take_slot_lem size log room,
        taken,
        rw taken.target_is restored,
        rw (taken.buffer_is, taken.target_is)
            (free_lem taken.hnd _ log' taken.valid restored taken.pool_is),
      )
