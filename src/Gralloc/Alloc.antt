-- ===== src/Gralloc/Alloc.antt =====
-- legacy/old-shashlik/src/libs/gralloc-shashlik/gralloc.cpp: buffers are allocated and freed. Of the
-- usage only GRALLOC_USAGE_HW_FB is tested. The lock of the module is left out: a call is one step.
pub mod Slots
pub mod Free
pub mod Sizes
pub mod Files
mod Tests
use xylitol.Common.{
  ℕ, zero, suc, ◌+◌, ◌-◌, ◌*◌, ◌/◌, ◌%◌, ◌^◌, Bool, true, false, not, ◌||◌, ◌&&◌, Option, none,
  some, ◌∷◌, ◌==◌, ltb, leb, if◌then◌else◌,
}
use xylitol.Common.Int.{ℤ, pos, negsuc, ltb_ℤ, leb_ℤ, eqb_ℤ, ◌+ℤ◌, ◌*ℤ◌, to_int, sub_ℕ}
use xylitol.AnonymousFile.{os_create_anonymous_file}
use xylitol.AnonymousFile.Outcomes.{start}
use xylitol.Gralloc.{
  einval, enomem, to_size, negated, round_up_to_page_size, Handle, mapped, map_failed, closed,
  file_created, region_created, duplicated, pool_created, buffer_created, pool_destroyed, History,
  Env, in_framebuffer, private_handle, validate,
}
use xylitol.Gralloc.Mapper.{Done, map_buffer, terminate_buffer}
use xylitol.Gralloc.Framebuffer.{
  Module, Mapping, mul32, map_frame_buffer_locked, Format, rgba_8888, rgbx_8888, bgra_8888, rgb_888,
  rgb_565, raw_sensor, other_format, Device, fb_device_open,
}

-- How an allocation ends: its status, what it writes to `*pHandle` and `*pStride`, the module and
-- the calls so far.
pub record Allocated : Type 0 where
  pub status : ℤ
  pub buffer : Option Handle
  pub stride : Option ℤ
  pub target : Module
  pub log : History

abbrev pub without : ℤ → Module → History → Allocated
without status m log = record {
  status = status;
  buffer = none;
  stride = none;
  target = m;
  log = log;
}

-- (mask & (1LU<<i)) == 0
abbrev pub is_free : ℕ → ℕ → Bool
is_free mask i = mask / 2 ^ i % 2 == 0

-- The loop over the slots from `i` on, `count` of them: the mask and the address behind it.
pub find_slot : ℕ → ℕ → ℕ → ℕ → ℕ → ℕ × ℕ
find_slot zero i buffer_size mask vaddr = (mask, vaddr)
find_slot (suc count) i buffer_size mask vaddr =
    let rest = find_slot count (i + 1) buffer_size mask ((vaddr + buffer_size) % 2 ^ 64) in
    if is_free mask i then ((mask + 2 ^ i) % 2 ^ 32, vaddr) else rest

-- Bytes for each pixel, and the format of the compositor.
pub pixel_format : Format → Option (ℕ × ℕ)
pixel_format rgba_8888 = some (4, 0)
pixel_format rgbx_8888 = some (4, 0)
pixel_format bgra_8888 = some (4, 0)
pixel_format rgb_888 = some (3, 1)
pixel_format rgb_565 = some (2, 0)
pixel_format raw_sensor = some (2, 0)
pixel_format other_format = none

-- n & ~3 of an `int`.
abbrev pub align_down : ℤ → ℤ
align_down (pos n) = pos (n - n % 4)
align_down (negsuc n) = negsuc (n - n % 4 + 3)

abbrev pub in_int : ℤ → Bool
in_int z = leb_ℤ (negsuc 2147483647) z && leb_ℤ z (pos 2147483647)

-- `bpr`; a product or a sum out of the range of `int` is undefined.
pub bytes_per_row : ℤ → ℕ → Option ℕ
bytes_per_row w bpp =
    if in_int (w *ℤ bpp) && in_int (w *ℤ bpp +ℤ pos 3)
    then some (to_size (align_down (w *ℤ bpp +ℤ pos 3)))
    else none

-- The stride is written where the status is not negative.
pub with_stride : ℕ → Option Allocated → Option Allocated
with_stride stride none = none
with_stride stride (some a) =
    if ltb_ℤ a.status (pos 0)
    then some a
    else some (record a { stride = some (to_int (pos stride)); status = pos 0 })

-- m->bufferMask &= ~(1<<index)
pub clear_slot : ℕ → ℕ → ℕ
clear_slot index mask = if is_free mask index then mask else mask - 2 ^ index

-- wl_shm_pool_destroy reads the pool, so there is no result for a null pool.
pub freed : Handle → Option (Module × History) → Option (ℤ × Module × History)
freed hnd none = none
freed hnd (some (m, log)) =
    if hnd.pool == 0 then none else some (pos 0, m, closed hnd.fd ∷ pool_destroyed hnd.pool ∷ log)

module _ (env : Env) where
  pub gralloc_alloc_buffer : ℕ → Module → History → Allocated
  gralloc_alloc_buffer size m log =
      let size' = round_up_to_page_size size in
      let fd = env.ashmem_create_region log size' in
      let log' = region_created size' fd ∷ log in
      let err = if ltb_ℤ fd (pos 0) then negated (env.errno log') else pos 0 in
      if eqb_ℤ err (pos 0)
      then (let hnd = private_handle env fd (to_int (pos size')) 0 0 0 in
          let done = map_buffer env hnd log' in
          record {
            status = done.status;
            buffer = if eqb_ℤ done.status (pos 0) then done.handle else none;
            stride = none;
            target = m;
            log = done.log;
          })
      else without err m log'

  -- A handle into the framebuffer `fb`, in the slot that is found.
  pub fake_handle : Handle → ℕ → ℕ → Module → History → Allocated
  fake_handle fb size buffer_size m log =
      let fd = env.dup log fb.fd in
      let (mask, vaddr) = find_slot m.num_buffers 0 buffer_size m.buffer_mask fb.base in
      record {
        status = pos 0;
        buffer = some (record (private_handle env fd (to_int (pos size)) 1 0 0) {
          base = vaddr;
          offset = to_int (sub_ℕ vaddr fb.base);
        });
        stride = none;
        target = record m { buffer_mask = mask };
        log = duplicated fb.fd fd ∷ log;
      }

  -- A shift by 64 bits or more is undefined, and so is a null framebuffer.
  pub take_slot : Option Handle → ℕ → Module → History → Option Allocated
  take_slot framebuffer size m log =
      let buffer_size = mul32 m.finfo.line_length m.info.yres in
      if m.num_buffers == 1
      then some (gralloc_alloc_buffer buffer_size m log)
      else if leb 64 m.num_buffers
      then none
      else if leb (2 ^ m.num_buffers - 1) m.buffer_mask
      then some (without enomem m log)
      else elim framebuffer [ none ↦ none | some fb ↦ some (fake_handle fb size buffer_size m log) ]

  pub behind_mapping : Option Mapping → ℕ → Option Allocated
  behind_mapping none size = none
  behind_mapping (some mapping) size =
      if ltb_ℤ mapping.status (pos 0)
      then some (without mapping.status mapping.target mapping.log)
      else take_slot (mapping.target).framebuffer size mapping.target mapping.log

  pub gralloc_alloc_framebuffer : ℕ → Module → History → Option Allocated
  gralloc_alloc_framebuffer size m log = elim m.framebuffer [
    | none ↦ behind_mapping (map_frame_buffer_locked env m log) size
    | some fb ↦ take_slot (some fb) size m log
  ]

  -- The buffer of the compositor, and its handle; the status of a failed mapping is returned where
  -- it is negative.
  pub share_buffer : ℤ → ℤ → ℕ → ℕ → ℕ → ℤ → ℤ → Module → History → Allocated
  share_buffer w h size stride wl_format fd size_map m log =
      let pool = env.create_pool log fd size_map in
      let log' = pool_created pool fd size_map ∷ log in
      let buffer = env.create_buffer log' pool w h stride wl_format in
      let log'' = buffer_created pool w h stride wl_format buffer ∷ log' in
      if buffer == 0
      then record (without (pos 0) m log'') { stride = some (to_int (pos stride)) }
      else (let done =
            map_buffer env (private_handle env fd (to_int (pos size)) 0 pool buffer) log'' in
          record {
            status = if ltb_ℤ done.status (pos 0) then done.status else pos 0;
            buffer = if eqb_ℤ done.status (pos 0) then done.handle else none;
            stride = if ltb_ℤ done.status (pos 0) then none else some (to_int (pos stride));
            target = m;
            log = done.log;
          })

  -- A failure is reported with the status 0.
  pub map_file : Option ℕ → ℤ → ℤ → ℕ → ℕ → ℕ → ℤ → ℤ → Module → History → Option Allocated
  map_file none w h size stride wl_format fd size_map m log =
      some (without (pos 0) m (closed fd ∷ map_failed fd (to_size size_map) ∷ log))
  map_file (some data_map) w h size stride wl_format fd size_map m log = elim m.wayland_client [
    | none ↦ none
    | some client ↦ some (
        share_buffer w h size stride wl_format fd size_map m
          (mapped fd (to_size size_map) data_map ∷ log))
  ]

  pub with_file : ℤ → ℤ → ℕ → ℕ → ℕ → ℤ → ℤ → Module → History → Option Allocated
  with_file w h size stride wl_format fd size_map m log =
      if ltb_ℤ fd (pos 0)
      then some (without (pos 0) m log)
      else map_file (env.mmap log fd (to_size size_map)) w h size stride wl_format fd size_map m log

  pub alloc_rows : ℤ → ℤ → ℕ → ℕ → ℕ → Bool → Module → History → Option Allocated
  alloc_rows w h bpr bpp wl_format hw_fb m log =
      let size = bpr * to_size h % 2 ^ 64 in
      let stride = bpr / bpp in
      let size_map = to_int (pos (to_size h * stride % 2 ^ 64)) in
      let fd = (os_create_anonymous_file (env.system log) size_map start).0 in
      if hw_fb
      then with_stride stride (gralloc_alloc_framebuffer size m log)
      else with_file w h size stride wl_format fd size_map m (file_created size_map fd ∷ log)

  -- `pHandle` and `pStride` are not null.
  pub gralloc_alloc : ℤ → ℤ → Format → Bool → Bool → Module → History → Option Allocated
  gralloc_alloc w h format hw_fb pointers m log =
      if not pointers then some (without einval m log) else elim (pixel_format format) [
        | none ↦ some (without einval m log)
        | some (bpp, wl_format) ↦ elim (bytes_per_row w bpp) [
          | none ↦ none
          | some bpr ↦ alloc_rows w h bpr bpp wl_format hw_fb m log
        ]
      ]

  -- The part of `gralloc_free` that gives the memory back: the slot of the framebuffer, or the
  -- mapping. A division by 0, a null framebuffer and a shift by 32 bits or more are undefined, and so is one by
  -- a negative `int`.
  pub give_back : Handle → Module → History → Option (Module × History)
  give_back hnd m log =
      if in_framebuffer hnd
      then elim m.framebuffer [
        | none ↦ none
        | some fb ↦
            let buffer_size = mul32 m.finfo.line_length m.info.yres in
            let index = (hnd.base + 2 ^ 64 - fb.base) % 2 ^ 64 / buffer_size % 2 ^ 32 in
            if buffer_size == 0 || leb 32 index
            then none
            else some (record m { buffer_mask = clear_slot index m.buffer_mask }, log)
      ]
      else some (m, (terminate_buffer env hnd log).log)

  pub gralloc_free : Option Handle → Module → History → Option (ℤ × Module × History)
  gralloc_free handle m log =
      if ltb_ℤ (validate env handle) (pos 0)
      then some (einval, m, log)
      else elim handle [ none ↦ none | some hnd ↦ freed hnd (give_back hnd m log) ]

  -- A device of the name GRALLOC_HARDWARE_GPU0 is of this module; the others are those of the
  -- framebuffer.
  pub gralloc_device_open :
      Bool → Bool → Module → History → Option (ℤ × Option Device × Module × History)
  gralloc_device_open is_gpu0 is_fb0 m log =
      if is_gpu0 then some (pos 0, none, m, log) else elim (fb_device_open env is_fb0 m log) [
        | none ↦ none
        | some (device, mapping) ↦ some (mapping.status, device, mapping.target, mapping.log)
      ]

pub gralloc_set_wayland_client : Option ℕ → Module → ℤ × Module
gralloc_set_wayland_client client m = (pos 0, record m { wayland_client = client })

pub gralloc_get_wayland_buffer : Option Handle → ℕ
gralloc_get_wayland_buffer none = 0
gralloc_get_wayland_buffer (some hnd) = hnd.wl_buffer
