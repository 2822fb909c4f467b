-- ===== src/Gralloc/Framebuffer.antt =====
-- legacy/old-shashlik/src/libs/gralloc-shashlik/framebuffer.cpp: the mapping of the framebuffer, and
-- what is posted to it. The resolution in dots per inch and the refresh rate, which are floating
-- numbers, and the size of the screen in millimetres are left out. USE_PAN_DISPLAY is 0.
pub mod Screen
pub mod Retry
mod Tests
use xylitol.Common.{
  ℕ, zero, suc, ◌+◌, ◌-◌, ◌*◌, ◌/◌, ◌%◌, ◌^◌, Bool, true, false, not, ◌||◌, ◌&&◌, Option, none,
  some, List, [], ◌∷◌, ◌==◌, ltb, if◌then◌else◌,
}
use xylitol.Common.Int.{ℤ, pos, negsuc, ltb_ℤ, eqb_ℤ, pos_part, to_int}
use xylitol.Gralloc.Mapper.{gralloc_lock}
use xylitol.Gralloc.{
  einval, to_size, negated, round_up_to_page_size, Handle, FixInfo, VarInfo, Call, mapped,
  map_failed, duplicated, device_opened, screen_read, screen_written, copied, cleared, History, Env,
  in_framebuffer, private_handle, validate,
}

-- `private_module_t`, with the address of its Wayland client.
pub record Module : Type 0 where
  pub framebuffer : Option Handle
  pub page_flip : Bool
  pub num_buffers : ℕ
  pub buffer_mask : ℕ
  pub current_buffer : Option Handle
  pub wayland_client : Option ℕ
  pub info : VarInfo
  pub finfo : FixInfo

-- A status, the module behind the call, and the calls so far.
pub record Mapping : Type 0 where
  pub status : ℤ
  pub target : Module
  pub log : History

abbrev pub fb_activate_now : ℕ
fb_activate_now = 0

abbrev pub fb_activate_vbl : ℕ
fb_activate_vbl = 16

-- An unsigned 32-bit product.
abbrev pub mul32 : ℕ → ℕ → ℕ
mul32 a b = a * b % 2 ^ 32

-- The screen that is asked for: two buffers, one above the other.
pub requested : VarInfo → VarInfo
requested info = record info {
  reserved = (0, 0, 0);
  xoffset = 0;
  yoffset = 0;
  activate = fb_activate_now;
  yres_virtual = mul32 info.yres 2;
}

-- Whether pages can be flipped: what the driver answers to the request.
pub page_flip_of : Option VarInfo → Bool
page_flip_of none = false
page_flip_of (some info) = not (ltb info.yres_virtual (mul32 info.yres 2))

module _ (env : Env) where
  -- while ((fd==-1) && device_template[i]): the first of the devices that opens.
  pub open_device : History → Option ℕ × History
  open_device log =
      let first = env.open_device log 0 in
      let log' = device_opened 0 ∷ log in
      elim first [
        | some fd ↦ (some fd, log')
        | none ↦ (env.open_device log' 1, device_opened 1 ∷ log')
      ]

  pub failed : Module → History → Mapping
  failed m log = record { status = negated (env.errno log); target = m; log = log }

  -- The division of `yres_virtual` by a `yres` of 0 is undefined.
  pub map_answer : Option ℕ → ℕ → ℕ → Module → History → Mapping
  map_answer none fd fb_size m log = failed m (map_failed (pos fd) fb_size ∷ log)
  map_answer (some vaddr) fd fb_size m log = record {
    status = pos 0;
    target = record m {
      framebuffer = elim m.framebuffer [
        | none ↦ none
        | some hnd ↦ some (record hnd { base = vaddr })
      ];
    };
    log = cleared vaddr fb_size ∷ mapped (pos fd) fb_size vaddr ∷ log;
  }

  pub map_screen : ℕ → Bool → VarInfo → FixInfo → Module → History → Option Mapping
  map_screen fd page_flip info finfo m log =
      let fb_size = round_up_to_page_size (mul32 finfo.line_length info.yres_virtual) in
      let fd' = env.dup log (pos fd) in
      let log' = duplicated (pos fd) fd' ∷ log in
      if info.yres == 0
      then none
      else some (
          map_answer (env.mmap log' (pos fd) fb_size) fd fb_size
            (record m {
              page_flip = page_flip;
              info = info;
              finfo = finfo;
              framebuffer = some (private_handle env fd' (to_int (pos fb_size)) 0 0 0);
              num_buffers = info.yres_virtual / info.yres;
              buffer_mask = 0;
            })
            log')

  -- The last two readings of the screen, behind the request.
  pub read_screen : ℕ → Bool → Module → History → Option Mapping
  read_screen fd page_flip m log =
      let log' = screen_read (pos fd) ∷ log in
      let log'' = screen_read (pos fd) ∷ log' in
      elim (env.get_var log (pos fd)) [
        | none ↦ some (failed m log')
        | some info ↦ elim (env.get_fix log' (pos fd)) [
          | none ↦ some (failed m log'')
          | some finfo ↦
              if finfo.smem_len == 0
              then some (failed m log'')
              else map_screen fd page_flip info finfo m log''
        ]
      ]

  pub set_up_screen : ℕ → Module → History → Option Mapping
  set_up_screen fd m log =
      let log' = screen_read (pos fd) ∷ log in
      let log'' = screen_read (pos fd) ∷ log' in
      elim (env.get_fix log (pos fd)) [
        | none ↦ some (failed m log')
        | some finfo ↦ elim (env.get_var log' (pos fd)) [
          | none ↦ some (failed m log'')
          | some info ↦
              read_screen fd (page_flip_of (env.put_var log'' (pos fd) (requested info))) m
                (screen_written (pos fd) (requested info) ∷ log'')
        ]
      ]

  pub map_frame_buffer_locked : Module → History → Option Mapping
  map_frame_buffer_locked m log = elim m.framebuffer [
    | some hnd ↦ some (record { status = pos 0; target = m; log = log })
    | none ↦
        let (fd, log') = open_device log in
        elim fd [ none ↦ some (failed m log') | some fd ↦ set_up_screen fd m log' ]
  ]

  -- memcpy, with what the two calls of `lock` wrote; a copy from or to a null pointer is undefined.
  pub copy_to_screen : Option ℕ → Option ℕ → Module → History → Option Mapping
  copy_to_screen (some fb_vaddr) (some buffer_vaddr) m log =
      if fb_vaddr == 0 || buffer_vaddr == 0
      then none
      else some (record {
        status = pos 0;
        target = m;
        log = copied buffer_vaddr fb_vaddr (mul32 m.finfo.line_length m.info.yres) ∷ log;
      })
  copy_to_screen (some fb_vaddr) none m log = none
  copy_to_screen none buffer_vaddr m log = none

  -- The answer of the driver to the new offset. The call of `unlock` has no effect.
  pub flip_answer : Option VarInfo → ℤ → VarInfo → Handle → Module → History → Mapping
  flip_answer none fd info hnd m log =
      failed (record m { info = info }) (screen_written fd info ∷ log)
  flip_answer (some answer) fd info hnd m log = record {
    status = pos 0;
    target = record m { info = answer; current_buffer = some hnd };
    log = screen_written fd info ∷ log;
  }

  -- A division by a `line_length` of 0 is undefined.
  pub flip : Handle → Handle → Module → History → Option Mapping
  flip framebuffer hnd m log =
      if m.finfo.line_length == 0
      then none
      else (let offset = (hnd.base + 2 ^ 64 - framebuffer.base) % 2 ^ 64 in
          let info = record m.info {
            activate = fb_activate_vbl;
            yoffset = offset / m.finfo.line_length % 2 ^ 32;
          } in
          some (flip_answer (env.put_var log framebuffer.fd info) framebuffer.fd info hnd m log))

  pub post : Option Handle → Handle → Module → History → Option Mapping
  post none hnd m log = none
  post (some framebuffer) hnd m log =
      if in_framebuffer hnd
      then flip framebuffer hnd m log
      else copy_to_screen (gralloc_lock env (some framebuffer) log).vaddr
          (gralloc_lock env (some hnd) log).vaddr m log

  -- A null framebuffer is not to be read.
  pub fb_post : Option Handle → Module → History → Option Mapping
  fb_post buffer m log =
      if ltb_ℤ (validate env buffer) (pos 0)
      then some (record { status = einval; target = m; log = log })
      else elim buffer [ none ↦ none | some hnd ↦ post m.framebuffer hnd m log ]

-- (a|b) < 0
abbrev pub or_negative : ℤ → ℤ → Bool
or_negative a b = ltb_ℤ a (pos 0) || ltb_ℤ b (pos 0)

-- (uint16_t)a | ((uint32_t)b << 16)
abbrev pub packed : ℕ → ℕ → ℕ
packed a b = a % 2 ^ 16 + b * 2 ^ 16 % 2 ^ 32

-- The sums `l+w` and `t+h` of type `int`.
abbrev pub fits_int : ℕ → Bool
fits_int n = ltb n (2 ^ 31)

pub fb_set_update_rect : ℤ → ℤ → ℤ → ℤ → Module → Option (ℤ × Module)
fb_set_update_rect l t w h m =
    if (or_negative w h || (eqb_ℤ w (pos 0) && eqb_ℤ h (pos 0))) || or_negative l t
    then some (einval, m)
    else if fits_int (pos_part l + pos_part w) && fits_int (pos_part t + pos_part h)
    then some (
      pos 0,
      record m {
        info = record m.info {
          reserved = (
            1413763157,
            packed (pos_part l) (pos_part t),
            packed (pos_part l + pos_part w) (pos_part t + pos_part h),
          );
        };
      },
    )
    else none

pub fb_set_swap_interval : ℤ → ℤ → ℤ → ℤ
fb_set_swap_interval min_swap_interval max_swap_interval interval =
    if ltb_ℤ interval min_swap_interval || ltb_ℤ max_swap_interval interval then einval else pos 0

pub data Format : Type 0 where
  rgba_8888 rgbx_8888 bgra_8888 rgb_888 rgb_565 raw_sensor other_format : Format

-- The constants of `framebuffer_device_t`.
pub record Device : Type 0 where
  pub width : ℕ
  pub height : ℕ
  pub stride : ℤ
  pub format : Format
  pub min_swap_interval : ℤ
  pub max_swap_interval : ℤ

-- What `fb_device_open` reads from the module; a division by 0 is undefined.
pub device_of : Module → Option Device
device_of m =
    if m.info.bits_per_pixel / 8 == 0
    then none
    else some (record {
      width = m.info.xres;
      height = m.info.yres;
      stride = to_int (pos (m.finfo.line_length / (m.info.bits_per_pixel / 8)));
      format =
          if m.info.bits_per_pixel == 32
          then (if m.info.red_offset == 0 then rgbx_8888 else bgra_8888)
          else rgb_565;
      min_swap_interval = pos 1;
      max_swap_interval = pos 1;
    })

-- The device is handed out just where the framebuffer is mapped.
pub with_mapping : Option Mapping → Option (Option Device × Mapping)
with_mapping none = none
with_mapping (some mapping) =
    if ltb_ℤ mapping.status (pos 0)
    then some (none, mapping)
    else elim (device_of mapping.target) [ none ↦ none | some device ↦ some (some device, mapping) ]

pub fb_device_open : Env → Bool → Module → History → Option (Option Device × Mapping)
fb_device_open env is_fb0 m log =
    if is_fb0
    then with_mapping (map_frame_buffer_locked env m log)
    else some (none, record { status = einval; target = m; log = log })
