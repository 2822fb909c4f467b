-- ===== src/Gralloc.antt =====
-- What the files of legacy/old-shashlik/src/libs/gralloc-shashlik share: the handle of a buffer and
-- its test (gralloc_priv.h), the rounding to whole pages (gr.h), and the calls that leave the
-- module. What those calls answer may depend on all that were made before, and is a parameter, the
-- record `Env`.
pub mod Mapper
pub mod Framebuffer
pub mod Alloc
pub mod Pages
mod Tests
use xylitol.Common.{
  ℕ, zero, suc, ◌+◌, ◌-◌, ◌*◌, ◌/◌, ◌%◌, ◌^◌, Bool, not, ◌||◌, Option, none, some, List, ◌==◌,
  if◌then◌else◌,
}
use xylitol.Common.Int.{ℤ, pos, negsuc, to_int, eqb_ℤ}
use xylitol.AnonymousFile.{System}

abbrev pub einval : ℤ
einval = negsuc 21

abbrev pub enomem : ℤ
enomem = negsuc 11

-- A conversion to `size_t`, of 64 bits.
unfoldable pub to_size : ℤ → ℕ
to_size (pos n) = n % 2 ^ 64
to_size (negsuc n) = 2 ^ 64 - 1 - n % 2 ^ 64

-- -errno
abbrev pub negated : ℕ → ℤ
negated zero = pos 0
negated (suc n) = negsuc n

-- PAGE_SIZE
abbrev pub page_size : ℕ
page_size = 4096

-- (x + (PAGE_SIZE-1)) & ~(PAGE_SIZE-1), in 64 bits.
unfoldable pub round_up_to_page_size : ℕ → ℕ
round_up_to_page_size x = let sum = (x + (page_size - 1)) % 2 ^ 64 in sum - sum % page_size

-- `private_handle_t` with the fields of `native_handle` that are tested. The address of a pool or a
-- buffer of the compositor is 0 where there is none.
pub record Handle : Type 0 where
  pub version : ℤ
  pub num_fds : ℤ
  pub num_ints : ℤ
  pub fd : ℤ
  pub magic : ℕ
  pub flags : ℕ
  pub size : ℤ
  pub offset : ℤ
  pub pool : ℕ
  pub wl_buffer : ℕ
  pub base : ℕ

-- `fb_fix_screeninfo` and `fb_var_screeninfo`, as far as the code reads or writes them.
pub record FixInfo : Type 0 where
  pub line_length : ℕ
  pub smem_len : ℕ

pub record VarInfo : Type 0 where
  pub xres : ℕ
  pub yres : ℕ
  pub yres_virtual : ℕ
  pub xoffset : ℕ
  pub yoffset : ℕ
  pub activate : ℕ
  pub bits_per_pixel : ℕ
  pub red_offset : ℕ
  pub reserved : ℕ × ℕ × ℕ

-- The calls that leave the module, newest first in a history.
pub data Call : Type 0 where
  mapped : ℤ → ℕ → ℕ → Call
  map_failed : ℤ → ℕ → Call
  unmapped : ℕ → ℕ → Call
  closed : ℤ → Call
  file_created : ℤ → ℤ → Call
  region_created : ℕ → ℤ → Call
  duplicated : ℤ → ℤ → Call
  pool_created : ℕ → ℤ → ℤ → Call
  buffer_created : ℕ → ℤ → ℤ → ℕ → ℕ → ℕ → Call
  pool_destroyed : ℕ → Call
  device_opened : ℕ → Call
  copied : ℕ → ℕ → ℕ → Call
  -- memset of so many bytes at an address to 0
  cleared : ℕ → ℕ → Call
  screen_read : ℤ → Call
  screen_written : ℤ → VarInfo → Call

abbrev pub History : Type 0
History = List Call

pub record Env : Type 0 where
  -- sizeof(native_handle); private_handle_t::sNumInts()
  pub native_handle_size : ℤ
  pub num_ints : ℤ
  pub errno : History → ℕ
  -- mmap(0, size, …, fd, 0): the address, or none for MAP_FAILED
  pub mmap : History → ℤ → ℕ → Option ℕ
  -- what the calls of `os_create_anonymous_file` ask the system
  pub system : History → System
  -- ashmem_create_region("gralloc-buffer", size)
  pub ashmem_create_region : History → ℕ → ℤ
  pub dup : History → ℤ → ℤ
  -- wl_shm_create_pool, wl_shm_pool_create_buffer: an address, 0 for NULL
  pub create_pool : History → ℤ → ℤ → ℕ
  pub create_buffer : History → ℕ → ℤ → ℤ → ℕ → ℕ → ℕ
  -- open("/dev/graphics/fb0"), open("/dev/fb0"): the descriptor, or none for -1
  pub open_device : History → ℕ → Option ℕ
  -- ioctl with FBIOGET_FSCREENINFO, FBIOGET_VSCREENINFO, FBIOPUT_VSCREENINFO: what it leaves in
  -- its argument, or none for -1
  pub get_fix : History → ℤ → Option FixInfo
  pub get_var : History → ℤ → Option VarInfo
  pub put_var : History → ℤ → VarInfo → Option VarInfo

abbrev pub s_magic : ℕ
s_magic = 51647890

-- flags & PRIV_FLAGS_FRAMEBUFFER
abbrev pub in_framebuffer : Handle → Bool
in_framebuffer h = h.flags % 2 == 1

module _ (env : Env) where
  -- The constructor of `private_handle_t`.
  pub private_handle : ℤ → ℤ → ℕ → ℕ → ℕ → Handle
  private_handle fd size flags pool wl_buffer = record {
    version = env.native_handle_size;
    num_fds = pos 1;
    num_ints = env.num_ints;
    fd = fd;
    magic = s_magic;
    flags = flags;
    size = size;
    offset = pos 0;
    pool = pool;
    wl_buffer = wl_buffer;
    base = 0;
  }

  -- A handle may be null.
  pub validate : Option Handle → ℤ
  validate none = einval
  validate (some h) =
      if not (eqb_ℤ h.version env.native_handle_size)
        || (not (eqb_ℤ h.num_ints env.num_ints)
            || (not (eqb_ℤ h.num_fds (pos 1)) || not (h.magic == s_magic)))
      then einval
      else pos 0
