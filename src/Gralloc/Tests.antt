-- ===== src/Gralloc/Tests.antt =====
-- A system whose calls all succeed, `mmap` apart, and a handle of 4096 bytes.
use xylitol.Common.{
  ◌==◌, ℕ, ◌+◌, ◌%◌, ◌^◌, ◌≡◌, refl, arith, true, false, Option, none, some, [], ◌∷◌, Bytes,
}
use xylitol.Common.Int.{pos}
use xylitol.AnonymousFile.{System}
use xylitol.Gralloc.{einval, to_size, Handle, FixInfo, VarInfo, mapped, unmapped, Env, validate}
use xylitol.Gralloc.Mapper.{gralloc_register_buffer, gralloc_unregister_buffer, gralloc_lock}
use xylitol.Gralloc.Mapper.Balance.{unregister-register}

abbrev pub directory : Bytes
directory = b'/' ∷ b'r' ∷ []

abbrev pub files : System
files = record {
  have_mkostemp = false;
  xdg_runtime_dir = some directory;
  malloc_succeeds = λ _. true;
  mkstemp = λ _. some 5;
  getfd_succeeds = true;
  setfd_succeeds = true;
  unlink_succeeds = true;
  ftruncate_succeeds = λ _. true;
  errno_after_close = 27;
}

abbrev pub screen_fix : FixInfo
screen_fix = record { line_length = 400; smem_len = 65536 }

-- Two buffers of 100 by 10 pixels.
abbrev pub screen_info : VarInfo
screen_info = record {
  xres = 100;
  yres = 10;
  yres_virtual = 20;
  xoffset = 0;
  yoffset = 0;
  activate = 0;
  bits_per_pixel = 32;
  red_offset = 0;
  reserved = (0, 0, 0);
}

abbrev pub env : Option ℕ → Env
env address = record {
  native_handle_size = pos 12;
  num_ints = pos 9;
  errno = λ _. 12;
  mmap = λ _ _ _. address;
  system = λ _. files;
  ashmem_create_region = λ _ _. pos 7;
  dup = λ _ _. pos 8;
  create_pool = λ _ _ _. 500;
  create_buffer = λ _ _ _ _ _ _. 600;
  open_device = λ _ _. some 3;
  get_fix = λ _ _. some screen_fix;
  get_var = λ _ _. some screen_info;
  put_var = λ _ _ _. some screen_info;
}

abbrev pub buffer : Handle
buffer = record {
  version = pos 12;
  num_fds = pos 1;
  num_ints = pos 9;
  fd = pos 5;
  magic = 51647890;
  flags = 0;
  size = pos 4096;
  offset = pos 0;
  pool = 500;
  wl_buffer = 600;
  base = 8192;
}

pub buffer_valid : (address : Option ℕ) → validate (env address) (some buffer) ≡ pos 0
unfolding validate
buffer_valid address = refl

null_lem : validate (env none) none ≡ einval
unfolding validate
null_lem = refl

abbrev to_base : ℕ
to_base = (65536 + to_size (pos 0)) % 2 ^ 64

unregister-register_example :
    let registered = gralloc_register_buffer (env (some 65536)) (some buffer) [] in
    let done = gralloc_unregister_buffer (env (some 65536)) registered.handle registered.log in
    (registered.status ≡ pos 0)
    × ((gralloc_lock (env (some 65536)) registered.handle registered.log).vaddr ≡ some to_base)
    × (done.status ≡ pos 0)
    × (done.handle ≡ some (record buffer { base = 0 }))
    × (done.log
        ≡ unmapped to_base (to_size (pos 4096)) ∷ mapped (pos 5) (to_size (pos 4096)) 65536 ∷ [])
    × ((to_base == 65536) ≡ (to_size (pos 0) == 0))
unfolding to_size
unregister-register_example =
    unregister-register (env (some 65536)) buffer 65536 [] (buffer_valid (some 65536)) refl refl
      (omega arith) (omega arith)
