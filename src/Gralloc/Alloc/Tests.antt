-- ===== src/Gralloc/Alloc/Tests.antt =====
-- A framebuffer of two slots, the first of them taken, and pictures of 100 by 10 pixels.
use xylitol.Common.{
  ◌*◌, ◌/◌, ◌%◌, ◌^◌, ◌<◌, ◌≤◌, ◌≡◌, refl, ap, arith, true, false, none, some, [], ◌∷◌,
}
use xylitol.Common.Int.{ℤ, pos, ltb_ℤ, to_int, ◌+ℤ◌, ◌*ℤ◌}
use xylitol.AnonymousFile.{os_create_anonymous_file}
use xylitol.AnonymousFile.Outcomes.{start, os_create_anonymous_file-descriptor}
use xylitol.Gralloc.{to_size, Handle, file_created, validate}
use xylitol.Gralloc.Framebuffer.{Module, rgba_8888}
use xylitol.Gralloc.Alloc.{
  Allocated, pixel_format, bytes_per_row, gralloc_alloc_framebuffer, give_back, gralloc_free,
  gralloc_alloc,
}
use xylitol.Gralloc.Alloc.Free.{IsTaken, HasRoom, free-alloc}
use xylitol.Gralloc.Alloc.Files.{IsServed, no_mapping, gralloc_alloc-Failure, gralloc_alloc-short}
use xylitol.Gralloc.Tests.{directory, screen_fix, screen_info, env, buffer}

abbrev screen : Module
screen = record {
  framebuffer = some buffer;
  page_flip = true;
  num_buffers = 2;
  buffer_mask = 1;
  current_buffer = none;
  wayland_client = some 700;
  info = screen_info;
  finfo = screen_fix;
}

has_room : HasRoom (env none) buffer screen
has_room = record {
  framebuffer_is = refl;
  many = omega arith;
  few = omega arith;
  not_full = omega arith;
  addressable = omega arith;
}

free-alloc_example :
    (a : Allocated) × (gralloc_alloc_framebuffer (env none) 4000 screen [] ≡ some a)
    × (taken : IsTaken (env none) buffer screen a) × (give_back (env none) taken.hnd a.target []
        ≡ some (screen, []))
    × (gralloc_free (env none) a.buffer a.target [] ≡ none)
free-alloc_example = free-alloc (env none) buffer screen 4000 [] [] has_room (omega arith)

-- The size of the file, and its descriptor.
abbrev size_map : ℤ
size_map = to_int (pos (to_size (pos 10) * (400 / 4) % 2 ^ 64))

descriptor : (os_create_anonymous_file ((env none).system []) size_map start).0 ≡ pos 5
descriptor =
    os_create_anonymous_file-descriptor ((env none).system []) directory 5 size_map start refl refl
      refl refl refl refl

good : ltb_ℤ ((os_create_anonymous_file ((env none).system []) size_map start).0) (pos 0) ≡ false
good = ap (λ (fd : ℤ). ltb_ℤ fd (pos 0)) descriptor

row : bytes_per_row (pos 100) 4 ≡ some 400
unfolding bytes_per_row to_size ◌*ℤ◌ ◌+ℤ◌
row = refl

known : pixel_format rgba_8888 ≡ some (4, 0)
unfolding pixel_format
known = refl

gralloc_alloc-Failure_example :
    (a : Allocated) × (gralloc_alloc (env none) (pos 100) (pos 10) rgba_8888 false true screen []
      ≡ some a)
    × (a.status ≡ pos 0)
    × (a.buffer ≡ none)
gralloc_alloc-Failure_example =
    gralloc_alloc-Failure (env none) (pos 100) (pos 10) rgba_8888 4 0 400 screen [] known row
      (no_mapping good refl)

served :
    IsServed
      (env (some 65536))
      (pos 100)
      (pos 10)
      (400 * to_size (pos 10) % 2 ^ 64)
      (400 / 4)
      0
      ((os_create_anonymous_file ((env none).system []) size_map start).0)
      size_map
      screen
      (file_created size_map ((os_create_anonymous_file ((env none).system []) size_map start).0)
        ∷ [])
served = record {
  first = 65536;
  client = 700;
  pool = 500;
  wl_buffer = 600;
  second = 65536;
  maps = refl;
  client_is = refl;
  pool_is = refl;
  buffer_is = refl;
  not_null = omega arith;
  maps_again = refl;
}

gralloc_alloc-short_example :
    (a : Allocated) × (hnd : Handle) × (gralloc_alloc
        (env (some 65536))
        (pos 100)
        (pos 10)
        rgba_8888
        false
        true
        screen
        []
      ≡ some a)
    × (a.status ≡ pos 0)
    × (a.buffer ≡ some hnd)
    × (validate (env (some 65536)) (some hnd) ≡ pos 0)
    × (a.stride ≡ some (pos (400 / 4)))
    × (100 ≤ 400 / 4)
    × (hnd.size ≡ pos (400 * 10))
    × (size_map ≡ pos (10 * (400 / 4)))
    × (10 * (400 / 4) < 400 * 10)
gralloc_alloc-short_example =
    gralloc_alloc-short (env (some 65536)) 100 10 rgba_8888 4 0 400 screen [] (omega arith)
      (omega arith) (omega arith) known row good served
