-- ===== src/Gralloc/Framebuffer/Tests.antt =====
-- A screen of two buffers, whose memory is mapped at 65536, or not.
use xylitol.Common.{ℕ, ◌≡◌, refl, arith, false, Option, none, some, []}
use xylitol.Common.Int.{pos}
use xylitol.Gralloc.{negated, Handle, validate}
use xylitol.Gralloc.Framebuffer.{Module, Mapping, map_frame_buffer_locked, fb_post}
use xylitol.Gralloc.Framebuffer.Screen.{IsScreen}
use xylitol.Gralloc.Framebuffer.Retry.{map_frame_buffer_locked-retry}
use xylitol.Gralloc.Tests.{screen_fix, screen_info, env, buffer, buffer_valid}

abbrev no_screen : Module
no_screen = record {
  framebuffer = none;
  page_flip = false;
  num_buffers = 0;
  buffer_mask = 0;
  current_buffer = none;
  wayland_client = none;
  info = screen_info;
  finfo = screen_fix;
}

abbrev answering : (address : Option ℕ) → IsScreen (env address) no_screen []
answering address = record {
  fd = 3;
  fix_before = screen_fix;
  info_before = screen_info;
  info = screen_info;
  finfo = screen_fix;
  not_mapped = refl;
  opens = refl;
  fix_is = refl;
  var_is = refl;
  info_is = refl;
  finfo_is = refl;
  some_memory = omega arith;
  some_lines = omega arith;
}

map_frame_buffer_locked-retry_example :
    (first : Mapping) × (map_frame_buffer_locked (env none) no_screen [] ≡ some first)
    × (first.status ≡ negated 12)
    × ((fb : Handle) × ((first.target).framebuffer ≡ some fb)
        × (fb.base ≡ 0)
        × (validate (env none) (some fb) ≡ pos 0))
    × (map_frame_buffer_locked (env none) first.target []
        ≡ some (record { status = pos 0; target = first.target; log = [] }))
    × (fb_post (env none) (some buffer) first.target [] ≡ none)
map_frame_buffer_locked-retry_example =
    map_frame_buffer_locked-retry (env none) no_screen [] [] (answering none) buffer refl
      (buffer_valid none) refl
