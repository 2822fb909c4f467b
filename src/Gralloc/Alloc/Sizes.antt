-- ===== src/Gralloc/Alloc/Sizes.antt =====
-- The sizes of a buffer in a file of its own.
use native.Mathlib.Nat.{mod-eq_of_lt, le-div_iff_mul-le, div-lt_self, mul-le-mul_right, mul_comm}
use xylitol.Common.{ℕ, ◌+◌, ◌*◌, ◌/◌, ◌%◌, ◌^◌, ◌≤◌, ◌<◌, ◌≡◌, arith, some}
use xylitol.Common.Int.{pos, to_int, ◌*ℤ◌, ◌+ℤ◌}
use xylitol.Gralloc.{to_size}
use xylitol.Gralloc.Framebuffer.{
  Format, rgba_8888, rgbx_8888, bgra_8888, rgb_888, rgb_565, raw_sensor, other_format,
}
use xylitol.Gralloc.Alloc.{pixel_format, bytes_per_row}

-- A row of `w` pixels is rounded up to a multiple of four bytes.
pub row_lem :
    (w bpp bpr : ℕ)
    → bytes_per_row (pos w) bpp ≡ some bpr
    → (w * bpp ≤ bpr) × (bpr ≤ w * bpp + 3) × (bpr % 4 ≡ 0)
unfolding bytes_per_row to_size ◌*ℤ◌ ◌+ℤ◌
row_lem w bpp bpr h = ground arith

-- Every format takes at least two bytes for a pixel.
pub bpp_lem :
    (format : Format) (bpp wl_format : ℕ) → pixel_format format ≡ some (bpp, wl_format) → 2 ≤ bpp
unfolding pixel_format
bpp_lem rgba_8888 bpp wl_format h = ground arith
bpp_lem rgbx_8888 bpp wl_format h = ground arith
bpp_lem bgra_8888 bpp wl_format h = ground arith
bpp_lem rgb_888 bpp wl_format h = ground arith
bpp_lem rgb_565 bpp wl_format h = ground arith
bpp_lem raw_sensor bpp wl_format h = ground arith
bpp_lem other_format bpp wl_format h = ground arith

to_int_small : (a : ℕ) → a < 2 ^ 31 → to_int (pos a) ≡ pos a
unfolding to_int
to_int_small a h = ground arith

-- The sizes, where the bytes of the picture are few enough for an `int`.
pub sizes_lem :
    (w h bpp bpr : ℕ)
    → 0 < w
    → 0 < h
    → bpr * h < 2 ^ 31
    → 2 ≤ bpp
    → w * bpp ≤ bpr
    → (to_int (pos (bpr / bpp)) ≡ pos (bpr / bpp))
      × (w ≤ bpr / bpp)
      × (to_int (pos (bpr * to_size (pos h) % 2 ^ 64)) ≡ pos (bpr * h))
      × (to_int (pos (to_size (pos h) * (bpr / bpp) % 2 ^ 64)) ≡ pos (h * (bpr / bpp)))
      × (h * (bpr / bpp) < bpr * h)
unfolding to_size
sizes_lem w h bpp bpr wide high small many fits =
    let stride = bpr / bpp in
    let some_bytes : 0 < bpr = grind arith in
    let held : w ≤ stride = (le-div_iff_mul-le {k = bpp} {x = w} {y = bpr} (omega arith)).1 fits in
    let less : stride < bpr = div-lt_self some_bytes (omega arith) in
    let shorter : h * stride < bpr * h =
      omega (arith, mul-le-mul_right h less, mul_comm h stride) in
    let rows : h < 2 ^ 31 = omega (arith, mul-le-mul_right h some_bytes) in
    let pixels : stride < 2 ^ 31 = omega (arith, mul-le-mul_right bpr high, mul_comm bpr h) in
    (
      to_int_small stride pixels,
      held,
      rw
          (
            mod-eq_of_lt {n = h} {m = 2 ^ 64} (omega arith),
            mod-eq_of_lt {n = bpr * h} {m = 2 ^ 64} (omega arith),
          )
          (to_int_small (bpr * h) small),
      rw
          (
            mod-eq_of_lt {n = h} {m = 2 ^ 64} (omega arith),
            mod-eq_of_lt {n = h * stride} {m = 2 ^ 64} (omega arith),
          )
          (to_int_small (h * stride) (omega arith)),
      shorter,
    )
