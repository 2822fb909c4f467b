-- ===== src/Gralloc/Pages.antt =====
-- The rounding of a size to whole pages.
use xylitol.Common.{ℕ, ◌+◌, ◌-◌, ◌%◌, ◌^◌, ◌≤◌, ◌<◌, ◌≡◌, ◌⊎◌, inl, inr, arith}
use xylitol.Gralloc.{page_size, round_up_to_page_size}

≤_cases : (a b : ℕ) → (a ≤ b) ⊎ (b < a)
≤_cases a b = omega arith

pub round_up_least :
    (x : ℕ)
    → x ≤ 2 ^ 64 - 4096
    → (round_up_to_page_size x % page_size ≡ 0)
      × (x ≤ round_up_to_page_size x)
      × (round_up_to_page_size x < x + page_size)
unfolding round_up_to_page_size
round_up_least x small = omega arith

round_up_wraps : (x : ℕ) → 2 ^ 64 - 4096 < x → x < 2 ^ 64 → round_up_to_page_size x ≡ 0
unfolding round_up_to_page_size
round_up_wraps x large h = omega arith

-- `round_up_to_page_size` of a size up to 2^64 - 4096 is the least multiple of the page size that is
-- not smaller; of a larger 64-bit size it is 0.
round_up_to_page_size_lem :
    (x : ℕ)
    → x < 2 ^ 64
    → let r = round_up_to_page_size x in
      ((x ≤ 2 ^ 64 - 4096) × (r % page_size ≡ 0) × (x ≤ r) × (r < x + page_size))
      ⊎ ((2 ^ 64 - 4096 < x) × (r ≡ 0))
round_up_to_page_size_lem x h = elim (≤_cases x (2 ^ 64 - 4096)) [
  | inl small ↦ let least = round_up_least x small in inl (small, least.0, least.1, least.2)
  | inr large ↦ inr (large, round_up_wraps x large h)
]
