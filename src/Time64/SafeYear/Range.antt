-- ===== src/Time64/SafeYear/Range.antt =====
-- In the years from -2^62 to 2^62 nothing in `safe_year` leaves the range of `int64_t`.
use xylitol.Common.{
  ℕ, ◌+◌, ◌-◌, ◌^◌, ◌≤◌, ◌≡◌, refl, arith, Bool, true, false, if◌then◌else◌, inl, inr,
}
use xylitol.Common.Int.{
  ℤ, pos, pos_part, neg_part, ◌+ℤ◌, ◌-ℤ◌, tdiv, ltb_ℤ, int_laws, parts_disjoint, ltb_ℤ-cases,
}
use xylitol.Time64.{ok, int64_value, int64_value_id}
use xylitol.Time64.SafeYear.{is_exception_century, cycle_offset, year_cycle, safe_year}
use xylitol.Time64.SafeYear.Cycle.{plain_offset, plain_cycle, plain_year}

-- Within a bound on either side.
Within : ℤ → (bound : ℕ) → Type 0
Within z bound = (neg_part z ≤ bound) × (pos_part z ≤ bound)

plain_offset-Within : (y : ℤ) → Within y (2 ^ 62) → Within (plain_offset y) (2 ^ 60)
unfolding plain_offset Within
plain_offset-Within y h = elim (ltb_ℤ-cases (pos 2000) y) [
  | inl (gt, t) ↦ rw t (
      omega (
        int_laws,
        parts_disjoint y,
        parts_disjoint (y -ℤ pos 2000 -ℤ pos 1),
        parts_disjoint (tdiv (y -ℤ pos 2000 -ℤ pos 1) 100 -ℤ tdiv (y -ℤ pos 2000 -ℤ pos 1) 400),
      ))
  | inr (le, t) ↦ rw t (
      omega (
        int_laws,
        parts_disjoint y,
        parts_disjoint (y -ℤ pos 2000),
        parts_disjoint (tdiv (y -ℤ pos 2000) 100 -ℤ tdiv (y -ℤ pos 2000) 400),
      ))
]

cycle_offset_lem : (y : ℤ) → Within y (2 ^ 62) → cycle_offset y ≡ ok (plain_offset y)
unfolding cycle_offset plain_offset Within
cycle_offset_lem y h =
    let one_sign = parts_disjoint (y -ℤ pos 2000) in
    rw (int64_value_id (y -ℤ pos 2000) (omega (int_laws, parts_disjoint y))) refl

before_lem : (y : ℤ) → Within y (2 ^ 62) → int64_value (y -ℤ pos 1) ≡ ok (y -ℤ pos 1)
unfolding Within
before_lem y h =
    int64_value_id (y -ℤ pos 1) (omega (int_laws, parts_disjoint y, parts_disjoint (y -ℤ pos 1)))

if-Within :
    (b : Bool) (c d : ℤ) (bound : ℕ)
    → Within c bound
    → Within d bound
    → Within (if b then c else d) bound
if-Within true c d bound h k = h
if-Within false c d bound h k = k

int64_lem : (z : ℤ) → Within z (2 ^ 63 - 1) → int64_value z ≡ ok z
unfolding Within
int64_lem z h = int64_value_id z (omega arith)

shifted : (c : ℤ) (bound : ℕ) → Within c bound → Within (c -ℤ pos 8) (bound + 8)
unfolding Within
shifted c bound h = omega (int_laws, parts_disjoint (c -ℤ pos 8))

added : (c : ℤ) (k bound : ℕ) → Within c bound → Within (c +ℤ pos k) (bound + k)
unfolding Within
added c k bound h = omega (int_laws, parts_disjoint (c +ℤ pos k))

wider : (c : ℤ) (k bound : ℕ) → Within c bound → Within c (bound + k)
unfolding Within
wider c k bound h = omega arith

narrow : (c : ℤ) (bound : ℕ) → bound ≤ 2 ^ 63 - 1 → Within c bound → Within c (2 ^ 63 - 1)
unfolding Within
narrow c bound h k = omega arith

sum-Within : (c d : ℤ) (a b : ℕ) → Within c a → Within d b → Within (c +ℤ d) (a + b)
unfolding Within
sum-Within c d a b h k = omega (int_laws, parts_disjoint (c +ℤ d))

year_cycle_lem : (y : ℤ) → Within y (2 ^ 62) → year_cycle y ≡ ok (plain_cycle y)
unfolding year_cycle plain_cycle
year_cycle_lem y h =
    let bound : ℕ = 2 ^ 62 + 2 ^ 60 in
    let c = y +ℤ plain_offset y in
    let c' = if ltb_ℤ y (pos 1971) then c -ℤ pos 8 else c in
    let c'' = if is_exception_century y then c' +ℤ pos 11 else c' in
    let last = if is_exception_century (y -ℤ pos 1) then c'' +ℤ pos 17 else c'' in
    let w = sum-Within y (plain_offset y) (2 ^ 62) (2 ^ 60) h (plain_offset-Within y h) in
    let w' : Within c' (bound + 8) =
      if-Within (ltb_ℤ y (pos 1971)) (c -ℤ pos 8) c (bound + 8) (shifted c bound w)
        (wider c 8 bound w) in
    let w'' : Within c'' (bound + 8 + 11) =
      if-Within (is_exception_century y) (c' +ℤ pos 11) c' (bound + 8 + 11)
        (added c' 11 (bound + 8) w') (wider c' 11 (bound + 8) w') in
    let w3 : Within last (bound + 8 + 11 + 17) =
      if-Within (is_exception_century (y -ℤ pos 1)) (c'' +ℤ pos 17) c'' (bound + 8 + 11 + 17)
        (added c'' 17 (bound + 8 + 11) w'') (wider c'' 17 (bound + 8 + 11) w'') in
    rw
      (
        cycle_offset_lem y h,
        int64_lem c (narrow c bound (omega arith) w),
        int64_lem c' (narrow c' (bound + 8) (omega arith) w'),
        int64_lem c'' (narrow c'' (bound + 8 + 11) (omega arith) w''),
        before_lem y h,
        int64_lem last (narrow last (bound + 8 + 11 + 17) (omega arith) w3),
      )
      refl

pub safe_year_lem : (y : ℤ) → neg_part y ≤ 2 ^ 62 → pos_part y ≤ 2 ^ 62 → safe_year y ≡ plain_year y
unfolding safe_year plain_year Within
safe_year_lem y lo hi = rw (year_cycle_lem y (lo, hi)) refl
