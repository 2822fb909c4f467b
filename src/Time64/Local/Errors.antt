-- ===== src/Time64/Local/Errors.antt =====
-- What `localtime64_r` hands on from the calls it makes.
use xylitol.Common.{arith, ℕ, ◌≡◌, ap, ◌∙◌, Option}
use xylitol.Common.Int.{ℤ, pos, ◌+ℤ◌, ◌-ℤ◌, ◌≤ℤ◌, IsInt, int_laws, parts_disjoint, ◌*ℤ◌, ◌≈ℤ◌}
use xylitol.Time64.{ok, overflow, Tm, int_value, int_value_id, is_leap}
use xylitol.Time64.Calendar.{jan1, jan1_eq}
use xylitol.Time64.SafeYear.{safe_year}
use xylitol.Time64.SafeYear.Match.{safe_year-IsSafe}
use xylitol.Time64.Gmtime.{gmtime64_r}
use xylitol.Time64.Local.{mapped_year, localtime64_r}

pub localtime64_r-overflow :
    (localtime : ℤ → Option Tm) (time : ℤ)
    → gmtime64_r time ≡ overflow
    → localtime64_r localtime time ≡ overflow
unfolding localtime64_r
localtime64_r-overflow localtime time e = rw e

mapped_year_runs :
    (y from_zero z : ℤ) (safe : ℕ)
    → int_value (y +ℤ pos 1900) ≡ ok from_zero
    → safe_year from_zero ≡ ok (pos safe)
    → int_value (pos safe -ℤ pos 1900) ≡ ok z
    → mapped_year y ≡ ok z
unfolding mapped_year
mapped_year_runs y from_zero z safe e₁ e₂ e₃ = rw (e₁, e₂, e₃)

-- For a `tm_year` of which `tm_year + 1900` is in the range of `int`, the year that the C library is
-- asked about is one from 1971 to 2037, begins on the same day of the week, and is a leap year just
-- when the year it stands for is one.
pub mapped_year-Mapped :
    (y : ℤ)
    → IsInt (y +ℤ pos 1900)
    → (z : ℤ) × (weeks : ℤ) × (mapped_year y ≡ ok z)
      × (pos 71 ≤ℤ z)
      × (z ≤ℤ pos 137)
      × (is_leap z ≡ is_leap y)
      × (jan1 y ≈ℤ jan1 z +ℤ weeks *ℤ 7)
mapped_year-Mapped y h =
    let i = safe_year-IsSafe (y +ℤ pos 1900) (omega arith) (omega arith) in
    let z : ℤ = pos i.safe -ℤ pos 1900 in
    let here : y +ℤ pos 1900 -ℤ pos 1900 ≡ y = omega int_laws in
    let one_sign = parts_disjoint z in
    (
      z,
      i.same.weeks,
      mapped_year_runs y (y +ℤ pos 1900) z i.safe (int_value_id (y +ℤ pos 1900) h) i.found
          (int_value_id z (omega (int_laws, i.safe_in))),
      omega (int_laws, i.safe_in),
      omega (int_laws, i.safe_in),
      i.same.leap ∙ ap is_leap here,
      omega (int_laws, i.same.start, jan1_eq (y +ℤ pos 1900 -ℤ pos 1900) y (omega int_laws)),
    )
