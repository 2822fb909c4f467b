-- ===== src/Time64/Timegm/Correct.antt =====
-- `timegm64` against the calendar.
use xylitol.Common.{ℕ, zero, suc, ◌≡◌, refl, ap, inl, inr, ◌⊎◌, arith}
use xylitol.Common.Int.{
  ℤ, pos, negsuc, pos_part, neg_part, ◌+ℤ◌, ◌-ℤ◌, ◌*ℤ◌, tdiv, ◌≤ℤ◌, ◌<ℤ◌, ◌≈ℤ◌, IsInt, int_laws,
  to_int_id, parts_disjoint, ltb_ℤ-cases, leb_ℤ-cases,
}
use xylitol.Time64.{ok, Tm, int_value_id, read, julian_days_by_month, length_of_year, is_leap}
use xylitol.Time64.Calendar.{jan1, jan1_epoch, jan1-suc, jan1-cycles_ℤ}
use xylitol.Time64.Civil.{seconds_at}
use xylitol.Time64.Timegm.{
  remove_cycles, skip_cycles, add_years, subtract_years, count_years, timegm64,
}

add_years_lem :
    (fuel : ℕ) (year orig_year days r : ℤ)
    → year ≤ℤ orig_year
    → orig_year <ℤ year +ℤ pos fuel
    → r +ℤ jan1 year ≈ℤ days +ℤ jan1 orig_year
    → add_years fuel year orig_year days ≡ ok r
unfolding add_years
add_years_lem zero year orig_year days r le lt e = absurd (omega int_laws)
add_years_lem (suc fuel) year orig_year days r le lt e = elim (ltb_ℤ-cases year orig_year) [
  | inl (below, t) ↦ rw t (
      add_years_lem fuel (year +ℤ pos 1) orig_year (days +ℤ pos (length_of_year (is_leap year))) r
        (omega int_laws) (omega int_laws) (omega (int_laws, jan1-suc year)))
  | inr (above, t) ↦
      let same : year ≡ orig_year = omega int_laws in
      rw t (
        ap ok
          (omega (int_laws, ap (λ y. pos_part (jan1 y)) same, ap (λ y. neg_part (jan1 y)) same)))
]

subtract_years_lem :
    (fuel : ℕ) (year orig_year days r : ℤ)
    → orig_year ≤ℤ year
    → year <ℤ orig_year +ℤ pos fuel
    → r +ℤ jan1 (year +ℤ pos 1) ≈ℤ days +ℤ jan1 orig_year
    → subtract_years fuel year orig_year days ≡ ok r
unfolding subtract_years
subtract_years_lem zero year orig_year days r le lt e = absurd (omega int_laws)
subtract_years_lem (suc fuel) year orig_year days r le lt e =
    elim (leb_ℤ-cases orig_year (year -ℤ pos 1)) [
      | inl (below, t) ↦ rw t (
          subtract_years_lem fuel (year -ℤ pos 1) orig_year
            (days -ℤ pos (length_of_year (is_leap year))) r (omega int_laws) (omega int_laws)
            (omega (
              int_laws,
              jan1-suc year,
              ap (λ y. pos_part (jan1 y)) back,
              ap (λ y. neg_part (jan1 y)) back,
            )))
      | inr (above, t) ↦
          let same : year ≡ orig_year = omega int_laws in
          rw t (
            ap ok (
              omega (
                int_laws,
                jan1-suc year,
                ap (λ y. pos_part (jan1 y)) same,
                ap (λ y. neg_part (jan1 y)) same,
              )))
    ]
  where
    back : year -ℤ pos 1 +ℤ pos 1 ≡ year
    back = omega int_laws

count_years_lem :
    (days orig_year r : ℤ)
    → negsuc 299 ≤ℤ orig_year
    → orig_year <ℤ pos 500
    → r ≈ℤ days +ℤ jan1 orig_year
    → count_years days orig_year ≡ ok r
unfolding count_years
count_years_lem days orig_year r lo hi e = elim (ltb_ℤ-cases (pos 70) orig_year) [
  | inl (above, t) ↦ rw t (
      add_years_lem 500 (pos 70) orig_year days r (omega arith) (omega int_laws)
        (rw jan1_epoch (omega int_laws)))
  | inr (le, t) ↦ rw t (elim (ltb_ℤ-cases orig_year (pos 70)) [
    | inl (below, u) ↦ rw u (
        subtract_years_lem 500 (pos 69) orig_year days r (omega arith) (omega int_laws)
          (rw next (rw jan1_epoch (omega int_laws))))
    | inr (ge, u) ↦
        let same : orig_year ≡ pos 70 = omega int_laws in
        rw u (
          ap ok (
            omega (
              int_laws,
              ap pos_part jan1_epoch,
              ap neg_part jan1_epoch,
              ap (λ y. pos_part (jan1 y)) same,
              ap (λ y. neg_part (jan1 y)) same,
            )))
  ])
]
  where
    next : pos 69 +ℤ pos 1 ≡ pos 70
    next = omega int_laws

-- The year that `skip_cycles` leaves begins whole cycles away from the one given.
record Skipped (y days z : ℤ) : Type 0 where
  low : negsuc 299 ≤ℤ z
  high : z <ℤ pos 500
  days_to : jan1 y ≈ℤ days +ℤ jan1 z
  leap_same : is_leap z ≡ is_leap y

remove_cycles-Skipped :
    (y : ℤ)
    → IsInt y
    → (y <ℤ negsuc 299) ⊎ (pos 100 <ℤ y)
    → (days z : ℤ) × (remove_cycles y ≡ ok (days, z)) × Skipped y days z
unfolding remove_cycles
remove_cycles-Skipped y h far =
    let c : ℤ = tdiv (y -ℤ pos 100) 400 in
    let disjoint = parts_disjoint (y -ℤ pos 100) in
    let fits : IsInt c = omega int_laws in
    let product : IsInt (c *ℤ 400) = omega int_laws in
    let cycles = jan1-cycles_ℤ y (y -ℤ c *ℤ 400) c (omega int_laws) in
    (
      c *ℤ 146097,
      y -ℤ c *ℤ 400,
      rw (to_int_id c fits, int_value_id (c *ℤ 400) product),
      record {
        low = omega int_laws;
        high = omega int_laws;
        days_to = omega (int_laws, cycles.0);
        leap_same = cycles.1;
      },
    )

skip_cycles-Skipped :
    (y : ℤ) → IsInt y → (days z : ℤ) × (skip_cycles y ≡ ok (days, z)) × Skipped y days z
unfolding skip_cycles
skip_cycles-Skipped y h = elim (ltb_ℤ-cases (pos 100) y) [
  | inl (above, t) ↦ rw t (remove_cycles-Skipped y h (inr above))
  | inr (le, t) ↦ rw t (elim (ltb_ℤ-cases y (negsuc 299)) [
    | inl (below, u) ↦ rw u (remove_cycles-Skipped y h (inl below))
    | inr (ge, u) ↦ rw u (
      pos 0,
      y,
      refl,
      record { low = ge; high = omega arith; days_to = omega int_laws; leap_same = refl },
    )
  ])
]

-- `timegm64` of a date with a year in the range of `int` and a month from 0 to 11, where `mday - 1`,
-- `hour * 3600` and `min * 60` are in the range of `int` too but need not be in their usual ranges:
-- the call returns the seconds since 1970-01-01T00:00:00 by the proleptic Gregorian calendar.
pub timegm64-seconds_at :
    (date : Tm) (month_days : ℕ)
    → IsInt date.year
    → read (julian_days_by_month (is_leap date.year)) date.mon ≡ ok month_days
    → IsInt (date.mday -ℤ pos 1)
    → IsInt (date.hour *ℤ 3600)
    → IsInt (date.min *ℤ 60)
    → timegm64 date
      ≡ ok (
          seconds_at
            (jan1 date.year +ℤ pos month_days +ℤ (date.mday -ℤ pos 1))
            date.hour
            date.min
            date.sec)
unfolding timegm64
timegm64-seconds_at date month_days hy hm hd hh hn =
    let (days, z, e, s) = skip_cycles-Skipped date.year hy in
    let count = count_years_lem days z (jan1 date.year) s.low s.high s.days_to in
    rw
      (
        e,
        count,
        s.leap_same,
        hm,
        int_value_id (date.mday -ℤ pos 1) hd,
        int_value_id (date.hour *ℤ 60 *ℤ 60) (omega int_laws),
        int_value_id (date.min *ℤ 60) hn,
      )
      (ap ok (omega int_laws))
