-- ===== src/Time64/Local/Mktime.antt =====
-- `mktime64` over a C library whose local time is a fixed number of seconds behind or ahead of UTC.
use xylitol.Common.{arith, ◌≡◌, sym, ap, ◌∙◌, inl, inr}
use xylitol.Common.Int.{
  ℤ, pos, ◌+ℤ◌, ◌-ℤ◌, ◌*ℤ◌, ◌≤ℤ◌, ◌≈ℤ◌, IsInt, int_laws, leb_ℤ-cases, parts_disjoint,
}
use xylitol.Time64.{ok, Tm, int_value, int_value_id, is_leap}
use xylitol.Time64.Calendar.{jan1, jan1_eq}
use xylitol.Time64.Civil.{IsCivil}
use xylitol.Time64.SafeYear.{safe_year}
use xylitol.Time64.SafeYear.Match.{safe_year-IsSafe}
use xylitol.Time64.Local.{mktime64, mktime_moved, seconds_between_years}
use xylitol.Time64.Local.Between.{new_year, seconds_between_years-new_year}

-- A date keeps its meaning, but for a shift by whole weeks, in a year with the same calendar.
pub IsCivil-moved :
    (time : ℤ) (tm : Tm) (z weeks : ℤ)
    → IsCivil time tm
    → is_leap z ≡ is_leap tm.year
    → jan1 tm.year ≈ℤ jan1 z +ℤ weeks *ℤ 7
    → IsCivil (time -ℤ weeks *ℤ 604800) (record tm { year = z })
IsCivil-moved time tm z weeks c leap start =
    let d = c.date in
    let w = c.week_day in
    let k = c.clock in
    record {
      day = c.day -ℤ weeks *ℤ 7;
      date = record {
        month_days = d.month_days;
        julian = d.julian;
        days_at = rw leap d.days_at;
        julian_at = rw leap d.julian_at;
        mon_in = d.mon_in;
        mday_in = d.mday_in;
        yday_is = d.yday_is;
        yday_in = rw leap d.yday_in;
        day_is = omega (int_laws, d.day_is);
      };
      week_day = record {
        weeks = w.weeks -ℤ weeks;
        wday_in = w.wday_in;
        wday_is = omega (int_laws, w.wday_is);
      };
      clock = record {
        sec_in = k.sec_in;
        min_in = k.min_in;
        hour_in = k.hour_in;
        time_is = omega (int_laws, k.time_is);
      };
      no_dst = c.no_dst;
    }

-- What `mktime` does where local time is UTC less `offset` seconds all year: it converts the dates
-- of the years 1971 to 2037, and leaves a date whose fields are in their ranges as it is.
pub record HasFixedOffset (mktime : Tm → ℤ × Tm) (offset : ℤ) : Type 0 where
  pub converts :
      (time : ℤ) (tm : Tm)
      → IsCivil time tm
      → pos 71 ≤ℤ tm.year
      → tm.year ≤ℤ pos 137
      → mktime tm ≡ (time -ℤ offset, tm)

mktime_moved_runs :
    (mktime : Tm → ℤ × Tm) (tm : Tm) (year safe z right seconds time : ℤ)
    → safe_year year ≡ ok safe
    → int_value (safe -ℤ pos 1900) ≡ ok z
    → mktime (record tm { year = z }) ≡ (time, record tm { year = z })
    → int_value (z +ℤ pos 1900) ≡ ok right
    → seconds_between_years year right ≡ ok seconds
    → mktime_moved mktime tm year ≡ ok (time +ℤ seconds)
unfolding mktime_moved
mktime_moved_runs mktime tm year safe z right seconds time e₁ e₂ e₃ e₄ e₅ = rw (e₁, e₂, e₃, e₄, e₅)

module _ (mktime : Tm → ℤ × Tm) (offset : ℤ) (fixed : HasFixedOffset mktime offset) where
  moved :
      (time : ℤ) (tm : Tm)
      → IsCivil time tm
      → IsInt tm.year
      → IsInt (tm.year +ℤ pos 1900)
      → mktime_moved mktime tm (tm.year +ℤ pos 1900) ≡ ok (time -ℤ offset)
  moved time tm c hy hz =
      let y : ℤ = tm.year +ℤ pos 1900 in
      let i = safe_year-IsSafe y (omega arith) (omega arith) in
      let m = i.same in
      let z : ℤ = pos i.safe -ℤ pos 1900 in
      let here : y -ℤ pos 1900 ≡ tm.year = omega int_laws in
      let there : z +ℤ pos 1900 -ℤ pos 1900 ≡ z = omega int_laws in
      let here_jan1 = jan1_eq (y -ℤ pos 1900) tm.year (omega int_laws) in
      let there_jan1 = jan1_eq (z +ℤ pos 1900 -ℤ pos 1900) z (omega int_laws) in
      let one_sign = parts_disjoint z in
      let one_sign' = parts_disjoint (z +ℤ pos 1900) in
      let moved_civil =
        IsCivil-moved time tm z m.weeks c (m.leap ∙ ap is_leap here) (omega (int_laws, m.start)) in
      let call =
        fixed.converts (time -ℤ m.weeks *ℤ 604800) (record tm { year = z }) moved_civil
          (omega (int_laws, i.safe_in)) (omega (int_laws, i.safe_in)) in
      let between =
        seconds_between_years-new_year y (z +ℤ pos 1900) hz (rw here hy)
          (omega (int_laws, i.safe_in)) (omega (int_laws, i.safe_in))
          (ap is_leap here ∙ sym (m.leap ∙ ap is_leap here) ∙ ap is_leap (sym there)) in
      mktime_moved_runs mktime tm y (pos i.safe) z (z +ℤ pos 1900)
        ((new_year y -ℤ new_year (z +ℤ pos 1900)) *ℤ 86400) (time -ℤ m.weeks *ℤ 604800 -ℤ offset)
        i.found (int_value_id z (omega (int_laws, i.safe_in))) call
        (int_value_id (z +ℤ pos 1900) (omega (int_laws, i.safe_in))) between
      ∙ ap ok (omega (int_laws, m.start))

  -- Where the C library converts the civil times of the years 1971 to 2037 with a fixed offset,
  -- `mktime64` converts those of every year with it, as long as `tm_year` and `tm_year + 1900` are in
  -- the range of `int`.
  pub mktime64-IsCivil :
      (time : ℤ) (tm : Tm)
      → IsCivil time tm
      → IsInt tm.year
      → IsInt (tm.year +ℤ pos 1900)
      → mktime64 mktime tm ≡ ok (time -ℤ offset)
  unfolding mktime64
  mktime64-IsCivil time tm c hy hz =
      let y : ℤ = tm.year +ℤ pos 1900 in
      let far = moved time tm c hy hz in
      rw (int_value_id y hz) (elim (leb_ℤ-cases (pos 1971) y) [
        | inr (lt, t) ↦ rw t far
        | inl (le, t) ↦ rw t (elim (leb_ℤ-cases y (pos 2037)) [
          | inr (gt, u) ↦ rw u far
          | inl (le', u) ↦ rw u (
              ap (λ (p : ℤ × Tm). ok p.0)
                (fixed.converts time tm c (omega int_laws) (omega int_laws)))
        ])
      ])
