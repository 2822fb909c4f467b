-- ===== src/Time64/Gmtime/Correct.antt =====
-- `gmtime64_r` against the calendar.
use xylitol.Common.{ℕ, ◌≡◌, refl, inl, inr, arith}
use xylitol.Common.Int.{
  ℤ, pos, ◌+ℤ◌, ◌*ℤ◌, ◌≤ℤ◌, ◌<ℤ◌, to_int, IsInt, IsInt64, int_laws, to_int_id, eqb_ℤ-cases,
  eqb_ℤ_refl, to_int_range, parts_disjoint, IsInt-cases,
}
use xylitol.Time64.{Result, ok, overflow, undefined, ◌>>=◌, Tm, int_value_id, is_leap}
use xylitol.Time64.Calendar.{length_of_year_range}
use xylitol.Time64.Civil.{IsYearOf, year_exists, IsDate, IsTimeOfDay, IsCivil}
use xylitol.Time64.Gmtime.{check_tm, split_time, week_day, locate, fill, gmtime64_r}
use xylitol.Time64.Gmtime.Clock.{day_range, split_time-IsTimeOfDay, week_day-IsWeekDay}
use xylitol.Time64.Gmtime.Place.{Located, locate-Located}
use xylitol.Time64.Gmtime.Check.{check_tm-ok, check_tm-undefined}

-- The date that `fill` writes for a place that `locate` found.
filled : ℤ → ℤ × ℤ × ℤ × ℤ → ℤ → ℕ → ℕ → ℕ → Tm
filled wday (sec, min, hour, tday) y mon m julian = record {
  sec = sec;
  min = min;
  hour = hour;
  mday = pos m +ℤ pos 1;
  mon = pos mon;
  year = y;
  wday = wday;
  yday = pos julian +ℤ pos m;
  isdst = pos 0;
}

module _ {day y : ℤ} {r : Result (ℤ × ℤ × ℤ)} (l : Located day y r) (wday : ℤ) where
  fill-filled :
      (clock : ℤ × ℤ × ℤ × ℤ)
      → IsInt y
      → fill wday clock (y, pos l.mon, pos l.m) ≡ ok (filled wday clock y l.mon l.m l.julian)
  unfolding fill filled
  fill-filled (sec, min, hour, tday) fits =
      let short = length_of_year_range (is_leap y) in
      rw (
        to_int_id y fits,
        eqb_ℤ_refl y,
        to_int_id (pos l.m) (omega (arith, l.in_year)),
        int_value_id (pos l.m +ℤ pos 1)
            (omega (int_laws, l.in_year, parts_disjoint (pos l.m +ℤ pos 1))),
        l.julian_at,
        int_value_id (pos l.julian +ℤ pos l.m)
            (omega (int_laws, l.in_year, parts_disjoint (pos l.julian +ℤ pos l.m))),
      )

  filled-IsDate : (clock : ℤ × ℤ × ℤ × ℤ) → IsDate day (filled wday clock y l.mon l.m l.julian)
  unfolding filled
  filled-IsDate (sec, min, hour, tday) = record {
    month_days = l.days;
    julian = l.julian;
    days_at = rw l.days_at;
    julian_at = rw l.julian_at;
    mon_in = omega (arith, l.mon_in);
    mday_in = omega (int_laws, l.m_in);
    yday_is = omega int_laws;
    yday_in = omega (int_laws, l.in_year);
    day_is = omega (int_laws, l.sum);
  }

fill-overflow :
    (wday y mon m : ℤ) (clock : ℤ × ℤ × ℤ × ℤ) → ¬ IsInt y → fill wday clock (y, mon, m) ≡ overflow
unfolding fill
fill-overflow wday y mon m (sec, min, hour, tday) wide = elim (eqb_ℤ-cases (to_int y) y) [
  | inl (e, t) ↦ absurd (wide (rw e at (to_int_range y)))
  | inr (e, t) ↦ rw t
]

-- What `gmtime64_r` does with a time, according to the year of its day: it returns the civil
-- time; or NULL with EOVERFLOW, for a year that is not in the range of `int`; or, for the last
-- 1900 years of that range, it computes `tm_year + 1900` out of range in its own assertion.
pub data GmtimeAnswer (time : ℤ) : Result Tm → Type 0 where
  civil :
      (tm : Tm) {r : Result Tm}
      → r ≡ ok tm
      → IsInt tm.year
      → IsInt (tm.year +ℤ pos 1900)
      → IsCivil time tm
      → GmtimeAnswer time r
  too_wide :
      (day year : ℤ) {r : Result Tm}
      → r ≡ overflow
      → day *ℤ 86400 ≤ℤ time
      → time <ℤ (day +ℤ pos 1) *ℤ 86400
      → IsYearOf day year
      → ¬ IsInt year
      → GmtimeAnswer time r
  unchecked :
      (day year : ℤ) {r : Result Tm}
      → r ≡ undefined
      → day *ℤ 86400 ≤ℤ time
      → time <ℤ (day +ℤ pos 1) *ℤ 86400
      → IsYearOf day year
      → IsInt year
      → ¬ IsInt (year +ℤ pos 1900)
      → GmtimeAnswer time r

gmtime64_r_runs :
    (time : ℤ) (place : ℤ × ℤ × ℤ) (p : Tm) (r : Result (Unit {0}))
    → locate (split_time time).3 ≡ ok place
    → fill (week_day (split_time time).3) (split_time time) place ≡ ok p
    → check_tm p ≡ r
    → gmtime64_r time ≡ (r >>= λ _. ok p)
unfolding gmtime64_r
gmtime64_r_runs time place p r e₁ e₂ e₃ = rw (e₁, e₂, e₃)

gmtime64_r_overflows :
    (time : ℤ) (place : ℤ × ℤ × ℤ)
    → locate (split_time time).3 ≡ ok place
    → fill (week_day (split_time time).3) (split_time time) place ≡ overflow
    → gmtime64_r time ≡ overflow
unfolding gmtime64_r
gmtime64_r_overflows time place e₁ e₂ = rw (e₁, e₂)

-- A time of day lies within its day.
pub within_day :
    (time day hour min sec : ℤ)
    → IsTimeOfDay time day hour min sec
    → (day *ℤ 86400 ≤ℤ time) × (time <ℤ (day +ℤ pos 1) *ℤ 86400)
within_day time day hour min sec c =
    let sum = c.time_is in
    (
      omega (int_laws, c.sec_in, c.min_in, c.hour_in),
      omega (int_laws, c.sec_in, c.min_in, c.hour_in),
    )

filled-IsCivil :
    (time day y : ℤ) {r : Result (ℤ × ℤ × ℤ)} (l : Located day y r) (hour min sec : ℤ)
    → IsTimeOfDay time day hour min sec
    → IsCivil time (filled (week_day day) (sec, min, hour, day) y l.mon l.m l.julian)
unfolding filled
filled-IsCivil time day y l hour min sec c = record {
  day = day;
  date = filled-IsDate l (week_day day) (sec, min, hour, day);
  week_day = week_day-IsWeekDay day;
  clock = c;
  no_dst = refl;
}

-- `gmtime64_r` of a 64-bit time returns the civil time, where its `tm_year` and `tm_year + 1900` are
-- in the range of `int`; it returns NULL and sets EOVERFLOW, where the `tm_year` of the day of the
-- time is not; and its own assertion computes `tm_year + 1900` out of the range, where that alone
-- is not.
pub gmtime64_r-GmtimeAnswer : (time : ℤ) → IsInt64 time → GmtimeAnswer time (gmtime64_r time)
unfolding filled
gmtime64_r-GmtimeAnswer time h =
    let clock : ℤ × ℤ × ℤ × ℤ = split_time time in
    let tod = split_time-IsTimeOfDay time in
    let day : ℤ = clock.3 in
    let (y, in_year) = year_exists day in
    let (low, high) = day_range time day clock.2 clock.1 clock.0 h tod in
    let bounds = within_day time day clock.2 clock.1 clock.0 tod in
    let l = locate-Located day y low high in_year in
    let tm : Tm = filled (week_day day) clock y l.mon l.m l.julian in
    let is_civil : IsCivil time tm = filled-IsCivil time day y l clock.2 clock.1 clock.0 tod in
    elim (IsInt-cases y) [
      | inr wide ↦
          too_wide day y
            (gmtime64_r_overflows time (y, pos l.mon, pos l.m) l.found
              (fill-overflow (week_day day) y (pos l.mon) (pos l.m) clock wide))
            bounds.0 bounds.1 in_year wide
      | inl fits ↦
          let filling = fill-filled l (week_day day) clock fits in
          elim (IsInt-cases (y +ℤ pos 1900)) [
            | inl in_int ↦
                civil tm
                  (gmtime64_r_runs time (y, pos l.mon, pos l.m) tm (ok tt) l.found filling
                    (check_tm-ok is_civil in_int))
                  fits in_int is_civil
            | inr out ↦
                unchecked day y
                  (gmtime64_r_runs time (y, pos l.mon, pos l.m) tm undefined l.found filling
                    (check_tm-undefined is_civil out))
                  bounds.0 bounds.1 in_year fits out
          ]
    ]
