-- ===== src/Time64/Gmtime/Check.antt =====
-- `check_tm` accepts every civil time whose year it can compute with.
use xylitol.Common.{◌≡◌, arith}
use xylitol.Common.Int.{ℤ, pos, ◌+ℤ◌, IsInt, leb_ℤ-true, int_laws}
use xylitol.Time64.{ok, undefined, Tm, int_value_id, int_value_out, length_of_year, is_leap}
use xylitol.Time64.Civil.{IsCivil}
use xylitol.Time64.Gmtime.{check_tm}

module _ {time : ℤ} {tm : Tm} (c : IsCivil time tm) where
  -- The assertions before the first `IS_LEAP` hold, so the next step is that sum.
  pub check_tm-undefined : ¬ IsInt (tm.year +ℤ pos 1900) → check_tm tm ≡ undefined
  unfolding check_tm
  check_tm-undefined wide = rw (
    leb_ℤ-true (pos 0) tm.sec c.clock.sec_in.0,
    leb_ℤ-true tm.sec (pos 61) (omega (arith, c.clock.sec_in.1)),
    leb_ℤ-true (pos 0) tm.min c.clock.min_in.0,
    leb_ℤ-true tm.min (pos 59) c.clock.min_in.1,
    leb_ℤ-true (pos 0) tm.hour c.clock.hour_in.0,
    leb_ℤ-true tm.hour (pos 23) c.clock.hour_in.1,
    leb_ℤ-true (pos 1) tm.mday c.date.mday_in.0,
    int_value_out (tm.year +ℤ pos 1900) wide,
  )

  pub check_tm-ok : IsInt (tm.year +ℤ pos 1900) → check_tm tm ≡ ok tt
  unfolding check_tm
  check_tm-ok fits = rw (
    leb_ℤ-true (pos 0) tm.sec c.clock.sec_in.0,
    leb_ℤ-true tm.sec (pos 61) (omega (arith, c.clock.sec_in.1)),
    leb_ℤ-true (pos 0) tm.min c.clock.min_in.0,
    leb_ℤ-true tm.min (pos 59) c.clock.min_in.1,
    leb_ℤ-true (pos 0) tm.hour c.clock.hour_in.0,
    leb_ℤ-true tm.hour (pos 23) c.clock.hour_in.1,
    leb_ℤ-true (pos 1) tm.mday c.date.mday_in.0,
    int_value_id (tm.year +ℤ pos 1900) fits,
    c.date.days_at,
    leb_ℤ-true tm.mday (pos c.date.month_days) c.date.mday_in.1,
    leb_ℤ-true (pos 0) tm.mon c.date.mon_in.0,
    leb_ℤ-true tm.mon (pos 11) c.date.mon_in.1,
    leb_ℤ-true (pos 0) tm.wday c.week_day.wday_in.0,
    leb_ℤ-true tm.wday (pos 6) c.week_day.wday_in.1,
    leb_ℤ-true (pos 0) tm.yday (omega (int_laws, c.date.yday_is, c.date.mday_in.0)),
    leb_ℤ-true tm.yday (pos (length_of_year (is_leap tm.year))) (omega (arith, c.date.yday_in)),
  )
