-- ===== src/Time64/Timegm.antt =====
-- `timegm64` of legacy/old-shashlik/src/deps/stripped_bionic/time64.c.
pub mod Correct
use xylitol.Common.{ℕ, zero, suc, ◌&&◌, List, if◌then◌else◌}
use xylitol.Common.Int.{ℤ, pos, negsuc, ◌+ℤ◌, ◌-ℤ◌, ◌*ℤ◌, tdiv, to_int, ltb_ℤ, leb_ℤ}
use xylitol.Time64.{
  Result, ok, undefined, ◌>>=◌, Tm, int_value, read, julian_days_by_month, length_of_year,
  years_in_gregorian_cycle, days_in_gregorian_cycle, is_leap,
}

-- The removal of whole Gregorian cycles: the days so far, and the year that is left.
remove_cycles : ℤ → Result (ℤ × ℤ)
remove_cycles orig_year = do
  let cycles = to_int (tdiv (orig_year -ℤ pos 100) 400)
  years ← int_value (cycles *ℤ 400)
  ok (cycles *ℤ days_in_gregorian_cycle, orig_year -ℤ years)

skip_cycles : ℤ → Result (ℤ × ℤ)
skip_cycles orig_year =
    if ltb_ℤ (pos 100) orig_year
    then remove_cycles orig_year
    else if ltb_ℤ orig_year (negsuc 299)
    then remove_cycles orig_year
    else ok (pos 0, orig_year)

-- while( year < orig_year ) { days += length_of_year[IS_LEAP(year)]; year++; }
add_years : ℕ → ℤ → ℤ → ℤ → Result ℤ
add_years zero year orig_year days = undefined
add_years (suc fuel) year orig_year days =
    let rest =
      add_years fuel (year +ℤ pos 1) orig_year (days +ℤ pos (length_of_year (is_leap year))) in
    if ltb_ℤ year orig_year then rest else ok days

-- do { days -= length_of_year[IS_LEAP(year)]; year--; } while( year >= orig_year );
subtract_years : ℕ → ℤ → ℤ → ℤ → Result ℤ
subtract_years zero year orig_year days = undefined
subtract_years (suc fuel) year orig_year days =
    let days' = days -ℤ pos (length_of_year (is_leap year)) in
    let rest = subtract_years fuel (year -ℤ pos 1) orig_year days' in
    if leb_ℤ orig_year (year -ℤ pos 1) then rest else ok days'

-- The days from 1970-01-01 to the first day of the year.
count_years : ℤ → ℤ → Result ℤ
count_years days orig_year =
    if ltb_ℤ (pos 70) orig_year
    then add_years 500 (pos 70) orig_year days
    else if ltb_ℤ orig_year (pos 70)
    then subtract_years 500 (pos 69) orig_year days
    else ok days

-- Only what is computed as an `int` can overflow: `days` and `seconds` are 64 bits wide.
pub timegm64 : Tm → Result ℤ
timegm64 date = do
  (days, orig_year) ← skip_cycles date.year
  days' ← count_years days orig_year
  month_days ← read (julian_days_by_month (is_leap orig_year)) date.mon
  month_day ← int_value (date.mday -ℤ pos 1)
  hours ← int_value (date.hour *ℤ 60 *ℤ 60)
  minutes ← int_value (date.min *ℤ 60)
  ok ((days' +ℤ pos month_days +ℤ month_day) *ℤ 60 *ℤ 60 *ℤ 24 +ℤ hours +ℤ minutes +ℤ date.sec)
