-- ===== src/Time64/Local.antt =====
-- The functions of legacy/old-shashlik/src/deps/stripped_bionic/time64.c that go through the C
-- library's local time: `seconds_between_years`, `mktime64`, `timelocal64`, `fake_localtime_r` and
-- `localtime64_r`. `mktime` and `localtime` are parameters; `copy_tm_to_TM` and `copy_TM_to_tm`
-- copy a whole `struct tm`, since USE_TM64 is not defined, and SHOULD_USE_SYSTEM_LOCALTIME is 0.
pub mod Between
pub mod Mktime
pub mod Errors
pub mod Utc
mod Tests
use xylitol.Common.{ℕ, zero, suc, ◌+◌, Bool, not, ◌&&◌, ◌||◌, Option, none, some, if◌then◌else◌}
use xylitol.Common.Int.{
  ℤ, pos, negsuc, pos_part, neg_part, ◌+ℤ◌, ◌-ℤ◌, ◌*ℤ◌, tdiv, to_int, ltb_ℤ, leb_ℤ, eqb_ℤ,
}
use xylitol.Time64.{
  Result, ok, null, undefined, ◌>>=◌, ◌>>◌, Tm, int_value, length_of_year, is_leap,
  days_in_gregorian_cycle,
}
use xylitol.Time64.SafeYear.{min_safe_year, max_safe_year, safe_year}
use xylitol.Time64.Timegm.{timegm64}
use xylitol.Time64.Gmtime.{check_tm, gmtime64_r}

abbrev pub seconds_in_gregorian_cycle : ℕ
seconds_in_gregorian_cycle = 12622780800

-- The seconds of the cycles that are skipped, and the left year behind that. Below 1600 the number
-- of cycles is not positive, and is added.
pub skip_above : ℤ → Result (ℤ × ℤ)
skip_above left_year = do
  let cycles = to_int (tdiv (left_year -ℤ pos 2400) 400)
  years ← int_value (cycles *ℤ 400)
  ok (cycles *ℤ seconds_in_gregorian_cycle, left_year -ℤ years)

pub skip_below : ℤ → Result (ℤ × ℤ)
skip_below left_year = do
  let cycles = to_int (tdiv (left_year -ℤ pos 1600) 400)
  years ← int_value (cycles *ℤ 400)
  ok (cycles *ℤ seconds_in_gregorian_cycle, left_year +ℤ years)

pub skip_between : ℤ → Result (ℤ × ℤ)
skip_between left_year =
    if ltb_ℤ (pos 2400) left_year
    then skip_above left_year
    else if ltb_ℤ left_year (pos 1600)
    then skip_below left_year
    else ok (pos 0, left_year)

-- while( left_year != right_year ) { seconds += …; right_year += increment; }
pub walk_years : ℕ → ℤ → ℤ → ℤ → ℤ → Result ℤ
walk_years zero increment left_year right_year seconds = undefined
walk_years (suc fuel) increment left_year right_year seconds =
    let length = pos (length_of_year (is_leap (right_year -ℤ pos 1900))) *ℤ 60 *ℤ 60 *ℤ 24 in
    let rest = walk_years fuel increment left_year (right_year +ℤ increment) (seconds +ℤ length) in
    if not (eqb_ℤ left_year right_year) then rest else ok seconds

-- The loop makes as many rounds as the two years are apart, and one more test. `seconds *
-- increment` is `seconds` or its negation.
pub seconds_between_years : ℤ → ℤ → Result ℤ
seconds_between_years left_year right_year = do
  let up = ltb_ℤ right_year left_year
  let increment = if up then pos 1 else negsuc 0
  (seconds, left_year') ← skip_between left_year
  let gap = left_year' -ℤ right_year
  seconds' ← walk_years (pos_part gap + neg_part gap + 1) increment left_year' right_year seconds
  ok (if up then seconds' else pos 0 -ℤ seconds')

-- `mktime` returns the time, and writes the normalised date back.
module _ (mktime : Tm → ℤ × Tm) where
  -- The date is moved to its safe year, and the time back by the years between.
  pub mktime_moved : Tm → ℤ → Result ℤ
  mktime_moved input_date year = do
    safe ← safe_year year
    tm_year ← int_value (safe -ℤ pos 1900)
    let (time, safe_date) = mktime (record input_date { year = tm_year })
    right_year ← int_value (safe_date.year +ℤ pos 1900)
    seconds ← seconds_between_years year right_year
    ok (time +ℤ seconds)

  pub mktime64 : Tm → Result ℤ
  mktime64 input_date = do
    year ← int_value (input_date.year +ℤ pos 1900)
    if leb_ℤ (pos min_safe_year) year && leb_ℤ year (pos max_safe_year)
        then ok (mktime input_date).0
        else mktime_moved input_date year

  pub timelocal64 : Tm → Result ℤ
  timelocal64 date = mktime64 date

-- The year that the C library is asked about.
pub mapped_year : ℤ → Result ℤ
mapped_year tm_year = do
  from_zero ← int_value (tm_year +ℤ pos 1900)
  safe ← safe_year from_zero
  int_value (safe -ℤ pos 1900)

-- The year of the local date: one less or one more where the local date lies on the other side of
-- New Year.
pub local_year : ℤ → ℤ → Result ℤ
local_year month_diff orig_year = do
  year ← if eqb_ℤ month_diff (pos 11) then int_value (orig_year -ℤ pos 1) else ok orig_year
  if eqb_ℤ month_diff (negsuc 10) then int_value (year +ℤ pos 1) else ok year

-- `localtime` returns NULL for a time that it cannot convert.
module _ (localtime : ℤ → Option Tm) where
  pub fake_localtime_r : ℤ → Result Tm
  fake_localtime_r clock = elim (localtime clock) [ none ↦ null | some tm ↦ ok tm ]

  -- The year is mapped to one that the C library can convert, and back.
  pub localtime64_r : ℤ → Result Tm
  localtime64_r time = do
    gm_tm ← gmtime64_r time
    year ←
        if ltb_ℤ (pos 137) gm_tm.year || ltb_ℤ gm_tm.year (pos 70)
        then mapped_year gm_tm.year
        else ok gm_tm.year
    safe_time ← timegm64 (record gm_tm { year = year })
    local_tm ← fake_localtime_r safe_time
    month_diff ← int_value (local_tm.mon -ℤ gm_tm.mon)
    year' ← local_year month_diff gm_tm.year
    from_zero ← int_value (year' +ℤ pos 1900)
    let yday =
        if not (is_leap year') && eqb_ℤ local_tm.yday (pos 365)
        then local_tm.yday -ℤ pos 1
        else local_tm.yday
    let result = record local_tm { year = year'; yday = yday }
    check_tm result
    ok result
