-- ===== src/Time64/Gmtime.antt =====
-- `check_tm` and `gmtime64_r` of legacy/old-shashlik/src/deps/stripped_bionic/time64.c.
-- `SHOULD_USE_SYSTEM_GMTIME` is 0, since USE_SYSTEM_GMTIME is not defined.
pub mod Clock
pub mod Place
pub mod Check
pub mod Days
pub mod Years
pub mod Correct
pub mod Tests
use xylitol.Common.{ℕ, zero, suc, Bool, not, if◌then◌else◌}
use xylitol.Common.Int.{ℤ, pos, negsuc, ◌+ℤ◌, ◌-ℤ◌, ◌*ℤ◌, tdiv, tmod, to_int, ltb_ℤ, leb_ℤ, eqb_ℤ}
use xylitol.Time64.{
  Result, ok, overflow, undefined, ◌>>=◌, ◌>>◌, Tm, assert, int_value, read, days_in_month,
  julian_days_by_month, length_of_year, years_in_gregorian_cycle, days_in_gregorian_cycle, is_leap,
}

-- The sum in `IS_LEAP(tm->tm_year)` is computed as an `int`.
pub check_tm : Tm → Result (Unit {0})
check_tm tm = do
  assert (leb_ℤ (pos 0) tm.sec)
  assert (leb_ℤ tm.sec (pos 61))
  assert (leb_ℤ (pos 0) tm.min)
  assert (leb_ℤ tm.min (pos 59))
  assert (leb_ℤ (pos 0) tm.hour)
  assert (leb_ℤ tm.hour (pos 23))
  assert (leb_ℤ (pos 1) tm.mday)
  year ← int_value (tm.year +ℤ pos 1900)
  days ← read (days_in_month (is_leap tm.year)) tm.mon
  assert (leb_ℤ tm.mday (pos days))
  assert (leb_ℤ (pos 0) tm.mon)
  assert (leb_ℤ tm.mon (pos 11))
  assert (leb_ℤ (pos 0) tm.wday)
  assert (leb_ℤ tm.wday (pos 6))
  assert (leb_ℤ (pos 0) tm.yday)
  assert (leb_ℤ tm.yday (pos (length_of_year (is_leap tm.year))))

-- WRAP(a, b, m): the new values of a and b.
pub wrap : ℤ → ℤ → ℕ → ℤ × ℤ
wrap a b m = if ltb_ℤ a (pos 0) then (a +ℤ pos m, b -ℤ pos 1) else (a, b)

-- `v_tm_sec`, `v_tm_min`, `v_tm_hour` and `v_tm_tday` behind the three WRAPs.
pub split_time : ℤ → ℤ × ℤ × ℤ × ℤ
split_time time =
    let minutes = tdiv time 60 in
    let hours = tdiv minutes 60 in
    let (sec, min) = wrap (to_int (tmod time 60)) (to_int (tmod minutes 60)) 60 in
    let (min', hour) = wrap min (to_int (tmod hours 24)) 60 in
    let (hour', tday) = wrap hour (tdiv hours 24) 24 in (sec, min', hour', tday)

pub week_day : ℤ → ℤ
week_day tday =
    let wday = to_int (tmod (tday +ℤ pos 4) 7) in if ltb_ℤ wday (pos 0) then wday +ℤ pos 7 else wday

-- if( cycles ) { m -= …; year += …; }
pub drop_cycles : ℤ → ℤ → ℤ → ℤ × ℤ
drop_cycles cycles m year =
    if not (eqb_ℤ cycles (pos 0))
    then (m -ℤ cycles *ℤ days_in_gregorian_cycle, year +ℤ cycles *ℤ years_in_gregorian_cycle)
    else (m, year)

-- while (m >= length_of_year[leap]) { m -= length_of_year[leap]; year++; leap = IS_LEAP (year); }
pub years_up : ℕ → ℤ → ℤ → Result (ℤ × ℤ)
years_up zero m year = undefined
years_up (suc fuel) m year =
    let length = pos (length_of_year (is_leap year)) in
    let rest = years_up fuel (m -ℤ length) (year +ℤ pos 1) in
    if leb_ℤ length m then rest else ok (m, year)

-- while (m < -length_of_year[leap]) { m += length_of_year[leap]; year--; leap = IS_LEAP (year); }
pub years_down : ℕ → ℤ → ℤ → Result (ℤ × ℤ)
years_down zero m year = undefined
years_down (suc fuel) m year =
    let length = pos (length_of_year (is_leap year)) in
    let rest = years_down fuel (m +ℤ length) (year -ℤ pos 1) in
    if ltb_ℤ m (pos 0 -ℤ length) then rest else ok (m, year)

-- The loop over the months from January on.
pub months_up : ℕ → Bool → ℤ → ℤ → Result (ℤ × ℤ)
months_up zero leap m mon = undefined
months_up (suc fuel) leap m mon = do
  days ← read (days_in_month leap) mon
  let rest = months_up fuel leap (m -ℤ pos days) (mon +ℤ pos 1)
  if leb_ℤ (pos days) m then rest else ok (m, mon)

-- The loop over the months from December back, and the last addition behind it.
pub months_down : ℕ → Bool → ℤ → ℤ → Result (ℤ × ℤ)
months_down zero leap m mon = undefined
months_down (suc fuel) leap m mon = do
  days ← read (days_in_month leap) mon
  let rest = months_down fuel leap (m +ℤ pos days) (mon -ℤ pos 1)
  if ltb_ℤ m (pos 0 -ℤ pos days) then rest else ok (m +ℤ pos days, mon)

-- The year and month of a day, and what is left of the day's number in that month.
pub forward : ℤ → ℤ → Result (ℤ × ℤ × ℤ)
forward m year = do
  let (m', year') = drop_cycles (to_int (tdiv m days_in_gregorian_cycle)) m year
  (m'', year'') ← years_up 401 m' year'
  (day, mon) ← months_up 12 (is_leap year'') m'' (pos 0)
  ok (year'', mon, day)

pub backward : ℤ → ℤ → Result (ℤ × ℤ × ℤ)
backward m year = do
  let (m', year') = drop_cycles (to_int (tdiv m days_in_gregorian_cycle +ℤ pos 1)) m year
  (m'', year'') ← years_down 801 m' year'
  (day, mon) ← months_down 12 (is_leap year'') m'' (pos 11)
  ok (year'', mon, day)

-- CHEAT_DAYS and CHEAT_YEARS: 2008-01-01.
pub locate : ℤ → Result (ℤ × ℤ × ℤ)
locate tday =
    let cheat = leb_ℤ (pos 13879) tday in
    let m = if cheat then tday -ℤ pos 13879 else tday in
    let year = if cheat then pos 108 else pos 70 in
    if leb_ℤ (pos 0) m then forward m year else backward m (year -ℤ pos 1)

-- The fields of `*p`; NULL if the year is not in the range of `int`.
pub fill : ℤ → ℤ × ℤ × ℤ × ℤ → ℤ × ℤ × ℤ → Result Tm
fill wday (sec, min, hour, tday) (year, mon, m) =
    let tm_year = to_int year in
    if not (eqb_ℤ tm_year year) then overflow else do
      mday ← int_value (to_int m +ℤ pos 1)
      julian ← read (julian_days_by_month (is_leap year)) mon
      yday ← int_value (pos julian +ℤ to_int m)
      ok (record {
        sec = sec;
        min = min;
        hour = hour;
        mday = mday;
        mon = mon;
        year = tm_year;
        wday = wday;
        yday = yday;
        isdst = pos 0;
      })

pub gmtime64_r : ℤ → Result Tm
gmtime64_r time = do
  let clock = split_time time
  place ← locate clock.3
  p ← fill (week_day clock.3) clock place
  check_tm p
  ok p
