-- ===== src/Time64/SafeYear.antt =====
-- `is_exception_century`, `cycle_offset` and `safe_year` of
-- legacy/old-shashlik/src/deps/stripped_bionic/time64.c. Years are counted from 0 here, and are of the
-- type `int64_t`, of which an overflow is undefined.
pub mod Cycle
pub mod Range
pub mod Match
use xylitol.Common.{ℕ, Bool, not, ◌&&◌, List, [], ◌∷◌, if◌then◌else◌}
use xylitol.Common.Int.{ℤ, pos, ◌+ℤ◌, ◌-ℤ◌, ◌*ℤ◌, tdiv, tmod, to_int, ltb_ℤ, leb_ℤ, eqb_ℤ}
use xylitol.Time64.{Result, ok, aborted, int64_value, ◌>>=◌, ◌>>◌, assert, read}

abbrev pub min_safe_year : ℕ
min_safe_year = 1971

abbrev pub max_safe_year : ℕ
max_safe_year = 2037

abbrev pub solar_cycle_length : ℕ
solar_cycle_length = 28

abbrev pub safe_years_high : List ℕ
safe_years_high =
    2016 ∷ 2017 ∷ 2018 ∷ 2019 ∷ 2020 ∷ 2021 ∷ 2022 ∷ 2023 ∷ 2024 ∷ 2025 ∷ 2026 ∷ 2027 ∷ 2028 ∷ 2029
    ∷ 2030 ∷ 2031 ∷ 2032 ∷ 2033 ∷ 2034 ∷ 2035 ∷ 2036 ∷ 2037 ∷ 2010 ∷ 2011 ∷ 2012 ∷ 2013 ∷ 2014
    ∷ 2015 ∷ []

abbrev pub safe_years_low : List ℕ
safe_years_low =
    1996 ∷ 1997 ∷ 1998 ∷ 1971 ∷ 1972 ∷ 1973 ∷ 1974 ∷ 1975 ∷ 1976 ∷ 1977 ∷ 1978 ∷ 1979 ∷ 1980 ∷ 1981
    ∷ 1982 ∷ 1983 ∷ 1984 ∷ 1985 ∷ 1986 ∷ 1987 ∷ 1988 ∷ 1989 ∷ 1990 ∷ 1991 ∷ 1992 ∷ 1993 ∷ 1994
    ∷ 1995 ∷ []

pub is_exception_century : ℤ → Bool
is_exception_century year = eqb_ℤ (tmod year 100) (pos 0) && not (eqb_ℤ (tmod year 400) (pos 0))

-- What follows the difference is in the range of `int64_t`, since it is smaller.
pub cycle_offset : ℤ → Result ℤ
cycle_offset year = do
  year_diff ← int64_value (year -ℤ pos 2000)
  let year_diff' = if ltb_ℤ (pos 2000) year then year_diff -ℤ pos 1 else year_diff
  ok ((tdiv year_diff' 100 -ℤ tdiv year_diff' 400) *ℤ 16)

-- year_cycle %= SOLAR_CYCLE_LENGTH; if( year_cycle < 0 ) year_cycle += SOLAR_CYCLE_LENGTH;
pub wrap_cycle : ℤ → ℤ
wrap_cycle c =
    let r = tmod c solar_cycle_length in if ltb_ℤ r (pos 0) then pos solar_cycle_length +ℤ r else r

pub year_cycle : ℤ → Result ℤ
year_cycle year = do
  offset ← cycle_offset year
  c ← int64_value (year +ℤ offset)
  c' ← int64_value (if ltb_ℤ year (pos min_safe_year) then c -ℤ pos 8 else c)
  c'' ← int64_value (if is_exception_century year then c' +ℤ pos 11 else c')
  before ← int64_value (year -ℤ pos 1)
  last ← int64_value (if is_exception_century before then c'' +ℤ pos 17 else c'')
  ok (wrap_cycle last)

-- The year of the tables at a place in the cycle, with the assertions around it.
pub pick_year : ℤ → ℤ → Result ℤ
pick_year year cycle = do
  assert (leb_ℤ (pos 0) cycle)
  assert (ltb_ℤ cycle (pos solar_cycle_length))
  safe ←
      if ltb_ℤ year (pos min_safe_year)
      then read safe_years_low cycle
      else if ltb_ℤ (pos max_safe_year) year
      then read safe_years_high cycle
      else aborted
  assert (leb_ℤ (pos safe) (pos max_safe_year) && leb_ℤ (pos min_safe_year) (pos safe))
  ok (pos safe)

pub safe_year : ℤ → Result ℤ
safe_year year =
    if leb_ℤ (pos min_safe_year) year && leb_ℤ year (pos max_safe_year)
    then ok (to_int year)
    else (year_cycle year >>= λ cycle. pick_year year cycle)
