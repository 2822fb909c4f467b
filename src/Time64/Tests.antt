-- ===== src/Time64/Tests.antt =====
-- The functions of time64.c at 2023-11-14T22:13:20, at the years around the limits, and far back.
use xylitol.Common.{Option, some, none, ◌≡◌, refl, sym, ◌∙◌, ap, arith}
use xylitol.Common.Int.{
  IsInt, IsInt64, pos_part, neg_part, ◌≤ℤ◌, ℤ, pos, negsuc, ◌+ℤ◌, ◌-ℤ◌, int_laws, ◌*ℤ◌, tmod,
  parts_disjoint,
}
use xylitol.Time64.{Result, ok, Tm, is_leap, ◌>>=◌}
use xylitol.Time64.Local.Utc.{IsUtc, localtime64_r-IsCivil}
use xylitol.Time64.Calendar.{jan1_mono, jan1_epoch, length_of_year_range, jan1, days_of_years}
use xylitol.Time64.Civil.{IsCivil, IsYearOf, seconds_at}
use xylitol.Time64.RoundTrip.{timegm64-IsCivil, timegm64-gmtime64_r, gmtime64_r-timegm64}
use xylitol.Time64.Timegm.{timegm64}
use xylitol.Time64.Timegm.Correct.{timegm64-seconds_at}
use xylitol.Time64.Gmtime.{locate, gmtime64_r}
use xylitol.Time64.Gmtime.Place.{Located, locate-Located}
use xylitol.Time64.Gmtime.Correct.{GmtimeAnswer, gmtime64_r-GmtimeAnswer}
use xylitol.Time64.SafeYear.{safe_year}
use xylitol.Time64.SafeYear.Match.{IsSafe, safe_year-IsSafe}
use xylitol.Time64.Local.{localtime64_r, mktime64}
use xylitol.Time64.Local.Mktime.{HasFixedOffset, mktime64-IsCivil}
use xylitol.Time64.Text.{date_text, asctime64}
use xylitol.Time64.Text.Length.{asctime64-IsCivil}

abbrev november : Tm
november = record {
  sec = pos 20;
  min = pos 13;
  hour = pos 22;
  mday = pos 14;
  mon = pos 10;
  year = pos 123;
  wday = pos 2;
  yday = pos 317;
  isdst = pos 0;
}

november_jan1 : jan1 (pos 123) ≡ pos 19358
unfolding jan1 days_of_years ◌+ℤ◌ ◌-ℤ◌
november_jan1 = refl

november-IsCivil : IsCivil (pos 1700000000) november
unfolding is_leap ◌+ℤ◌ ◌-ℤ◌ ◌*ℤ◌ tmod
november-IsCivil = record {
  day = pos 19675;
  date = record {
    month_days = 30;
    julian = 304;
    days_at = refl;
    julian_at = refl;
    mon_in = omega arith;
    mday_in = omega arith;
    yday_is = omega arith;
    yday_in = omega arith;
    day_is = rw november_jan1 (omega arith);
  };
  week_day = record { weeks = pos 2811; wday_in = omega arith; wday_is = omega arith };
  clock = record {
    sec_in = omega arith;
    min_in = omega arith;
    hour_in = omega arith;
    time_is = omega arith;
  };
  no_dst = refl;
}

gmtime64_r-november : gmtime64_r (pos 1700000000) ≡ ok november
gmtime64_r-november =
    ap (λ r. r >>= gmtime64_r)
      (sym (timegm64-IsCivil (pos 1700000000) november november-IsCivil (omega arith)))
    ∙ gmtime64_r-timegm64 (pos 1700000000) november (omega arith) (omega arith)
        (unfold ◌+ℤ◌ in omega arith) november-IsCivil

gmtime64_r-GmtimeAnswer_example :
    GmtimeAnswer (negsuc 62167219200) (gmtime64_r (negsuc 62167219200))
gmtime64_r-GmtimeAnswer_example = gmtime64_r-GmtimeAnswer (negsuc 62167219200) (omega arith)

timegm64-gmtime64_r_example : timegm64 november ≡ ok (pos 1700000000)
timegm64-gmtime64_r_example =
    timegm64-gmtime64_r (pos 1700000000) november (omega arith) gmtime64_r-november

gmtime64_r-timegm64_example : (timegm64 november >>= gmtime64_r) ≡ ok november
gmtime64_r-timegm64_example =
    gmtime64_r-timegm64 (pos 1700000000) november (omega arith) (omega arith)
      (unfold ◌+ℤ◌ in omega arith) november-IsCivil

-- November 50th, 25 hours and -5 minutes, in the year -1999999000.
abbrev overfull : Tm
overfull = record november {
  year = negsuc 2000000899;
  mday = pos 50;
  hour = pos 25;
  min = negsuc 4;
}

timegm64-seconds_at_example :
    timegm64 overfull
    ≡ ok (
        seconds_at
          (jan1 (negsuc 2000000899) +ℤ pos 304 +ℤ (pos 50 -ℤ pos 1))
          (pos 25)
          (negsuc 4)
          (pos 20))
unfolding is_leap tmod ◌+ℤ◌ ◌-ℤ◌
timegm64-seconds_at_example =
    timegm64-seconds_at overfull 304 (omega arith) refl (omega int_laws) (omega int_laws)
      (omega int_laws)

safe_year-IsSafe_example : IsSafe (pos 2147485547) (safe_year (pos 2147485547))
safe_year-IsSafe_example = safe_year-IsSafe (pos 2147485547) (omega arith) (omega arith)

-- A C library whose local time is an hour ahead of UTC.
abbrev value : Result ℤ → ℤ
value (ok time) = time
value _ = pos 0

abbrev an_hour_ahead : Tm → ℤ × Tm
an_hour_ahead tm = (value (timegm64 tm) -ℤ pos 3600, tm)

an_hour_ahead-HasFixedOffset : HasFixedOffset an_hour_ahead (pos 3600)
an_hour_ahead-HasFixedOffset = record {
  converts = λ time tm c lo hi.
      ap (λ r. (value r -ℤ pos 3600, tm))
        (timegm64-IsCivil time tm c (omega (arith, lo, hi, parts_disjoint tm.year)));
}

mktime64-IsCivil_example : mktime64 an_hour_ahead november ≡ ok (pos 1700000000 -ℤ pos 3600)
mktime64-IsCivil_example =
    mktime64-IsCivil an_hour_ahead (pos 3600) an_hour_ahead-HasFixedOffset (pos 1700000000) november
      november-IsCivil (omega arith) (unfold ◌+ℤ◌ in omega arith)

asctime64-IsCivil_example : asctime64 november ≡ ok (date_text november (pos 1900 +ℤ november.year))
asctime64-IsCivil_example =
    asctime64-IsCivil (pos 1700000000) november november-IsCivil (unfold ◌+ℤ◌ in omega arith)

november_year : IsYearOf (pos 19675) (pos 123)
unfolding jan1 days_of_years ◌+ℤ◌ ◌-ℤ◌
november_year = record { from = omega arith; to = omega arith }

locate-Located_example : Located (pos 19675) (pos 123) (locate (pos 19675))
locate-Located_example =
    locate-Located (pos 19675) (pos 123) (omega arith) (omega arith) november_year

-- A C library whose local time is UTC.
abbrev date_or_none : Result Tm → Option Tm
date_or_none (ok tm) = some tm
date_or_none _ = none

abbrev utc_localtime : ℤ → Option Tm
utc_localtime time = date_or_none (gmtime64_r time)

jan1_2037 : jan1 (pos 137) ≡ pos 24472
unfolding jan1 days_of_years ◌+ℤ◌ ◌-ℤ◌
jan1_2037 = refl

recent-IsInt64 :
    (time : ℤ) (tm : Tm) → IsCivil time tm → pos 70 ≤ℤ tm.year → tm.year ≤ℤ pos 137 → IsInt64 time
recent-IsInt64 time tm c lo hi =
    let d = c.date in
    let k = c.clock in
    let first = jan1_mono (pos 70) tm.year lo in
    let last = jan1_mono tm.year (pos 137) hi in
    let short = length_of_year_range (is_leap tm.year) in
    let one_sign = parts_disjoint time in
    omega (
      int_laws,
      first,
      last,
      short,
      d.day_is,
      d.yday_in,
      d.yday_is,
      d.mday_in,
      k.time_is,
      k.sec_in,
      k.min_in,
      k.hour_in,
      ap pos_part jan1_epoch,
      ap neg_part jan1_epoch,
      ap pos_part jan1_2037,
      ap neg_part jan1_2037,
    )

utc_localtime-IsUtc : IsUtc utc_localtime
utc_localtime-IsUtc = record {
  converts = λ time tm c lo hi.
      let fits : IsInt tm.year = omega (arith, lo, hi, parts_disjoint tm.year) in
      let wide : IsInt (tm.year +ℤ pos 1900) =
        omega (int_laws, lo, hi, parts_disjoint (tm.year +ℤ pos 1900)) in
      ap date_or_none (
        ap (λ r. r >>= gmtime64_r) (sym (timegm64-IsCivil time tm c fits))
        ∙ gmtime64_r-timegm64 time tm (recent-IsInt64 time tm c lo hi) fits wide c);
}

localtime64_r-IsCivil_example : localtime64_r utc_localtime (pos 1700000000) ≡ ok november
localtime64_r-IsCivil_example =
    localtime64_r-IsCivil utc_localtime utc_localtime-IsUtc (pos 1700000000) november (omega arith)
      november-IsCivil (omega arith) (unfold ◌+ℤ◌ in omega arith)
