-- ===== src/Time64/RoundTrip.antt =====
-- `timegm64` and `gmtime64_r` undo one another.
use xylitol.Common.{◌≡◌, ◌∙◌, ap, sym}
use xylitol.Common.Int.{
  ℤ, pos, ◌+ℤ◌, ◌-ℤ◌, ◌*ℤ◌, ◌≤ℤ◌, ◌<ℤ◌, IsInt, IsInt64, int_laws, parts_disjoint,
}
use xylitol.Time64.{Result, ok, ◌>>=◌, Tm, is_leap}
use xylitol.Time64.Calendar.{length_of_year_range}
use xylitol.Time64.Civil.{IsYearOf, IsCivil}
use xylitol.Time64.Unique.{IsCivil-unique, IsYearOf-unique, IsDate-IsYearOf}
use xylitol.Time64.Timegm.{timegm64}
use xylitol.Time64.Timegm.Correct.{timegm64-seconds_at}
use xylitol.Time64.Gmtime.{gmtime64_r}
use xylitol.Time64.Gmtime.Correct.{
  GmtimeAnswer, civil, too_wide, unchecked, gmtime64_r-GmtimeAnswer, within_day,
}

ok_injective : (a b : Tm) → ok a ≡ ok b → a ≡ b
ok_injective a b h = ap unok h
  where
    unok : Result Tm → Tm
    unok (ok t) = t
    unok _ = a

-- `timegm64` of a civil time whose year is in the range of `int` is the time.
pub timegm64-IsCivil :
    (time : ℤ) (tm : Tm) → IsCivil time tm → IsInt tm.year → timegm64 tm ≡ ok time
timegm64-IsCivil time tm c fits =
    let d = c.date in
    let k = c.clock in
    let short = length_of_year_range (is_leap tm.year) in
    let eq =
      timegm64-seconds_at tm d.julian fits d.julian_at
        (omega (int_laws, d.mday_in, d.yday_is, d.yday_in, parts_disjoint (tm.mday -ℤ pos 1)))
        (omega (int_laws, k.hour_in, parts_disjoint tm.hour))
        (omega (int_laws, k.min_in, parts_disjoint tm.min)) in
    eq ∙ ap ok (omega (int_laws, k.time_is, d.day_is, d.yday_is))

-- The civil time that an answer of `gmtime64_r` holds.
answer-IsCivil :
    (time : ℤ) (tm : Tm) {r : Result Tm}
    → GmtimeAnswer time r
    → r ≡ ok tm
    → IsInt tm.year × IsCivil time tm
answer-IsCivil time tm (civil u e fits in_int c) h =
    let same : u ≡ tm = ok_injective u tm (sym e ∙ h) in (rw same at fits, rw same at c)
answer-IsCivil time tm (too_wide day year e from to in_year wide) h = cc
answer-IsCivil time tm (unchecked day year e from to in_year fits wide) h = cc

-- Where `gmtime64_r` of a 64-bit time returns a date, `timegm64` of the date is the time.
pub timegm64-gmtime64_r :
    (time : ℤ) (tm : Tm) → IsInt64 time → gmtime64_r time ≡ ok tm → timegm64 tm ≡ ok time
timegm64-gmtime64_r time tm h e =
    let (fits, c) = answer-IsCivil time tm (gmtime64_r-GmtimeAnswer time h) e in
    timegm64-IsCivil time tm c fits

day_year :
    (time day year : ℤ) (tm : Tm)
    → day *ℤ 86400 ≤ℤ time
    → time <ℤ (day +ℤ pos 1) *ℤ 86400
    → IsYearOf day year
    → IsCivil time tm
    → tm.year ≡ year
day_year time day year tm from to h c =
    let (lo, hi) = within_day time c.day tm.hour tm.min tm.sec c.clock in
    let same : c.day ≡ day = omega int_laws in
    IsYearOf-unique day tm.year year (rw same at (IsDate-IsYearOf c.day tm c.date)) h

answer_unique :
    (time : ℤ) (tm : Tm) {r : Result Tm}
    → GmtimeAnswer time r
    → IsInt tm.year
    → IsInt (tm.year +ℤ pos 1900)
    → IsCivil time tm
    → r ≡ ok tm
answer_unique time tm (civil u e fits in_int c) h k d = e ∙ ap ok (IsCivil-unique time u tm c d)
answer_unique time tm (too_wide day year e from to in_year wide) h k d =
    absurd (wide (rw (day_year time day year tm from to in_year d) at h))
answer_unique time tm (unchecked day year e from to in_year fits wide) h k d =
    absurd (wide (rw (day_year time day year tm from to in_year d) at k))

-- `gmtime64_r` of the `timegm64` of the civil time of a 64-bit time is that civil time, where its
-- `tm_year` and `tm_year + 1900` are in the range of `int`.
pub gmtime64_r-timegm64 :
    (time : ℤ) (tm : Tm)
    → IsInt64 time
    → IsInt tm.year
    → IsInt (tm.year +ℤ pos 1900)
    → IsCivil time tm
    → (timegm64 tm >>= gmtime64_r) ≡ ok tm
gmtime64_r-timegm64 time tm h fits in_int c =
    rw (timegm64-IsCivil time tm c fits)
      (answer_unique time tm (gmtime64_r-GmtimeAnswer time h) fits in_int c)
