-- ===== src/Time64/Civil.antt =====
-- What it means for the fields of a `struct tm` to be the civil time of a number of seconds since
-- 1970-01-01T00:00:00, in the proleptic Gregorian calendar and with no leap seconds.
use xylitol.Common.{ℕ, zero, suc, ◌≡◌, ap, inl, inr, arith}
use xylitol.Common.Int.{
  ℤ, pos, negsuc, ◌+ℤ◌, ◌-ℤ◌, ◌*ℤ◌, ◌≤ℤ◌, ◌<ℤ◌, ◌≈ℤ◌, int_laws, pos_part, neg_part, ltb_ℤ-cases,
  leb_ℤ-cases,
}
use xylitol.Time64.{ok, Tm, read, days_in_month, julian_days_by_month, length_of_year, is_leap}
use xylitol.Time64.Calendar.{jan1, jan1_epoch, jan1-suc, jan1_eq, length_of_year_range}

-- The seconds from 1970-01-01T00:00:00 of a time of day on the day with this number.
abbrev pub seconds_at : ℤ → ℤ → ℤ → ℤ → ℤ
seconds_at day hour min sec = day *ℤ 86400 +ℤ hour *ℤ 3600 +ℤ min *ℤ 60 +ℤ sec

-- `y` is the year, from 1900, that day number `day` falls in.
pub record IsYearOf (day y : ℤ) : Type 0 where
  pub from : jan1 y ≤ℤ day
  pub to : day <ℤ jan1 (y +ℤ pos 1)

-- The fields of a date name day number `day`.
pub record IsDate (day : ℤ) (tm : Tm) : Type 0 where
  pub month_days : ℕ
  pub julian : ℕ
  pub days_at : read (days_in_month (is_leap tm.year)) tm.mon ≡ ok month_days
  pub julian_at : read (julian_days_by_month (is_leap tm.year)) tm.mon ≡ ok julian
  pub mon_in : (pos 0 ≤ℤ tm.mon) × (tm.mon ≤ℤ pos 11)
  pub mday_in : (pos 1 ≤ℤ tm.mday) × (tm.mday ≤ℤ pos month_days)
  pub yday_is : tm.yday ≈ℤ pos julian +ℤ (tm.mday -ℤ pos 1)
  pub yday_in : tm.yday <ℤ pos (length_of_year (is_leap tm.year))
  pub day_is : day ≈ℤ jan1 tm.year +ℤ tm.yday

-- Day 0 was a Thursday.
pub record IsWeekDay (day wday : ℤ) : Type 0 where
  pub weeks : ℤ
  pub wday_in : (pos 0 ≤ℤ wday) × (wday ≤ℤ pos 6)
  pub wday_is : day +ℤ pos 4 ≈ℤ weeks *ℤ 7 +ℤ wday

pub record IsTimeOfDay (time day hour min sec : ℤ) : Type 0 where
  pub sec_in : (pos 0 ≤ℤ sec) × (sec ≤ℤ pos 59)
  pub min_in : (pos 0 ≤ℤ min) × (min ≤ℤ pos 59)
  pub hour_in : (pos 0 ≤ℤ hour) × (hour ≤ℤ pos 23)
  pub time_is : time ≈ℤ seconds_at day hour min sec

pub record IsCivil (time : ℤ) (tm : Tm) : Type 0 where
  pub day : ℤ
  pub date : IsDate day tm
  pub week_day : IsWeekDay day tm.wday
  pub clock : IsTimeOfDay time day tm.hour tm.min tm.sec
  pub no_dst : tm.isdst ≡ pos 0

later : (day y : ℤ) → IsYearOf day y → (z : ℤ) × IsYearOf (day +ℤ pos 1) z
later day y h = elim (ltb_ℤ-cases (day +ℤ pos 1) (jan1 (y +ℤ pos 1))) [
  | inl (lt, t) ↦ (y, record { from = omega (int_laws, h.from); to = lt })
  | inr (ge, t) ↦ (
    y +ℤ pos 1,
    record {
      from = ge;
      to =
          omega
            (int_laws, h.to, jan1-suc (y +ℤ pos 1), length_of_year_range (is_leap (y +ℤ pos 1)));
    },
  )
]

earlier : (day y : ℤ) → IsYearOf day y → (z : ℤ) × IsYearOf (day -ℤ pos 1) z
earlier day y h = elim (leb_ℤ-cases (jan1 y) (day -ℤ pos 1)) [
  | inl (le, t) ↦ (y, record { from = le; to = omega (int_laws, h.to) })
  | inr (gt, t) ↦
      let back = jan1_eq (y -ℤ pos 1 +ℤ pos 1) y (omega int_laws) in
      (
        y -ℤ pos 1,
        record {
          from = omega (
            int_laws,
            h.from,
            jan1-suc (y -ℤ pos 1),
            length_of_year_range (is_leap (y -ℤ pos 1)),
          );
          to = omega (int_laws, h.from);
        },
      )
]

day_0 : IsYearOf (pos 0) (pos 70)
day_0 = record {
  from = rw jan1_epoch (omega arith);
  to = omega (
    int_laws,
    jan1-suc (pos 70),
    length_of_year_range (is_leap (pos 70)),
    ap pos_part jan1_epoch,
    ap neg_part jan1_epoch,
  );
}

-- Every day falls in some year.
pub year_exists : (day : ℤ) → (y : ℤ) × IsYearOf day y
year_exists (pos zero) = (pos 70, day_0)
year_exists (pos (suc n)) =
    let (y, h) = year_exists (pos n) in
    let next : pos (suc n) ≡ pos n +ℤ pos 1 = omega int_laws in rw next (later (pos n) y h)
year_exists (negsuc zero) =
    let next : negsuc zero ≡ pos 0 -ℤ pos 1 = omega int_laws in
    rw next (earlier (pos 0) (pos 70) day_0)
year_exists (negsuc (suc n)) =
    let (y, h) = year_exists (negsuc n) in
    let next : negsuc (suc n) ≡ negsuc n -ℤ pos 1 = omega int_laws in
    rw next (earlier (negsuc n) y h)
