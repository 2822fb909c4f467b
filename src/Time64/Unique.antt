-- ===== src/Time64/Unique.antt =====
-- A time has one civil time.
use xylitol.Common.{
  ℕ, ◌+◌, ◌-◌, ◌≤◌, ◌<◌, ◌≡◌, refl, sym, ap, ◌∙◌, ◌⊎◌, inl, inr, arith, Bool, true, false, not,
  ◌||◌, ltb, leb, holds_under, holds_under-at, get_elem?, get_or, List, [], ◌∷◌, zero, suc,
}
use xylitol.Common.Int.{
  ℤ, pos, negsuc, pos_part, neg_part, ◌+ℤ◌, ◌≤ℤ◌, ◌≈ℤ◌, int_laws, parts_disjoint, eq_of_parts,
}
use xylitol.Time64.{ok, Tm, read, entry, days_in_month, julian_days_by_month, is_leap}
use xylitol.Time64.Calendar.{jan1, jan1-suc, lt_of_jan1}
use xylitol.Time64.Civil.{IsYearOf, IsDate, IsWeekDay, IsTimeOfDay, IsCivil}

-- A month ends before the next one begins.
months_apart : Bool → ℕ → ℕ → Bool
months_apart leap a b =
    not (ltb a b)
    || leb (get_or (julian_days_by_month leap) a 0 + get_or (days_in_month leap) a 0)
        (get_or (julian_days_by_month leap) b 0)

apart_table :
    (leap : Bool) → holds_under (λ a. holds_under (λ b. months_apart leap a b) 12) 12 ≡ true
unfolding holds_under months_apart
apart_table false = refl
apart_table true = refl

months_apart_lem :
    (leap : Bool) (a b : ℕ)
    → a < 12
    → b < 12
    → a < b
    → get_or (julian_days_by_month leap) a 0 + get_or (days_in_month leap) a 0
      ≤ get_or (julian_days_by_month leap) b 0
months_apart_lem leap a b ha hb lt =
    unfold months_apart in
    ground (
      arith,
      holds_under-at (λ b. months_apart leap a b) 12 b hb
          (holds_under-at (λ a. holds_under (λ b. months_apart leap a b) 12) 12 a ha
            (apart_table leap)),
    )

get_or-entry : (table : List ℕ) (i n : ℕ) → entry (get_elem? table i) ≡ ok n → get_or table i 0 ≡ n
get_or-entry [] i n h = cc
get_or-entry (x ∷ xs) zero n h = cc
get_or-entry (x ∷ xs) (suc i) n h = get_or-entry xs i n h

get_or-read :
    (table : List ℕ) (i : ℤ) (n : ℕ) → read table i ≡ ok n → get_or table (pos_part i) 0 ≡ n
get_or-read table (pos i) n h = get_or-entry table i n h
get_or-read table (negsuc i) n h = cc

-- The year of a date is that of its day.
pub IsDate-IsYearOf : (day : ℤ) (tm : Tm) → IsDate day tm → IsYearOf day tm.year
IsDate-IsYearOf day tm d = record {
  from = omega (int_laws, d.day_is, d.yday_is, d.mday_in.0);
  to = omega (int_laws, d.day_is, d.yday_in, jan1-suc tm.year);
}

pub IsYearOf-unique : (day y z : ℤ) → IsYearOf day y → IsYearOf day z → y ≡ z
IsYearOf-unique day y z h k = omega (
  int_laws,
  lt_of_jan1 y (z +ℤ pos 1) (omega (arith, h.from, k.to)),
  lt_of_jan1 z (y +ℤ pos 1) (omega (arith, k.from, h.to)),
)

-- Two months that hold one day of a year are one month.
months_unique :
    (leap : Bool) (a b : ℤ) (da ja db jb n : ℕ)
    → read (days_in_month leap) a ≡ ok da
    → read (julian_days_by_month leap) a ≡ ok ja
    → read (days_in_month leap) b ≡ ok db
    → read (julian_days_by_month leap) b ≡ ok jb
    → (pos 0 ≤ℤ a) × (a ≤ℤ pos 11)
    → (pos 0 ≤ℤ b) × (b ≤ℤ pos 11)
    → ja ≤ n
    → n < ja + da
    → jb ≤ n
    → n < jb + db
    → pos_part a ≡ pos_part b
months_unique leap a b da ja db jb n hda hja hdb hjb ma mb la ua lb ub =
    let one_sign = parts_disjoint a in
    let one_sign' = parts_disjoint b in
    let a_in : pos_part a < 12 = omega (arith, ma) in
    let b_in : pos_part b < 12 = omega (arith, mb) in
    let da_is = get_or-read (days_in_month leap) a da hda in
    let ja_is = get_or-read (julian_days_by_month leap) a ja hja in
    let db_is = get_or-read (days_in_month leap) b db hdb in
    let jb_is = get_or-read (julian_days_by_month leap) b jb hjb in
    elim (lt_trichotomy (pos_part a) (pos_part b)) [
      | inl lt ↦
          absurd (omega (arith, months_apart_lem leap (pos_part a) (pos_part b) a_in b_in lt))
      | inr (inl e) ↦ e
      | inr (inr gt) ↦
          absurd (omega (arith, months_apart_lem leap (pos_part b) (pos_part a) b_in a_in gt))
    ]
  where
    lt_trichotomy : (m n : ℕ) → (m < n) ⊎ ((m ≡ n) ⊎ (n < m))
    lt_trichotomy m n = grind arith

ok_injective : (a b : ℕ) → ok a ≡ ok b → a ≡ b
ok_injective a b h = cc

module _ {day : ℤ} {a b : Tm} (x : IsDate day a) (y : IsDate day b) where
  year_unique : a.year ≡ b.year
  year_unique =
      IsYearOf-unique day a.year b.year (IsDate-IsYearOf day a x) (IsDate-IsYearOf day b y)

  yday_unique : a.yday ≡ b.yday
  yday_unique = omega (
    int_laws,
    x.day_is,
    y.day_is,
    ap (λ z. pos_part (jan1 z)) year_unique,
    ap (λ z. neg_part (jan1 z)) year_unique,
  )

  mon_unique : a.mon ≡ b.mon
  mon_unique =
      let leap : is_leap b.year ≡ is_leap a.year = ap is_leap (sym year_unique) in
      let one_sign = parts_disjoint a.mday in
      let one_sign' = parts_disjoint b.mday in
      let same =
        months_unique (is_leap a.year) a.mon b.mon x.month_days x.julian y.month_days y.julian
          (x.julian + pos_part a.mday - 1) x.days_at x.julian_at (rw leap at y.days_at)
          (rw leap at y.julian_at) x.mon_in y.mon_in (omega (arith, x.mday_in))
          (omega (arith, x.mday_in))
          (omega (
            int_laws,
            x.mday_in,
            y.mday_in,
            x.yday_is,
            y.yday_is,
            ap pos_part yday_unique,
            ap neg_part yday_unique,
          ))
          (omega (
            int_laws,
            x.mday_in,
            y.mday_in,
            x.yday_is,
            y.yday_is,
            ap pos_part yday_unique,
            ap neg_part yday_unique,
          )) in
      eq_of_parts a.mon b.mon
        (omega (arith, same, x.mon_in, y.mon_in, parts_disjoint a.mon, parts_disjoint b.mon))

  mday_unique : a.mday ≡ b.mday
  mday_unique =
      let here : read (julian_days_by_month (is_leap a.year)) a.mon ≡ ok y.julian =
        rw (year_unique, mon_unique) y.julian_at in
      let same = ok_injective x.julian y.julian (sym x.julian_at ∙ here) in
      omega (int_laws, same, x.yday_is, y.yday_is, ap pos_part yday_unique, ap neg_part yday_unique)

week_day_unique : (day v w : ℤ) → IsWeekDay day v → IsWeekDay day w → v ≡ w
week_day_unique day v w h k = omega (int_laws, h.wday_is, h.wday_in, k.wday_is, k.wday_in)

day_unique :
    (time d e h i m n s t : ℤ)
    → IsTimeOfDay time d h m s
    → IsTimeOfDay time e i n t
    → (d ≡ e) × (h ≡ i) × (m ≡ n) × (s ≡ t)
day_unique time d e h i m n s t x y =
    let sum = x.time_is in
    let sum' = y.time_is in
    let same_day : d ≈ℤ e =
      omega (int_laws, x.hour_in, x.min_in, x.sec_in, y.hour_in, y.min_in, y.sec_in) in
    let same_hour : h ≈ℤ i = omega (int_laws, x.min_in, x.sec_in, y.min_in, y.sec_in) in
    let same_min : m ≈ℤ n = omega (int_laws, x.sec_in, y.sec_in) in
    (
      eq_of_parts d e same_day,
      eq_of_parts h i same_hour,
      eq_of_parts m n same_min,
      eq_of_parts s t (omega int_laws),
    )

-- Two civil times of one time are equal in every field.
pub IsCivil-unique : (time : ℤ) (a b : Tm) → IsCivil time a → IsCivil time b → a ≡ b
IsCivil-unique time a b x y =
    let (same_day, same_hour, same_min, same_sec) =
      day_unique time x.day y.day a.hour b.hour a.min b.min a.sec b.sec x.clock y.clock in
    let date : IsDate x.day b = rw same_day y.date in
    let week : IsWeekDay x.day b.wday = rw same_day y.week_day in
    (λ i. record {
      sec = same_sec i;
      min = same_min i;
      hour = same_hour i;
      mday = mday_unique x.date date i;
      mon = mon_unique x.date date i;
      year = year_unique x.date date i;
      wday = week_day_unique x.day a.wday b.wday x.week_day week i;
      yday = yday_unique x.date date i;
      isdst = (x.no_dst ∙ sym y.no_dst) i;
    })

short_months : (leap : Bool) → holds_under (λ i. leb (get_or (days_in_month leap) i 0) 31) 12 ≡ true
unfolding holds_under
short_months false = refl
short_months true = refl

-- No month has more than 31 days.
pub IsDate-mday-le : (day : ℤ) (tm : Tm) → IsDate day tm → tm.mday ≤ℤ pos 31
IsDate-mday-le day tm d =
    let one_sign = parts_disjoint tm.mon in
    let short =
      holds_under-at (λ i. leb (get_or (days_in_month (is_leap tm.year)) i 0) 31) 12
        (pos_part tm.mon) (omega (arith, d.mon_in)) (short_months (is_leap tm.year)) in
    let size = get_or-read (days_in_month (is_leap tm.year)) tm.mon d.month_days d.days_at in
    omega (arith, d.mday_in, leb→le _ _ short)
  where
    leb→le : (m n : ℕ) → leb m n ≡ true → m ≤ n
    leb→le m n h = ground arith
