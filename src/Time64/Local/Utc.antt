-- ===== src/Time64/Local/Utc.antt =====
-- `localtime64_r` over a C library whose local time is UTC.
use xylitol.Common.{
  ◌≡◌, refl, sym, ap, ◌∙◌, inl, inr, Bool, true, false, not, ◌&&◌, ◌||◌, Option, some, arith,
  if◌then◌else◌,
}
use xylitol.Common.Int.{
  ℤ, pos, ◌+ℤ◌, ◌-ℤ◌, ◌*ℤ◌, ◌≤ℤ◌, ◌<ℤ◌, ◌≈ℤ◌, IsInt, IsInt64, int_laws, ltb_ℤ, eqb_ℤ, ltb_ℤ-cases,
  eqb_ℤ-cases, parts_disjoint, pos_part, neg_part,
}
use xylitol.Time64.{Result, ok, Tm, ◌>>=◌, int_value, int_value_id, is_leap, length_of_year}
use xylitol.Time64.Calendar.{jan1}
use xylitol.Time64.Civil.{IsCivil}
use xylitol.Time64.RoundTrip.{timegm64-IsCivil, gmtime64_r-timegm64}
use xylitol.Time64.Timegm.{timegm64}
use xylitol.Time64.Gmtime.{check_tm, gmtime64_r}
use xylitol.Time64.Gmtime.Check.{check_tm-ok}
use xylitol.Time64.Local.{mapped_year, local_year, fake_localtime_r, localtime64_r}
use xylitol.Time64.Local.Errors.{mapped_year-Mapped}
use xylitol.Time64.Local.Mktime.{IsCivil-moved}

localtime64_r_runs :
    (localtime : ℤ → Option Tm) (time safe_time z : ℤ) (gm : Tm)
    → gmtime64_r time ≡ ok gm
    → (if ltb_ℤ (pos 137) gm.year || ltb_ℤ gm.year (pos 70)
        then mapped_year gm.year
        else ok gm.year)
      ≡ ok z
    → timegm64 (record gm { year = z }) ≡ ok safe_time
    → fake_localtime_r localtime safe_time ≡ ok (record gm { year = z })
    → int_value (gm.mon -ℤ gm.mon) ≡ ok (pos 0)
    → local_year (pos 0) gm.year ≡ ok gm.year
    → int_value (gm.year +ℤ pos 1900) ≡ ok (gm.year +ℤ pos 1900)
    → (not (is_leap gm.year) && eqb_ℤ gm.yday (pos 365)) ≡ false
    → check_tm gm ≡ ok tt
    → localtime64_r localtime time ≡ ok gm
unfolding localtime64_r
localtime64_r_runs localtime time safe_time z gm e₁ e₂ e₃ e₄ e₅ e₆ e₇ e₈ e₉ =
    rw (e₁, e₂, e₃, e₄, e₅, e₆, e₇, e₈, e₉)

-- The year that `localtime64_r` asks the C library about.
abbrev asked_year : ℤ → Result ℤ
asked_year y = if ltb_ℤ (pos 137) y || ltb_ℤ y (pos 70) then mapped_year y else ok y

-- It is one from 1970 to 2037 with the same calendar.
record IsConvertible (y : ℤ) : Type 0 where
  z : ℤ
  weeks : ℤ
  found : asked_year y ≡ ok z
  z_in : (pos 70 ≤ℤ z) × (z ≤ℤ pos 137)
  leap : is_leap z ≡ is_leap y
  start : jan1 y ≈ℤ jan1 z +ℤ weeks *ℤ 7

mapped : (y : ℤ) → IsInt (y +ℤ pos 1900) → asked_year y ≡ mapped_year y → IsConvertible y
mapped y h e =
    let (z, weeks, found, low, high, leap, start) = mapped_year-Mapped y h in
    record {
      z = z;
      weeks = weeks;
      found = e ∙ found;
      z_in = (omega (arith, low), high);
      leap = leap;
      start = start;
    }

asked_year-IsConvertible : (y : ℤ) → IsInt (y +ℤ pos 1900) → IsConvertible y
asked_year-IsConvertible y h = elim (ltb_ℤ-cases (pos 137) y) [
  | inl (gt, t) ↦ mapped y h (rw t)
  | inr (le, t) ↦ elim (ltb_ℤ-cases y (pos 70)) [
    | inl (lt, u) ↦ mapped y h (rw (t, u))
    | inr (ge, u) ↦ record {
      z = y;
      weeks = pos 0;
      found = rw (t, u);
      z_in = (ge, le);
      leap = refl;
      start = omega int_laws;
    }
  ]
]

last_day :
    (leap : Bool) (yday : ℤ)
    → yday <ℤ pos (length_of_year leap)
    → (not leap && eqb_ℤ yday (pos 365)) ≡ false
last_day true yday h = refl
last_day false yday h = elim (eqb_ℤ-cases yday (pos 365)) [
  | inl (e, t) ↦ absurd (omega (arith, h, ap pos_part e, ap neg_part e))
  | inr (ne, t) ↦ rw t
]

same_year : (y : ℤ) → local_year (pos 0) y ≡ ok y
unfolding local_year
same_year y = refl

fake_localtime_r-some :
    (localtime : ℤ → Option Tm) (clock : ℤ) (tm : Tm)
    → localtime clock ≡ some tm
    → fake_localtime_r localtime clock ≡ ok tm
unfolding fake_localtime_r
fake_localtime_r-some localtime clock tm e = rw (fake_localtime_r, e)

-- What `localtime` does where local time is UTC: it converts the times of the years 1970 to 2037.
pub record IsUtc (localtime : ℤ → Option Tm) : Type 0 where
  pub converts :
      (time : ℤ) (tm : Tm)
      → IsCivil time tm
      → pos 70 ≤ℤ tm.year
      → tm.year ≤ℤ pos 137
      → localtime time ≡ some tm

-- Where the C library converts the times of the years 1970 to 2037 to UTC, `localtime64_r` converts
-- every 64-bit time to its civil time, as long as `tm_year` and `tm_year + 1900` of that are in the
-- range of `int`.
pub localtime64_r-IsCivil :
    (localtime : ℤ → Option Tm) (utc : IsUtc localtime) (time : ℤ) (tm : Tm)
    → IsInt64 time
    → IsCivil time tm
    → IsInt tm.year
    → IsInt (tm.year +ℤ pos 1900)
    → localtime64_r localtime time ≡ ok tm
localtime64_r-IsCivil localtime utc time tm h c fits wide =
    let a = asked_year-IsConvertible tm.year wide in
    let z : ℤ = a.z in
    let safe_time : ℤ = time -ℤ a.weeks *ℤ 604800 in
    let moved = IsCivil-moved time tm z a.weeks c a.leap (omega (int_laws, a.start)) in
    let small : IsInt z = omega (arith, a.z_in, parts_disjoint z) in
    let zero : tm.mon -ℤ tm.mon ≡ pos 0 = omega int_laws in
    let back : timegm64 (record tm { year = z }) ≡ ok safe_time =
      timegm64-IsCivil safe_time (record tm { year = z }) moved small in
    let date : gmtime64_r time ≡ ok tm =
      ap (λ r. r >>= gmtime64_r) (sym (timegm64-IsCivil time tm c fits))
      ∙ gmtime64_r-timegm64 time tm h fits wide c in
    localtime64_r_runs localtime time safe_time z tm date a.found back
      (fake_localtime_r-some localtime safe_time (record tm { year = z })
        (utc.converts safe_time (record tm { year = z }) moved a.z_in.0 a.z_in.1))
      (ap int_value zero ∙ int_value_id (pos 0) (omega arith)) (same_year tm.year)
      (int_value_id (tm.year +ℤ pos 1900) wide) (last_day (is_leap tm.year) tm.yday c.date.yday_in)
      (check_tm-ok c wide)
