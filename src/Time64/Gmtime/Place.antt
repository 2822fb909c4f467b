-- ===== src/Time64/Gmtime/Place.antt =====
-- The year, the month and the day of the month that `gmtime64_r` finds.
use xylitol.Common.{ℕ, ◌+◌, ◌-◌, ◌^◌, ◌<◌, ◌≡◌, ap, inl, inr, arith, get_elem?, some}
use xylitol.Common.Int.{
  ℤ, pos, negsuc, pos_part, neg_part, ◌+ℤ◌, ◌-ℤ◌, tdiv, to_int, ◌≤ℤ◌, ◌<ℤ◌, ◌≈ℤ◌, int_laws,
  leb_ℤ-cases, parts_disjoint, pos_of_nonneg, negsuc_of_neg, leb_ℤ-true,
}
use xylitol.Time64.{Result, ok, days_in_month, julian_days_by_month, length_of_year, is_leap}
use xylitol.Time64.Calendar.{jan1, jan1_epoch, jan1_2008, jan1-suc}
use xylitol.Time64.Civil.{IsYearOf}
use xylitol.Time64.Gmtime.{
  drop_cycles, years_up, years_down, months_up, months_down, forward, backward, locate,
}
use xylitol.Time64.Gmtime.Days.{months_up-InMonth, months_down-InMonth}
use xylitol.Time64.Gmtime.Years.{skip_up, skip_down}

pub record Located (day y : ℤ) (r : Result (ℤ × ℤ × ℤ)) : Type 0 where
  pub m : ℕ
  pub mon : ℕ
  pub days : ℕ
  pub julian : ℕ
  pub found : r ≡ ok (y, pos mon, pos m)
  pub mon_in : mon < 12
  pub days_at : get_elem? (days_in_month (is_leap y)) mon ≡ some days
  pub m_in : m < days
  pub julian_at : get_elem? (julian_days_by_month (is_leap y)) mon ≡ some julian
  pub sum : pos (julian + m) +ℤ jan1 y ≈ℤ day
  pub in_year : julian + m < length_of_year (is_leap y)

forward_runs :
    (m year y r day mon : ℤ) (k : ℕ)
    → (let p = drop_cycles (to_int (tdiv m 146097)) m year in years_up 401 p.0 p.1) ≡ ok (r, y)
    → r ≡ pos k
    → months_up 12 (is_leap y) (pos k) (pos 0) ≡ ok (day, mon)
    → forward m year ≡ ok (y, mon, day)
unfolding forward
forward_runs m year y r day mon k e₁ e₂ e₃ = rw (e₁, e₂, e₃)

backward_runs :
    (m year y r day mon : ℤ) (n : ℕ)
    → (let p = drop_cycles (to_int (tdiv m 146097 +ℤ pos 1)) m year in years_down 801 p.0 p.1)
      ≡ ok (r, y)
    → r ≡ negsuc n
    → months_down 12 (is_leap y) (negsuc n) (pos 11) ≡ ok (day, mon)
    → backward m year ≡ ok (y, mon, day)
unfolding backward
backward_runs m year y r day mon n e₁ e₂ e₃ = rw (e₁, e₂, e₃)

forward-Located :
    (m year y day : ℤ)
    → pos 0 ≤ℤ m
    → pos_part m < 2 ^ 47
    → day ≈ℤ m +ℤ jan1 year
    → IsYearOf day y
    → Located day y (forward m year)
forward-Located m year y day lo fits e h =
    let r : ℤ = m +ℤ jan1 year -ℤ jan1 y in
    let k : ℕ = pos_part r in
    let one_sign = parts_disjoint r in
    let left : r ≡ pos k = pos_of_nonneg r (omega (int_laws, h.from)) in
    let short : k < length_of_year (is_leap y) = omega (int_laws, h.to, jan1-suc y) in
    let place = months_up-InMonth (is_leap y) k short in
    let years = skip_up m year y lo fits (omega (int_laws, h.from)) (omega (int_laws, h.to)) in
    record {
      m = place.day;
      mon = place.mon;
      days = place.days;
      julian = place.julian;
      found = forward_runs m year y r (pos place.day) (pos place.mon) k years left place.found;
      mon_in = place.mon_in;
      days_at = place.days_at;
      m_in = place.day_in;
      julian_at = place.julian_at;
      sum = omega (int_laws, place.sum, ap pos_part left, ap neg_part left);
      in_year = omega (arith, place.sum);
    }

backward-Located :
    (m year y day : ℤ)
    → m <ℤ pos 0
    → neg_part m < 2 ^ 47
    → day ≈ℤ m +ℤ jan1 (year +ℤ pos 1)
    → IsYearOf day y
    → Located day y (backward m year)
backward-Located m year y day lo fits e h =
    let r : ℤ = m +ℤ jan1 (year +ℤ pos 1) -ℤ jan1 (y +ℤ pos 1) in
    let n : ℕ = neg_part r - 1 in
    let one_sign = parts_disjoint r in
    let left : r ≡ negsuc n = negsuc_of_neg r (omega (int_laws, h.to)) in
    let short : n < length_of_year (is_leap y) = omega (int_laws, h.from, h.to, jan1-suc y) in
    let place = months_down-InMonth (is_leap y) n short in
    let years = skip_down m year y lo fits (omega (int_laws, h.from)) (omega (int_laws, h.to)) in
    record {
      m = place.day;
      mon = place.mon;
      days = place.days;
      julian = place.julian;
      found = backward_runs m year y r (pos place.day) (pos place.mon) n years left place.found;
      mon_in = place.mon_in;
      days_at = place.days_at;
      m_in = place.day_in;
      julian_at = place.julian_at;
      sum = omega (int_laws, place.sum, jan1-suc y, ap pos_part left, ap neg_part left);
      in_year = omega (arith, place.sum);
    }

-- `locate` of a day number between -2^47 and 2^47 that falls in the year `y` ends with that year,
-- and with the month and the day of the month that the tables give for it.
pub locate-Located :
    (day y : ℤ)
    → neg_part day < 2 ^ 47
    → pos_part day < 2 ^ 47
    → IsYearOf day y
    → Located day y (locate day)
unfolding locate
locate-Located day y lo hi h = elim (leb_ℤ-cases (pos 13879) day) [
  | inl (le, t) ↦
      rw (t, leb_ℤ-true (pos 0) (day -ℤ pos 13879) (omega int_laws))
        (forward-Located (day -ℤ pos 13879) (pos 108) y day (omega int_laws)
          (omega (int_laws, parts_disjoint (day -ℤ pos 13879))) (rw jan1_2008 (omega int_laws)) h)
  | inr (lt, t) ↦ rw t (elim (leb_ℤ-cases (pos 0) day) [
    | inl (le, u) ↦
        rw u (forward-Located day (pos 70) y day le hi (rw jan1_epoch (omega int_laws)) h)
    | inr (lt, u) ↦
        let next : pos 70 -ℤ pos 1 +ℤ pos 1 ≡ pos 70 = omega int_laws in
        rw u (
          backward-Located day (pos 70 -ℤ pos 1) y day lt lo
            (rw (next, jan1_epoch) (omega int_laws)) h)
  ])
]
