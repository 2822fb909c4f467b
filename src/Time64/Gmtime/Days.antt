-- ===== src/Time64/Gmtime/Days.antt =====
-- The loops of `gmtime64_r` over the years and the months, against the calendar.
use xylitol.Common.{
  ℕ, ◌+◌, ◌-◌, ◌<◌, ◌≡◌, refl, Bool, true, false, ◌&&◌, ◌==◌, arith, get_elem?, Option, some, ltb,
  holds_under, holds_under-at,
}
use xylitol.Common.Int.{ℤ, pos, negsuc, ◌+ℤ◌, ◌-ℤ◌}
use xylitol.Time64.{Result, ok, days_in_month, julian_days_by_month, length_of_year}
use xylitol.Time64.Gmtime.{months_up, months_down}

-- Day `day` of month `mon`, both counted from 0, is day `k` of the year.
pub record InMonth (leap : Bool) (k : ℕ) (r : Result (ℤ × ℤ)) : Type 0 where
  pub day : ℕ
  pub mon : ℕ
  pub days : ℕ
  pub julian : ℕ
  pub found : r ≡ ok (pos day, pos mon)
  pub mon_in : mon < 12
  pub days_at : get_elem? (days_in_month leap) mon ≡ some days
  pub day_in : day < days
  pub julian_at : get_elem? (julian_days_by_month leap) mon ≡ some julian
  pub sum : julian + day ≡ k

fits : ℕ → ℕ → ℕ → Option ℕ → Option ℕ → Bool
fits k day mon (some days) (some julian) = ltb day days && ltb mon 12 && (julian + day == k)
fits k day mon _ _ = false

in_month : Bool → ℕ → Result (ℤ × ℤ) → Bool
in_month leap k (ok (pos day, pos mon)) =
    fits k day mon (get_elem? (days_in_month leap) mon) (get_elem? (julian_days_by_month leap) mon)
in_month leap k _ = false

fits_sound :
    (k day mon : ℕ) (d j : Option ℕ)
    → fits k day mon d j ≡ true
    → (days julian : ℕ) × (d ≡ some days)
      × (j ≡ some julian)
      × (day < days)
      × (mon < 12)
      × (julian + day ≡ k)
unfolding fits
fits_sound k day mon (some days) (some julian) h =
    (days, julian, refl, refl, ground arith, ground arith, ground arith)
fits_sound k day mon _ _ h = cc

in_month_sound :
    (leap : Bool) (k : ℕ) (r : Result (ℤ × ℤ)) → in_month leap k r ≡ true → InMonth leap k r
unfolding in_month
in_month_sound leap k (ok (pos day, pos mon)) h =
    let (days, julian, at, jat, lt, in_year, sum) =
      fits_sound k day mon (get_elem? (days_in_month leap) mon)
        (get_elem? (julian_days_by_month leap) mon) h in
    record {
      day = day;
      mon = mon;
      days = days;
      julian = julian;
      found = refl;
      mon_in = in_year;
      days_at = at;
      day_in = lt;
      julian_at = jat;
      sum = sum;
    }
in_month_sound leap k _ h = cc

-- Every day of either kind of year, in either direction.
up_table :
    (leap : Bool)
    → holds_under (λ k. in_month leap k (months_up 12 leap (pos k) (pos 0))) (length_of_year leap)
      ≡ true
unfolding holds_under in_month fits months_up ◌+ℤ◌ ◌-ℤ◌
up_table false = refl
up_table true = refl

down_table :
    (leap : Bool)
    → holds_under
        (λ n. in_month leap (length_of_year leap - 1 - n) (months_down 12 leap (negsuc n) (pos 11)))
        (length_of_year leap)
      ≡ true
unfolding holds_under in_month fits months_down ◌+ℤ◌ ◌-ℤ◌
down_table false = refl
down_table true = refl

pub months_up-InMonth :
    (leap : Bool) (k : ℕ)
    → k < length_of_year leap
    → InMonth leap k (months_up 12 leap (pos k) (pos 0))
months_up-InMonth leap k h = in_month_sound leap k _ (
    holds_under-at (λ k. in_month leap k (months_up 12 leap (pos k) (pos 0))) (length_of_year leap)
      k h (up_table leap))

pub months_down-InMonth :
    (leap : Bool) (n : ℕ)
    → n < length_of_year leap
    → InMonth leap (length_of_year leap - 1 - n) (months_down 12 leap (negsuc n) (pos 11))
months_down-InMonth leap n h = in_month_sound leap _ _ (
    holds_under-at
      (λ n. in_month leap (length_of_year leap - 1 - n) (months_down 12 leap (negsuc n) (pos 11)))
      (length_of_year leap) n h (down_table leap))
