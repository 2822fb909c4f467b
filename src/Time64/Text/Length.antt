-- ===== src/Time64/Text/Length.antt =====
-- How long the text of a date is.
use xylitol.Common.{
  ℕ, zero, suc, ◌+◌, ◌-◌, ◌/◌, ◌%◌, ◌≤◌, ◌<◌, ◌≡◌, refl, ap, arith, [], ◌∷◌, true, ltb, length,
  length-append, get_or, ◌∙◌, ◌==◌, ==_iff, holds_under, holds_under-at,
}
use xylitol.Common.Int.{
  ℤ, pos, negsuc, pos_part, ◌+ℤ◌, ◌≤ℤ◌, IsInt, int_laws, leb_ℤ-true, parts_disjoint,
}
use xylitol.Time64.{ok, Tm, int_value_id}
use xylitol.Time64.Civil.{IsCivil}
use xylitol.Time64.Unique.{IsDate-mday-le}
use xylitol.Time64.Text.{
  digits, fill_with, int_digits, print_int, pad_int, wday_name, mon_name, valid_tm_wday,
  valid_tm_mon, date_text, asctime64_r, asctime64,
}

length-fill_with : (n c : ℕ) → length (fill_with n c) ≡ n
unfolding fill_with
length-fill_with zero c = refl
length-fill_with (suc n) c = ap suc (length-fill_with n c)

-- No more digits than fuel, and one or two digits below 100.
length-digits : (fuel n : ℕ) → length (digits fuel n) ≤ fuel
unfolding digits
length-digits zero n = omega arith
length-digits (suc fuel) n = ground (
  arith,
  length-digits fuel (n / 10),
  length-append {0} (digits fuel (n / 10)) ((b'0' + n % 10) ∷ []),
)

length-digits_two :
    (fuel n : ℕ)
    → n < 100
    → (1 ≤ length (digits (suc (suc fuel)) n)) × (length (digits (suc (suc fuel)) n) ≤ 2)
unfolding digits
length-digits_two fuel n h = ground arith

length-int_digits :
    (precision n : ℕ)
    → length (int_digits precision n) ≡ precision - length (digits 10 n) + length (digits 10 n)
unfolding int_digits
length-int_digits precision n =
    length-append {0} (fill_with (precision - length (digits 10 n)) b'0') (digits 10 n)
    ∙ ap (λ k. k + length (digits 10 n)) (length-fill_with (precision - length (digits 10 n)) b'0')

length-print_int : (z : ℤ) → length (print_int 1 z) ≤ 11
unfolding print_int
length-print_int (pos n) = omega (arith, length-int_digits 1 n, length-digits 10 n)
length-print_int (negsuc n) = omega (arith, length-int_digits 1 (suc n), length-digits 10 (suc n))

length-print_int_two : (z : ℤ) → pos 0 ≤ℤ z → z ≤ℤ pos 99 → length (print_int 2 z) ≡ 2
unfolding print_int
length-print_int_two (pos n) lo hi =
    omega (arith, length-int_digits 2 n, length-digits_two 8 n (omega arith))
length-print_int_two (negsuc n) lo hi = absurd (omega arith)

length-pad_int : (z : ℤ) → pos 0 ≤ℤ z → z ≤ℤ pos 99 → length (pad_int 3 z) ≡ 3
unfolding pad_int print_int
length-pad_int (pos n) lo hi = omega (
  arith,
  length-append {0} (fill_with (3 - length (int_digits 1 n)) b' ') (int_digits 1 n),
  length-fill_with (3 - length (int_digits 1 n)) b' ',
  length-int_digits 1 n,
  length-digits_two 8 n (omega arith),
)
length-pad_int (negsuc n) lo hi = absurd (omega arith)

names_three :
    (holds_under (λ i. length (get_or wday_name i []) == 3) 7 ≡ true)
    × (holds_under (λ i. length (get_or mon_name i []) == 3) 12 ≡ true)
unfolding holds_under
names_three = (refl, refl)

length-wday_name : (i : ℕ) → i < 7 → length (get_or wday_name i []) ≡ 3
length-wday_name i h =
    (==_iff _ 3).0 (holds_under-at (λ i. length (get_or wday_name i []) == 3) 7 i h names_three.0)

length-mon_name : (i : ℕ) → i < 12 → length (get_or mon_name i []) ≡ 3
length-mon_name i h =
    (==_iff _ 3).0 (holds_under-at (λ i. length (get_or mon_name i []) == 3) 12 i h names_three.1)

-- The text of a civil time takes at most 32 bytes.
pub length-date_text :
    (time : ℤ) (tm : Tm) (year : ℤ) → IsCivil time tm → length (date_text tm year) ≤ 32
unfolding date_text
length-date_text time tm year c =
    let d = c.date in
    let w = c.week_day in
    let k = c.clock in
    let one_sign = parts_disjoint tm.wday in
    let one_sign' = parts_disjoint tm.mon in
    omega (
      arith,
      length-append {0},
      length-wday_name (pos_part tm.wday) (omega (arith, w.wday_in)),
      length-mon_name (pos_part tm.mon) (omega (arith, d.mon_in)),
      length-pad_int tm.mday (omega (arith, d.mday_in)) (omega (arith, IsDate-mday-le c.day tm d)),
      length-print_int_two tm.hour k.hour_in.0 (omega (arith, k.hour_in)),
      length-print_int_two tm.min k.min_in.0 (omega (arith, k.min_in)),
      length-print_int_two tm.sec k.sec_in.0 (omega (arith, k.sec_in)),
      length-print_int year,
    )

-- `asctime64` of a civil time whose year from 0 is in the range of `int` writes its text, which
-- fits in the static buffer of 35 bytes together with its NUL.
pub asctime64-IsCivil :
    (time : ℤ) (tm : Tm)
    → IsCivil time tm
    → IsInt (tm.year +ℤ pos 1900)
    → asctime64 tm ≡ ok (date_text tm (pos 1900 +ℤ tm.year))
unfolding asctime64 asctime64_r valid_tm_wday valid_tm_mon
asctime64-IsCivil time tm c fits =
    let d = c.date in
    let w = c.week_day in
    let year : ℤ = pos 1900 +ℤ tm.year in
    let same : tm.year +ℤ pos 1900 ≡ year = omega int_laws in
    rw (
      leb_ℤ-true (pos 0) tm.wday w.wday_in.0,
      leb_ℤ-true tm.wday (pos 6) w.wday_in.1,
      leb_ℤ-true (pos 0) tm.mon d.mon_in.0,
      leb_ℤ-true tm.mon (pos 11) d.mon_in.1,
      int_value_id year (rw same at fits),
      lt→ltb (length (date_text tm year)) 35 (omega (arith, length-date_text time tm year c)),
    )
  where
    lt→ltb : (m n : ℕ) → m < n → ltb m n ≡ true
    lt→ltb m n h = ground arith
