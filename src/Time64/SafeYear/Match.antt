-- ===== src/Time64/SafeYear/Match.antt =====
-- The year that `safe_year` chooses has the calendar of the year given.
use xylitol.Common.{
  ℕ, ◌+◌, ◌-◌, ◌/◌, ◌%◌, ◌^◌, ◌≤◌, ◌≡◌, refl, sym, ap, ◌∙◌, inl, inr, arith, Bool, true, false, not,
  ◌&&◌, holds_under, holds_under-at, leb,
}
use xylitol.Common.Int.{
  ℤ, pos, pos_part, neg_part, ◌+ℤ◌, ◌-ℤ◌, ◌*ℤ◌, tdiv, tmod, to_int, ◌≤ℤ◌, ◌<ℤ◌, ◌≈ℤ◌, eqb_ℤ,
  int_laws, ltb_ℤ-cases, leb_ℤ-true, parts_disjoint, to_int_id, eqb_ℤ_sound, pos_of_nonneg,
}
use xylitol.Time64.{Result, ok, is_leap, length_of_year}
use xylitol.Time64.Calendar.{jan1, days_of_years, jan1-suc, jan1_eq, jan1-cycles_ℤ}
use xylitol.Time64.SafeYear.{safe_year, pick_year, wrap_cycle, is_exception_century}
use xylitol.Time64.SafeYear.Cycle.{
  plain_offset, plain_cycle, plain_year, plain_year-cycles_above, plain_year-cycles_below,
}
use xylitol.Time64.SafeYear.Range.{safe_year_lem}

-- The comment above `safe_year`: the two years are leap years alike and begin on the same day of
-- the week; so do the years before them; and the years after them begin on the same day.
pub record IsMatch (y s : ℤ) : Type 0 where
  pub leap : is_leap (s -ℤ pos 1900) ≡ is_leap (y -ℤ pos 1900)
  pub weeks : ℤ
  pub start : jan1 (y -ℤ pos 1900) ≈ℤ jan1 (s -ℤ pos 1900) +ℤ weeks *ℤ 7
  pub leap_before : is_leap (s -ℤ pos 1901) ≡ is_leap (y -ℤ pos 1901)
  pub start_before : jan1 (y -ℤ pos 1901) ≈ℤ jan1 (s -ℤ pos 1901) +ℤ weeks *ℤ 7
  pub start_after : jan1 (y -ℤ pos 1899) ≈ℤ jan1 (s -ℤ pos 1899) +ℤ weeks *ℤ 7

-- What is known of a call's result: a year from 1971 to 2037 that matches.
pub record IsSafe (y : ℤ) (r : Result ℤ) : Type 0 where
  pub safe : ℕ
  pub found : r ≡ ok (pos safe)
  pub safe_in : (1971 ≤ safe) × (safe ≤ 2037)
  pub same : IsMatch y (pos safe)

same_bool : Bool → Bool → Bool
same_bool true b = b
same_bool false b = not b

matches : ℤ → Result ℤ → Bool
matches y (ok (pos s)) =
    leb 1971 s
    && leb s 2037
    && same_bool (is_leap (pos s -ℤ pos 1900)) (is_leap (y -ℤ pos 1900))
    && same_bool (is_leap (pos s -ℤ pos 1901)) (is_leap (y -ℤ pos 1901))
    && eqb_ℤ (tmod (jan1 (y -ℤ pos 1900) -ℤ jan1 (pos s -ℤ pos 1900)) 7) (pos 0)
matches y _ = false

same_bool_sound : (a b : Bool) → same_bool a b ≡ true → a ≡ b
unfolding same_bool
same_bool_sound true b h = sym h
same_bool_sound false b h = ground arith

-- The years around a year, from its own first day and the lengths.
IsMatch-around :
    (y s weeks : ℤ)
    → is_leap (s -ℤ pos 1900) ≡ is_leap (y -ℤ pos 1900)
    → is_leap (s -ℤ pos 1901) ≡ is_leap (y -ℤ pos 1901)
    → jan1 (y -ℤ pos 1900) ≈ℤ jan1 (s -ℤ pos 1900) +ℤ weeks *ℤ 7
    → IsMatch y s
IsMatch-around y s weeks leap before start =
    let len = ap length_of_year leap in
    let len' = ap length_of_year before in
    let y₀ = jan1_eq (y -ℤ pos 1901 +ℤ pos 1) (y -ℤ pos 1900) (omega int_laws) in
    let s₀ = jan1_eq (s -ℤ pos 1901 +ℤ pos 1) (s -ℤ pos 1900) (omega int_laws) in
    let y₁ = jan1_eq (y -ℤ pos 1900 +ℤ pos 1) (y -ℤ pos 1899) (omega int_laws) in
    let s₁ = jan1_eq (s -ℤ pos 1900 +ℤ pos 1) (s -ℤ pos 1899) (omega int_laws) in
    record {
      leap = leap;
      weeks = weeks;
      start = start;
      leap_before = before;
      start_before = omega (int_laws, jan1-suc (y -ℤ pos 1901), jan1-suc (s -ℤ pos 1901));
      start_after = omega (int_laws, jan1-suc (y -ℤ pos 1900), jan1-suc (s -ℤ pos 1900));
    }

all_five :
    (a b c d e : Bool)
    → (a && b && c && d && e) ≡ true
    → (a ≡ true) × (b ≡ true) × (c ≡ true) × (d ≡ true) × (e ≡ true)
all_five a b c d e h = ground arith

in_range : (s : ℕ) → leb 1971 s ≡ true → leb s 2037 ≡ true → (1971 ≤ s) × (s ≤ 2037)
in_range s h k = ground arith

matches_sound : (y : ℤ) (r : Result ℤ) → matches y r ≡ true → IsSafe y r
unfolding matches
matches_sound y (ok (pos s)) h =
    let (lo, hi, leap, before, week) = all_five _ _ _ _ _ h in
    let gap : ℤ = jan1 (y -ℤ pos 1900) -ℤ jan1 (pos s -ℤ pos 1900) in
    let whole = eqb_ℤ_sound (tmod gap 7) (pos 0) week in
    record {
      safe = s;
      found = refl;
      safe_in = in_range s lo hi;
      same =
          IsMatch-around y (pos s) (tdiv gap 7) (same_bool_sound _ _ leap)
            (same_bool_sound _ _ before) (omega (int_laws, parts_disjoint gap));
    }
matches_sound y _ h = cc

above_table : holds_under (λ r. matches (pos (2038 + r)) (plain_year (pos (2038 + r)))) 400 ≡ true
unfolding holds_under matches same_bool plain_year pick_year plain_cycle wrap_cycle plain_offset
    is_exception_century jan1 days_of_years is_leap ◌+ℤ◌ ◌-ℤ◌ ◌*ℤ◌ tdiv tmod to_int
above_table = refl

below_table : holds_under (λ r. matches (pos (1970 - r)) (plain_year (pos (1970 - r)))) 400 ≡ true
unfolding holds_under matches same_bool plain_year pick_year plain_cycle wrap_cycle plain_offset
    is_exception_century jan1 days_of_years is_leap ◌+ℤ◌ ◌-ℤ◌ ◌*ℤ◌ tdiv tmod to_int
below_table = refl

-- A match carries over to the years that whole cycles lie between.
IsSafe-cycles :
    (y z : ℤ) (n : ℤ)
    → z ≈ℤ y +ℤ n *ℤ 400
    → plain_year z ≡ plain_year y
    → IsSafe y (plain_year y)
    → IsSafe z (plain_year z)
IsSafe-cycles y z n h e i =
    let m = i.same in
    let here = jan1-cycles_ℤ (z -ℤ pos 1900) (y -ℤ pos 1900) n (omega int_laws) in
    let before = jan1-cycles_ℤ (z -ℤ pos 1901) (y -ℤ pos 1901) n (omega int_laws) in
    record {
      safe = i.safe;
      found = e ∙ i.found;
      safe_in = i.safe_in;
      same =
          IsMatch-around z (pos i.safe) (m.weeks +ℤ n *ℤ 20871) (m.leap ∙ here.1)
            (m.leap_before ∙ before.1) (omega (int_laws, here.0, m.start));
    }

IsMatch-refl : (y : ℤ) → IsMatch y y
IsMatch-refl y = IsMatch-around y y (pos 0) refl refl (omega int_laws)

inside : (y : ℤ) → pos 1971 ≤ℤ y → y ≤ℤ pos 2037 → IsSafe y (plain_year y)
unfolding plain_year
inside y lo hi =
    let same : y ≡ pos (pos_part y) = pos_of_nonneg y (omega arith) in
    let one_sign = parts_disjoint y in
    rw (leb_ℤ-true (pos 1971) y lo, leb_ℤ-true y (pos 2037) hi)
      (record {
        safe = pos_part y;
        found = ap ok (to_int_id y (omega arith) ∙ same);
        safe_in = omega arith;
        same = rw (← same) (IsMatch-refl y);
      })

above : (y : ℤ) → pos 2037 <ℤ y → IsSafe y (plain_year y)
above y h =
    let n : ℕ = pos_part y - 2038 in
    let one_sign = parts_disjoint y in
    let base : IsSafe (pos (2038 + n % 400)) (plain_year (pos (2038 + n % 400))) =
      matches_sound _ _ (
        holds_under-at (λ r. matches (pos (2038 + r)) (plain_year (pos (2038 + r)))) 400 (n % 400)
          (omega arith) above_table) in
    IsSafe-cycles (pos (2038 + n % 400)) y (pos (n / 400)) (omega int_laws)
      (plain_year-cycles_above (pos (2038 + n % 400)) y (n / 400) (omega arith) (omega int_laws))
      base

below : (y : ℤ) → y <ℤ pos 1971 → IsSafe y (plain_year y)
below y h =
    let n : ℕ = pos_part (pos 1970 -ℤ y) in
    let one_sign = parts_disjoint (pos 1970 -ℤ y) in
    let base : IsSafe (pos (1970 - n % 400)) (plain_year (pos (1970 - n % 400))) =
      matches_sound _ _ (
        holds_under-at (λ r. matches (pos (1970 - r)) (plain_year (pos (1970 - r)))) 400 (n % 400)
          (omega arith) below_table) in
    IsSafe-cycles (pos (1970 - n % 400)) y (pos 0 -ℤ pos (n / 400)) (omega int_laws)
      (sym
        (plain_year-cycles_below y (pos (1970 - n % 400)) (n / 400) (omega arith) (omega int_laws)))
      base

plain_year-IsSafe : (y : ℤ) → IsSafe y (plain_year y)
plain_year-IsSafe y = elim (ltb_ℤ-cases y (pos 1971)) [
  | inl (lt, t) ↦ below y lt
  | inr (ge, t) ↦ elim (ltb_ℤ-cases (pos 2037) y) [
    | inl (gt, u) ↦ above y gt
    | inr (le, u) ↦ inside y ge le
  ]
]

-- For every year from -2^62 to 2^62 `safe_year` computes in the range of `int64_t`, passes its
-- assertions and returns a year from 1971 to 2037 that matches the year given: both begin on the same
-- day of the week and are leap years alike, the years before them do so too, and the years after them
-- begin on the same day of the week.
pub safe_year-IsSafe : (y : ℤ) → neg_part y ≤ 2 ^ 62 → pos_part y ≤ 2 ^ 62 → IsSafe y (safe_year y)
safe_year-IsSafe y lo hi = rw (safe_year_lem y lo hi) (plain_year-IsSafe y)
