-- ===== src/Time64/Calendar.antt =====
-- The proleptic Gregorian calendar, as the reference for time64.c: the number of the day on which
-- a year begins, counted from 1970-01-01. Years are counted from 1900, as in `tm_year`.
use xylitol.Common.{
  not, ◌&&◌, ◌||◌, ◌==◌, Bool, ℕ, zero, suc, ◌+◌, ◌-◌, ◌*◌, ◌/◌, ◌%◌, ◌≤◌, ◌≡◌, refl, inl, inr,
  arith, sym, ◌∙◌,
}
use xylitol.Common.Int.{
  ℤ, pos, negsuc, pos_part, neg_part, ◌+ℤ◌, ◌-ℤ◌, ◌*ℤ◌, ◌≤ℤ◌, ◌<ℤ◌, ◌≈ℤ◌, +ℤ_parts, -ℤ_parts,
  tmod_parts, int_laws, ltb_ℤ-cases,
}
use xylitol.Time64.{is_leap, length_of_year}

-- The days of the whole years 1 to g, with year 0 and those before it counted as negative.
unfoldable pub days_of_years : ℤ → ℤ
days_of_years (pos g) = pos (365 * g + g / 4 - g / 100 + g / 400)
days_of_years (negsuc n) = negsuc (365 * n + n / 4 - n / 100 + n / 400 + 365)

-- The number of January 1st of the year 1900 + y.
unfoldable pub jan1 : ℤ → ℤ
jan1 y = days_of_years (y +ℤ pos 1899) -ℤ pos 719162

pub jan1_epoch : jan1 (pos 70) ≡ pos 0
unfolding jan1 days_of_years ◌+ℤ◌ ◌-ℤ◌
jan1_epoch = refl

pub jan1_2008 : jan1 (pos 108) ≡ pos 13879
unfolding jan1 days_of_years ◌+ℤ◌ ◌-ℤ◌
jan1_2008 = refl

-- The leap rule on the absolute value of a year's number.
abbrev leap_number : ℕ → Bool
leap_number n = n % 400 == 0 || (n % 4 == 0 && not (n % 100 == 0))

leap_number-is_leap :
    (y z : ℤ) → y +ℤ pos 1900 ≡ z → is_leap y ≡ leap_number (pos_part z + neg_part z)
unfolding is_leap
leap_number-is_leap y (pos n) e =
    rw e (ground (arith, tmod_parts (pos n) 400, tmod_parts (pos n) 4, tmod_parts (pos n) 100))
leap_number-is_leap y (negsuc n) e =
    rw e (
      ground (arith, tmod_parts (negsuc n) 400, tmod_parts (negsuc n) 4, tmod_parts (negsuc n) 100))

suc_ℤ : ℤ → ℤ
suc_ℤ (pos n) = pos (suc n)
suc_ℤ (negsuc zero) = pos 0
suc_ℤ (negsuc (suc n)) = negsuc n

suc_ℤ-eq : (z : ℤ) → suc_ℤ z ≡ z +ℤ pos 1
unfolding suc_ℤ
suc_ℤ-eq (pos n) = omega int_laws
suc_ℤ-eq (negsuc zero) = omega int_laws
suc_ℤ-eq (negsuc (suc n)) = omega int_laws

days_of_years-suc_ℤ :
    (g : ℤ)
    → days_of_years (suc_ℤ g)
      ≈ℤ days_of_years g
        +ℤ pos (length_of_year (leap_number (pos_part (suc_ℤ g) + neg_part (suc_ℤ g))))
unfolding days_of_years suc_ℤ ◌+ℤ◌
days_of_years-suc_ℤ (pos n) = ground arith
days_of_years-suc_ℤ (negsuc zero) = ground arith
days_of_years-suc_ℤ (negsuc (suc n)) = ground arith

days_of_years-cycles :
    (g h : ℤ) (k : ℕ)
    → h ≈ℤ g +ℤ pos (400 * k)
    → days_of_years h ≈ℤ days_of_years g +ℤ pos (146097 * k)
unfolding days_of_years ◌+ℤ◌
days_of_years-cycles (pos n) (pos m) k e = ground arith
days_of_years-cycles (pos n) (negsuc m) k e = ground arith
days_of_years-cycles (negsuc n) (pos m) k e = ground arith
days_of_years-cycles (negsuc n) (negsuc m) k e = ground arith

days_of_years_mono : (g h : ℤ) → g ≤ℤ h → days_of_years g ≤ℤ days_of_years h
unfolding days_of_years
days_of_years_mono (pos n) (pos m) e = omega arith
days_of_years_mono (pos n) (negsuc m) e = absurd (omega arith)
days_of_years_mono (negsuc n) (pos m) e = omega arith
days_of_years_mono (negsuc n) (negsuc m) e = omega arith

-- A year begins as many days after the year before as that year is long.
pub jan1-suc : (y : ℤ) → jan1 (y +ℤ pos 1) ≈ℤ jan1 y +ℤ pos (length_of_year (is_leap y))
unfolding jan1
jan1-suc y =
    let g : ℤ = y +ℤ pos 1899 in
    let e : suc_ℤ g ≡ y +ℤ pos 1900 = suc_ℤ-eq g ∙ omega int_laws in
    let e' : suc_ℤ g ≡ y +ℤ pos 1 +ℤ pos 1899 = suc_ℤ-eq g ∙ omega int_laws in
    rw (leap_number-is_leap y (suc_ℤ g) (sym e), ← e')
      (omega (arith, days_of_years-suc_ℤ g, -ℤ_parts, +ℤ_parts))

-- 400 k years are 146097 k days.
pub jan1-cycles : (y z : ℤ) (k : ℕ) → z ≈ℤ y +ℤ pos (400 * k) → jan1 z ≈ℤ jan1 y +ℤ pos (146097 * k)
unfolding jan1
jan1-cycles y z k h = omega (
  arith,
  days_of_years-cycles (y +ℤ pos 1899) (z +ℤ pos 1899) k (omega int_laws),
  -ℤ_parts,
  +ℤ_parts,
)

length_of_year_inj : (a b : Bool) → length_of_year a ≡ length_of_year b → a ≡ b
length_of_year_inj a b h = ground arith

-- The leap years repeat after 400 years.
pub is_leap-cycles : (y z : ℤ) (k : ℕ) → z ≈ℤ y +ℤ pos (400 * k) → is_leap z ≡ is_leap y
is_leap-cycles y z k h = length_of_year_inj _ _ (
    omega (
      arith,
      jan1-suc y,
      jan1-suc z,
      jan1-cycles y z k h,
      jan1-cycles (y +ℤ pos 1) (z +ℤ pos 1) k (omega int_laws),
      +ℤ_parts,
    ))

-- A later year begins no earlier.
pub jan1_mono : (y z : ℤ) → y ≤ℤ z → jan1 y ≤ℤ jan1 z
unfolding jan1
jan1_mono y z h =
    omega (
      arith,
      days_of_years_mono (y +ℤ pos 1899) (z +ℤ pos 1899) (omega int_laws),
      -ℤ_parts,
      +ℤ_parts,
    )

-- The same for a signed number of cycles.
pub jan1-cycles_ℤ :
    (y z c : ℤ) → y ≈ℤ z +ℤ c *ℤ 400 → (jan1 y ≈ℤ jan1 z +ℤ c *ℤ 146097) × (is_leap z ≡ is_leap y)
jan1-cycles_ℤ y z (pos k) h = (
  omega (int_laws, jan1-cycles z y k (omega int_laws)),
  sym (is_leap-cycles z y k (omega int_laws)),
)
jan1-cycles_ℤ y z (negsuc n) h = (
  omega (int_laws, jan1-cycles y z (suc n) (omega int_laws)),
  is_leap-cycles y z (suc n) (omega int_laws),
)

-- The order of the years is that of the days on which they begin.
pub lt_of_jan1 : (y z : ℤ) → jan1 y <ℤ jan1 z → y <ℤ z
lt_of_jan1 y z h = elim (ltb_ℤ-cases y z) [
  | inl (lt, t) ↦ lt
  | inr (ge, t) ↦ absurd (omega (arith, jan1_mono z y ge))
]

-- `≡` on years carries over to the parts of the day numbers, which is what `omega` reads.
pub jan1_eq : (y z : ℤ) → y ≈ℤ z → jan1 y ≈ℤ jan1 z
jan1_eq y z h = omega (arith, jan1_mono y z (omega arith), jan1_mono z y (omega arith))

pub length_of_year_range : (b : Bool) → (365 ≤ length_of_year b) × (length_of_year b ≤ 366)
length_of_year_range b = ground arith
