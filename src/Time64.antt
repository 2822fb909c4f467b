-- ===== src/Time64.antt =====
-- What the functions of legacy/old-shashlik/src/deps/stripped_bionic/time64.c share: `struct tm`,
-- the tables, `IS_LEAP`, and how a call ends. The file is built without `time64_config.h`, so
-- `struct TM` is `struct tm`, and neither `tm_gmtoff` nor `tm_zone` is read or written.
pub mod Calendar
pub mod Civil
pub mod Unique
pub mod RoundTrip
pub mod SafeYear
pub mod Local
pub mod Static
pub mod Text
pub mod Timegm
pub mod Gmtime
mod Tests
use xylitol.Common.{
  ℕ, Bool, true, false, not, ◌&&◌, ◌||◌, Option, none, some, List, [], ◌∷◌, get_elem?,
  if◌then◌else◌, ◌≡◌, arith, inl, inr, ◌+◌, ◌≤◌,
}
use xylitol.Common.Int.{
  ℤ, pos, negsuc, ◌+ℤ◌, leb_ℤ, eqb_ℤ, tmod, IsInt, IsInt64, leb_ℤ-cases, parts_disjoint,
}

-- How a call ends: with a value; with NULL and `errno` set to EOVERFLOW; with NULL; in a failed
-- `assert`; or in behaviour that C leaves undefined, which is a read outside a table or a signed
-- `int` sum or product out of range. A loop of the model that runs out of fuel is `undefined` too.
pub data Result {ℓ} (A : Type ℓ) : Type ℓ where
  ok : A → Result A
  overflow null aborted undefined : Result A

infixl 5 ◌>>=◌ ◌>>◌
abbrev pub ◌>>=◌ {ℓ κ} : {A : Type ℓ} {B : Type κ} → Result A → (A → Result B) → Result B
ok a >>= f = f a
overflow >>= f = overflow
null >>= f = null
aborted >>= f = aborted
undefined >>= f = undefined

abbrev pub ◌>>◌ {ℓ} : {B : Type ℓ} → Result (Unit {0}) → Result B → Result B
m >> k = m >>= λ _. k

-- `struct tm`, whose fields are of type `int`.
pub record Tm : Type 0 where
  pub sec : ℤ
  pub min : ℤ
  pub hour : ℤ
  pub mday : ℤ
  pub mon : ℤ
  pub year : ℤ
  pub wday : ℤ
  pub yday : ℤ
  pub isdst : ℤ

-- A value that an `int` expression computes.
unfoldable pub int_value : ℤ → Result ℤ
int_value z = if leb_ℤ (negsuc 2147483647) z && leb_ℤ z (pos 2147483647) then ok z else undefined

pub int_value_id : (z : ℤ) → IsInt z → int_value z ≡ ok z
unfolding int_value
int_value_id z h = ground arith

-- A value that an `int64_t` expression computes.
unfoldable pub int64_value : ℤ → Result ℤ
int64_value z =
    if leb_ℤ (negsuc 9223372036854775807) z && leb_ℤ z (pos 9223372036854775807)
    then ok z
    else undefined

pub int64_value_id : (z : ℤ) → IsInt64 z → int64_value z ≡ ok z
unfolding int64_value
int64_value_id z h = ground arith

pub int_value_out : (z : ℤ) → ¬ IsInt z → int_value z ≡ undefined
unfolding int_value
int_value_out z wide = elim (leb_ℤ-cases (negsuc 2147483647) z) [
  | inr (lo, t) ↦ rw t
  | inl (lo, t) ↦ rw t (elim (leb_ℤ-cases z (pos 2147483647)) [
    | inr (hi, u) ↦ rw u
    | inl (hi, u) ↦ absurd (wide (omega (arith, parts_disjoint z)))
  ])
]

-- `assert`
abbrev pub assert : Bool → Result (Unit {0})
assert b = if b then ok tt else aborted

-- `table[i]`
abbrev pub entry : Option ℕ → Result ℕ
entry none = undefined
entry (some d) = ok d

abbrev pub read : List ℕ → ℤ → Result ℕ
read table (pos i) = entry (get_elem? table i)
read table (negsuc i) = undefined

abbrev pub days_in_month : Bool → List ℕ
days_in_month false = 31 ∷ 28 ∷ 31 ∷ 30 ∷ 31 ∷ 30 ∷ 31 ∷ 31 ∷ 30 ∷ 31 ∷ 30 ∷ 31 ∷ []
days_in_month true = 31 ∷ 29 ∷ 31 ∷ 30 ∷ 31 ∷ 30 ∷ 31 ∷ 31 ∷ 30 ∷ 31 ∷ 30 ∷ 31 ∷ []

abbrev pub julian_days_by_month : Bool → List ℕ
julian_days_by_month false = 0 ∷ 31 ∷ 59 ∷ 90 ∷ 120 ∷ 151 ∷ 181 ∷ 212 ∷ 243 ∷ 273 ∷ 304 ∷ 334 ∷ []
julian_days_by_month true = 0 ∷ 31 ∷ 60 ∷ 91 ∷ 121 ∷ 152 ∷ 182 ∷ 213 ∷ 244 ∷ 274 ∷ 305 ∷ 335 ∷ []

abbrev pub length_of_year : Bool → ℕ
length_of_year false = 365
length_of_year true = 366

abbrev pub years_in_gregorian_cycle : ℕ
years_in_gregorian_cycle = 400

abbrev pub days_in_gregorian_cycle : ℕ
days_in_gregorian_cycle = 146097

-- `IS_LEAP(n)`: n counts years from 1900.
unfoldable pub is_leap : ℤ → Bool
unfolding tmod ◌+ℤ◌
is_leap n =
    eqb_ℤ (tmod (n +ℤ pos 1900) 400) (pos 0)
    || (eqb_ℤ (tmod (n +ℤ pos 1900) 4) (pos 0) && not (eqb_ℤ (tmod (n +ℤ pos 1900) 100) (pos 0)))
