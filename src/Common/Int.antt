-- ===== src/Common/Int.antt =====
-- Signed integers over the native numbers, as C computes with them: division and remainder
-- truncate towards zero, and a conversion to a 32-bit `int` keeps the low 32 bits.
use Prim.Native.Nat.{ℕ, suc, ◌+◌, ◌-◌, ◌*◌, ◌/◌, ◌%◌, ◌^◌, ◌≤◌, ◌<◌}
use mathlib.Core.Path.{◌≡◌, refl, ap}
use mathlib.Core.Logic.{◌⊎◌, ◌≢◌, inl, inr}
use mathlib.Core.Bool.{Bool, true, false}
use native.Mathlib.Nat.{zero-div, zero-mod}
use native.Mathlib.Omega.{arith}
use xylitol.Common.Tests.{ltb, leb, ◌==◌, if◌then◌else◌}

-- `negsuc n` is -(n + 1).
pub data ℤ : Type 0 where
  pos : ℕ → ℤ
  negsuc : ℕ → ℤ

abbrev pub pos_part : ℤ → ℕ
pos_part (pos n) = n
pos_part (negsuc n) = 0

abbrev pub neg_part : ℤ → ℕ
neg_part (pos n) = 0
neg_part (negsuc n) = suc n

-- a - b, as an integer.
abbrev pub sub_ℕ : ℕ → ℕ → ℤ
sub_ℕ a b = if leb b a then pos (a - b) else negsuc (b - a - 1)

infixl 65 ◌+ℤ◌ ◌-ℤ◌
infixl 70 ◌*ℤ◌
infix 50 ◌≤ℤ◌ ◌<ℤ◌ ◌≈ℤ◌
unfoldable pub ◌+ℤ◌ : ℤ → ℤ → ℤ
a +ℤ b = sub_ℕ (pos_part a + pos_part b) (neg_part a + neg_part b)

unfoldable pub ◌-ℤ◌ : ℤ → ℤ → ℤ
a -ℤ b = sub_ℕ (pos_part a + neg_part b) (neg_part a + pos_part b)

-- A product with a literal factor, the only kind that the code has.
unfoldable pub ◌*ℤ◌ : ℤ → ℕ → ℤ
a *ℤ k = sub_ℕ (pos_part a * k) (neg_part a * k)

-- C's `/` and `%` by a positive literal: the quotient is rounded towards zero.
unfoldable pub tdiv : ℤ → ℕ → ℤ
tdiv a k = sub_ℕ (pos_part a / k) (neg_part a / k)

unfoldable pub tmod : ℤ → ℕ → ℤ
tmod a k = sub_ℕ (pos_part a % k) (neg_part a % k)

-- The conversion `(int)`: the residue modulo 2 ^ 32 that lies from -2 ^ 31 to 2 ^ 31 - 1.
abbrev wrap32 : ℕ → ℤ
wrap32 r = if ltb r (2 ^ 31) then pos r else negsuc (2 ^ 32 - 1 - r)

unfoldable pub to_int : ℤ → ℤ
to_int (pos n) = wrap32 (n % 2 ^ 32)
to_int (negsuc n) = wrap32 (2 ^ 32 - 1 - n % 2 ^ 32)

abbrev pub ◌≤ℤ◌ : ℤ → ℤ → Type 0
a ≤ℤ b = pos_part a + neg_part b ≤ pos_part b + neg_part a

abbrev pub ◌<ℤ◌ : ℤ → ℤ → Type 0
a <ℤ b = pos_part a + neg_part b < pos_part b + neg_part a

-- Equality, in the form that `omega` reads.
abbrev pub ◌≈ℤ◌ : ℤ → ℤ → Type 0
a ≈ℤ b = pos_part a + neg_part b ≡ pos_part b + neg_part a

abbrev pub ltb_ℤ : ℤ → ℤ → Bool
ltb_ℤ a b = ltb (pos_part a + neg_part b) (pos_part b + neg_part a)

abbrev pub leb_ℤ : ℤ → ℤ → Bool
leb_ℤ a b = leb (pos_part a + neg_part b) (pos_part b + neg_part a)

abbrev pub eqb_ℤ : ℤ → ℤ → Bool
eqb_ℤ a b = pos_part a + neg_part b == pos_part b + neg_part a

-- The range of `int`, and that of `int64_t`.
abbrev pub IsInt : ℤ → Type 0
IsInt a = (neg_part a ≤ 2 ^ 31) × (pos_part a < 2 ^ 31)

abbrev pub IsInt64 : ℤ → Type 0
IsInt64 a = (neg_part a ≤ 2 ^ 63) × (pos_part a < 2 ^ 63)

-- One lemma for each operation lets `omega` work with the operations shut, at any depth.
pub +ℤ_parts :
    (a b : ℤ)
    → pos_part (a +ℤ b) + neg_part a + neg_part b ≡ neg_part (a +ℤ b) + pos_part a + pos_part b
unfolding ◌+ℤ◌
+ℤ_parts a b = ground arith

pub -ℤ_parts :
    (a b : ℤ)
    → pos_part (a -ℤ b) + neg_part a + pos_part b ≡ neg_part (a -ℤ b) + pos_part a + neg_part b
unfolding ◌-ℤ◌
-ℤ_parts a b = ground arith

pub *ℤ_parts :
    (a : ℤ) (k : ℕ) → (pos_part (a *ℤ k) ≡ pos_part a * k) × (neg_part (a *ℤ k) ≡ neg_part a * k)
unfolding ◌*ℤ◌
*ℤ_parts (pos n) k = ground arith
*ℤ_parts (negsuc n) k = ground arith

pub tdiv_parts :
    (a : ℤ) (k : ℕ)
    → (pos_part (tdiv a k) ≡ pos_part a / k) × (neg_part (tdiv a k) ≡ neg_part a / k)
unfolding tdiv
tdiv_parts (pos n) k = ground (arith, zero-div k)
tdiv_parts (negsuc n) k = ground (arith, zero-div k)

pub tmod_parts :
    (a : ℤ) (k : ℕ)
    → (pos_part (tmod a k) ≡ pos_part a % k) × (neg_part (tmod a k) ≡ neg_part a % k)
unfolding tmod
tmod_parts (pos n) k = ground (arith, zero-mod k)
tmod_parts (negsuc n) k = ground (arith, zero-mod k)

-- One of the two parts is zero.
pub parts_disjoint : (a : ℤ) → (pos_part a ≡ 0) ⊎ (neg_part a ≡ 0)
parts_disjoint (pos n) = inr refl
parts_disjoint (negsuc n) = inl refl

pub to_int_parts :
    (a : ℤ) → IsInt a → (pos_part (to_int a) ≡ pos_part a) × (neg_part (to_int a) ≡ neg_part a)
unfolding to_int
to_int_parts a h = ground arith

pub eq_of_parts : (a b : ℤ) → pos_part a + neg_part b ≡ pos_part b + neg_part a → a ≡ b
eq_of_parts a b h = ground arith

pub to_int_id : (a : ℤ) → IsInt a → to_int a ≡ a
to_int_id a h = eq_of_parts _ a (omega (arith, to_int_parts a h))

pub ruleset int_laws = (arith, +ℤ_parts, -ℤ_parts, *ℤ_parts, tdiv_parts, tmod_parts, eq_of_parts)

-- The two outcomes of a test, with what each says.
pub ltb_ℤ-cases : (a b : ℤ) → ((a <ℤ b) × (ltb_ℤ a b ≡ true)) ⊎ ((b ≤ℤ a) × (ltb_ℤ a b ≡ false))
ltb_ℤ-cases a b = ground arith

pub leb_ℤ-cases : (a b : ℤ) → ((a ≤ℤ b) × (leb_ℤ a b ≡ true)) ⊎ ((b <ℤ a) × (leb_ℤ a b ≡ false))
leb_ℤ-cases a b = ground arith

pub ltb_ℤ-true : (a b : ℤ) → a <ℤ b → ltb_ℤ a b ≡ true
ltb_ℤ-true a b h = ground arith

pub ltb_ℤ-false : (a b : ℤ) → b ≤ℤ a → ltb_ℤ a b ≡ false
ltb_ℤ-false a b h = ground arith

pub leb_ℤ-true : (a b : ℤ) → a ≤ℤ b → leb_ℤ a b ≡ true
leb_ℤ-true a b h = ground arith

pub leb_ℤ-false : (a b : ℤ) → b <ℤ a → leb_ℤ a b ≡ false
leb_ℤ-false a b h = ground arith

pub eqb_ℤ-cases : (a b : ℤ) → ((a ≡ b) × (eqb_ℤ a b ≡ true)) ⊎ ((a ≢ b) × (eqb_ℤ a b ≡ false))
eqb_ℤ-cases a b = elim (ltb_ℤ-cases a b) [
  | inl (lt, t) ↦ inr (λ e. omega (arith, ap pos_part e, ap neg_part e), ground arith)
  | inr (le, t) ↦ elim (ltb_ℤ-cases b a) [
    | inl (lt, u) ↦ inr (λ e. omega (arith, ap pos_part e, ap neg_part e), ground arith)
    | inr (ge, u) ↦ inl (omega int_laws, ground arith)
  ]
]

pub pos_of_nonneg : (a : ℤ) → pos 0 ≤ℤ a → a ≡ pos (pos_part a)
pos_of_nonneg (pos n) h = refl
pos_of_nonneg (negsuc n) h = absurd (omega arith)

pub negsuc_of_neg : (a : ℤ) → a <ℤ pos 0 → a ≡ negsuc (neg_part a - 1)
negsuc_of_neg (pos n) h = absurd (omega arith)
negsuc_of_neg (negsuc n) h = omega int_laws

pub to_int_range : (a : ℤ) → IsInt (to_int a)
unfolding to_int
to_int_range a = ground arith

pub eqb_ℤ_refl : (a : ℤ) → eqb_ℤ a a ≡ true
eqb_ℤ_refl a = ground arith

pub IsInt-cases : (a : ℤ) → IsInt a ⊎ (¬ IsInt a)
IsInt-cases a = elim (leb_ℤ-cases (negsuc 2147483647) a) [
  | inl (lo, t) ↦ elim (leb_ℤ-cases a (pos 2147483647)) [
    | inl (hi, u) ↦ inl (omega (arith, parts_disjoint a))
    | inr (hi, u) ↦ inr (λ h. omega arith)
  ]
  | inr (lo, t) ↦ inr (λ h. omega arith)
]

pub eqb_ℤ_sound : (a b : ℤ) → eqb_ℤ a b ≡ true → a ≈ℤ b
eqb_ℤ_sound a b h = ground arith
