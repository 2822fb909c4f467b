-- ===== src/Gralloc/Alloc/Slots.antt =====
-- The slots of the framebuffer: which one an allocation takes, and that freeing gives it back.
use native.Mathlib.Nat.{div-eq_of_lt-le, one-le-pow, mul-le-mul_right, mod-eq_of_lt}
use native.Mathlib.Numerals.{towards_suc}
use xylitol.Common.{
  ℕ, zero, suc, ◌+◌, ◌-◌, ◌*◌, ◌/◌, ◌%◌, ◌^◌, ◌≤◌, ◌<◌, ◌≡◌, ◌⊎◌, ap, ◌∙◌, inl, inr, arith, true,
  false, Bool-cases,
}
use xylitol.Gralloc.Alloc.{is_free, find_slot}

pub pow2_pos : (i : ℕ) → 0 < 2 ^ i
pow2_pos i = one-le-pow i 2 (omega arith)

-- Where the slots below `i` are taken, mask + 1 is a multiple of 2 ^ i.
pub slot_div : (mask c p : ℕ) → 0 < p → mask + 1 ≡ suc c * p → mask / p ≡ c
slot_div mask c p h e = div-eq_of_lt-le p (grind arith) (grind arith)

≤_cases : (a b : ℕ) → (a < b) ⊎ (b ≤ a)
≤_cases a b = omega arith

above_fits : (mask c p d : ℕ) → mask + 1 ≡ suc c * p → mask + 1 < d * p → 0 < p → mask + p < d * p
above_fits mask c p d e h pos_p = elim (≤_cases (suc c) d) [
  | inl less ↦ omega (arith, mul-le-mul_right p less)
  | inr large ↦ absurd (omega (arith, mul-le-mul_right p large))
]

pow_next : (i : ℕ) → 2 ^ (i + 1) ≡ 2 * 2 ^ i
pow_next i = simp towards_suc (omega arith)

pow_shift : (count i : ℕ) → 2 ^ suc count * 2 ^ i ≡ 2 ^ count * 2 ^ (i + 1)
pow_shift count i = rw pow_next (grind arith)

-- The slot is taken, so one more power of two divides.
up_lem :
    (mask c i : ℕ)
    → mask + 1 ≡ suc c * 2 ^ i
    → is_free mask i ≡ false
    → mask + 1 ≡ suc (c / 2) * 2 ^ (i + 1)
up_lem mask c i e t =
    let quotient = slot_div mask c (2 ^ i) (pow2_pos i) e in
    let odd : c ≡ 2 * (c / 2) + 1 = ground (arith, quotient) in
    rw pow_next (omega (arith, ap (λ (t : ℕ). suc t * 2 ^ i) odd))

zero_slots : (vaddr i size : ℕ) → vaddr ≡ vaddr + (i - i) * size
zero_slots vaddr i size = let none_before : i - i ≡ 0 = omega arith in rw none_before (omega arith)

later_in :
    (i count slot : ℕ) → i + 1 ≤ slot → slot < i + 1 + count → (i ≤ slot) × (slot < i + suc count)
later_in i count slot h k = omega arith

room : (count size vaddr : ℕ) → vaddr + suc count * size < 2 ^ 64 → vaddr + size < 2 ^ 64
room count size vaddr v = grind arith

next_slot :
    (vaddr i size slot : ℕ)
    → i + 1 ≤ slot
    → vaddr + size < 2 ^ 64
    → (vaddr + size) % 2 ^ 64 + (slot - (i + 1)) * size ≡ vaddr + (slot - i) * size
next_slot vaddr i size slot h v =
    let behind : slot - i ≡ suc (slot - (i + 1)) = omega arith in
    rw (mod-eq_of_lt v, behind) (grind arith)

-- What the loop from slot `first` on answers: the lowest free slot, with the mask that has it
-- taken and its address.
pub record IsLowest (first count size mask vaddr : ℕ) (r : ℕ × ℕ) : Type 0 where
  pub slot : ℕ
  pub above : ℕ
  pub slot_in : (first ≤ slot) × (slot < first + count)
  pub free : is_free mask slot ≡ true
  pub lowest : mask + 1 ≡ suc above * 2 ^ slot
  pub mask_is : r.0 ≡ mask + 2 ^ slot
  pub fits : mask + 2 ^ slot < 2 ^ count * 2 ^ first
  pub vaddr_is : r.1 ≡ vaddr + (slot - first) * size

pub find_slot-IsLowest :
    (count i size mask vaddr c : ℕ)
    → mask + 1 ≡ suc c * 2 ^ i
    → mask + 1 < 2 ^ count * 2 ^ i
    → 2 ^ count * 2 ^ i ≤ 2 ^ 32
    → vaddr + count * size < 2 ^ 64
    → IsLowest i count size mask vaddr (find_slot count i size mask vaddr)
unfolding find_slot
find_slot-IsLowest zero i size mask vaddr c e h w v = absurd (let pow = pow2_pos i in grind arith)
find_slot-IsLowest (suc count) i size mask vaddr c e h w v = elim (Bool-cases (is_free mask i)) [
  | inl t ↦ rw t (record {
    slot = i;
    above = c;
    slot_in = omega arith;
    free = t;
    lowest = e;
    mask_is = omega (arith, above_fits mask c (2 ^ i) (2 ^ suc count) e h (pow2_pos i));
    fits = above_fits mask c (2 ^ i) (2 ^ suc count) e h (pow2_pos i);
    vaddr_is = zero_slots vaddr i size;
  })
  | inr t ↦
      (let q : ℕ = c / 2 in
        let up : mask + 1 ≡ suc q * 2 ^ (i + 1) = up_lem mask c i e t in
        let rest =
          find_slot-IsLowest count (i + 1) size mask ((vaddr + size) % 2 ^ 64) q up
            (rw (← pow_shift count i) h) (rw (← pow_shift count i) w) (omega arith) in
        let slot = rest.slot in
        rw t (record {
          slot = slot;
          above = rest.above;
          slot_in = later_in i count slot (rest.slot_in).0 (rest.slot_in).1;
          free = rest.free;
          lowest = rest.lowest;
          mask_is = rest.mask_is;
          fits = rw pow_shift rest.fits;
          vaddr_is =
              rest.vaddr_is
              ∙ next_slot vaddr i size slot (rest.slot_in).0 (room count size vaddr v);
        }))
]
