-- ===== src/Time64/SafeYear/Cycle.antt =====
-- The choice of `safe_year`, without bounds on the years, repeats after 400 years, on either side of the safe years.
use xylitol.Common.{
  ℕ, ◌*◌, ◌≡◌, sym, ◌∙◌, ap, inl, inr, arith, Bool, true, false, ◌&&◌, if◌then◌else◌,
}
use xylitol.Common.Int.{
  ℤ, pos, negsuc, ◌+ℤ◌, ◌-ℤ◌, ◌*ℤ◌, tdiv, tmod, to_int, leb_ℤ, ◌≤ℤ◌, ◌<ℤ◌, ◌≈ℤ◌, ltb_ℤ, eqb_ℤ,
  int_laws, tmod_parts, ltb_ℤ-cases, ltb_ℤ-true, ltb_ℤ-false, leb_ℤ-true, leb_ℤ-false,
  parts_disjoint,
}
use xylitol.Time64.{Result, ok}
use xylitol.Time64.SafeYear.{is_exception_century, wrap_cycle, pick_year}

-- The three functions in unbounded arithmetic.
unfoldable pub plain_offset : ℤ → ℤ
plain_offset year =
    let year_diff = year -ℤ pos 2000 in
    let year_diff' = if ltb_ℤ (pos 2000) year then year_diff -ℤ pos 1 else year_diff in
    (tdiv year_diff' 100 -ℤ tdiv year_diff' 400) *ℤ 16

unfoldable pub plain_cycle : ℤ → ℤ
plain_cycle year =
    let c = year +ℤ plain_offset year in
    let c' = if ltb_ℤ year (pos 1971) then c -ℤ pos 8 else c in
    let c'' = if is_exception_century year then c' +ℤ pos 11 else c' in
    wrap_cycle (if is_exception_century (year -ℤ pos 1) then c'' +ℤ pos 17 else c'')

unfoldable pub plain_year : ℤ → Result ℤ
plain_year year =
    if leb_ℤ (pos 1971) year && leb_ℤ year (pos 2037)
    then ok (to_int year)
    else pick_year year (plain_cycle year)

-- A multiple of k stays one when 400 n is added, for k a divisor of 400.
tmod_400 :
    (y z : ℤ) (n : ℕ)
    → z ≈ℤ y +ℤ pos (400 * n)
    → eqb_ℤ (tmod z 400) (pos 0) ≡ eqb_ℤ (tmod y 400) (pos 0)
unfolding ◌+ℤ◌
tmod_400 (pos a) (pos b) n h = ground (arith, tmod_parts (pos a) 400, tmod_parts (pos b) 400)
tmod_400 (pos a) (negsuc b) n h = ground (arith)
tmod_400 (negsuc a) (pos b) n h = ground (arith, tmod_parts (negsuc a) 400, tmod_parts (pos b) 400)
tmod_400 (negsuc a) (negsuc b) n h =
    ground (arith, tmod_parts (negsuc a) 400, tmod_parts (negsuc b) 400)

tmod_100 :
    (y z : ℤ) (n : ℕ)
    → z ≈ℤ y +ℤ pos (400 * n)
    → eqb_ℤ (tmod z 100) (pos 0) ≡ eqb_ℤ (tmod y 100) (pos 0)
unfolding ◌+ℤ◌
tmod_100 (pos a) (pos b) n h = ground (arith, tmod_parts (pos a) 100, tmod_parts (pos b) 100)
tmod_100 (pos a) (negsuc b) n h = ground (arith)
tmod_100 (negsuc a) (pos b) n h = ground (arith, tmod_parts (negsuc a) 100, tmod_parts (pos b) 100)
tmod_100 (negsuc a) (negsuc b) n h =
    ground (arith, tmod_parts (negsuc a) 100, tmod_parts (negsuc b) 100)

is_exception_century-cycles :
    (y z : ℤ) (n : ℕ) → z ≈ℤ y +ℤ pos (400 * n) → is_exception_century z ≡ is_exception_century y
unfolding is_exception_century
is_exception_century-cycles y z n h = rw (tmod_400 y z n h, tmod_100 y z n h)

-- Where both years lie after 2000, or neither does.
plain_offset-above :
    (y z : ℤ) (n : ℕ)
    → pos 2000 <ℤ y
    → z ≈ℤ y +ℤ pos (400 * n)
    → plain_offset z ≈ℤ plain_offset y +ℤ pos (48 * n)
unfolding plain_offset
plain_offset-above y z n hy h =
    rw (ltb_ℤ-true (pos 2000) y hy, ltb_ℤ-true (pos 2000) z (omega int_laws))
      (omega (
        int_laws,
        parts_disjoint (y -ℤ pos 2000 -ℤ pos 1),
        parts_disjoint (z -ℤ pos 2000 -ℤ pos 1),
      ))

plain_offset-below :
    (y z : ℤ) (n : ℕ)
    → z ≤ℤ pos 2000
    → z ≈ℤ y +ℤ pos (400 * n)
    → plain_offset z ≈ℤ plain_offset y +ℤ pos (48 * n)
unfolding plain_offset
plain_offset-below y z n hz h =
    rw (ltb_ℤ-false (pos 2000) y (omega int_laws), ltb_ℤ-false (pos 2000) z hz)
      (omega (int_laws, parts_disjoint (y -ℤ pos 2000), parts_disjoint (z -ℤ pos 2000)))

wrap_cycle_lem :
    (c : ℤ)
    → (q : ℤ) × (c ≈ℤ q *ℤ 28 +ℤ wrap_cycle c) × (pos 0 ≤ℤ wrap_cycle c) × (wrap_cycle c <ℤ pos 28)
unfolding wrap_cycle
wrap_cycle_lem c =
    let one_sign = parts_disjoint c in
    elim (ltb_ℤ-cases (tmod c 28) (pos 0)) [
      | inl (neg, t) ↦ rw t (tdiv c 28 -ℤ pos 1, omega int_laws, omega int_laws, omega int_laws)
      | inr (ge, t) ↦ rw t (tdiv c 28, omega int_laws, omega int_laws, omega int_laws)
    ]

wrap_cycle-cycles : (c d : ℤ) (n : ℕ) → d ≈ℤ c +ℤ pos (448 * n) → wrap_cycle d ≡ wrap_cycle c
wrap_cycle-cycles c d n h =
    let (q, e, lo, hi) = wrap_cycle_lem c in
    let (q', e', lo', hi') = wrap_cycle_lem d in omega int_laws

plain_cycle-cycles :
    (y z : ℤ) (n : ℕ)
    → z ≈ℤ y +ℤ pos (400 * n)
    → plain_offset z ≈ℤ plain_offset y +ℤ pos (48 * n)
    → ltb_ℤ z (pos 1971) ≡ ltb_ℤ y (pos 1971)
    → plain_cycle z ≡ plain_cycle y
unfolding plain_cycle
plain_cycle-cycles y z n h o side =
    rw
      (
        side,
        is_exception_century-cycles y z n h,
        is_exception_century-cycles (y -ℤ pos 1) (z -ℤ pos 1) n (omega int_laws),
      )
      (wrap_cycle-cycles _ _ n (
        adjusted (ltb_ℤ y (pos 1971)) (is_exception_century y) (is_exception_century (y -ℤ pos 1))))
  where
    adjusted :
        (low century next : Bool)
        → (let c = z +ℤ plain_offset z in
            let c' = if low then c -ℤ pos 8 else c in
            let c'' = if century then c' +ℤ pos 11 else c' in if next then c'' +ℤ pos 17 else c'')
          ≈ℤ (let c = y +ℤ plain_offset y in
              let c' = if low then c -ℤ pos 8 else c in
              let c'' = if century then c' +ℤ pos 11 else c' in if next then c'' +ℤ pos 17 else c'')
            +ℤ pos (448 * n)
    adjusted true true true = omega int_laws
    adjusted true true false = omega int_laws
    adjusted true false true = omega int_laws
    adjusted true false false = omega int_laws
    adjusted false true true = omega int_laws
    adjusted false true false = omega int_laws
    adjusted false false true = omega int_laws
    adjusted false false false = omega int_laws

pick_year-above : (y z c : ℤ) → pos 2037 <ℤ y → pos 2037 <ℤ z → pick_year z c ≡ pick_year y c
unfolding pick_year
pick_year-above y z c hy hz = rw (
  ltb_ℤ-false y (pos 1971) (omega arith),
  ltb_ℤ-false z (pos 1971) (omega arith),
  ltb_ℤ-true (pos 2037) y hy,
  ltb_ℤ-true (pos 2037) z hz,
)

pick_year-below : (y z c : ℤ) → y <ℤ pos 1971 → z <ℤ pos 1971 → pick_year z c ≡ pick_year y c
unfolding pick_year
pick_year-below y z c hy hz = rw (ltb_ℤ-true y (pos 1971) hy, ltb_ℤ-true z (pos 1971) hz)

pub plain_year-above : (y : ℤ) → pos 2037 <ℤ y → plain_year y ≡ pick_year y (plain_cycle y)
unfolding plain_year
plain_year-above y h = rw (leb_ℤ-true (pos 1971) y (omega arith), leb_ℤ-false y (pos 2037) h)

pub plain_year-below : (y : ℤ) → y <ℤ pos 1971 → plain_year y ≡ pick_year y (plain_cycle y)
unfolding plain_year
plain_year-below y h = rw (leb_ℤ-false (pos 1971) y h)

-- 400 n years on, the same safe year is chosen.
pub plain_year-cycles_above :
    (y z : ℤ) (n : ℕ) → pos 2037 <ℤ y → z ≈ℤ y +ℤ pos (400 * n) → plain_year z ≡ plain_year y
plain_year-cycles_above y z n hy h =
    let hz : pos 2037 <ℤ z = omega int_laws in
    let side : ltb_ℤ z (pos 1971) ≡ ltb_ℤ y (pos 1971) =
      ltb_ℤ-false z (pos 1971) (omega arith) ∙ sym (ltb_ℤ-false y (pos 1971) (omega arith)) in
    plain_year-above z hz
    ∙ pick_year-above y z (plain_cycle z) hy hz
    ∙ ap (pick_year y) (plain_cycle-cycles y z n h (plain_offset-above y z n (omega arith) h) side)
    ∙ sym (plain_year-above y hy)

pub plain_year-cycles_below :
    (y z : ℤ) (n : ℕ) → z <ℤ pos 1971 → z ≈ℤ y +ℤ pos (400 * n) → plain_year z ≡ plain_year y
plain_year-cycles_below y z n hz h =
    let hy : y <ℤ pos 1971 = omega int_laws in
    let side : ltb_ℤ z (pos 1971) ≡ ltb_ℤ y (pos 1971) =
      ltb_ℤ-true z (pos 1971) hz ∙ sym (ltb_ℤ-true y (pos 1971) hy) in
    plain_year-below z hz
    ∙ pick_year-below y z (plain_cycle z) hy hz
    ∙ ap (pick_year y) (plain_cycle-cycles y z n h (plain_offset-below y z n (omega arith) h) side)
    ∙ sym (plain_year-below y hy)
