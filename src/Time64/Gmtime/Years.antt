-- ===== src/Time64/Gmtime/Years.antt =====
-- The year loops of `gmtime64_r`, and the removal of whole cycles, against the calendar.
use xylitol.Common.{ℕ, zero, suc, ◌^◌, ◌<◌, ◌≡◌, refl, inl, inr, arith}
use xylitol.Common.Int.{
  ℤ, pos, negsuc, pos_part, neg_part, ◌+ℤ◌, ◌-ℤ◌, ◌*ℤ◌, tdiv, to_int, ◌≤ℤ◌, ◌<ℤ◌, ◌≈ℤ◌, IsInt,
  int_laws, to_int_id, ltb_ℤ-cases, eqb_ℤ-cases, ltb_ℤ-true, ltb_ℤ-false, leb_ℤ-true, leb_ℤ-false,
  parts_disjoint,
}
use xylitol.Time64.{ok, length_of_year, is_leap}
use xylitol.Time64.Calendar.{jan1, jan1-suc, jan1_eq, jan1_mono, jan1-cycles_ℤ, lt_of_jan1}
use xylitol.Time64.Gmtime.{drop_cycles, years_up, years_down}

abbrev pub year_days : ℤ → ℤ
year_days y = pos (length_of_year (is_leap y))

years_up_lem :
    (fuel : ℕ) (m year y r : ℤ)
    → year ≤ℤ y
    → y <ℤ year +ℤ pos fuel
    → pos 0 ≤ℤ r
    → r <ℤ year_days y
    → r +ℤ jan1 y ≈ℤ m +ℤ jan1 year
    → years_up fuel m year ≡ ok (r, y)
unfolding years_up
years_up_lem zero m year y r le lt lo hi e = absurd (omega int_laws)
years_up_lem (suc fuel) m year y r le lt lo hi e = elim (ltb_ℤ-cases year y) [
  | inl (below, t) ↦
      let fits : year_days year ≤ℤ m =
        omega (int_laws, jan1-suc year, jan1_mono (year +ℤ pos 1) y (omega int_laws)) in
      rw (leb_ℤ-true (year_days year) m fits) (
        years_up_lem fuel (m -ℤ year_days year) (year +ℤ pos 1) y r (omega int_laws)
          (omega int_laws) lo hi (omega (int_laws, jan1-suc year)))
  | inr (above, t) ↦
      let same : year ≡ y = omega int_laws in
      let left : m ≡ r = omega (int_laws, jan1_eq year y (omega arith)) in
      rw (same, left, leb_ℤ-false (year_days y) r hi)
]

years_down_lem :
    (fuel : ℕ) (m year y r : ℤ)
    → y ≤ℤ year
    → year <ℤ y +ℤ pos fuel
    → r <ℤ pos 0
    → pos 0 ≤ℤ r +ℤ year_days y
    → r +ℤ jan1 (y +ℤ pos 1) ≈ℤ m +ℤ jan1 (year +ℤ pos 1)
    → years_down fuel m year ≡ ok (r, y)
unfolding years_down
years_down_lem zero m year y r le lt lo hi e = absurd (omega int_laws)
years_down_lem (suc fuel) m year y r le lt lo hi e = elim (ltb_ℤ-cases y year) [
  | inl (below, t) ↦
      let fits : m <ℤ pos 0 -ℤ year_days year =
        omega (int_laws, jan1-suc year, jan1_mono (y +ℤ pos 1) year (omega int_laws)) in
      let back = jan1_eq (year -ℤ pos 1 +ℤ pos 1) year (omega int_laws) in
      rw (ltb_ℤ-true m (pos 0 -ℤ year_days year) fits) (
        years_down_lem fuel (m +ℤ year_days year) (year -ℤ pos 1) y r (omega int_laws)
          (omega int_laws) lo hi (omega (int_laws, jan1-suc year, back)))
  | inr (above, t) ↦
      let same : year ≡ y = omega int_laws in
      let left : m ≡ r = omega (int_laws, jan1_eq (year +ℤ pos 1) (y +ℤ pos 1) (omega int_laws)) in
      rw (same, left, ltb_ℤ-false r (pos 0 -ℤ year_days y) (omega int_laws))
]

-- `drop_cycles` does the same whether or not there is a cycle to drop.
drop_cycles_lem : (c m year : ℤ) → drop_cycles c m year ≡ (m -ℤ c *ℤ 146097, year +ℤ c *ℤ 400)
unfolding drop_cycles
drop_cycles_lem c m year = elim (eqb_ℤ-cases c (pos 0)) [
  | inl (e, t) ↦
      let stay : m ≡ m -ℤ pos 0 *ℤ 146097 = omega int_laws in
      let here : year ≡ year +ℤ pos 0 *ℤ 400 = omega int_laws in rw e (λ i. (stay i, here i))
  | inr (e, t) ↦ rw t refl
]

-- The years that are left behind the cycles, for a day from the start of `year` on.
pub skip_up :
    (m year y : ℤ)
    → pos 0 ≤ℤ m
    → pos_part m < 2 ^ 47
    → jan1 y ≤ℤ m +ℤ jan1 year
    → m +ℤ jan1 year <ℤ jan1 (y +ℤ pos 1)
    → (let p = drop_cycles (to_int (tdiv m 146097)) m year in years_up 401 p.0 p.1)
      ≡ ok (m +ℤ jan1 year -ℤ jan1 y, y)
skip_up m year y lo fits from to =
    let c : ℤ = tdiv m 146097 in
    let m' : ℤ = m -ℤ c *ℤ 146097 in
    let year' : ℤ = year +ℤ c *ℤ 400 in
    let one_sign = parts_disjoint m in
    let one_sign' = parts_disjoint c in
    let small : IsInt c = omega int_laws in
    let near : (pos 0 ≤ℤ m') × (m' <ℤ pos 146097) = omega int_laws in
    let moved = (jan1-cycles_ℤ year' year c (omega int_laws)).0 in
    let cycle = (jan1-cycles_ℤ (year' +ℤ pos 400) year' (pos 1) (omega int_laws)).0 in
    let start : year' <ℤ y +ℤ pos 1 = lt_of_jan1 year' (y +ℤ pos 1) (omega int_laws) in
    let stop : y <ℤ year' +ℤ pos 400 = lt_of_jan1 y (year' +ℤ pos 400) (omega int_laws) in
    rw (to_int_id c small, drop_cycles_lem c m year)
      (years_up_lem 401 m' year' y (m +ℤ jan1 year -ℤ jan1 y) (omega int_laws) (omega int_laws)
        (omega int_laws) (omega (int_laws, jan1-suc y)) (omega int_laws))

pub skip_down :
    (m year y : ℤ)
    → m <ℤ pos 0
    → neg_part m < 2 ^ 47
    → jan1 y ≤ℤ m +ℤ jan1 (year +ℤ pos 1)
    → m +ℤ jan1 (year +ℤ pos 1) <ℤ jan1 (y +ℤ pos 1)
    → (let p = drop_cycles (to_int (tdiv m 146097 +ℤ pos 1)) m year in years_down 801 p.0 p.1)
      ≡ ok (m +ℤ jan1 (year +ℤ pos 1) -ℤ jan1 (y +ℤ pos 1), y)
skip_down m year y lo fits from to =
    let c : ℤ = tdiv m 146097 +ℤ pos 1 in
    let m' : ℤ = m -ℤ c *ℤ 146097 in
    let year' : ℤ = year +ℤ c *ℤ 400 in
    let end : ℤ = year' +ℤ pos 1 in
    let r : ℤ = m +ℤ jan1 (year +ℤ pos 1) -ℤ jan1 (y +ℤ pos 1) in
    let one_sign = parts_disjoint m in
    let one_sign' = parts_disjoint c in
    let small : IsInt c = omega int_laws in
    let near : (m' <ℤ pos 0) × (negsuc 292193 ≤ℤ m') = omega int_laws in
    let moved = (jan1-cycles_ℤ end (year +ℤ pos 1) c (omega int_laws)).0 in
    let cycle = (jan1-cycles_ℤ end (end -ℤ pos 800) (pos 2) (omega int_laws)).0 in
    let start : y <ℤ end = lt_of_jan1 y end (omega int_laws) in
    let stop : end -ℤ pos 800 <ℤ y +ℤ pos 1 =
      lt_of_jan1 (end -ℤ pos 800) (y +ℤ pos 1) (omega int_laws) in
    rw (to_int_id c small, drop_cycles_lem c m year)
      (years_down_lem 801 m' year' y r (omega int_laws) (omega int_laws) (omega int_laws)
        (omega (int_laws, jan1-suc y)) (omega int_laws))
