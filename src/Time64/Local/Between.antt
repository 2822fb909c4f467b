-- ===== src/Time64/Local/Between.antt =====
-- `seconds_between_years` against the calendar.
use xylitol.Common.{ℕ, zero, suc, ◌+◌, ◌≡◌, ap, ◌≢◌, inl, inr, arith}
use xylitol.Common.Int.{
  ℤ, pos, negsuc, pos_part, neg_part, ◌+ℤ◌, ◌-ℤ◌, ◌*ℤ◌, tdiv, ◌≤ℤ◌, ◌<ℤ◌, ◌≈ℤ◌, IsInt, int_laws,
  to_int_id, ltb_ℤ-cases, eqb_ℤ-cases, ltb_ℤ-true, ltb_ℤ-false, parts_disjoint,
}
use xylitol.Time64.{ok, int_value_id, length_of_year, is_leap}
use xylitol.Time64.Calendar.{jan1, jan1-suc, jan1_eq, jan1-cycles_ℤ}
use xylitol.Time64.Local.{skip_above, skip_below, skip_between, walk_years, seconds_between_years}

-- January 1st of a year that is counted from 0.
abbrev pub new_year : ℤ → ℤ
new_year y = jan1 (y -ℤ pos 1900)

year_step :
    (y : ℤ) → new_year (y +ℤ pos 1) ≈ℤ new_year y +ℤ pos (length_of_year (is_leap (y -ℤ pos 1900)))
year_step y = omega (
  int_laws,
  jan1-suc (y -ℤ pos 1900),
  jan1_eq (y -ℤ pos 1900 +ℤ pos 1) (y +ℤ pos 1 -ℤ pos 1900) (omega int_laws),
)

walk_up :
    (fuel : ℕ) (left right seconds r : ℤ)
    → right ≤ℤ left
    → left <ℤ right +ℤ pos fuel
    → r +ℤ new_year right *ℤ 86400 ≈ℤ seconds +ℤ new_year left *ℤ 86400
    → walk_years fuel (pos 1) left right seconds ≡ ok r
unfolding walk_years
walk_up zero left right seconds r le lt e = absurd (omega int_laws)
walk_up (suc fuel) left right seconds r le lt e = elim (eqb_ℤ-cases left right) [
  | inl (same, t) ↦ rw t (
      ap ok
        (omega (int_laws, jan1_eq (left -ℤ pos 1900) (right -ℤ pos 1900) (rw same (omega arith)))))
  | inr (ne, t) ↦
      let more : right <ℤ left = apart ne in
      rw t (
        walk_up fuel left (right +ℤ pos 1) _ r (omega int_laws) (omega int_laws)
          (omega (int_laws, year_step right)))
]
  where
    apart : left ≢ right → right <ℤ left
    apart ne = elim (ltb_ℤ-cases right left) [
      | inl (lt, t) ↦ lt
      | inr (ge, t) ↦ absurd (ne (omega int_laws))
    ]

walk_down :
    (fuel : ℕ) (left right seconds r : ℤ)
    → left ≤ℤ right
    → right <ℤ left +ℤ pos fuel
    → r +ℤ new_year (left +ℤ pos 1) *ℤ 86400 ≈ℤ seconds +ℤ new_year (right +ℤ pos 1) *ℤ 86400
    → walk_years fuel (negsuc 0) left right seconds ≡ ok r
unfolding walk_years
walk_down zero left right seconds r le lt e = absurd (omega int_laws)
walk_down (suc fuel) left right seconds r le lt e = elim (eqb_ℤ-cases left right) [
  | inl (same, t) ↦ rw t (
      ap ok (
        omega (
          int_laws,
          jan1_eq (left +ℤ pos 1 -ℤ pos 1900) (right +ℤ pos 1 -ℤ pos 1900) (rw same (omega arith)),
        )))
  | inr (ne, t) ↦
      let more : left <ℤ right = apart ne in
      let back =
        jan1_eq (right +ℤ negsuc 0 +ℤ pos 1 -ℤ pos 1900) (right -ℤ pos 1900) (omega int_laws) in
      rw t (
        walk_down fuel left (right +ℤ negsuc 0) _ r (omega int_laws) (omega int_laws)
          (omega (int_laws, year_step right)))
]
  where
    apart : left ≢ right → left <ℤ right
    apart ne = elim (ltb_ℤ-cases left right) [
      | inl (lt, t) ↦ lt
      | inr (ge, t) ↦ absurd (ne (omega int_laws))
    ]

skip_above_lem :
    (left : ℤ)
    → IsInt left
    → pos 2400 <ℤ left
    → (seconds left' : ℤ) × (skip_above left ≡ ok (seconds, left'))
      × (pos 2400 ≤ℤ left')
      × (seconds ≈ℤ (new_year left -ℤ new_year left') *ℤ 86400)
unfolding skip_above
skip_above_lem left h hi =
    let one_sign = parts_disjoint (left -ℤ pos 2400) in
    let c : ℤ = tdiv (left -ℤ pos 2400) 400 in
    let moved =
      (jan1-cycles_ℤ (left -ℤ pos 1900) (left -ℤ c *ℤ 400 -ℤ pos 1900) c (omega int_laws)).0 in
    (
      c *ℤ 12622780800,
      left -ℤ c *ℤ 400,
      rw (to_int_id c (omega int_laws), int_value_id (c *ℤ 400) (omega int_laws)),
      omega int_laws,
      omega int_laws,
    )

skip_below_lem :
    (left : ℤ)
    → IsInt (left -ℤ pos 1900)
    → left <ℤ pos 1600
    → (seconds left' : ℤ) × (skip_below left ≡ ok (seconds, left'))
      × (left' <ℤ pos 1600)
      × (seconds ≈ℤ (new_year (left' +ℤ pos 1) -ℤ new_year (left +ℤ pos 1)) *ℤ 86400)
unfolding skip_below
skip_below_lem left h hi =
    let one_sign = parts_disjoint (left -ℤ pos 1600) in
    let one_sign' = parts_disjoint (left -ℤ pos 1900) in
    let c : ℤ = tdiv (left -ℤ pos 1600) 400 in
    let moved =
      (jan1-cycles_ℤ (left +ℤ c *ℤ 400 +ℤ pos 1 -ℤ pos 1900) (left +ℤ pos 1 -ℤ pos 1900) c
        (omega int_laws)).0 in
    (
      c *ℤ 12622780800,
      left +ℤ c *ℤ 400,
      rw (to_int_id c (omega int_laws), int_value_id (c *ℤ 400) (omega int_laws)),
      omega int_laws,
      omega int_laws,
    )

upward :
    (left right seconds left' : ℤ)
    → right <ℤ left
    → skip_between left ≡ ok (seconds, left')
    → right ≤ℤ left'
    → seconds ≈ℤ (new_year left -ℤ new_year left') *ℤ 86400
    → seconds_between_years left right ≡ ok ((new_year left -ℤ new_year right) *ℤ 86400)
unfolding seconds_between_years
upward left right seconds left' lt e le s = rw (
  ltb_ℤ-true right left lt,
  e,
  walk_up (pos_part (left' -ℤ right) + neg_part (left' -ℤ right) + 1) left' right seconds
      ((new_year left -ℤ new_year right) *ℤ 86400) le (omega int_laws) (omega int_laws),
)

downward :
    (left right seconds left' : ℤ)
    → left ≤ℤ right
    → skip_between left ≡ ok (seconds, left')
    → left' ≤ℤ right
    → seconds ≈ℤ (new_year (left' +ℤ pos 1) -ℤ new_year (left +ℤ pos 1)) *ℤ 86400
    → is_leap (left -ℤ pos 1900) ≡ is_leap (right -ℤ pos 1900)
    → seconds_between_years left right ≡ ok ((new_year left -ℤ new_year right) *ℤ 86400)
unfolding seconds_between_years
downward left right seconds left' le e le' s leap =
    rw
      (
        ltb_ℤ-false right left le,
        e,
        walk_down (pos_part (left' -ℤ right) + neg_part (left' -ℤ right) + 1) left' right seconds
            ((new_year (right +ℤ pos 1) -ℤ new_year (left +ℤ pos 1)) *ℤ 86400) le' (omega int_laws)
            (omega int_laws),
      )
      (ap ok (omega (int_laws, year_step left, year_step right, ap length_of_year leap)))

-- `seconds_between_years` of two years ends with the seconds from the start of the second to the
-- start of the first, negative where it comes later, if the first less 1900 and the first are in
-- the range of `int`, the second is from 1971 to 2037, and both are leap years alike.
pub seconds_between_years-new_year :
    (left right : ℤ)
    → IsInt left
    → IsInt (left -ℤ pos 1900)
    → pos 1971 ≤ℤ right
    → right ≤ℤ pos 2037
    → is_leap (left -ℤ pos 1900) ≡ is_leap (right -ℤ pos 1900)
    → seconds_between_years left right ≡ ok ((new_year left -ℤ new_year right) *ℤ 86400)
seconds_between_years-new_year left right h h' lo hi leap = elim (ltb_ℤ-cases (pos 2400) left) [
  | inl (far, t) ↦
      let (seconds, left', e, high, s) = skip_above_lem left h far in
      upward left right seconds left' (omega arith) (unfold skip_between in rw t e) (omega arith) s
  | inr (near, t) ↦ elim (ltb_ℤ-cases left (pos 1600)) [
    | inl (past, u) ↦
        let (seconds, left', e, low, s) = skip_below_lem left h' past in
        downward left right seconds left' (omega arith) (unfold skip_between in rw (t, u) e)
          (omega arith) s leap
    | inr (recent, u) ↦
        let stay : skip_between left ≡ ok (pos 0, left) = unfold skip_between in rw (t, u) in
        elim (ltb_ℤ-cases right left) [
          | inl (lt, v) ↦ upward left right (pos 0) left lt stay (omega arith) (omega int_laws)
          | inr (ge, v) ↦ downward left right (pos 0) left ge stay ge (omega int_laws) leap
        ]
  ]
]
