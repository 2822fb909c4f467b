-- ===== src/Time64/Gmtime/Clock.antt =====
-- The time of day and the day of the week that `gmtime64_r` computes.
use xylitol.Common.{ℕ, ◌*◌, ◌^◌, ◌≤◌, ◌<◌, inl, inr, arith}
use xylitol.Common.Int.{
  ℤ, pos, pos_part, neg_part, ◌+ℤ◌, ◌-ℤ◌, ◌*ℤ◌, tdiv, tmod, ◌≤ℤ◌, ◌<ℤ◌, ◌≈ℤ◌, IsInt64, int_laws,
  to_int_id, ltb_ℤ-cases, parts_disjoint,
}
use xylitol.Time64.Civil.{IsWeekDay, IsTimeOfDay, seconds_at}
use xylitol.Time64.Gmtime.{wrap, split_time, week_day}

-- A borrow from the next larger unit, where the value is negative.
wrap_lem :
    (a b : ℤ) (m : ℕ)
    → a <ℤ pos m
    → pos 0 ≤ℤ a +ℤ pos m
    → (borrow : ℕ) × (borrow ≤ 1)
      × ((wrap a b m).0 ≈ℤ a +ℤ pos (borrow * m))
      × ((wrap a b m).1 ≈ℤ b -ℤ pos borrow)
      × (pos 0 ≤ℤ (wrap a b m).0)
      × ((wrap a b m).0 <ℤ pos m)
unfolding wrap
wrap_lem a b m hi lo = elim (ltb_ℤ-cases a (pos 0)) [
  | inl (neg, t) ↦
      rw t (1, omega int_laws, omega int_laws, omega int_laws, omega int_laws, omega int_laws)
  | inr (ge, t) ↦
      rw t (0, omega int_laws, omega int_laws, omega int_laws, omega int_laws, omega int_laws)
]

-- A time in mixed units, after borrows of b₁ minutes, b₂ hours and b₃ days.
borrows :
    (time minutes hours days s m h s' m₁ m' h₁ h' d' : ℤ) (b₁ b₂ b₃ : ℕ)
    → time ≈ℤ minutes *ℤ 60 +ℤ s
    → minutes ≈ℤ hours *ℤ 60 +ℤ m
    → hours ≈ℤ days *ℤ 24 +ℤ h
    → s' ≈ℤ s +ℤ pos (b₁ * 60)
    → m₁ ≈ℤ m -ℤ pos b₁
    → m' ≈ℤ m₁ +ℤ pos (b₂ * 60)
    → h₁ ≈ℤ h -ℤ pos b₂
    → h' ≈ℤ h₁ +ℤ pos (b₃ * 24)
    → d' ≈ℤ days -ℤ pos b₃
    → time ≈ℤ seconds_at d' h' m' s'
borrows time minutes hours days s m h s' m₁ m' h₁ h' d' b₁ b₂ b₃ e₁ e₂ e₃ e₄ e₅ e₆ e₇ e₈ e₉ =
    omega (int_laws)

-- `split_time` of every time is its day number and a time of day from 00:00:00 to 23:59:59.
pub split_time-IsTimeOfDay :
    (time : ℤ) → (let c = split_time time in IsTimeOfDay time c.3 c.2 c.1 c.0)
unfolding split_time
split_time-IsTimeOfDay time =
    let one_sign = parts_disjoint time in
    let minutes : ℤ = tdiv time 60 in
    let hours : ℤ = tdiv minutes 60 in
    let es = to_int_id (tmod time 60) (omega int_laws) in
    let em = to_int_id (tmod minutes 60) (omega int_laws) in
    let eh = to_int_id (tmod hours 24) (omega int_laws) in
    let w₁ = wrap_lem (tmod time 60) (tmod minutes 60) 60 (omega int_laws) (omega int_laws) in
    let p₁ : ℤ × ℤ = wrap (tmod time 60) (tmod minutes 60) 60 in
    let w₂ = wrap_lem p₁.1 (tmod hours 24) 60 (omega int_laws) (omega int_laws) in
    let p₂ : ℤ × ℤ = wrap p₁.1 (tmod hours 24) 60 in
    let w₃ = wrap_lem p₂.1 (tdiv hours 24) 24 (omega int_laws) (omega int_laws) in
    let p₃ : ℤ × ℤ = wrap p₂.1 (tdiv hours 24) 24 in
    rw (es, em, eh)
      (record {
        sec_in = (w₁.4, omega (arith, w₁.5));
        min_in = (w₂.4, omega (arith, w₂.5));
        hour_in = (w₃.4, omega (arith, w₃.5));
        time_is =
            borrows time minutes hours (tdiv hours 24) (tmod time 60) (tmod minutes 60)
              (tmod hours 24) p₁.0 p₁.1 p₂.0 p₂.1 p₃.0 p₃.1 w₁.0 w₂.0 w₃.0 (omega int_laws)
              (omega int_laws) (omega int_laws) w₁.2 w₁.3 w₂.2 w₂.3 w₃.2 w₃.3;
      })

pub week_day-IsWeekDay : (day : ℤ) → IsWeekDay day (week_day day)
unfolding week_day
week_day-IsWeekDay day =
    let one_sign = parts_disjoint (day +ℤ pos 4) in
    let w : ℤ = tmod (day +ℤ pos 4) 7 in
    rw (to_int_id w (omega int_laws)) (elim (ltb_ℤ-cases w (pos 0)) [
      | inl (neg, t) ↦ rw t (record {
        weeks = tdiv (day +ℤ pos 4) 7 -ℤ pos 1;
        wday_in = omega int_laws;
        wday_is = omega int_laws;
      })
      | inr (ge, t) ↦ rw t (record {
        weeks = tdiv (day +ℤ pos 4) 7;
        wday_in = omega int_laws;
        wday_is = omega int_laws;
      })
    ])

-- The day of a time of 64 bits fits in 47 bits.
pub day_range :
    (time day hour min sec : ℤ)
    → IsInt64 time
    → IsTimeOfDay time day hour min sec
    → (neg_part day < 2 ^ 47) × (pos_part day < 2 ^ 47)
day_range time day hour min sec h c =
    let one_sign = parts_disjoint day in
    let sum = c.time_is in
    (
      omega (int_laws, c.sec_in, c.min_in, c.hour_in),
      omega (int_laws, c.sec_in, c.min_in, c.hour_in),
    )
