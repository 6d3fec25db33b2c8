-- ===== src/Cron/Next/Clock.antt =====
-- Sums and truncations of times within the hour, as `Next` of pkg/cron/schedule.go makes them.
use tickraft.Base.{
  ℕ, ◌≡◌, ◌<◌, refl, ◌∙◌, ◌+◌, ◌-◌, ◌*◌, ◌/◌, ◌%◌, true, false, arith, Bool-cases, inl, inr, ltb,
  leb, le→leb, ltb→lt, ltb→ge, lt→ltb, if◌then◌else◌,
}
use tickraft.Cron.Calendar.{
  Moment, next_hour, prev_hour, add_seconds, sub_seconds, truncate, IsMoment,
}

abbrev pub in_hour : Moment → ℕ
in_hour t = t.minute * 60 + t.second

pub add_within :
    (t : Moment) (n m s : ℕ)
    → m * 60 + s ≡ in_hour t + n
    → s < 60
    → m < 60
    → add_seconds t n ≡ record t { minute = m; second = s }
unfolding add_seconds
add_within t n m s e small few =
    let here : ltb (in_hour t + n) 3600 ≡ true = lt→ltb _ _ (omega (arith, e, small, few)) in
    let minute : (in_hour t + n) / 60 ≡ m = omega (arith, e, small) in
    let second : (in_hour t + n) % 60 ≡ s = omega (arith, e, small) in
    rw here (rw minute (rw second refl))

pub add_over :
    (t : Moment) (n m s : ℕ)
    → 3600 + (m * 60 + s) ≡ in_hour t + n
    → s < 60
    → add_seconds t n ≡ next_hour t m s
unfolding add_seconds
add_over t n m s e small =
    let over : ltb (in_hour t + n) 3600 ≡ false = ground (arith, e) in
    let minute : (in_hour t + n - 3600) / 60 ≡ m = omega (arith, e, small) in
    let second : (in_hour t + n - 3600) % 60 ≡ s = omega (arith, e, small) in
    rw over (rw minute (rw second refl))

pub sub_within :
    (t : Moment) (n m s : ℕ)
    → m * 60 + s + n ≡ in_hour t
    → s < 60
    → sub_seconds t n ≡ record t { minute = m; second = s }
unfolding sub_seconds
sub_within t n m s e small =
    let here : leb n (in_hour t) ≡ true = le→leb _ _ (omega (arith, e)) in
    let minute : (in_hour t - n) / 60 ≡ m = omega (arith, e, small) in
    let second : (in_hour t - n) % 60 ≡ s = omega (arith, e, small) in
    rw here (rw minute (rw second refl))

pub sub_under :
    (t : Moment) (n m s : ℕ)
    → m * 60 + s + n ≡ in_hour t + 3600
    → s < 60
    → in_hour t < n
    → sub_seconds t n ≡ prev_hour t m s
unfolding sub_seconds
sub_under t n m s e small less =
    let under : leb n (in_hour t) ≡ false = ground (arith, less) in
    let minute : (in_hour t + 3600 - n) / 60 ≡ m = omega (arith, e, small) in
    let second : (in_hour t + 3600 - n) % 60 ≡ s = omega (arith, e, small) in
    rw under (rw minute (rw second refl))

pub next_hour_fields :
    (t : Moment) (m s : ℕ) → ((next_hour t m s).minute ≡ m) × ((next_hour t m s).second ≡ s)
unfolding next_hour
next_hour_fields t m s = ground arith

next_hour_set :
    (t : Moment) (m s m' s' : ℕ)
    → record (next_hour t m s) { minute = m'; second = s' } ≡ next_hour t m' s'
unfolding next_hour
next_hour_set t m s m' s' = elim (Bool-cases (ltb t.hour 23)) [
  | inl more ↦ rw more refl
  | inr last ↦ rw last refl
]

-- The full minute and the full hour behind a time.
abbrev pub minute_up : Moment → Moment
minute_up t =
    if ltb t.minute 59 then record t { minute = t.minute + 1; second = 0 } else next_hour t 0 0

pub truncate_within :
    (t : Moment) (unit offset n m s : ℕ)
    → (in_hour t + 3600 - offset) % unit ≡ n
    → m * 60 + s + n ≡ in_hour t
    → s < 60
    → truncate unit offset t ≡ record t { minute = m; second = s }
unfolding truncate
truncate_within t unit offset n m s rest e small = rw rest (sub_within t n m s e small)

truncate_next :
    (t : Moment) (unit offset n m s m' s' : ℕ)
    → (m * 60 + s + 3600 - offset) % unit ≡ n
    → m' * 60 + s' + n ≡ m * 60 + s
    → s' < 60
    → truncate unit offset (next_hour t m s) ≡ next_hour t m' s'
truncate_next t unit offset n m s m' s' rest e small =
    let (minute, second) = next_hour_fields t m s in
    truncate_within (next_hour t m s) unit offset n m' s' (rw minute (rw second rest))
      (rw minute (rw second e)) small
    ∙ next_hour_set t m s m' s'

pub truncate_minute :
    (t : Moment) → IsMoment t → truncate 60 0 (add_seconds t (60 - t.second)) ≡ minute_up t
truncate_minute t a = elim (Bool-cases (ltb t.minute 59)) [
  | inl more ↦ rw more (
      rw
        (add_within t (60 - t.second) (t.minute + 1) 0 (omega (arith, a.second)) (omega arith)
          (omega (arith, ltb→lt t.minute 59 more)))
        (truncate_within (record t { minute = t.minute + 1; second = 0 }) 60 0 0 (t.minute + 1) 0
          (omega arith) (omega arith) (omega arith)))
  | inr last ↦ rw last (
      rw
        (add_over t (60 - t.second) 0 0 (omega (arith, a.second, a.minute, ltb→ge t.minute 59 last))
          (omega arith))
        (truncate_next t 60 0 0 0 0 0 0 (omega arith) (omega arith) (omega arith)))
]

pub truncate_hour :
    (t : Moment)
    → IsMoment t
    → truncate 3600 0 (add_seconds t ((60 - t.minute) * 60)) ≡ next_hour t 0 0
truncate_hour t a =
    rw (add_over t ((60 - t.minute) * 60) 0 t.second (omega (arith, a.minute)) a.second) (
      truncate_next t 3600 0 t.second 0 t.second 0 0 (omega (arith, a.second)) (omega arith)
        (omega arith))
