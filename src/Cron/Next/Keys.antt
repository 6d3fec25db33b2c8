-- ===== src/Cron/Next/Keys.antt =====
-- The order of the times of a zone, by numbers, and what lies between a time and the next full hour or day
-- (pkg/cron/schedule.go, `Next`).
use tickraft.Base.{
  ℕ, ◌≡◌, ◌<◌, ◌≤◌, sym, ◌+◌, ◌*◌, arith, Bool-cases, inl, inr, ltb, ltb→lt, ltb→ge,
}
use tickraft.Cron.Calendar.{
  Date, Moment, days_in_month, next_day, midnight, next_hour, IsDate, IsMoment,
}

abbrev pub month_key : Date → ℕ
month_key d = d.year * 12 + d.month

abbrev pub date_key : Date → ℕ
date_key d = (d.year * 12 + d.month) * 31 + d.day

abbrev pub clock : Moment → ℕ
clock t = (t.hour * 60 + t.minute) * 60 + t.second

abbrev pub key : Moment → ℕ
key t = date_key t.date * 86400 + clock t

pub days_in_month_bounds : (y m : ℕ) → (28 ≤ days_in_month y m) × (days_in_month y m ≤ 31)
unfolding days_in_month
days_in_month_bounds y m = ground arith

pub day_le_31 : (d : Date) → IsDate d → d.day ≤ 31
day_le_31 d v = omega (arith, (days_in_month_bounds d.year d.month).1, v.day_high)

pub clock_bound : (t : Moment) → IsMoment t → clock t < 86400
clock_bound t v = omega (arith, v.hour, v.minute, v.second)

pub key_split :
    (t v : Moment)
    → IsMoment t
    → IsMoment v
    → key t ≤ key v
    → (date_key t.date ≤ date_key v.date) × (date_key t.date ≡ date_key v.date → clock t ≤ clock v)
key_split t v a b h = (omega (arith, h, clock_bound t a, clock_bound v b), λ e. omega (arith, h, e))

pub date_key_eq : (d e : Date) → IsDate d → IsDate e → date_key d ≡ date_key e → d ≡ e
date_key_eq d e v w h =
    let year : d.year ≡ e.year = omega (
      arith,
      h,
      day_le_31 d v,
      day_le_31 e w,
      v.day_low,
      w.day_low,
      v.month_low,
      w.month_low,
      v.month_high,
      w.month_high,
    ) in
    let month : d.month ≡ e.month =
      omega (arith, h, year, day_le_31 d v, day_le_31 e w, v.day_low, w.day_low) in
    let day : d.day ≡ e.day = omega (arith, h, year, month) in cc

pub next_day-IsDate : (d : Date) → IsDate d → IsDate (next_day d)
unfolding next_day
next_day-IsDate d v =
    let here = days_in_month_bounds d.year (d.month + 1) in
    let there = days_in_month_bounds (d.year + 1) 1 in ground arith

pub next_day_later : (d : Date) → IsDate d → date_key d < date_key (next_day d)
unfolding next_day
next_day_later d v = let high = day_le_31 d v in ground arith

month_key_later :
    (d e : Date)
    → IsDate d
    → IsDate e
    → days_in_month d.year d.month ≤ d.day
    → date_key d < date_key e
    → month_key d < month_key e
month_key_later d e v w last h = elim (Bool-cases (ltb (month_key d) (month_key e))) [
  | inl later ↦ ltb→lt _ _ later
  | inr not_later ↦
      let back = ltb→ge _ _ not_later in
      let high = day_le_31 d v in
      let high' = day_le_31 e w in
      let same_key : month_key d ≡ month_key e = omega (arith, back, h, high, high') in
      let year : d.year ≡ e.year =
        omega (arith, same_key, v.month_low, w.month_low, v.month_high, w.month_high) in
      let month : d.month ≡ e.month = omega (arith, same_key, year) in
      let same_days : days_in_month d.year d.month ≡ days_in_month e.year e.month = cc in
      absurd (omega (arith, same_key, same_days, last, w.day_high, h))
]

-- No day is between a day and the next one.
pub next_day_next :
    (d e : Date)
    → IsDate d
    → IsDate e
    → date_key d < date_key e
    → date_key (next_day d) ≤ date_key e
unfolding next_day
next_day_next d e v w h = elim (Bool-cases (ltb d.day (days_in_month d.year d.month))) [
  | inl inside ↦ rw inside (omega (arith, h))
  | inr last ↦ rw last (
      let later = month_key_later d e v w (ltb→ge _ _ last) h in
      elim (Bool-cases (ltb d.month 12)) [
        | inl more ↦ rw more (omega (arith, later, w.day_low))
        | inr december ↦ rw december (
            let year_end : d.month ≡ 12 = omega (arith, ltb→ge _ _ december, v.month_high) in
            omega (arith, later, w.day_low, w.month_low, w.month_high, year_end))
      ])
]

pub midnight-IsMoment : (d : Date) → IsDate d → IsMoment (midnight d)
midnight-IsMoment d v = record {
  date = v;
  hour = omega arith;
  minute = omega arith;
  second = omega arith;
}

-- A time before the next midnight is on the same day, and at no earlier hour, minute and second.
pub same_day :
    (t v : Moment)
    → IsMoment t
    → IsMoment v
    → key t ≤ key v
    → key v < key (midnight (next_day t.date))
    → (v.date ≡ t.date) × (clock t ≤ clock v)
same_day t v a b low high =
    let (from, later) = key_split t v a b low in
    let before : date_key v.date < date_key (next_day t.date) = omega (arith, high) in
    let not_after : date_key v.date ≤ date_key t.date =
      elim (Bool-cases (ltb (date_key t.date) (date_key v.date))) [
        | inl after ↦
            let beyond = next_day_next t.date v.date a.date b.date (ltb→lt _ _ after) in
            absurd (omega (arith, beyond, before))
        | inr not_later ↦ ltb→ge _ _ not_later
      ] in
    let same : date_key t.date ≡ date_key v.date = omega (arith, from, not_after) in
    (sym (date_key_eq t.date v.date a.date b.date same), later same)

pub next_hour-IsMoment : (t : Moment) → IsMoment t → IsMoment (next_hour t 0 0)
unfolding next_hour
next_hour-IsMoment t a =
    let next = next_day-IsDate t.date a.date in let low = a.date in ground arith

pub next_hour_later : (t : Moment) → IsMoment t → key t < key (next_hour t 0 0)
unfolding next_hour
next_hour_later t a =
    let next = next_day_later t.date a.date in
    let bound = clock_bound t a in
    elim (Bool-cases (ltb t.hour 23)) [
      | inl more ↦ rw more (omega (arith, a.minute, a.second))
      | inr last ↦ rw last (omega (arith, next, bound))
    ]

-- A time before the next full hour is in the same hour.
pub same_hour :
    (t v : Moment)
    → IsMoment t
    → IsMoment v
    → key t ≤ key v
    → key v < key (next_hour t 0 0)
    → (v.date ≡ t.date) × (v.hour ≡ t.hour) × (t.minute * 60 + t.second ≤ v.minute * 60 + v.second)
unfolding next_hour
same_hour t v a b low high = elim (Bool-cases (ltb t.hour 23)) [
  | inl more ↦
      let (from, later) = key_split t v a b low in
      let limit : key v < key (record t { hour = t.hour + 1; minute = 0; second = 0 }) =
        rw more at high in
      let hour = ltb→lt t.hour 23 more in
      let same : date_key t.date ≡ date_key v.date = omega (arith, from, limit, hour) in
      let clocks = later same in
      (
        sym (date_key_eq t.date v.date a.date b.date same),
        omega (arith, limit, same, clocks, a.minute, a.second, b.minute, b.second),
        omega (arith, limit, same, clocks, a.minute, a.second, b.minute, b.second),
      )
  | inr last ↦
      let limit : key v < key (midnight (next_day t.date)) = rw last at high in
      let hour = ltb→ge t.hour 23 last in
      let (day, clocks) = same_day t v a b low limit in
      (
        day,
        omega (arith, clocks, hour, a.hour, b.hour, a.minute, a.second, b.minute, b.second),
        omega (arith, clocks, hour, a.hour, b.hour, a.minute, a.second, b.minute, b.second),
      )
]
