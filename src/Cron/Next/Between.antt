-- ===== src/Cron/Next/Between.antt =====
-- The times that a move within the day or within the hour passes over (pkg/cron/schedule.go, `Next`).
use tickraft.Base.{
  ℕ, ◌≡◌, ◌<◌, ◌≤◌, sym, ◌+◌, ◌*◌, arith, Bool-cases, inl, inr, ltb, ltb→lt, ltb→ge,
}
use tickraft.Cron.Calendar.{Moment, next_hour, IsMoment}
use tickraft.Cron.Next.Keys.{
  key, clock, date_key, key_split, date_key_eq, next_hour-IsMoment, next_hour_later, same_hour,
}
use tickraft.Cron.Next.Clock.{in_hour, minute_up}

-- Behind `t` and before a later clock time of the same day.
pub within_day :
    (t v : Moment) (c : ℕ)
    → IsMoment t
    → IsMoment v
    → key t ≤ key v
    → key v < date_key t.date * 86400 + c
    → c < 86400
    → (v.date ≡ t.date) × (clock t ≤ clock v) × (clock v < c)
within_day t v c a b low high small =
    let (from, later) = key_split t v a b low in
    let same : date_key t.date ≡ date_key v.date = omega (arith, from, high, small) in
    (sym (date_key_eq t.date v.date a.date b.date same), later same, omega (arith, high, same))

-- Behind `t` and before a later minute and second of the same hour.
pub within_hour :
    (t v : Moment) (c : ℕ)
    → IsMoment t
    → IsMoment v
    → key t ≤ key v
    → key v < date_key t.date * 86400 + (t.hour * 3600 + c)
    → c < 3600
    → (v.date ≡ t.date) × (v.hour ≡ t.hour) × (in_hour t ≤ in_hour v) × (in_hour v < c)
within_hour t v c a b low high small =
    let (day, from, to) =
      within_day t v (t.hour * 3600 + c) a b low high (omega (arith, a.hour, small)) in
    let hour : v.hour ≡ t.hour =
      omega (arith, from, to, small, a.minute, a.second, b.minute, b.second) in
    (day, hour, omega (arith, from, hour), omega (arith, to, hour))

pub minute_up-IsMoment : (t : Moment) → IsMoment t → IsMoment (minute_up t)
minute_up-IsMoment t a = elim (Bool-cases (ltb t.minute 59)) [
  | inl more ↦ rw more (record {
    date = a.date;
    hour = a.hour;
    minute = omega (arith, ltb→lt t.minute 59 more);
    second = omega arith;
  })
  | inr last ↦ rw last (next_hour-IsMoment t a)
]

pub minute_up_later : (t : Moment) → IsMoment t → key t < key (minute_up t)
minute_up_later t a = elim (Bool-cases (ltb t.minute 59)) [
  | inl more ↦ rw more (omega (arith, a.second))
  | inr last ↦ rw last (next_hour_later t a)
]

-- A time before the next full minute is in the same minute.
pub same_minute :
    (t v : Moment)
    → IsMoment t
    → IsMoment v
    → key t ≤ key v
    → key v < key (minute_up t)
    → (v.date ≡ t.date) × (v.hour ≡ t.hour) × (v.minute ≡ t.minute) × (t.second ≤ v.second)
same_minute t v a b low high = elim (Bool-cases (ltb t.minute 59)) [
  | inl more ↦
      let limit : key v < key (record t { minute = t.minute + 1; second = 0 }) = rw more at high in
      let minute = ltb→lt t.minute 59 more in
      let (day, hour, from, to) =
        within_hour t v ((t.minute + 1) * 60) a b low (omega (arith, limit))
          (omega (arith, minute)) in
      (
        day,
        hour,
        omega (arith, from, to, a.second, b.second),
        omega (arith, from, to, a.second, b.second),
      )
  | inr last ↦
      let limit : key v < key (next_hour t 0 0) = rw last at high in
      let minute = ltb→ge t.minute 59 last in
      let (day, hour, from) = same_hour t v a b low limit in
      (
        day,
        hour,
        omega (arith, from, minute, a.minute, a.second, b.minute, b.second),
        omega (arith, from, minute, a.minute, a.second, b.minute, b.second),
      )
]
