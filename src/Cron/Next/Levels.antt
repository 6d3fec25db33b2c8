-- ===== src/Cron/Next/Levels.antt =====
-- How far a time is from the start of a day: the measure of the loop of `Next` (pkg/cron/schedule.go).
use tickraft.Base.{
  ℕ, suc, ◌≡◌, ◌≢◌, ◌≤◌, refl, not, ◌==◌, arith, Bool-cases, inl, inr, ltb, if◌then◌else◌,
}
use tickraft.Cron.Calendar.{Date, Moment, next_day, next_hour}
use tickraft.Cron.Next.Clock.{minute_up}

unfoldable pub level : Moment → ℕ
level t =
    if not (t.second == 0)
    then 3
    else if not (t.minute == 0)
    then 2
    else if not (t.hour == 0)
    then 1
    else 0

pub level_second : (t : Moment) → t.second ≢ 0 → level t ≡ 3
unfolding level
level_second t h = ground arith

pub level_minute : (t : Moment) → t.minute ≢ 0 → 2 ≤ level t
unfolding level
level_minute t h = ground arith

pub level_hour : (t : Moment) → t.hour ≢ 0 → 1 ≤ level t
unfolding level
level_hour t h = ground arith

pub level_bounds :
    (t : Moment)
    → (level t ≤ 3)
      × (t.second ≡ 0 → level t ≤ 2)
      × (t.second ≡ 0 → t.minute ≡ 0 → level t ≤ 1)
      × (t.second ≡ 0 → t.minute ≡ 0 → t.hour ≡ 0 → level t ≡ 0)
unfolding level
level_bounds t = ground arith

pub next_day_year : (d : Date) → (next_day d).year ≤ suc d.year
unfolding next_day
next_day_year d = ground arith

pub next_hour_year : (t : Moment) (m s : ℕ) → (next_hour t m s).date.year ≤ suc t.date.year
unfolding next_hour
next_hour_year t m s = let days = next_day_year t.date in ground arith

pub next_hour_clock : (t : Moment) → ((next_hour t 0 0).minute ≡ 0) × ((next_hour t 0 0).second ≡ 0)
unfolding next_hour
next_hour_clock t = ground arith

pub minute_up_simple :
    (t : Moment) → ((minute_up t).second ≡ 0) × ((minute_up t).date.year ≤ suc t.date.year)
minute_up_simple t = elim (Bool-cases (ltb t.minute 59)) [
  | inl more ↦ rw more (refl, omega arith)
  | inr last ↦ rw last ((next_hour_clock t).1, next_hour_year t 0 0)
]
