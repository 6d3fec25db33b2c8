-- ===== src/Cron/Next.antt =====
-- The next time of a cron schedule: `specSchedule.Next` of pkg/cron/schedule.go, in a zone at a fixed
-- offset.
mod Examples
pub mod Keys
pub mod Skips
pub mod Clock
pub mod Between
pub mod Stages
pub mod Rounds
pub mod Earliest
pub mod Levels
pub mod Hits
pub mod Daily
pub mod Stuck
use tickraft.Base.{
  ℕ, zero, suc, ◌+◌, ◌-◌, ◌*◌, Bool, true, not, ◌&&◌, Option, some, none, ltb, leb, ◌==◌,
  if◌then◌else◌,
}
use tickraft.Cron.Bits.{bit_match, next_set_bit}
use tickraft.Cron.Spec.{SpecSchedule}
use tickraft.Cron.Parse.{matches_day}
use tickraft.Cron.Calendar.{Date, Moment, next_day, weekday, midnight, add_seconds, truncate}

-- A round of the loop returns a time, or goes on from one.
pub data Round : Type 0 where
  found again : Moment → Round

unfoldable pub day_matches : SpecSchedule → Date → Bool
day_matches s d = matches_day s d.day (weekday d)

-- `time.Date` of the given field, with the smaller ones at 0; a field that has the value stays.
unfoldable pub move_month : Moment → ℕ → Moment
move_month t month =
    if month == t.date.month
    then t
    else midnight (record { year = t.date.year; month = month; day = 1 })

unfoldable pub move_hour : Moment → ℕ → Moment
move_hour t hour = if hour == t.hour then t else record t { hour = hour; minute = 0; second = 0 }

unfoldable pub move_minute : Moment → ℕ → Moment
move_minute t minute = if minute == t.minute then t else record t { minute = minute; second = 0 }

unfoldable pub move_second : Moment → ℕ → Moment
move_second t second = if second == t.second then t else record t { second = second }

abbrev pub resume : (Moment → Option Moment) → Round → Option Moment
resume go_on (found t) = some t
resume go_on (again t) = go_on t

module _ (s : SpecSchedule) (offset : ℕ) where
  -- The last check of a round.
  unfoldable pub check_match : Moment → Round
  check_match t =
      if day_matches s t.date && bit_match s.month t.date.month
      then found t
      else again (add_seconds t 1)

  unfoldable pub second_stage : Option ℕ → Moment → Round
  second_stage none t = again (truncate 60 offset (add_seconds t (60 - t.second)))
  second_stage (some second) t = check_match (move_second t second)

  unfoldable pub at_minute : Moment → Round
  at_minute t = second_stage (next_set_bit s.sec t.second 59) t

  unfoldable pub minute_stage : Option ℕ → Moment → Round
  minute_stage none t = again (truncate 3600 offset (add_seconds t ((60 - t.minute) * 60)))
  minute_stage (some minute) t = at_minute (move_minute t minute)

  unfoldable pub at_hour : Moment → Round
  at_hour t = minute_stage (next_set_bit s.min t.minute 59) t

  unfoldable pub hour_stage : Option ℕ → Moment → Round
  hour_stage none t = again (midnight (next_day t.date))
  hour_stage (some hour) t = at_hour (move_hour t hour)

  unfoldable pub at_day : Moment → Round
  at_day t =
      if day_matches s t.date
      then hour_stage (next_set_bit s.hour t.hour 23) t
      else again (midnight (next_day t.date))

  unfoldable pub month_stage : Option ℕ → Moment → Round
  month_stage none t = again (midnight (record { year = t.date.year + 1; month = 1; day = 1 }))
  month_stage (some month) t = at_day (move_month t month)

  unfoldable pub next_round : Moment → Round
  next_round t = month_stage (next_set_bit s.month t.date.month 12) t

  -- The loop, for the rounds that are left: `iter` counts to 1000, and `max_year` is fixed at the start.
  -- The zero time is `none`.
  unfoldable pub next_loop : ℕ → ℕ → Moment → Option Moment
  next_loop zero max_year t = none
  next_loop (suc n) max_year t =
      if ltb max_year t.date.year then none else resume (next_loop n max_year) (next_round t)

  -- From a time in the zone, at its whole second.
  unfoldable pub next_time : Moment → Option Moment
  next_time from =
      let current = add_seconds from 1 in next_loop 1000 (current.date.year + 5) current
