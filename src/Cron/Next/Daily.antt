-- ===== src/Cron/Next/Daily.antt =====
-- A schedule of every day always has a next time, and the loop of `Next` finds it in five rounds
-- (pkg/cron/schedule.go).
use tickraft.Base.{
  ℕ, zero, suc, ◌≡◌, ◌≢◌, ◌<◌, ◌≤◌, refl, ◌+◌, false, ◌==◌, Option, some, none, arith, Bool-cases,
  inl, inr, ltb,
}
use tickraft.Cron.Bits.{next_set_bit}
use tickraft.Cron.Bits.Search.{IsNext, next_set_bit-IsNext}
use tickraft.Cron.Spec.{SpecSchedule}
use tickraft.Cron.Calendar.{Moment, next_day, midnight, next_hour, add_seconds, IsMoment}
use tickraft.Cron.Next.{
  Round, found, again, resume, move_month, move_hour, move_minute, second_stage, at_minute,
  minute_stage, at_hour, hour_stage, at_day, month_stage, next_round, next_loop, next_time,
}
use tickraft.Cron.Next.Keys.{next_day-IsDate, midnight-IsMoment, next_hour-IsMoment}
use tickraft.Cron.Next.Clock.{minute_up, truncate_minute, truncate_hour}
use tickraft.Cron.Next.Between.{minute_up-IsMoment}
use tickraft.Cron.Next.Skips.{IsUint64}
use tickraft.Cron.Next.Earliest.{one_second}
use tickraft.Cron.Next.Levels.{
  level, level_second, level_minute, level_hour, level_bounds, next_day_year, next_hour_year,
  next_hour_clock, minute_up_simple,
}
use tickraft.Cron.Next.Hits.{
  IsDaily, IsFound, some_value_left, any_day_matches, moved_hits, at_minute_hits, at_hour_hits,
}

abbrev Ends : Moment → Round → Type 0
Ends t (found u) = Unit
Ends t (again u) = IsMoment u × (level u < level t) × (u.date.year ≤ suc t.date.year)

found-Ends : (t : Moment) (r : Round) → IsFound r → Ends t r
found-Ends t (found u) h = tt
found-Ends t (again u) h = absurd h

module _ (s : SpecSchedule) (w : IsUint64 s) (y : IsDaily s) where
  second-Ends :
      (o : Option ℕ) (t : Moment)
      → IsMoment t
      → IsNext s.sec t.second 59 o
      → Ends t (second_stage s 0 o t)
  unfolding second_stage
  second-Ends (some second) t a (from, to, bit, least) =
      found-Ends t _ (moved_hits s w y t second a to)
  second-Ends none t a next = rw (truncate_minute t a) (
      let u = minute_up t in
      let (clear, year) = minute_up_simple t in
      let moving : t.second ≢ 0 = λ e. some_value_left s w y s.sec t.second 59 y.seconds e next in
      let high = level_second t moving in
      let low = (level_bounds u).1 clear in
      (minute_up-IsMoment t a, omega (arith, high, low), year))

  minute-Ends :
      (o : Option ℕ) (t : Moment)
      → IsMoment t
      → IsNext s.min t.minute 59 o
      → Ends t (minute_stage s 0 o t)
  unfolding minute_stage move_minute at_minute
  minute-Ends none t a next = rw (truncate_hour t a) (
      let u = next_hour t 0 0 in
      let (clear, clear') = next_hour_clock t in
      let moving : t.minute ≢ 0 = λ e. some_value_left s w y s.min t.minute 59 y.minutes e next in
      let high = level_minute t moving in
      let low = (level_bounds u).2 clear' clear in
      (next_hour-IsMoment t a, omega (arith, high, low), next_hour_year t 0 0))
  minute-Ends (some minute) t a (from, to, bit, least) = elim (Bool-cases (minute == t.minute)) [
    | inl here ↦ rw here (
        second-Ends (next_set_bit s.sec t.second 59) t a
          (next_set_bit-IsNext s.sec t.second 59 w.sec))
    | inr later ↦ rw later (
        found-Ends t _ (
          at_minute_hits s w y (record t { minute = minute; second = 0 })
            (record {
              date = a.date;
              hour = a.hour;
              minute = omega (arith, to);
              second = omega arith;
            })
            refl))
  ]

  hour-Ends :
      (o : Option ℕ) (t : Moment)
      → IsMoment t
      → IsNext s.hour t.hour 23 o
      → Ends t (hour_stage s 0 o t)
  unfolding hour_stage move_hour at_hour
  hour-Ends none t a next =
      let moving : t.hour ≢ 0 = λ e. some_value_left s w y s.hour t.hour 23 y.hours e next in
      let high = level_hour t moving in
      let low = (level_bounds (midnight (next_day t.date))).3 refl refl refl in
      (
        midnight-IsMoment (next_day t.date) (next_day-IsDate t.date a.date),
        omega (arith, high, low),
        next_day_year t.date,
      )
  hour-Ends (some hour) t a (from, to, bit, least) = elim (Bool-cases (hour == t.hour)) [
    | inl here ↦ rw here (
        minute-Ends (next_set_bit s.min t.minute 59) t a
          (next_set_bit-IsNext s.min t.minute 59 w.min))
    | inr later ↦ rw later (
        found-Ends t _ (
          at_hour_hits s w y (record t { hour = hour; minute = 0; second = 0 })
            (record {
              date = a.date;
              hour = omega (arith, to);
              minute = omega arith;
              second = omega arith;
            })
            refl refl))
  ]

  month-Ends :
      (o : Option ℕ) (t : Moment)
      → IsMoment t
      → IsNext s.month t.date.month 12 o
      → Ends t (month_stage s 0 o t)
  unfolding month_stage move_month at_day
  month-Ends none t a next =
      let bit = y.months t.date.month a.date.month_low a.date.month_high in
      let no = next t.date.month (omega arith) a.date.month_high in absurd (cc)
  month-Ends (some month) t a (from, to, bit, least) =
      let set = y.months t.date.month a.date.month_low a.date.month_high in
      elim (Bool-cases (month == t.date.month)) [
        | inl here ↦ rw here (
            rw (any_day_matches s w y t.date) (
              hour-Ends (next_set_bit s.hour t.hour 23) t a
                (next_set_bit-IsNext s.hour t.hour 23 w.hour)))
        | inr later ↦
            let differ : month ≢ t.date.month = λ e. ground arith in
            let no = least t.date.month (omega arith) (omega (arith, from, differ)) in absurd (cc)
      ]

  resume_some :
      (go_on : Moment → Option Moment) (r : Round) (t : Moment)
      → Ends t r
      → ((u : Moment)
          → IsMoment u
          → level u < level t
          → u.date.year ≤ suc t.date.year
          → go_on u ≢ none)
      → resume go_on r ≢ none
  resume_some go_on (found u) t e rest = λ h. cc
  resume_some go_on (again u) t (a, simpler, year) rest = rest u a simpler year

  loop_some :
      (n max_year : ℕ) (t : Moment)
      → IsMoment t
      → level t < n
      → t.date.year + level t ≤ max_year
      → next_loop s 0 n max_year t ≢ none
  unfolding next_loop next_round
  loop_some zero max_year t a enough years = absurd (omega (arith, enough))
  loop_some (suc n) max_year t a enough years =
      let in_time : ltb max_year t.date.year ≡ false = ground (arith, years) in
      rw in_time (
        resume_some (next_loop s 0 n max_year) _ t
          (month-Ends (next_set_bit s.month t.date.month 12) t a
            (next_set_bit-IsNext s.month t.date.month 12 w.month))
          (λ u b simpler year.
            loop_some n max_year u b (omega (arith, simpler, enough))
              (omega (arith, simpler, year, years))))

  -- In a zone whose offset from UTC is full hours: a schedule of every day, with an hour, a minute and a
  -- second in its masks, has a next time from every moment, and the loop of at most 1000 rounds finds it.
  pub next_time_some : (from : Moment) → IsMoment from → next_time s 0 from ≢ none
  unfolding next_time
  next_time_some from a =
      let start = add_seconds from 1 in
      let most = (level_bounds start).0 in
      loop_some 1000 (start.date.year + 5) start (one_second from a).valid (omega (arith, most))
        (omega (arith, most))
