-- ===== src/Cron/Next/Hits.antt =====
-- A schedule of every day, and the rounds of `Next` that find a time (pkg/cron/schedule.go).
use tickraft.Base.{ℕ, ◌≡◌, ◌≤◌, refl, true, ◌==◌, Option, some, none, arith, Bool-cases, inl, inr}
use tickraft.Cron.Bits.{bit_match, next_set_bit}
use tickraft.Cron.Bits.Search.{IsNext, next_set_bit-IsNext}
use tickraft.Cron.Fields.Masks.{IsMask}
use tickraft.Cron.Spec.{SpecSchedule}
use tickraft.Cron.Parse.{matches_day}
use tickraft.Cron.Calendar.{Date, Moment, IsMoment}
use tickraft.Cron.Next.{
  Round, found, again, day_matches, move_minute, move_second, check_match, second_stage, at_minute,
  minute_stage, at_hour,
}
use tickraft.Cron.Next.Skips.{IsUint64}

-- Every day and every month, at some hour, minute and second.
pub record IsDaily (s : SpecSchedule) : Type 0 where
  pub any_day : s.dom_star ≡ true
  pub any_weekday : s.dow_star ≡ true
  pub months : (m : ℕ) → 1 ≤ m → m ≤ 12 → bit_match s.month m ≡ true
  pub hours : IsMask 0 23 s.hour
  pub minutes : IsMask 0 59 s.min
  pub seconds : IsMask 0 59 s.sec

abbrev pub IsFound : Round → Type 0
IsFound (found u) = Unit
IsFound (again u) = ⊥

-- A round that goes on from a time that is simpler.

module _ (s : SpecSchedule) (w : IsUint64 s) (y : IsDaily s) where
  pub some_value_left :
      (mask from last : ℕ) → IsMask 0 last mask → from ≡ 0 → ¬ IsNext mask from last none
  some_value_left mask from last m start none_set =
      let (v, low, high, set) = m.some_value in
      let no = none_set v (omega (arith, start)) high in cc

  pub any_day_matches : (d : Date) → day_matches s d ≡ true
  unfolding day_matches matches_day
  any_day_matches d = rw y.any_day (rw y.any_weekday refl)

  pub check_hits : (t : Moment) → IsMoment t → IsFound (check_match s 0 t)
  unfolding check_match
  check_hits t a =
      rw (any_day_matches t.date) (rw (y.months t.date.month a.date.month_low a.date.month_high) tt)

  pub moved_hits :
      (t : Moment) (second : ℕ)
      → IsMoment t
      → second ≤ 59
      → IsFound (check_match s 0 (move_second t second))
  unfolding move_second
  moved_hits t second a to = elim (Bool-cases (second == t.second)) [
    | inl here ↦ rw here (check_hits t a)
    | inr later ↦ rw later (
        check_hits (record t { second = second })
          (record { date = a.date; hour = a.hour; minute = a.minute; second = omega (arith, to) }))
  ]

  pub second_hits :
      (o : Option ℕ) (t : Moment)
      → IsMoment t
      → t.second ≡ 0
      → IsNext s.sec t.second 59 o
      → IsFound (second_stage s 0 o t)
  unfolding second_stage
  second_hits none t a start next = absurd (some_value_left s.sec t.second 59 y.seconds start next)
  second_hits (some second) t a start (from, to, bit, least) = moved_hits t second a to

  pub at_minute_hits : (t : Moment) → IsMoment t → t.second ≡ 0 → IsFound (at_minute s 0 t)
  unfolding at_minute
  at_minute_hits t a start =
      second_hits (next_set_bit s.sec t.second 59) t a start
        (next_set_bit-IsNext s.sec t.second 59 w.sec)

  pub minute_hits :
      (o : Option ℕ) (t : Moment)
      → IsMoment t
      → t.minute ≡ 0
      → t.second ≡ 0
      → IsNext s.min t.minute 59 o
      → IsFound (minute_stage s 0 o t)
  unfolding minute_stage move_minute
  minute_hits none t a start start' next =
      absurd (some_value_left s.min t.minute 59 y.minutes start next)
  minute_hits (some minute) t a start start' (from, to, bit, least) =
      elim (Bool-cases (minute == t.minute)) [
        | inl here ↦ rw here (at_minute_hits t a start')
        | inr later ↦ rw later (
            at_minute_hits (record t { minute = minute; second = 0 })
              (record {
                date = a.date;
                hour = a.hour;
                minute = omega (arith, to);
                second = omega arith;
              })
              refl)
      ]

  pub at_hour_hits :
      (t : Moment) → IsMoment t → t.minute ≡ 0 → t.second ≡ 0 → IsFound (at_hour s 0 t)
  unfolding at_hour
  at_hour_hits t a start start' =
      minute_hits (next_set_bit s.min t.minute 59) t a start start'
        (next_set_bit-IsNext s.min t.minute 59 w.min)
