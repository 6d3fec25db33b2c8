-- ===== src/Cron/Next/Stages.antt =====
-- Each stage of a round of `Next` (pkg/cron/schedule.go), in a zone whose offset is full hours.
use tickraft.Base.{
  ℕ, ◌≡◌, ◌≢◌, sym, ◌+◌, ◌*◌, true, ◌==◌, Option, some, none, arith, Bool-cases, inl, inr,
}
use tickraft.Cron.Bits.{bit_match, next_set_bit}
use tickraft.Cron.Bits.Search.{IsNext, next_set_bit-IsNext}
use tickraft.Cron.Spec.{SpecSchedule}
use tickraft.Cron.Calendar.{Moment, next_day, IsMoment}
use tickraft.Cron.Next.{
  day_matches, move_hour, move_minute, move_second, check_match, second_stage, at_minute,
  minute_stage, at_hour, hour_stage,
}
use tickraft.Cron.Next.Keys.{
  clock_bound, next_day-IsDate, next_day_later, midnight-IsMoment, same_day, next_hour-IsMoment,
  next_hour_later, same_hour,
}
use tickraft.Cron.Next.Between.{
  within_day, within_hour, minute_up-IsMoment, minute_up_later, same_minute,
}
use tickraft.Cron.Next.Clock.{truncate_minute, truncate_hour}
use tickraft.Cron.Next.Skips.{Matches, IsUint64, Skips, Skips-refl, Good, Good-skip}

module _ (s : SpecSchedule) where
  -- The last check passes once all fields match.
  check-Good : (t : Moment) → IsMoment t → Matches s t → Good s t (check_match s 0 t)
  unfolding check_match
  check-Good t a m = rw m.day (rw m.month (Skips-refl s t a, m))

  second-Good :
      (o : Option ℕ) (t : Moment)
      → IsNext s.sec t.second 59 o
      → IsMoment t
      → bit_match s.month t.date.month ≡ true
      → day_matches s t.date ≡ true
      → bit_match s.hour t.hour ≡ true
      → bit_match s.min t.minute ≡ true
      → Good s t (second_stage s 0 o t)
  unfolding second_stage move_second
  second-Good none t next a month day hour minute = rw (truncate_minute t a) (
    record {
      valid = minute_up-IsMoment t a;
      order = omega (arith, minute_up_later t a);
      no_match = λ v b low high m.
          let (_, _, _, from) = same_minute t v a b low high in
          let no = next v.second from (omega (arith, b.second)) in let yes = m.second in cc;
    },
    minute_up_later t a,
  )
  second-Good (some second) t (from, to, bit, least) a month day hour minute =
      elim (Bool-cases (second == t.second)) [
        | inl here ↦ rw here (
            let eq : second ≡ t.second = ground arith in
            check-Good t a (record {
              month = month;
              day = day;
              hour = hour;
              minute = minute;
              second = rw (sym eq) bit;
            }))
        | inr later ↦ rw later (
            let u : Moment = record t { second = second } in
            let valid : IsMoment u = record {
              date = a.date;
              hour = a.hour;
              minute = a.minute;
              second = omega (arith, to);
            } in
            let passed : Skips s t u = record {
              valid = valid;
              order = omega (arith, from);
              no_match = λ v b low high m.
                  let (_, _, lower, upper) =
                    within_hour t v (t.minute * 60 + second) a b low (omega (arith, high))
                      (omega (arith, a.minute, to)) in
                  let no =
                    least v.second (omega (arith, lower, upper, a.second, b.second, to))
                      (omega (arith, lower, upper, a.second, b.second, to)) in
                  let yes = m.second in cc;
            } in
            Good-skip s t u (check_match s 0 u) passed (
              check-Good u valid
                (record { month = month; day = day; hour = hour; minute = minute; second = bit })))
      ]

  minute-Good :
      (o : Option ℕ) (t : Moment)
      → IsNext s.min t.minute 59 o
      → IsUint64 s
      → IsMoment t
      → bit_match s.month t.date.month ≡ true
      → day_matches s t.date ≡ true
      → bit_match s.hour t.hour ≡ true
      → Good s t (minute_stage s 0 o t)
  unfolding minute_stage move_minute at_minute
  minute-Good none t next w a month day hour = rw (truncate_hour t a) (
    record {
      valid = next_hour-IsMoment t a;
      order = omega (arith, next_hour_later t a);
      no_match = λ v b low high m.
          let (_, _, from) = same_hour t v a b low high in
          let no =
            next v.minute (omega (arith, from, a.second, b.second)) (omega (arith, b.minute)) in
          let yes = m.minute in cc;
    },
    next_hour_later t a,
  )
  minute-Good (some minute) t (from, to, bit, least) w a month day hour =
      elim (Bool-cases (minute == t.minute)) [
        | inl here ↦ rw here (
            let eq : minute ≡ t.minute = ground arith in
            second-Good (next_set_bit s.sec t.second 59) t
              (next_set_bit-IsNext s.sec t.second 59 w.sec) a month day hour (rw (sym eq) bit))
        | inr later ↦ rw later (
            let u : Moment = record t { minute = minute; second = 0 } in
            let valid : IsMoment u = record {
              date = a.date;
              hour = a.hour;
              minute = omega (arith, to);
              second = omega arith;
            } in
            let differ : minute ≢ t.minute = λ e. ground arith in
            let passed : Skips s t u = record {
              valid = valid;
              order = omega (arith, from, differ, a.second);
              no_match = λ v b low high m.
                  let (_, _, lower, upper) =
                    within_hour t v (minute * 60) a b low (omega (arith, high))
                      (omega (arith, to)) in
                  let no =
                    least v.minute (omega (arith, lower, a.second, b.second))
                      (omega (arith, upper)) in
                  let yes = m.minute in cc;
            } in
            Good-skip s t u _ passed (
              second-Good (next_set_bit s.sec 0 59) u (next_set_bit-IsNext s.sec 0 59 w.sec) valid
                month day hour bit))
      ]

  pub hour-Good :
      (o : Option ℕ) (t : Moment)
      → IsNext s.hour t.hour 23 o
      → IsUint64 s
      → IsMoment t
      → bit_match s.month t.date.month ≡ true
      → day_matches s t.date ≡ true
      → Good s t (hour_stage s 0 o t)
  unfolding hour_stage move_hour at_hour
  hour-Good none t next w a month day =
      let later = next_day_later t.date a.date in
      let bound = clock_bound t a in
      (
        record {
          valid = midnight-IsMoment (next_day t.date) (next_day-IsDate t.date a.date);
          order = omega (arith, later, bound);
          no_match = λ v b low high m.
              let (_, from) = same_day t v a b low high in
              let no =
                next v.hour (omega (arith, from, a.minute, a.second, b.minute, b.second))
                  (omega (arith, b.hour)) in
              let yes = m.hour in cc;
        },
        omega (arith, later, bound),
      )
  hour-Good (some hour) t (from, to, bit, least) w a month day =
      elim (Bool-cases (hour == t.hour)) [
        | inl here ↦ rw here (
            let eq : hour ≡ t.hour = ground arith in
            minute-Good (next_set_bit s.min t.minute 59) t
              (next_set_bit-IsNext s.min t.minute 59 w.min) w a month day (rw (sym eq) bit))
        | inr later ↦ rw later (
            let u : Moment = record t { hour = hour; minute = 0; second = 0 } in
            let valid : IsMoment u = record {
              date = a.date;
              hour = omega (arith, to);
              minute = omega arith;
              second = omega arith;
            } in
            let differ : hour ≢ t.hour = λ e. ground arith in
            let passed : Skips s t u = record {
              valid = valid;
              order = omega (arith, from, differ, a.minute, a.second);
              no_match = λ v b low high m.
                  let (_, lower, upper) =
                    within_day t v (hour * 3600) a b low (omega (arith, high))
                      (omega (arith, to)) in
                  let no =
                    least v.hour (omega (arith, lower, a.minute, a.second, b.minute, b.second))
                      (omega (arith, upper)) in
                  let yes = m.hour in cc;
            } in
            Good-skip s t u _ passed (
              minute-Good (next_set_bit s.min 0 59) u (next_set_bit-IsNext s.min 0 59 w.min) w valid
                month day bit))
      ]
