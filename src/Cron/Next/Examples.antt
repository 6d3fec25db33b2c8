-- ===== src/Cron/Next/Examples.antt =====
-- `Next` of an hourly schedule, in zones at different offsets.
use tickraft.Base.{ℕ, zero, suc, ◌≡◌, ◌≢◌, ◌<◌, ◌≤◌, refl, ◌∙◌, true, false, some, none, arith}
use tickraft.Cron.Bits.{bit_match, all_bits, next_set_bit, trailing_zeros, shift_right}
use tickraft.Cron.Bits.Laws.{bit_match-zero, bit_match-all_bits}
use tickraft.Cron.Spec.{SpecSchedule}
use tickraft.Cron.Parse.{matches_day}
use tickraft.Cron.Calendar.{
  Moment, is_leap, days_in_month, next_day, prev_day, next_hour, prev_hour, add_seconds,
  sub_seconds, truncate, weekday, day_number, days_before, IsMoment,
}
use tickraft.Cron.Next.{
  day_matches, move_month, move_hour, move_minute, move_second, check_match, second_stage,
  at_minute, minute_stage, at_hour, hour_stage, at_day, month_stage, next_round, next_loop,
  next_time,
}
use tickraft.Cron.Next.Keys.{key}
use tickraft.Cron.Next.Skips.{IsUint64, Matches}
use tickraft.Cron.Next.Daily.{next_time_some}
use tickraft.Cron.Next.Hits.{IsDaily}
use tickraft.Cron.Next.Earliest.{next_time_earliest}
use tickraft.Cron.Next.Stuck.{next_time_stuck}

-- `0 * * * *`
abbrev each_hour : SpecSchedule
each_hour = record {
  sec = 1;
  min = 1;
  hour = all_bits 0 23;
  dom = 0;
  month = all_bits 1 12;
  dow = 0;
  dom_star = true;
  dow_star = true;
  loc = 0;
}

abbrev late_at_night : Moment
late_at_night = record {
  date = record { year = 2024; month = 12; day = 31 };
  hour = 23;
  minute = 40;
  second = 0;
}

abbrev new_year : Moment
new_year = record {
  date = record { year = 2025; month = 1; day = 1 };
  hour = 0;
  minute = 0;
  second = 0;
}

each_hour_next : next_time each_hour 0 late_at_night ≡ some new_year
unfolding next_time next_loop next_round month_stage at_day hour_stage at_hour minute_stage
    at_minute second_stage check_match move_month move_hour move_minute move_second day_matches
    matches_day truncate add_seconds sub_seconds next_hour prev_hour next_day prev_day days_in_month
    is_leap weekday day_number days_before next_set_bit all_bits bit_match trailing_zeros
    shift_right
each_hour_next = refl

each_hour_in_india : next_time each_hour 1800 late_at_night ≡ none
unfolding next_time next_loop next_round month_stage at_day hour_stage at_hour minute_stage
    at_minute second_stage check_match move_month move_hour move_minute move_second day_matches
    matches_day truncate add_seconds sub_seconds next_hour prev_hour next_day prev_day days_in_month
    is_leap weekday day_number days_before next_set_bit all_bits bit_match trailing_zeros
    shift_right
each_hour_in_india = refl

each_hour-IsUint64 : IsUint64 each_hour
unfolding all_bits
each_hour-IsUint64 = record {
  sec = omega arith;
  min = omega arith;
  hour = omega arith;
  month = omega arith;
}

all_hours : (h : ℕ) → h ≤ 23 → bit_match each_hour.hour h ≡ true
all_hours h small =
    bit_match-all_bits 0 23 h (omega arith) (omega arith) (omega arith) ∙ ground (arith, small)

all_months : (m : ℕ) → 1 ≤ m → m ≤ 12 → bit_match each_hour.month m ≡ true
all_months m low high =
    bit_match-all_bits 1 12 m (omega arith) (omega arith) (omega arith) ∙ ground (arith, low, high)

no_hour_above : (h : ℕ) → 23 < h → bit_match each_hour.hour h ≡ false
no_hour_above h above =
    bit_match-all_bits 0 23 h (omega arith) (omega arith) (omega arith) ∙ ground (arith, above)

one_bit : (v : ℕ) → 0 < v → bit_match 1 v ≡ false
unfolding bit_match
one_bit zero some_v = absurd (omega (arith, some_v))
one_bit (suc v) some_v = bit_match-zero v

each_hour-IsDaily : IsDaily each_hour
unfolding bit_match
each_hour-IsDaily = record {
  any_day = refl;
  any_weekday = refl;
  months = all_months;
  hours = record {
    some_value = (0, omega arith, omega arith, all_hours 0 (omega arith));
    none_above = no_hour_above;
  };
  minutes = record {
    some_value = (0, omega arith, omega arith, refl);
    none_above = λ v h. one_bit v (omega (arith, h));
  };
  seconds = record {
    some_value = (0, omega arith, omega arith, refl);
    none_above = λ v h. one_bit v (omega (arith, h));
  };
}

late_at_night-IsMoment : IsMoment late_at_night
unfolding days_in_month
late_at_night-IsMoment = record {
  date = record {
    month_low = omega arith;
    month_high = omega arith;
    day_low = omega arith;
    day_high = omega arith;
  };
  hour = omega arith;
  minute = omega arith;
  second = omega arith;
}

next_time_earliest_example :
    IsMoment new_year
    × Matches each_hour new_year
    × (key late_at_night < key new_year)
    × ((v : Moment)
        → IsMoment v
        → key late_at_night < key v
        → key v < key new_year
        → ¬ Matches each_hour v)
next_time_earliest_example =
    next_time_earliest each_hour each_hour-IsUint64 late_at_night new_year late_at_night-IsMoment
      each_hour_next

next_time_some_example : next_time each_hour 0 late_at_night ≢ none
next_time_some_example =
    next_time_some each_hour each_hour-IsUint64 each_hour-IsDaily late_at_night
      late_at_night-IsMoment

late : 1 ≤ (add_seconds late_at_night 1).minute
unfolding add_seconds
late = omega arith

next_time_stuck_example : next_time each_hour 1800 late_at_night ≡ none
next_time_stuck_example =
    next_time_stuck each_hour each_hour-IsUint64 each_hour-IsDaily 1800 1 (omega arith)
      (omega arith) refl (omega arith) all_hours (λ m low high. one_bit m (omega (arith, low)))
      late_at_night late_at_night-IsMoment late
