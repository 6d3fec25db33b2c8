-- ===== src/Task/Sleep/Examples.antt =====
-- The nights of Fridays, and the theorems at them.
use tickraft.Base.{◌≡◌, ◌↔◌, refl, true, false, List, [], ◌∷◌, some, arith, pos, ok}
use tickraft.Cron.Text.{codes, text_eq, split, atoi, unsigned, digits}
use tickraft.Task.Sleep.{
  SleepWindow, time_of, time_of_numbers, time_of_parts, parse_time_of_day, no_days, check_days,
  check_times, check_window, check_windows, known_policy, validate_catchup_config, in_sleep_window,
  in_some, covers, day_in_range, contains_day, same_day,
}
use tickraft.Task.Sleep.Validated.{Asleep, in_sleep_window-Asleep}

abbrev friday_nights : List SleepWindow
friday_nights = record { opening = codes "22:00"; closing = codes "06:00"; days = pos 5 ∷ [] } ∷ []

is_valid : validate_catchup_config (codes "once") friday_nights ≡ ok tt
unfolding validate_catchup_config known_policy text_eq check_windows check_window parse_time_of_day
    split time_of_parts time_of_numbers time_of atoi unsigned digits check_times no_days check_days
    day_in_range
is_valid = refl

-- Saturday at five.
in_sleep_window-Asleep_example :
    (in_sleep_window friday_nights 5 0 6 ≡ true) ↔ Asleep friday_nights 8940
in_sleep_window-Asleep_example =
    in_sleep_window-Asleep (codes "once") friday_nights 5 0 6 is_valid (omega arith) (omega arith)
      (omega arith)

saturday_morning : in_sleep_window friday_nights 5 0 6 ≡ true
unfolding in_sleep_window in_some covers parse_time_of_day split time_of_parts time_of_numbers
    time_of atoi unsigned digits no_days contains_day same_day
saturday_morning = refl

friday_morning : in_sleep_window friday_nights 5 0 5 ≡ false
unfolding in_sleep_window in_some covers parse_time_of_day split time_of_parts time_of_numbers
    time_of atoi unsigned digits no_days contains_day same_day
friday_morning = refl

-- A sign in the place of a digit is accepted.
signs_accepted : parse_time_of_day (codes "+5:-0") ≡ some 300
unfolding parse_time_of_day split time_of_parts time_of_numbers time_of atoi unsigned digits
signs_accepted = refl
