-- ===== src/Task/Sleep.antt =====
-- The sleep windows of a task: `ValidateCatchupConfig`, `parseTimeOfDay` and `InSleepWindow` of
-- pkg/task/catchup.go. What they read of a time is its hour, minute and weekday.
pub mod Minutes
pub mod Validated
mod Examples
use Prim.Native.Char.{code}
use tickraft.Base.{
  ℕ, ◌+◌, ◌*◌, ◌%◌, Bool, true, false, ◌&&◌, ◌||◌, List, [], ◌∷◌, Option, some, none, ltb, leb,
  ◌==◌, if◌then◌else◌, length, ℤ, pos, negsuc, Outcome, ok, failed, ◌>>=◌,
}
use tickraft.Cron.Text.{Text, codes, text_eq, split, atoi}

abbrev pub sleep_window_max_count : ℕ
sleep_window_max_count = 8

abbrev pub minutes_per_day : ℕ
minutes_per_day = 24 * 60

pub record SleepWindow : Type 0 where
  pub opening : Text
  pub closing : Text
  pub days : List ℤ

-- The test of the hour and the minute, and the minutes of the day.
unfoldable pub time_of : ℤ → ℤ → Option ℕ
time_of (negsuc h) m = none
time_of (pos h) (negsuc m) = none
time_of (pos h) (pos m) =
    if ltb 24 h || leb 60 m || ltb minutes_per_day (h * 60 + m) then none else some (h * 60 + m)

unfoldable pub time_of_numbers : Option ℤ → Option ℤ → Option ℕ
time_of_numbers none m = none
time_of_numbers (some h) none = none
time_of_numbers (some h) (some m) = time_of h m

unfoldable pub time_of_parts : List Text → Option ℕ
unfolding time_of_numbers
time_of_parts [] = none
time_of_parts (a ∷ []) = none
time_of_parts (a ∷ b ∷ []) =
    if length a == 2 && length b == 2 then time_of_numbers (atoi a) (atoi b) else none
time_of_parts (a ∷ b ∷ c ∷ ps) = none

-- `parseTimeOfDay`
unfoldable pub parse_time_of_day : Text → Option ℕ
parse_time_of_day s = time_of_parts (split b':' s)

unfoldable pub same_day : ℤ → ℕ → Bool
same_day (pos d) day = d == day
same_day (negsuc d) day = false

-- `containsDay`
unfoldable pub contains_day : List ℤ → ℕ → Bool
contains_day [] day = false
contains_day (d ∷ ds) day = same_day d day || contains_day ds day

unfoldable pub no_days : List ℤ → Bool
no_days [] = true
no_days (d ∷ ds) = false

-- One round of the loop, behind `parseTimeOfDay`: whether the window holds the minute `tod` of the weekday
-- `wd`.
unfoldable pub covers : Option ℕ → Option ℕ → List ℤ → ℕ → ℕ → Bool
covers none end days tod wd = false
covers (some start) none days tod wd = false
covers (some start) (some end) days tod wd =
    if start == end || no_days days
    then false
    else if ltb start end
    then contains_day days wd && leb start tod && ltb tod end
    else contains_day days wd && leb start tod || contains_day days ((wd + 6) % 7) && ltb tod end

unfoldable pub in_some : List SleepWindow → ℕ → ℕ → Bool
in_some [] tod wd = false
in_some (w ∷ ws) tod wd =
    covers (parse_time_of_day w.opening) (parse_time_of_day w.closing) w.days tod wd
    || in_some ws tod wd

-- `InSleepWindow`
unfoldable pub in_sleep_window : List SleepWindow → ℕ → ℕ → ℕ → Bool
in_sleep_window windows hour minute weekday = in_some windows (hour * 60 + minute) weekday

-- The errors, with the place of the window.
pub data ConfigError : Type 0 where
  invalid_policy too_many_windows : ConfigError
  invalid_start invalid_end same_times no_days_given day_out_of_range : ℕ → ConfigError

unfoldable pub day_in_range : ℤ → Bool
day_in_range (pos d) = leb d 6
day_in_range (negsuc d) = false

unfoldable pub check_days : ℕ → List ℤ → Outcome ConfigError (Unit {0})
check_days i [] = ok tt
check_days i (d ∷ ds) = if day_in_range d then check_days i ds else failed (day_out_of_range i)

unfoldable pub check_times : ℕ → Option ℕ → Option ℕ → Outcome ConfigError (Unit {0})
check_times i none end = failed (invalid_start i)
check_times i (some start) none = failed (invalid_end i)
check_times i (some start) (some end) = if start == end then failed (same_times i) else ok tt

unfoldable pub check_window : ℕ → SleepWindow → Outcome ConfigError (Unit {0})
check_window i w =
    check_times i (parse_time_of_day w.opening) (parse_time_of_day w.closing) >>= λ u.
    if no_days w.days then failed (no_days_given i) else check_days i w.days

unfoldable pub check_windows : ℕ → List SleepWindow → Outcome ConfigError (Unit {0})
check_windows i [] = ok tt
check_windows i (w ∷ ws) = check_window i w >>= λ u. check_windows (i + 1) ws

unfoldable pub known_policy : Text → Bool
known_policy p =
    text_eq p [] || text_eq p (codes "skip") || text_eq p (codes "once") || text_eq p (codes "all")

-- `ValidateCatchupConfig`
unfoldable pub validate_catchup_config : Text → List SleepWindow → Outcome ConfigError (Unit {0})
validate_catchup_config policy windows =
    if known_policy policy
    then (if ltb sleep_window_max_count (length windows)
        then failed too_many_windows
        else check_windows 0 windows)
    else failed invalid_policy
