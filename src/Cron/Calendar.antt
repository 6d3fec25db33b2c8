-- ===== src/Cron/Calendar.antt =====
-- What pkg/cron/schedule.go uses of package time: the calendar of a zone at a fixed offset from UTC, at
-- whole seconds.
use tickraft.Base.{
  ℕ, ◌+◌, ◌-◌, ◌*◌, ◌/◌, ◌%◌, ◌≤◌, ◌<◌, Bool, not, ◌&&◌, ◌||◌, ltb, leb, ◌==◌, if◌then◌else◌,
}

pub record Date : Type 0 where
  pub year : ℕ
  pub month : ℕ
  pub day : ℕ

-- The local time of the zone.
pub record Moment : Type 0 where
  pub date : Date
  pub hour : ℕ
  pub minute : ℕ
  pub second : ℕ

unfoldable pub is_leap : ℕ → Bool
is_leap y = y % 4 == 0 && not (y % 100 == 0) || y % 400 == 0

unfoldable pub days_in_month : ℕ → ℕ → ℕ
unfolding is_leap
days_in_month y m =
    if m == 2
    then (if is_leap y then 29 else 28)
    else if m == 4 || m == 6 || m == 9 || m == 11
    then 30
    else 31

-- `AddDate(0, 0, 1)`
unfoldable pub next_day : Date → Date
next_day d =
    if ltb d.day (days_in_month d.year d.month)
    then record d { day = d.day + 1 }
    else if ltb d.month 12
    then record d { month = d.month + 1; day = 1 }
    else record { year = d.year + 1; month = 1; day = 1 }

unfoldable pub prev_day : Date → Date
prev_day d =
    if ltb 1 d.day
    then record d { day = d.day - 1 }
    else if ltb 1 d.month
    then record d { month = d.month - 1; day = days_in_month d.year (d.month - 1) }
    else record { year = d.year - 1; month = 12; day = 31 }

-- The days of the year before a month.
unfoldable pub days_before : ℕ → ℕ → ℕ
unfolding is_leap
days_before y m =
    if m == 1 then 0 else (367 * m - 362) / 12 - (if leb m 2 then 0 else if is_leap y then 1 else 2)

-- Days from the first of January of the year 1, a Monday, which is day 1.
unfoldable pub day_number : Date → ℕ
unfolding days_before
day_number d =
    let y = d.year - 1 in 365 * y + y / 4 - y / 100 + y / 400 + days_before d.year d.month + d.day

-- 0 is Sunday.
unfoldable pub weekday : Date → ℕ
unfolding day_number
weekday d = day_number d % 7

abbrev pub midnight : Date → Moment
midnight d = record { date = d; hour = 0; minute = 0; second = 0 }

-- The full hour behind a moment, and the one before it, at the given minute and second.
unfoldable pub next_hour : Moment → ℕ → ℕ → Moment
next_hour t m s =
    if ltb t.hour 23
    then record t { hour = t.hour + 1; minute = m; second = s }
    else record { date = next_day t.date; hour = 0; minute = m; second = s }

unfoldable pub prev_hour : Moment → ℕ → ℕ → Moment
prev_hour t m s =
    if ltb 0 t.hour
    then record t { hour = t.hour - 1; minute = m; second = s }
    else record { date = prev_day t.date; hour = 23; minute = m; second = s }

-- `t.Add(time.Duration(n) * time.Second)`, for at most an hour.
unfoldable pub add_seconds : Moment → ℕ → Moment
add_seconds t n =
    let s = t.minute * 60 + t.second + n in
    if ltb s 3600
    then record t { minute = s / 60; second = s % 60 }
    else next_hour t ((s - 3600) / 60) ((s - 3600) % 60)

-- Less than an hour back.
unfoldable pub sub_seconds : Moment → ℕ → Moment
sub_seconds t n =
    let s = t.minute * 60 + t.second in
    if leb n s
    then record t { minute = (s - n) / 60; second = (s - n) % 60 }
    else prev_hour t ((s + 3600 - n) / 60) ((s + 3600 - n) % 60)

-- `t.Truncate` to a minute (60) or an hour (3600). It works on the time since the zero time in UTC, so the
-- offset of the zone, in seconds to the east within an hour, is taken off first.
unfoldable pub truncate : ℕ → ℕ → Moment → Moment
truncate unit offset t = sub_seconds t ((t.minute * 60 + t.second + 3600 - offset) % unit)

pub record IsDate (d : Date) : Type 0 where
  pub month_low : 1 ≤ d.month
  pub month_high : d.month ≤ 12
  pub day_low : 1 ≤ d.day
  pub day_high : d.day ≤ days_in_month d.year d.month

pub record IsMoment (t : Moment) : Type 0 where
  pub date : IsDate t.date
  pub hour : t.hour < 24
  pub minute : t.minute < 60
  pub second : t.second < 60
