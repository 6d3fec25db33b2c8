-- ===== src/Task/Sleep/Validated.antt =====
-- A validated list of sleep windows suppresses the minutes it says (pkg/task/catchup.go,
-- `ValidateCatchupConfig` and `InSleepWindow`).
use tickraft.Base.{
  ℕ, ◌≡◌, ◌≢◌, ◌↔◌, ◌<◌, ◌≤◌, refl, ◌+◌, ◌*◌, Bool, true, false, ◌||◌, List, [], ◌∷◌, Option, some,
  none, arith, inl, inr, ◌⊎◌, Bool-cases, ok, >>=-eq-ok,
}
use tickraft.Cron.Text.{Text}
use tickraft.Task.Sleep.{
  SleepWindow, parse_time_of_day, no_days, covers, in_some, in_sleep_window, check_times,
  check_window, check_windows, validate_catchup_config,
}
use tickraft.Task.Sleep.Minutes.{
  Listed, Within, check_days-range, parse_time_of_day-bound, covers-Within, Within-covers,
}

-- A window that holds the minute `t` of the week.
pub record Holds (w : SleepWindow) (t : ℕ) : Type 0 where
  pub start : ℕ
  pub end : ℕ
  pub opens : parse_time_of_day w.opening ≡ some start
  pub closes : parse_time_of_day w.closing ≡ some end
  pub within : Within start end w.days t

abbrev pub Asleep : List SleepWindow → ℕ → Type 0
Asleep [] t = ⊥
Asleep (w ∷ ws) t = Holds w t ⊎ Asleep ws t

-- What the checks of a window find.
record IsUsable (w : SleepWindow) : Type 0 where
  pub start : ℕ
  pub end : ℕ
  pub opens : parse_time_of_day w.opening ≡ some start
  pub closes : parse_time_of_day w.closing ≡ some end
  pub differ : start ≢ end
  pub given : no_days w.days ≡ false
  pub in_range : (day : ℕ) → Listed day w.days → day ≤ 6

check_times-ok :
    (i : ℕ) (o c : Option ℕ)
    → check_times i o c ≡ ok tt
    → (s : ℕ) × (e : ℕ) × (o ≡ some s) × (c ≡ some e) × (s ≢ e)
unfolding check_times
check_times-ok i none c h = absurd (cc)
check_times-ok i (some s) none h = absurd (cc)
check_times-ok i (some s) (some e) h = (s, e, refl, refl, λ same. ground arith)

check_window-IsUsable : (i : ℕ) (w : SleepWindow) → check_window i w ≡ ok tt → IsUsable w
unfolding check_window
check_window-IsUsable i w h =
    let (u, times, days) =
      >>=-eq-ok (check_times i (parse_time_of_day w.opening) (parse_time_of_day w.closing)) _ h in
    let (s, e, opens, closes, differ) =
      check_times-ok i (parse_time_of_day w.opening) (parse_time_of_day w.closing) times in
    elim (Bool-cases (no_days w.days)) [
      | inl none_given ↦ absurd (ground arith)
      | inr given ↦ record {
        start = s;
        end = e;
        opens = opens;
        closes = closes;
        differ = differ;
        given = given;
        in_range = λ day l. check_days-range i day w.days (ground arith) l;
      }
    ]

or_false : (b c : Bool) → b ≡ false → (b || c) ≡ true → c ≡ true
or_false true c h e = absurd (cc)
or_false false c h e = e

or_true : (b c : Bool) → c ≡ true → (b || c) ≡ true
or_true true c e = refl
or_true false c e = e

module _ (tod wd : ℕ) (t : tod < 1440) (d : wd < 7) where
  covers-Holds :
      (w : SleepWindow) (o c : Option ℕ)
      → parse_time_of_day w.opening ≡ o
      → parse_time_of_day w.closing ≡ c
      → covers o c w.days tod wd ≡ true
      → Holds w (wd * 1440 + tod)
  unfolding covers
  covers-Holds w none c opens closes h = absurd (cc)
  covers-Holds w (some s) none opens closes h = absurd (cc)
  covers-Holds w (some s) (some e) opens closes h = record {
    start = s;
    end = e;
    opens = opens;
    closes = closes;
    within = covers-Within s e tod wd w.days (parse_time_of_day-bound w.opening s opens) t d h;
  }

  Holds-covers :
      (w : SleepWindow)
      → IsUsable w
      → Holds w (wd * 1440 + tod)
      → covers (parse_time_of_day w.opening) (parse_time_of_day w.closing) w.days tod wd ≡ true
  Holds-covers w u h =
      let differ : h.start ≢ h.end = λ same.
        let a = u.opens in
        let b = u.closes in let c = h.opens in let e = h.closes in u.differ (cc) in
      rw (h.opens, h.closes)
        (Within-covers h.start h.end tod wd w.days differ u.given
          (parse_time_of_day-bound w.opening h.start h.opens)
          (parse_time_of_day-bound w.closing h.end h.closes) t d u.in_range h.within)

  in_some-Asleep :
      (i : ℕ) (ws : List SleepWindow)
      → check_windows i ws ≡ ok tt
      → (in_some ws tod wd ≡ true) ↔ Asleep ws (wd * 1440 + tod)
  unfolding in_some check_windows
  in_some-Asleep i [] h = (λ e. absurd (cc), λ e. elim e [ ])
  in_some-Asleep i (w ∷ ws) h =
      let (u, here, later) = >>=-eq-ok (check_window i w) _ h in
      let usable = check_window-IsUsable i w here in
      let (to, from) = in_some-Asleep (i + 1) ws later in
      (
        λ e.
            elim (Bool-cases
              (covers (parse_time_of_day w.opening) (parse_time_of_day w.closing) w.days tod wd)) [
                | inl held ↦ inl (covers-Holds w _ _ refl refl held)
                | inr missed ↦ inr (to (or_false _ (in_some ws tod wd) missed e))
              ],
        λ e. elim e [
          | inl held ↦ let yes_it = Holds-covers w usable held in rw yes_it refl
          | inr rest ↦
              or_true
                (covers (parse_time_of_day w.opening) (parse_time_of_day w.closing) w.days tod wd)
                (in_some ws tod wd) (from rest)
        ],
      )

check_windows-of :
    (policy : Text) (ws : List SleepWindow)
    → validate_catchup_config policy ws ≡ ok tt
    → check_windows 0 ws ≡ ok tt
unfolding validate_catchup_config
check_windows-of policy ws h = ground arith

-- For a list of windows that `ValidateCatchupConfig` accepts, and every minute of the week: `InSleepWindow`
-- holds exactly at the minutes of a window, from its opening on one of its days for as long as it lasts to
-- its closing, into the next day when the closing is not later, and from Saturday into Sunday.
pub in_sleep_window-Asleep :
    (policy : Text) (ws : List SleepWindow) (hour minute weekday : ℕ)
    → validate_catchup_config policy ws ≡ ok tt
    → hour < 24
    → minute < 60
    → weekday < 7
    → (in_sleep_window ws hour minute weekday ≡ true)
      ↔ Asleep ws (weekday * 1440 + (hour * 60 + minute))
unfolding in_sleep_window
in_sleep_window-Asleep policy ws hour minute weekday valid h m d =
    in_some-Asleep (hour * 60 + minute) weekday (omega (arith, h, m)) d 0 ws
      (check_windows-of policy ws valid)
