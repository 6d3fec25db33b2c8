-- ===== src/Task/Sleep/Minutes.antt =====
-- The sleep windows (pkg/task/catchup.go) as spans of the minutes of a week.
use tickraft.Base.{
  ℕ, ◌≡◌, ◌≢◌, sym, ◌<◌, ◌≤◌, ◌+◌, ◌-◌, ◌*◌, ◌%◌, true, false, ◌&&◌, List, [], ◌∷◌, Option, some,
  none, arith, ltb, leb, ◌==◌, if◌then◌else◌, inl, inr, ◌⊎◌, Bool-cases, ltb→lt, ltb→ge, ℤ, pos,
  negsuc, ok,
}
use tickraft.Cron.Text.{Text, split, atoi}
use tickraft.Task.Sleep.{
  minutes_per_day, time_of, time_of_numbers, time_of_parts, parse_time_of_day, same_day,
  contains_day, no_days, covers, day_in_range, check_days,
}

-- The minutes from one time of the day to the other, over midnight when it is not later.
abbrev pub span : ℕ → ℕ → ℕ
span start end = if ltb start end then end - start else minutes_per_day - start + end

abbrev pub Listed : ℕ → List ℤ → Type 0
Listed day [] = ⊥
Listed day (d ∷ ds) = (d ≡ pos day) ⊎ Listed day ds

-- The minute `t` of the week, from Sunday at midnight on, is one of those from a time of the day on, on one
-- of the days; the week begins again behind its last minute.
pub record Within (start end : ℕ) (days : List ℤ) (t : ℕ) : Type 0 where
  pub day : ℕ
  pub passed : ℕ
  pub listed : Listed day days
  pub before_end : passed < span start end
  pub minute : (day * 1440 + start + passed) % 10080 ≡ t

Listed-contains : (day : ℕ) (ds : List ℤ) → contains_day ds day ≡ true → Listed day ds
unfolding contains_day same_day
Listed-contains day [] h = absurd (cc)
Listed-contains day (negsuc d ∷ ds) h = inr (Listed-contains day ds h)
Listed-contains day (pos d ∷ ds) h = elim (Bool-cases (d == day)) [
  | inl same ↦ inl (ground arith)
  | inr other ↦ inr (Listed-contains day ds (ground arith))
]

contains-Listed : (day : ℕ) (ds : List ℤ) → Listed day ds → contains_day ds day ≡ true
unfolding contains_day same_day
contains-Listed day [] h = elim h [ ]
contains-Listed day (negsuc d ∷ ds) (inl e) = absurd (cc)
contains-Listed day (negsuc d ∷ ds) (inr h) = contains-Listed day ds h
contains-Listed day (pos d ∷ ds) (inl e) = ground arith
contains-Listed day (pos d ∷ ds) (inr h) = ground (arith, contains-Listed day ds h)

pub check_days-range : (i day : ℕ) (ds : List ℤ) → check_days i ds ≡ ok tt → Listed day ds → day ≤ 6
unfolding check_days day_in_range
check_days-range i day [] h l = elim l [ ]
check_days-range i day (negsuc d ∷ ds) h l = absurd (cc)
check_days-range i day (pos d ∷ ds) h (inl e) = ground arith
check_days-range i day (pos d ∷ ds) h (inr l) =
    let rest : check_days i ds ≡ ok tt → day ≤ 6 = λ r. check_days-range i day ds r l in
    ground arith

time_of-bound : (h m : ℤ) (n : ℕ) → time_of h m ≡ some n → n ≤ 1440
unfolding time_of
time_of-bound (negsuc h) m n e = absurd (cc)
time_of-bound (pos h) (negsuc m) n e = absurd (cc)
time_of-bound (pos h) (pos m) n e = ground arith

time_of_numbers-bound : (h m : Option ℤ) (n : ℕ) → time_of_numbers h m ≡ some n → n ≤ 1440
unfolding time_of_numbers
time_of_numbers-bound none m n e = absurd (cc)
time_of_numbers-bound (some h) none n e = absurd (cc)
time_of_numbers-bound (some h) (some m) n e = time_of-bound h m n e

time_of_parts-bound : (ps : List Text) (n : ℕ) → time_of_parts ps ≡ some n → n ≤ 1440
unfolding time_of_parts
time_of_parts-bound [] n e = absurd (cc)
time_of_parts-bound (a ∷ []) n e = absurd (cc)
time_of_parts-bound (a ∷ b ∷ c ∷ ps) n e = absurd (cc)
time_of_parts-bound (a ∷ b ∷ []) n e = ground (arith, time_of_numbers-bound (atoi a) (atoi b) n)

pub parse_time_of_day-bound : (s : Text) (n : ℕ) → parse_time_of_day s ≡ some n → n ≤ 1440
unfolding parse_time_of_day
parse_time_of_day-bound s n e = time_of_parts-bound (split b':' s) n e

pub covers-Within :
    (start end tod wd : ℕ) (days : List ℤ)
    → start ≤ 1440
    → tod < 1440
    → wd < 7
    → covers (some start) (some end) days tod wd ≡ true
    → Within start end days (wd * 1440 + tod)
unfolding covers
covers-Within start end tod wd days s t w h = elim (Bool-cases (ltb start end)) [
  | inl early ↦ record {
    day = wd;
    passed = tod - start;
    listed = Listed-contains wd days (ground arith);
    before_end = ground arith;
    minute = let late : start ≤ tod = ground arith in omega (arith, late, t, w, s);
  }
  | inr over ↦ elim (Bool-cases (contains_day days wd && leb start tod)) [
    | inl same_day ↦ record {
      day = wd;
      passed = tod - start;
      listed = Listed-contains wd days (ground arith);
      before_end = ground arith;
      minute = let late : start ≤ tod = ground arith in omega (arith, late, t, w, s);
    }
    | inr next_day ↦ record {
      day = (wd + 6) % 7;
      passed = 1440 - start + tod;
      listed = Listed-contains ((wd + 6) % 7) days (ground arith);
      before_end = ground arith;
      minute = omega (arith, s, t, w);
    }
  ]
]

same_day_is :
    (day wd start passed tod : ℕ)
    → day ≤ 6
    → wd < 7
    → tod < 1440
    → (day * 1440 + start + passed) % 10080 ≡ wd * 1440 + tod
    → start + passed < 1440
    → (day ≡ wd) × (start + passed ≡ tod)
same_day_is day wd start passed tod d w t h early =
    (omega (arith, d, w, t, h, early), omega (arith, d, w, t, h, early))

next_day_is :
    (day wd start passed tod : ℕ)
    → day ≤ 6
    → wd < 7
    → tod < 1440
    → (day * 1440 + start + passed) % 10080 ≡ wd * 1440 + tod
    → 1440 ≤ start + passed
    → start + passed < 2880
    → (day ≡ (wd + 6) % 7) × (start + passed ≡ tod + 1440)
next_day_is day wd start passed tod d w t h late early =
    (omega (arith, d, w, t, h, late, early), omega (arith, d, w, t, h, late, early))

pub Within-covers :
    (start end tod wd : ℕ) (days : List ℤ)
    → start ≢ end
    → no_days days ≡ false
    → start ≤ 1440
    → end ≤ 1440
    → tod < 1440
    → wd < 7
    → ((day : ℕ) → Listed day days → day ≤ 6)
    → Within start end days (wd * 1440 + tod)
    → covers (some start) (some end) days tod wd ≡ true
unfolding covers
Within-covers start end tod wd days differ given s e t w range h =
    let small = range h.day h.listed in
    let on_day = contains-Listed h.day days h.listed in
    let passed = h.before_end in
    let minute = h.minute in
    elim (Bool-cases (ltb (start + h.passed) 1440)) [
      | inl same ↦
          let (at, time) =
            same_day_is h.day wd start h.passed tod small w t minute (ltb→lt _ _ same) in
          let here : contains_day days wd ≡ true = rw (sym at) on_day in ground arith
      | inr over ↦
          let (at, time) =
            next_day_is h.day wd start h.passed tod small w t minute (ltb→ge _ _ over)
              (ground arith) in
          let there : contains_day days ((wd + 6) % 7) ≡ true = rw (sym at) on_day in ground arith
    ]
