-- ===== src/Cron/Next/Stuck.antt =====
-- `Next` in a zone whose offset from UTC is not full hours (pkg/cron/schedule.go): `Truncate(time.Hour)`
-- goes back to the full hour of UTC, which lies before the current time, and the loop repeats a round.
use tickraft.Base.{
  ℕ, zero, suc, ◌≡◌, ◌≢◌, ◌<◌, ◌≤◌, refl, sym, ap, ◌∙◌, ◌+◌, ◌-◌, ◌*◌, ◌/◌, ◌%◌, true, false, ◌==◌,
  Option, some, none, arith, Bool-cases, inl, inr, ltb, ltb→ge,
}
use tickraft.Cron.Bits.{bit_match, next_set_bit}
use tickraft.Cron.Bits.Search.{IsNext, next_set_bit-IsNext}
use tickraft.Cron.Spec.{SpecSchedule}
use tickraft.Cron.Calendar.{
  Date, Moment, days_in_month, next_day, prev_day, next_hour, prev_hour, add_seconds, truncate,
  IsDate, IsMoment,
}
use tickraft.Cron.Next.{
  again, move_month, move_hour, minute_stage, at_hour, hour_stage, at_day, month_stage, next_round,
  next_loop, next_time,
}
use tickraft.Cron.Next.Clock.{in_hour, add_over, sub_under, next_hour_fields}
use tickraft.Cron.Next.Skips.{IsUint64}
use tickraft.Cron.Next.Hits.{IsDaily, any_day_matches}
use tickraft.Cron.Next.Earliest.{one_second}

last_of_december : (y : ℕ) → days_in_month y 12 ≡ 31
unfolding days_in_month
last_of_december y = refl

same_date :
    (y m d : ℕ) (e : Date)
    → y ≡ e.year
    → m ≡ e.month
    → d ≡ e.day
    → record { year = y; month = m; day = d } ≡ e
same_date y m d e p q r = rw p (rw q (rw r refl))

prev_day-next_day : (d : Date) → IsDate d → prev_day (next_day d) ≡ d
unfolding prev_day next_day
prev_day-next_day d v = elim (Bool-cases (ltb d.day (days_in_month d.year d.month))) [
  | inl inside ↦ rw inside (
      let behind : ltb 1 (d.day + 1) ≡ true = ground (arith, v.day_low) in
      rw behind (same_date d.year d.month (d.day + 1 - 1) d refl refl (omega arith)))
  | inr last ↦
      let last_day : days_in_month d.year d.month ≡ d.day =
        omega (arith, ltb→ge _ _ last, v.day_high) in
      rw last (elim (Bool-cases (ltb d.month 12)) [
        | inl more ↦ rw more (
            let behind : ltb 1 (d.month + 1) ≡ true = ground (arith, v.month_low) in
            let back : d.month + 1 - 1 ≡ d.month = omega arith in
            rw behind (rw back (same_date d.year d.month _ d refl refl last_day)))
        | inr december ↦ rw december (
            let twelve : d.month ≡ 12 = omega (arith, ltb→ge _ _ december, v.month_high) in
            let days : days_in_month d.year d.month ≡ 31 = rw twelve (last_of_december d.year) in
            same_date (d.year + 1 - 1) 12 31 d (omega arith) (sym twelve) (sym days ∙ last_day))
      ])
]

prev_hour-next_hour :
    (t : Moment) (m s m' s' : ℕ)
    → IsMoment t
    → prev_hour (next_hour t m s) m' s' ≡ record t { minute = m'; second = s' }
unfolding prev_hour next_hour
prev_hour-next_hour t m s m' s' a = elim (Bool-cases (ltb t.hour 23)) [
  | inl more ↦ rw more (
      let behind : ltb 0 (t.hour + 1) ≡ true = ground arith in
      let back : t.hour + 1 - 1 ≡ t.hour = omega arith in rw behind (rw back refl))
  | inr last ↦ rw last (
      let hour : 23 ≡ t.hour = omega (arith, ltb→ge t.hour 23 last, a.hour) in
      rw (prev_day-next_day t.date a.date) (rw hour refl))
]

truncate_under :
    (t : Moment) (unit offset n m s : ℕ)
    → (in_hour t + 3600 - offset) % unit ≡ n
    → m * 60 + s + n ≡ in_hour t + 3600
    → s < 60
    → in_hour t < n
    → truncate unit offset t ≡ prev_hour t m s
unfolding truncate
truncate_under t unit offset n m s rest e small less = rw rest (sub_under t n m s e small less)

-- Half an hour east, say: the truncation undoes the sum, back to the offset within the hour.
back_in_hour :
    (offset : ℕ) (t : Moment)
    → 60 ≤ offset
    → offset < 3600
    → offset % 60 ≡ 0
    → IsMoment t
    → truncate 3600 offset (add_seconds t ((60 - t.minute) * 60))
      ≡ record t { minute = offset / 60; second = 0 }
back_in_hour offset t some_offset small whole a =
    let (minute, second) = next_hour_fields t 0 t.second in
    rw (add_over t ((60 - t.minute) * 60) 0 t.second (omega (arith, a.minute)) a.second) (
      truncate_under (next_hour t 0 t.second) 3600 offset (t.second + 3600 - offset) (offset / 60) 0
        (rw minute (rw second (omega (arith, a.second, some_offset))))
        (rw minute (rw second (omega (arith, small, whole)))) (omega arith)
        (rw minute (rw second (omega (arith, small))))
      ∙ prev_hour-next_hour t 0 t.second (offset / 60) 0 a)

module _ (s : SpecSchedule) (w : IsUint64 s) (y : IsDaily s) (offset k : ℕ)
    (some_offset : 60 ≤ offset) (small : offset < 3600) (whole : offset % 60 ≡ 0)
    (early : k * 60 ≤ offset) (all_hours : (h : ℕ) → h ≤ 23 → bit_match s.hour h ≡ true)
    (no_minute : (m : ℕ) → k ≤ m → m ≤ 59 → bit_match s.min m ≡ false) where
  abbrev back : Moment → Moment
  back t = record t { minute = offset / 60; second = 0 }

  minute_stuck :
      (o : Option ℕ) (t : Moment)
      → IsMoment t
      → k ≤ t.minute
      → IsNext s.min t.minute 59 o
      → minute_stage s offset o t ≡ again (back t)
  unfolding minute_stage
  minute_stuck none t a late next = ap again (back_in_hour offset t some_offset small whole a)
  minute_stuck (some m) t a late (from, to, bit, least) =
      let no = no_minute m (omega (arith, late, from)) to in absurd (cc)

  hour_stuck :
      (o : Option ℕ) (t : Moment)
      → IsMoment t
      → k ≤ t.minute
      → IsNext s.hour t.hour 23 o
      → hour_stage s offset o t ≡ again (back t)
  unfolding hour_stage move_hour at_hour
  hour_stuck none t a late next =
      let bit = all_hours t.hour (omega (arith, a.hour)) in
      let no = next t.hour (omega arith) (omega (arith, a.hour)) in absurd (cc)
  hour_stuck (some hour) t a late (from, to, bit, least) =
      let set = all_hours t.hour (omega (arith, a.hour)) in
      elim (Bool-cases (hour == t.hour)) [
        | inl here ↦ rw here (
            minute_stuck (next_set_bit s.min t.minute 59) t a late
              (next_set_bit-IsNext s.min t.minute 59 w.min))
        | inr later ↦
            let differ : hour ≢ t.hour = λ e. ground arith in
            let no = least t.hour (omega arith) (omega (arith, from, differ)) in absurd (cc)
      ]

  month_stuck :
      (o : Option ℕ) (t : Moment)
      → IsMoment t
      → k ≤ t.minute
      → IsNext s.month t.date.month 12 o
      → month_stage s offset o t ≡ again (back t)
  unfolding month_stage move_month at_day
  month_stuck none t a late next =
      let bit = y.months t.date.month a.date.month_low a.date.month_high in
      let no = next t.date.month (omega arith) a.date.month_high in absurd (cc)
  month_stuck (some month) t a late (from, to, bit, least) =
      let set = y.months t.date.month a.date.month_low a.date.month_high in
      elim (Bool-cases (month == t.date.month)) [
        | inl here ↦ rw here (
            rw (any_day_matches s w y t.date) (
              hour_stuck (next_set_bit s.hour t.hour 23) t a late
                (next_set_bit-IsNext s.hour t.hour 23 w.hour)))
        | inr later ↦
            let differ : month ≢ t.date.month = λ e. ground arith in
            let no = least t.date.month (omega arith) (omega (arith, from, differ)) in absurd (cc)
      ]

  loop_stuck :
      (n max_year : ℕ) (t : Moment)
      → IsMoment t
      → k ≤ t.minute
      → next_loop s offset n max_year t ≡ none
  unfolding next_loop next_round
  loop_stuck zero max_year t a late = refl
  loop_stuck (suc n) max_year t a late = elim (Bool-cases (ltb max_year t.date.year)) [
    | inl over ↦ rw over refl
    | inr going ↦ rw going (
        let round =
          month_stuck (next_set_bit s.month t.date.month 12) t a late
            (next_set_bit-IsNext s.month t.date.month 12 w.month) in
        let valid : IsMoment (back t) = record {
          date = a.date;
          hour = a.hour;
          minute = omega (arith, small);
          second = omega arith;
        } in
        rw round (loop_stuck n max_year (back t) valid (omega (arith, early))))
  ]

  -- For a schedule of every hour of every day, in a zone whose offset from UTC has whole minutes above the
  -- full hour: when no minute of the schedule is from `k` on, and `k` is not above these minutes, `Next`
  -- returns the zero time from every moment whose next second is at minute `k` or later.
  pub next_time_stuck :
      (from : Moment)
      → IsMoment from
      → k ≤ (add_seconds from 1).minute
      → next_time s offset from ≡ none
  unfolding next_time
  next_time_stuck from a late =
      let start = add_seconds from 1 in
      loop_stuck 1000 (start.date.year + 5) start (one_second from a).valid late
