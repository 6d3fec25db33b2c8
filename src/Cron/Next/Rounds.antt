-- ===== src/Cron/Next/Rounds.antt =====
-- A whole round of `Next` (pkg/cron/schedule.go), in a zone whose offset is full hours.
use tickraft.Base.{
  ℕ, ◌≡◌, ◌≢◌, ◌<◌, ◌≤◌, sym, ◌+◌, ◌*◌, true, ◌==◌, Option, some, none, arith, Bool-cases, inl, inr,
}
use tickraft.Cron.Bits.{bit_match, next_set_bit}
use tickraft.Cron.Bits.Search.{IsNext, next_set_bit-IsNext}
use tickraft.Cron.Spec.{SpecSchedule}
use tickraft.Cron.Calendar.{Date, Moment, next_day, midnight, IsMoment}
use tickraft.Cron.Next.{day_matches, move_month, at_day, month_stage, next_round}
use tickraft.Cron.Next.Keys.{
  key, date_key, month_key, key_split, days_in_month_bounds, day_le_31, clock_bound,
  next_day-IsDate, next_day_later, midnight-IsMoment, same_day,
}
use tickraft.Cron.Next.Skips.{IsUint64, Skips, Good, Good-skip}
use tickraft.Cron.Next.Stages.{hour-Good}

module _ (s : SpecSchedule) (w : IsUint64 s) where
  day-Good :
      (t : Moment) → IsMoment t → bit_match s.month t.date.month ≡ true → Good s t (at_day s 0 t)
  unfolding at_day
  day-Good t a month = elim (Bool-cases (day_matches s t.date)) [
    | inl yes_day ↦ rw yes_day (
        hour-Good s (next_set_bit s.hour t.hour 23) t (next_set_bit-IsNext s.hour t.hour 23 w.hour)
          w a month yes_day)
    | inr no_day ↦ rw no_day (
        let later = next_day_later t.date a.date in
        let bound = clock_bound t a in
        (
          record {
            valid = midnight-IsMoment (next_day t.date) (next_day-IsDate t.date a.date);
            order = omega (arith, later, bound);
            no_match = λ v b low high m.
                let (day, _) = same_day t v a b low high in let yes_v = m.day in cc;
          },
          omega (arith, later, bound),
        ))
  ]

  -- A time of the same year, before a month of it or before the next year.
  same_year :
      (t v : Moment) (month : ℕ)
      → IsMoment t
      → IsMoment v
      → key t ≤ key v
      → date_key v.date < (t.date.year * 12 + month) * 31 + 1
      → month ≤ 13
      → (v.date.year ≡ t.date.year) × (t.date.month ≤ v.date.month) × (v.date.month < month)
  same_year t v month a b low high most =
      let (from, _) = key_split t v a b low in
      let day = day_le_31 v.date b.date in
      let early : month_key t.date ≤ month_key v.date = omega (arith, from, day, a.date.day_low) in
      let late : month_key v.date < t.date.year * 12 + month =
        omega (arith, high, b.date.day_low) in
      let year : v.date.year ≡ t.date.year = omega (
        arith, early, late, most, a.date.month_low, b.date.month_low, a.date.month_high,
        b.date.month_high,
      ) in
      (year, omega (arith, early, year), omega (arith, late, year))

  month-Good :
      (o : Option ℕ) (t : Moment)
      → IsNext s.month t.date.month 12 o
      → IsMoment t
      → Good s t (month_stage s 0 o t)
  unfolding month_stage move_month
  month-Good none t next a =
      let bound = clock_bound t a in
      let day = day_le_31 t.date a.date in
      let low_month = a.date.month_high in
      let days = days_in_month_bounds (t.date.year + 1) 1 in
      let later : key t < key (midnight (record { year = t.date.year + 1; month = 1; day = 1 })) =
        omega (arith, bound, day, low_month) in
      (
        record {
          valid = midnight-IsMoment _ (record {
            month_low = omega arith;
            month_high = omega arith;
            day_low = omega arith;
            day_high = omega (arith, days);
          });
          order = omega (arith, later);
          no_match = λ v b low high m.
              let (_, from, _) = same_year t v 13 a b low (omega (arith, high)) (omega arith) in
              let no = next v.date.month from b.date.month_high in let yes_v = m.month in cc;
        },
        later,
      )
  month-Good (some month) t (from, to, bit, least) a = elim (Bool-cases (month == t.date.month)) [
    | inl here ↦
        rw here (let eq : month ≡ t.date.month = ground arith in day-Good t a (rw (sym eq) bit))
    | inr other ↦ rw other (
        let differ : month ≢ t.date.month = λ e. ground arith in
        let d : Date = record { year = t.date.year; month = month; day = 1 } in
        let days = days_in_month_bounds t.date.year month in
        let low_month = a.date.month_low in
        let valid : IsMoment (midnight d) = midnight-IsMoment d (record {
          month_low = omega (arith, from, low_month);
          month_high = to;
          day_low = omega arith;
          day_high = omega (arith, days);
        }) in
        let bound = clock_bound t a in
        let day = day_le_31 t.date a.date in
        let passed : Skips s t (midnight d) = record {
          valid = valid;
          order = omega (arith, bound, day, from, differ);
          no_match = λ v b low high m.
              let (_, lower, upper) =
                same_year t v month a b low (omega (arith, high)) (omega (arith, to)) in
              let no = least v.date.month lower upper in let yes_v = m.month in cc;
        } in
        Good-skip s t (midnight d) _ passed (day-Good (midnight d) valid bit))
  ]

  pub round-Good : (t : Moment) → IsMoment t → Good s t (next_round s 0 t)
  unfolding next_round
  round-Good t a =
      month-Good (next_set_bit s.month t.date.month 12) t
        (next_set_bit-IsNext s.month t.date.month 12 w.month) a
