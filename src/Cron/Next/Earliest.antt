-- ===== src/Cron/Next/Earliest.antt =====
-- The time that `Next` returns is the earliest one that matches (pkg/cron/schedule.go).
use mathlib.Core.Path.{subst}
use tickraft.Base.{
  ℕ, zero, suc, ◌≡◌, ◌<◌, ◌≤◌, ◌+◌, Option, some, none, arith, Bool-cases, inl, inr, ltb, ltb→lt,
  ltb→ge, ◌/◌, ◌%◌,
}
use tickraft.Cron.Spec.{SpecSchedule}
use tickraft.Cron.Calendar.{Moment, next_hour, add_seconds, IsMoment}
use tickraft.Cron.Next.{Round, found, again, resume, next_round, next_loop, next_time}
use tickraft.Cron.Next.Keys.{key, date_key, next_hour-IsMoment, next_hour_later, same_hour}
use tickraft.Cron.Next.Clock.{in_hour, add_within, add_over}
use tickraft.Cron.Next.Skips.{Matches, IsUint64, Skips, Skips-trans, Good}
use tickraft.Cron.Next.Rounds.{round-Good}

-- One second on: the least time behind.
pub record IsSuccessor (t u : Moment) : Type 0 where
  pub valid : IsMoment u
  pub later : key t < key u
  pub next : (v : Moment) → IsMoment v → key t < key v → key u ≤ key v

pub one_second : (t : Moment) → IsMoment t → IsSuccessor t (add_seconds t 1)
one_second t a = elim (Bool-cases (ltb (in_hour t + 1) 3600)) [
  | inl within ↦
      let inside = ltb→lt _ _ within in
      let m = (in_hour t + 1) / 60 in
      let s = (in_hour t + 1) % 60 in
      rw (add_within t 1 m s (omega arith) (omega arith) (omega (arith, inside))) (record {
        valid = record {
          date = a.date;
          hour = a.hour;
          minute = omega (arith, inside);
          second = omega arith;
        };
        later = omega arith;
        next = λ v b h. omega (arith, h);
      })
  | inr over ↦
      let full = ltb→ge _ _ over in
      rw (add_over t 1 0 0 (omega (arith, full, a.minute, a.second)) (omega arith)) (record {
        valid = next_hour-IsMoment t a;
        later = next_hour_later t a;
        next = λ v b h. elim (Bool-cases (ltb (key v) (key (next_hour t 0 0)))) [
          | inl before ↦
              let (day, hour, from) = same_hour t v a b (omega (arith, h)) (ltb→lt _ _ before) in
              let days : date_key v.date ≡ date_key t.date = cc in
              absurd (omega (arith, days, hour, from, full, h, b.minute, b.second))
          | inr behind ↦ ltb→ge _ _ behind
        ];
      })
]

module _ (s : SpecSchedule) (w : IsUint64 s) where
  resumed :
      (go_on : Moment → Option Moment) (r : Round) (t u : Moment)
      → Good s t r
      → ((v : Moment) → Skips s t v → go_on v ≡ some u → Skips s t u × Matches s u)
      → resume go_on r ≡ some u
      → Skips s t u × Matches s u
  resumed go_on (found v) t u good rest h =
      let e : v ≡ u = cc in subst (λ x. Skips s t x × Matches s x) e good
  resumed go_on (again v) t u good rest h = rest v good.0 h

  loop_earliest :
      (n max_year : ℕ) (t u : Moment)
      → IsMoment t
      → next_loop s 0 n max_year t ≡ some u
      → Skips s t u × Matches s u
  unfolding next_loop
  loop_earliest zero max_year t u a h = absurd (cc)
  loop_earliest (suc n) max_year t u a h = elim (Bool-cases (ltb max_year t.date.year)) [
    | inl over ↦ let ended : none ≡ some u = rw over at h in absurd (cc)
    | inr going ↦
        let goes : resume (next_loop s 0 n max_year) (next_round s 0 t) ≡ some u = rw going at h in
        resumed (next_loop s 0 n max_year) (next_round s 0 t) t u (round-Good s w t a)
          (λ v passed h'.
            let (more, match) = loop_earliest n max_year v u passed.valid h' in
            (Skips-trans s t v u passed more, match))
          goes
  ]

  -- In a zone whose offset from UTC is full hours: when `Next` returns a time, all fields of the schedule
  -- match it, it is behind the given time, and no time between the two matches.
  pub next_time_earliest :
      (from u : Moment)
      → IsMoment from
      → next_time s 0 from ≡ some u
      → IsMoment u
        × Matches s u
        × (key from < key u)
        × ((v : Moment) → IsMoment v → key from < key v → key v < key u → ¬ Matches s v)
  unfolding next_time
  next_time_earliest from u a h =
      let start = add_seconds from 1 in
      let first = one_second from a in
      let (passed, match) = loop_earliest 1000 (start.date.year + 5) start u first.valid h in
      (
        passed.valid,
        match,
        omega (arith, first.later, passed.order),
        λ v b low high. passed.no_match v b (first.next v b low) high,
      )
