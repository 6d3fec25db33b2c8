-- ===== src/Cron/Next/Skips.antt =====
-- What a round of the loop of `Next` may do (pkg/cron/schedule.go): it returns a time that matches, or it
-- moves on, and in both cases passes over no time that matches.
use tickraft.Base.{◌≡◌, ◌<◌, ◌≤◌, true, arith, Bool-cases, inl, inr, ltb, ltb→lt, ltb→ge}
use tickraft.Cron.Bits.{bit_match, uint64_mod}
use tickraft.Cron.Spec.{SpecSchedule}
use tickraft.Cron.Calendar.{Moment, IsMoment}
use tickraft.Cron.Next.{Round, found, again, day_matches}
use tickraft.Cron.Next.Keys.{key}

-- A time that all the fields of the schedule match.
pub record Matches (s : SpecSchedule) (t : Moment) : Type 0 where
  pub month : bit_match s.month t.date.month ≡ true
  pub day : day_matches s t.date ≡ true
  pub hour : bit_match s.hour t.hour ≡ true
  pub minute : bit_match s.min t.minute ≡ true
  pub second : bit_match s.sec t.second ≡ true

-- The masks that `Next` searches are of 64 bits.
pub record IsUint64 (s : SpecSchedule) : Type 0 where
  pub sec : s.sec < uint64_mod
  pub min : s.min < uint64_mod
  pub hour : s.hour < uint64_mod
  pub month : s.month < uint64_mod

-- From `t` on, no time before `u` matches.
pub record Skips (s : SpecSchedule) (t u : Moment) : Type 0 where
  pub valid : IsMoment u
  pub order : key t ≤ key u
  pub no_match : (v : Moment) → IsMoment v → key t ≤ key v → key v < key u → ¬ Matches s v

pub Skips-refl : (s : SpecSchedule) (t : Moment) → IsMoment t → Skips s t t
Skips-refl s t a = record {
  valid = a;
  order = omega arith;
  no_match = λ v b low high. absurd (omega (arith, low, high));
}

pub Skips-trans : (s : SpecSchedule) (t u w : Moment) → Skips s t u → Skips s u w → Skips s t w
Skips-trans s t u w first second = record {
  valid = second.valid;
  order = omega (arith, first.order, second.order);
  no_match = λ v b low high. elim (Bool-cases (ltb (key v) (key u))) [
    | inl before ↦ first.no_match v b low (ltb→lt _ _ before)
    | inr behind ↦ second.no_match v b (ltb→ge _ _ behind) high
  ];
}

abbrev pub Good : SpecSchedule → Moment → Round → Type 0
Good s t (found u) = Skips s t u × Matches s u
Good s t (again u) = Skips s t u × (key t < key u)

pub Good-skip :
    (s : SpecSchedule) (t u : Moment) (r : Round) → Skips s t u → Good s u r → Good s t r
Good-skip s t u (found w) first (second, match) = (Skips-trans s t u w first second, match)
Good-skip s t u (again w) first (second, later) =
    (Skips-trans s t u w first second, omega (arith, first.order, later))
