-- ===== src/Task/Lifecycle/Phases.antt =====
-- What the task engine (pkg/task/engine.go) keeps of a task with times, by the phase that the task is in.
use tickraft.Base.{
  ℕ, ◌≡◌, refl, sym, ◌∙◌, Bool, true, false, Option, some, none, arith, Bool-cases, ◌==◌,
  if◌then◌else◌, inl, inr, lookup, nat_key, Outcome, ok, failed,
}
use tickraft.Cron.Text.{Text}
use tickraft.Scheduler.Engine.{Schedule}
use tickraft.Scheduler.Engine.Domain.{is_some, has_schedule}
use tickraft.Task.Lifecycle.{
  Environment, ScheduleType, TaskError, Task, TaskEngine, is_event, is_timed, check_min_interval,
  classify_schedule, parse_schedule, checked,
}
use tickraft.Task.Lifecycle.Classify.{error_of, classify_schedule-errors}

-- A task that is unknown, paused or disabled, or on the wheel.
pub data Phase : Type 0 where
  absent off on : Phase

abbrev pub is_present : Phase → Bool
is_present absent = false
is_present off = true
is_present on = true

abbrev pub is_on : Phase → Bool
is_on absent = false
is_on off = false
is_on on = true

abbrev pub by_enabled : Bool → Phase
by_enabled true = on
by_enabled false = off

pub is_on-by_enabled : (b : Bool) → is_on (by_enabled b) ≡ b
is_on-by_enabled true = refl
is_on-by_enabled false = refl

ok_of : {A : Type 0} (x : Outcome TaskError A) → error_of x ≡ none → (a : A) × (x ≡ ok a)
ok_of (ok a) h = (a, refl)
ok_of (failed why) h = absurd (cc)

module _ (env : Environment) where
  -- A schedule string that is a cron expression or an interval that is long enough.
  pub record HasTimes (text : Text) : Type 0 where
    pub kind : ScheduleType
    pub interval : ℕ
    pub classified : classify_schedule env text ≡ ok (kind, interval)
    pub allowed : check_min_interval env.min_interval kind interval ≡ ok tt
    pub timed : is_event kind ≡ false

  pub parsed_times :
      (text : Text) → HasTimes text → (s : Schedule) × (parse_schedule env text ≡ ok s)
  parsed_times text h =
      ok_of (parse_schedule env text)
        (sym (classify_schedule-errors env text) ∙ rw h.classified refl)

  pub checked_times :
      (text : Text) (h : HasTimes text) (s : Schedule)
      → parse_schedule env text ≡ ok s
      → checked env text ≡ ok (h.kind, s)
  unfolding checked
  checked_times text h s parsed = rw h.classified (rw h.allowed (rw parsed refl))

  -- What the tables hold under an id in a phase: the task, its schedule, the type of it, and whether the
  -- engine of the scheduler has a schedule.
  pub record Kept (p : Phase) (id : ℕ) (o : Option Task) (s : Option Schedule)
      (k : Option ScheduleType) (driven : Bool) : Type 0 where
    pub present : is_some o ≡ is_present p
    pub task : (t : Task) → o ≡ some t → (t.id ≡ id) × (t.enabled ≡ is_on p) × HasTimes t.schedule
    pub listed : is_some s ≡ is_on p
    pub timed : is_timed s k ≡ is_on p
    pub driven_on : driven ≡ is_on p

  abbrev pub KeptIn : Phase → ℕ → TaskEngine → Type 0
  KeptIn p id g =
      Kept p id (lookup id g.tasks) (lookup id g.scheds) (lookup id g.schedule_types)
        (has_schedule id g.engine)

  -- A call for one id, and the others as they were.
  pub moved-Kept :
      (id j : ℕ) (q p : Phase) (t o : Option Task) (s u : Option Schedule)
      (k l : Option ScheduleType) (d e : Bool)
      → Kept q id t s k d
      → ((id == j) ≡ false → Kept p j o u l e)
      → Kept
          (if id == j then q else p)
          j
          (if id == j then t else o)
          (if id == j then s else u)
          (if id == j then k else l)
          (if id == j then d else e)
  moved-Kept id j q p t o s u k l d e here there = elim (Bool-cases (id == j)) [
    | inl same ↦ let at : j ≡ id = ground arith in rw same (rw at here)
    | inr other ↦ rw other (there other)
  ]
