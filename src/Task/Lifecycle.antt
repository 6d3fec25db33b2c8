-- ===== src/Task/Lifecycle.antt =====
-- The life of a task in the task engine: Register, Update, Unschedule, Pause and Resume of
-- pkg/task/engine.go, with ClassifySchedule and parseSchedule of pkg/task/schedule.go, over the engine of
-- pkg/scheduler.
pub mod Classify
pub mod Phases
pub mod Calls
pub mod Refinement
pub mod Answers
mod Examples
use tickraft.Base.{
  ℕ, ◌*◌, Bool, true, false, not, ◌&&◌, List, [], ◌∷◌, Option, some, none, ltb, ◌==◌, if◌then◌else◌,
  ℤ, pos, negsuc, lookup, insert, remove, nat_key, Outcome, ok, failed, ◌>>=◌,
}
use tickraft.Cron.Text.{Text}
use tickraft.Cron.Spec.{default_parser}
use tickraft.Cron.Fields.{Result}
use tickraft.Cron.Parse.{Schedule as CronSchedule, parse}
use tickraft.StatusPage.{AssetStatus}
use tickraft.Scheduler.Engine.{
  Schedule, constant_interval, never, by_cron, Engine, new_engine, add, remove_id, tick_wheel,
  on_fire,
}

pub data ScheduleType : Type 0 where
  type_cron type_interval type_event : ScheduleType

pub data TaskError : Type 0 where
  task_not_found task_already_paused task_not_paused : TaskError
  interval_not_positive invalid_cron_expr interval_too_small : TaskError

abbrev pub Answer : Type 0
Answer = Option TaskError

pub record Task : Type 0 where
  pub id : ℕ
  pub schedule : Text
  pub enabled : Bool

pub record TaskEngine : Type 0 where
  pub engine : Engine
  pub tasks : List (ℕ × Task)
  pub scheds : List (ℕ × Schedule)
  pub schedule_types : List (ℕ × ScheduleType)
  pub event_driven_tasks : List (ℕ × Unit {0})
  pub statuses : List (ℕ × AssetStatus)

abbrev pub new_task_engine : TaskEngine
new_task_engine = record {
  engine = new_engine;
  tasks = [];
  scheds = [];
  schedule_types = [];
  event_driven_tasks = [];
  statuses = [];
}

unfoldable pub is_event : ScheduleType → Bool
is_event type_cron = false
is_event type_interval = false
is_event type_event = true

-- The number of the callback `e.onFire`.
abbrev pub on_fire_callback : ℕ
on_fire_callback = 1

unfoldable pub set_task : Task → TaskEngine → TaskEngine
set_task t g = record g { tasks = insert t.id t g.tasks }

unfoldable pub unschedule_internal : ℕ → TaskEngine → TaskEngine
unschedule_internal id g = record g {
  engine = remove_id id g.engine;
  statuses = remove id g.statuses;
}

-- `e.engine.Add`, whose error is for a nil schedule only.
unfoldable pub add_timed : ℕ → ℕ → Schedule → TaskEngine → TaskEngine
add_timed now id s g = record g { engine = add now id s on_fire_callback g.engine }

unfoldable pub record_sched : ℕ → ScheduleType → Schedule → TaskEngine → TaskEngine
record_sched id kind s g = record g {
  scheds = insert id s g.scheds;
  schedule_types = insert id kind g.schedule_types;
}

unfoldable pub record_event : ℕ → ScheduleType → TaskEngine → TaskEngine
record_event id kind g = record g {
  event_driven_tasks =
      if is_event kind then insert id tt g.event_driven_tasks else remove id g.event_driven_tasks;
}

-- Whether the task is enabled, and whether it is event-driven.
unfoldable pub drive : Bool → Bool → ℕ → ℕ → Schedule → TaskEngine → TaskEngine → TaskEngine
drive false event now id s stored listed = stored
drive true true now id s stored listed = listed
drive true false now id s stored listed = add_timed now id s listed

-- `Register` behind its checks.
unfoldable pub register_parsed : ℕ → Task → ScheduleType → Schedule → TaskEngine → TaskEngine
register_parsed now t kind s g =
    let stored = set_task t g in
    drive t.enabled (is_event kind) now t.id s stored
      (record_event t.id kind (record_sched t.id kind s stored))

-- `onWheel`: a schedule that is not that of an event-driven task.
unfoldable pub is_timed : Option Schedule → Option ScheduleType → Bool
is_timed none kind = false
is_timed (some s) none = true
is_timed (some s) (some kind) = not (is_event kind)

unfoldable pub on_wheel : ℕ → TaskEngine → Bool
on_wheel id g = is_timed (lookup id g.scheds) (lookup id g.schedule_types)

unfoldable pub forget_sched : ℕ → TaskEngine → TaskEngine
forget_sched id g = record g {
  scheds = remove id g.scheds;
  schedule_types = remove id g.schedule_types;
}

-- `Pause` behind its check.
unfoldable pub take_off : Task → TaskEngine → TaskEngine
take_off t g =
    set_task (record t { enabled = false }) (forget_sched t.id (unschedule_internal t.id g))

unfoldable pub pause_found : Option Task → TaskEngine → TaskEngine × Answer
pause_found none g = (g, some task_not_found)
pause_found (some t) g =
    if on_wheel t.id g then (take_off t g, none) else (g, some task_already_paused)

unfoldable pub pause : ℕ → TaskEngine → TaskEngine × Answer
pause id g = pause_found (lookup id g.tasks) g

unfoldable pub unschedule : ℕ → TaskEngine → TaskEngine × Answer
unschedule id g =
    let off = unschedule_internal id g in
    let forgotten = forget_sched id (record off { tasks = remove id off.tasks }) in
    (record forgotten { event_driven_tasks = remove id forgotten.event_driven_tasks }, none)

unfoldable pub positive : ℤ → Outcome TaskError ℕ
positive (negsuc n) = failed interval_not_positive
positive (pos d) = if d == 0 then failed interval_not_positive else ok d

unfoldable pub cron_of : Result CronSchedule → Outcome TaskError CronSchedule
cron_of (ok s) = ok s
cron_of (failed why) = failed invalid_cron_expr

unfoldable pub registered :
    ℕ → Task → Outcome TaskError (ScheduleType × Schedule) → TaskEngine → TaskEngine × Answer
registered now t (failed why) g = (g, some why)
registered now t (ok (kind, s)) g = (register_parsed now t kind s g, none)

unfoldable pub enable : Task → TaskEngine → TaskEngine
enable t g = set_task (record t { enabled = true }) g

-- `Resume` of a task with times, by the schedule under its id: it is parsed again when there is none.
unfoldable pub resume_timed :
    ℕ
    → Task
    → ScheduleType
    → Option Schedule
    → Outcome TaskError Schedule
    → TaskEngine
    → TaskEngine × Answer
resume_timed now t kind (some s) parsed g = (enable t (add_timed now t.id s g), none)
resume_timed now t kind none (failed why) g = (g, some why)
resume_timed now t kind none (ok s) g =
    (enable t (add_timed now t.id s (record_sched t.id kind s g)), none)

-- `checkMinInterval`, of a positive interval.
unfoldable pub check_min_interval : ℕ → ScheduleType → ℕ → Outcome TaskError (Unit {0})
check_min_interval min_interval type_cron interval = ok tt
check_min_interval min_interval type_event interval = ok tt
check_min_interval min_interval type_interval interval =
    if ltb interval (min_interval * 1_000_000_000) then failed interval_too_small else ok tt

-- `load_location` and `parse_duration` are those of package time; `next_of` is the Next of a parsed expression
-- between the calendar of package time and the engine's clock. `min_interval` is the ceiling of the quota in
-- seconds, 0 for none.
pub record Environment : Type 0 where
  pub load_location : Text → Option ℕ
  pub parse_duration : Text → Option ℤ
  pub next_of : CronSchedule → ℕ → Option ℕ
  pub min_interval : ℕ

module _ (env : Environment) where
  unfoldable pub parse_cron : Text → Outcome TaskError CronSchedule
  parse_cron s = cron_of (parse env.load_location env.parse_duration default_parser s)

  -- `ClassifySchedule` behind `time.ParseDuration`, with the interval.
  unfoldable pub classify_by : Text → Option ℤ → Outcome TaskError (ScheduleType × ℕ)
  classify_by s (some d) = positive d >>= λ interval. ok (type_interval, interval)
  classify_by s none = parse_cron s >>= λ c. ok (type_cron, 0)

  unfoldable pub classify_schedule : Text → Outcome TaskError (ScheduleType × ℕ)
  classify_schedule [] = ok (type_event, 0)
  classify_schedule (c ∷ s) = classify_by (c ∷ s) (env.parse_duration (c ∷ s))

  unfoldable pub parse_by : Text → Option ℤ → Outcome TaskError Schedule
  parse_by s (some d) = positive d >>= λ interval. ok (constant_interval interval)
  parse_by s none = parse_cron s >>= λ c. ok (by_cron (env.next_of c))

  unfoldable pub parse_schedule : Text → Outcome TaskError Schedule
  parse_schedule [] = ok never
  parse_schedule (c ∷ s) = parse_by (c ∷ s) (env.parse_duration (c ∷ s))

  unfoldable pub resume_as :
      ℕ → Task → Outcome TaskError (ScheduleType × ℕ) → TaskEngine → TaskEngine × Answer
  resume_as now t (failed why) g = (g, some why)
  resume_as now t (ok (kind, interval)) g =
      if is_event kind
      then (enable t (record g { event_driven_tasks = insert t.id tt g.event_driven_tasks }), none)
      else resume_timed now t kind (lookup t.id g.scheds) (parse_schedule t.schedule) g

  unfoldable pub resume_found : ℕ → Option Task → TaskEngine → TaskEngine × Answer
  resume_found now none g = (g, some task_not_found)
  resume_found now (some t) g =
      if on_wheel t.id g
      then (g, some task_not_paused)
      else resume_as now t (classify_schedule t.schedule) g

  -- `Resume`, but for the catch-up at its end.
  unfoldable pub resume : ℕ → ℕ → TaskEngine → TaskEngine × Answer
  resume now id g = resume_found now (lookup id g.tasks) g

  unfoldable pub checked : Text → Outcome TaskError (ScheduleType × Schedule)
  checked text = do
    (kind, interval) ← classify_schedule text
    u ← check_min_interval env.min_interval kind interval
    s ← parse_schedule text
    ok (kind, s)

  unfoldable pub register : ℕ → Task → TaskEngine → TaskEngine × Answer
  register now t g = registered now t (checked t.schedule) g

  unfoldable pub update : ℕ → Task → TaskEngine → TaskEngine × Answer
  update now t g = register now t (unschedule_internal t.id g)
