-- ===== src/Task/Lifecycle/Examples.antt =====
-- A task of every five minutes, and the theorem at it.
use tickraft.Base.{
  ℕ, ◌≡◌, refl, ◌*◌, true, false, List, [], ◌∷◌, Option, some, none, ℤ, pos, lookup, insert, remove,
  nat_key, if◌then◌else◌,
}
use tickraft.Cron.Text.{Text, codes, text_eq}
use tickraft.Cron.Parse.{Schedule as CronSchedule}
use tickraft.Scheduler.Engine.Domain.{has_schedule}
use tickraft.Task.Lifecycle.{
  Environment, Task, new_task_engine, task_already_paused, task_not_paused, type_interval, positive,
  classify_by, classify_schedule, check_min_interval, is_event, parse_by, parse_schedule, checked,
  registered, register, register_parsed, drive, set_task, record_sched, record_event, add_timed,
  unschedule_internal, update, is_timed, on_wheel, resume, resume_found,
}
use tickraft.Task.Lifecycle.Phases.{HasTimes, is_on}
use tickraft.Task.Lifecycle.Refinement.{
  Call, registers, updates, pauses, resumes, moved, pause_phase, resume_phase, spec_step, spec_run,
  step, run, AllAllowed,
}
use tickraft.Task.Lifecycle.Answers.{all_absent, run-refines}

abbrev no_location : Text → Option ℕ
no_location name = none

abbrev five_minutes : Text → Option ℤ
five_minutes s = if text_eq s (codes "5m") then some (pos (300 * 1_000_000_000)) else none

abbrev no_time : CronSchedule → ℕ → Option ℕ
no_time s now = none

abbrev five_minute_texts : Environment
five_minute_texts = record {
  load_location = no_location;
  parse_duration = five_minutes;
  next_of = no_time;
  min_interval = 60;
}

abbrev probe : Task
probe = record { id = 7; schedule = codes "5m"; enabled = true }

probe-HasTimes : HasTimes five_minute_texts probe.schedule
unfolding classify_schedule classify_by positive check_min_interval is_event text_eq
probe-HasTimes = record {
  kind = type_interval;
  interval = 300 * 1_000_000_000;
  classified = refl;
  allowed = refl;
  timed = refl;
}

abbrev some_calls : List Call
some_calls = registers 0 probe ∷ pauses 7 ∷ pauses 7 ∷ resumes 90 7 ∷ []

some_calls-AllAllowed : AllAllowed five_minute_texts all_absent some_calls
unfolding AllAllowed
some_calls-AllAllowed = ((probe-HasTimes, λ h. refl), (tt, (tt, (tt, tt))))

run-refines_example :
    ((run five_minute_texts new_task_engine some_calls).1 ≡ (spec_run all_absent some_calls).1)
    × ((id : ℕ)
        → has_schedule id (run five_minute_texts new_task_engine some_calls).0.engine
          ≡ is_on ((spec_run all_absent some_calls).0 id))
run-refines_example = run-refines five_minute_texts some_calls some_calls-AllAllowed

its_answers :
    (spec_run all_absent some_calls).1 ≡ none ∷ none ∷ some task_already_paused ∷ none ∷ []
unfolding spec_run spec_step moved pause_phase resume_phase
its_answers = refl

-- A task that `Update` disables stays in the table of schedules, and cannot be resumed.
abbrev disabled_by_update : List Call
disabled_by_update =
    registers 0 probe ∷ updates 5 (record probe { enabled = false }) ∷ resumes 9 7 ∷ []

cannot_resume :
    (run five_minute_texts new_task_engine disabled_by_update).1
    ≡ none ∷ none ∷ some task_not_paused ∷ []
unfolding run step register registered checked classify_schedule classify_by positive
    check_min_interval parse_schedule parse_by text_eq register_parsed drive set_task record_sched
    record_event add_timed is_event update unschedule_internal resume resume_found on_wheel is_timed
    lookup insert remove
cannot_resume = refl
