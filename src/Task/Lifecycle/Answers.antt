-- ===== src/Task/Lifecycle/Answers.antt =====
-- Runs of the task engine (pkg/task/engine.go) over the engine of the scheduler.
use tickraft.Base.{ℕ, ◌≡◌, refl, ◌∙◌, List, [], ◌∷◌, none, lookup, nat_key}
use tickraft.Scheduler.Engine.Domain.{has_schedule, has_schedule-tick_wheel, has_schedule-on_fire}
use tickraft.Task.Lifecycle.{
  Environment, TaskEngine, Answer, new_task_engine, unschedule, pause, resume,
}
use tickraft.Task.Lifecycle.Phases.{absent, is_on}
use tickraft.Task.Lifecycle.Calls.{unschedule-Kept, absent-Kept}
use tickraft.Task.Lifecycle.Refinement.{
  Call, registers, updates, pauses, unschedules, resumes, ticks, finishes, Phases, moved, spec_step,
  spec_run, step, run, Allowed, AllAllowed, Follows, Agree, register_parsed-Agree, update-Agree,
  pause-Agree, resume-Agree,
}

-- No task is registered.
abbrev pub all_absent : Phases
all_absent id = absent

both_same : {a b : Answer} {l m : List Answer} → a ≡ b → l ≡ m → a ∷ l ≡ b ∷ m
both_same h k = cc

module _ (env : Environment) where
  step-Agree :
      (p : Phases) (g : TaskEngine) (c : Call)
      → Allowed env p c
      → Follows env p g
      → Agree env (step env g c) (spec_step p c)
  unfolding step spec_step pause resume moved unschedule
  step-Agree p g (registers now t) h f =
      register_parsed-Agree env now t p g t.enabled refl h.0 h.1 (λ e j other. f j) (λ e. f)
  step-Agree p g (updates now t) h f = update-Agree env now t p g h.0 h.1 f
  step-Agree p g (pauses id) h f = pause-Agree env id (p id) (lookup id g.tasks) p g refl refl f
  step-Agree p g (unschedules id) h f = (refl, λ j. unschedule-Kept env id j (p j) g (f j))
  step-Agree p g (resumes now id) h f =
      resume-Agree env now id (p id) (lookup id g.tasks) p g refl refl f
  step-Agree p g (ticks now) h f = (
    refl,
    λ j. record {
      present = (f j).present;
      task = (f j).task;
      listed = (f j).listed;
      timed = (f j).timed;
      driven_on = has_schedule-tick_wheel now j g.engine ∙ (f j).driven_on;
    },
  )
  step-Agree p g (finishes now entry) h f = (
    refl,
    λ j. record {
      present = (f j).present;
      task = (f j).task;
      listed = (f j).listed;
      timed = (f j).timed;
      driven_on = has_schedule-on_fire now entry j g.engine ∙ (f j).driven_on;
    },
  )

  run-Agree :
      (p : Phases) (g : TaskEngine) (cs : List Call)
      → AllAllowed env p cs
      → Follows env p g
      → ((run env g cs).1 ≡ (spec_run p cs).1) × Follows env (spec_run p cs).0 (run env g cs).0
  unfolding run spec_run AllAllowed
  run-Agree p g [] h f = (refl, f)
  run-Agree p g (c ∷ cs) h f =
      let (same, follows) = step-Agree p g c h.0 f in
      let (rest, end) = run-Agree (spec_step p c).0 (step env g c).0 cs h.1 follows in
      (both_same same rest, end)

  new-Follows : Follows env all_absent new_task_engine
  unfolding lookup
  new-Follows id = absent-Kept env id none

  -- For tasks with times (a cron expression, or an interval above the quota's minimum), any calls of
  -- `Register`, `Update`, `Unschedule`, `Pause` and `Resume`, ticks and callbacks that end, where no
  -- `Register` or `Update` disables a task that is on the wheel: each call gives the error, or none, that the
  -- table of phases gives, and at the end the scheduler has a schedule for exactly the tasks that are on.
  pub run-refines :
      (cs : List Call)
      → AllAllowed env all_absent cs
      → ((run env new_task_engine cs).1 ≡ (spec_run all_absent cs).1)
        × ((id : ℕ)
            → has_schedule id (run env new_task_engine cs).0.engine
              ≡ is_on ((spec_run all_absent cs).0 id))
  run-refines cs h =
      let (same, follows) = run-Agree all_absent new_task_engine cs h new-Follows in
      (same, λ id. (follows id).driven_on)
