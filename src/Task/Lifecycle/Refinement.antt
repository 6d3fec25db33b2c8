-- ===== src/Task/Lifecycle/Refinement.antt =====
-- The task engine (pkg/task/engine.go) over the engine of the scheduler answers as a table of phases does.
use tickraft.Base.{
  ℕ, ◌≡◌, refl, sym, ap, ◌∙◌, Bool, true, false, List, [], ◌∷◌, Option, some, none, arith,
  Bool-cases, ◌==◌, if◌then◌else◌, inl, inr, lookup, nat_key,
}
use tickraft.Scheduler.Engine.{tick_wheel, on_fire}
use tickraft.Scheduler.Engine.Domain.{is_some}
use tickraft.Task.Lifecycle.{
  Environment, task_not_found, task_already_paused, task_not_paused, Answer, Task, TaskEngine,
  on_wheel, pause_found, pause, unschedule, unschedule_internal, registered, resume_timed,
  resume_as, resume_found, resume, register, update,
}
use tickraft.Task.Lifecycle.Phases.{
  Phase, absent, off, on, is_present, is_on, by_enabled, parsed_times, checked_times,
}
use tickraft.Task.Lifecycle.Calls.{
  Timed, KeptAt, take_off-Kept, register_on-Kept, register_off-Kept, unschedule_internal-Kept,
  resumed-Kept,
}

pub data Call : Type 0 where
  registers updates : ℕ → Task → Call
  pauses unschedules : ℕ → Call
  resumes : ℕ → ℕ → Call
  ticks : ℕ → Call
  finishes : ℕ → ℕ → Call

-- The table of phases.
abbrev pub Phases : Type 0
Phases = ℕ → Phase

unfoldable pub moved : Phases → ℕ → Phase → Phases
moved p id q j = if id == j then q else p j

unfoldable pub pause_phase : Phases → ℕ → Phase → Phases × Answer
pause_phase p id absent = (p, some task_not_found)
pause_phase p id off = (p, some task_already_paused)
pause_phase p id on = (moved p id off, none)

unfoldable pub resume_phase : Phases → ℕ → Phase → Phases × Answer
resume_phase p id absent = (p, some task_not_found)
resume_phase p id off = (moved p id on, none)
resume_phase p id on = (p, some task_not_paused)

unfoldable pub spec_step : Phases → Call → Phases × Answer
spec_step p (registers now t) = (moved p t.id (by_enabled t.enabled), none)
spec_step p (updates now t) = (moved p t.id (by_enabled t.enabled), none)
spec_step p (pauses id) = pause_phase p id (p id)
spec_step p (unschedules id) = (moved p id absent, none)
spec_step p (resumes now id) = resume_phase p id (p id)
spec_step p (ticks now) = (p, none)
spec_step p (finishes now entry) = (p, none)

unfoldable pub spec_run : Phases → List Call → Phases × List Answer
spec_run p [] = (p, [])
spec_run p (c ∷ cs) =
    let (q, a) = spec_step p c in let (r, answers) = spec_run q cs in (r, a ∷ answers)

is_some-none : {A : Type 0} (o : Option A) → is_some o ≡ false → o ≡ none
is_some-none none h = refl
is_some-none (some a) h = absurd (cc)

module _ (env : Environment) where
  unfoldable pub step : TaskEngine → Call → TaskEngine × Answer
  step g (registers now t) = register env now t g
  step g (updates now t) = update env now t g
  step g (pauses id) = pause id g
  step g (unschedules id) = unschedule id g
  step g (resumes now id) = resume env now id g
  step g (ticks now) = (record g { engine = tick_wheel now g.engine }, none)
  step g (finishes now entry) = (record g { engine = on_fire now entry g.engine }, none)

  unfoldable pub run : TaskEngine → List Call → TaskEngine × List Answer
  run g [] = (g, [])
  run g (c ∷ cs) = let (h, a) = step g c in let (k, answers) = run h cs in (k, a ∷ answers)

  -- Tasks with times, and no call that disables a task on the wheel but `Pause`.
  abbrev pub Allowed : Phases → Call → Type 0
  Allowed p (registers now t) = Timed env t × (is_on (p t.id) ≡ true → t.enabled ≡ true)
  Allowed p (updates now t) = Timed env t × (is_on (p t.id) ≡ true → t.enabled ≡ true)
  Allowed p (pauses id) = Unit
  Allowed p (unschedules id) = Unit
  Allowed p (resumes now id) = Unit
  Allowed p (ticks now) = Unit
  Allowed p (finishes now entry) = Unit

  unfoldable pub AllAllowed : Phases → List Call → Type 0
  AllAllowed p [] = Unit
  AllAllowed p (c ∷ cs) = Allowed p c × AllAllowed (spec_step p c).0 cs

  abbrev pub Follows : Phases → TaskEngine → Type 0
  Follows p g = (id : ℕ) → KeptAt env (p id) id g

  -- The same answer, and an engine that follows the table.
  abbrev pub Agree : TaskEngine × Answer → Phases × Answer → Type 0
  Agree (g, a) (p, b) = (a ≡ b) × Follows p g

  not_on :
      (p : Phases) (t : Task) (j : ℕ)
      → t.enabled ≡ false
      → (is_on (p t.id) ≡ true → t.enabled ≡ true)
      → t.id ≡ j
      → is_on (p j) ≡ false
  not_on p t j e ok_on at = rw (sym at) (elim (Bool-cases (is_on (p t.id))) [
    | inl it_is ↦ let yes_on = ok_on it_is in absurd (cc)
    | inr it_is_not ↦ it_is_not
  ])

  pub register_parsed-Agree :
      (now : ℕ) (t : Task) (p : Phases) (g : TaskEngine) (b : Bool)
      → t.enabled ≡ b
      → Timed env t
      → (is_on (p t.id) ≡ true → t.enabled ≡ true)
      → (b ≡ true → (j : ℕ) → (t.id == j) ≡ false → KeptAt env (p j) j g)
      → (b ≡ false → Follows p g)
      → Agree (register env now t g) (moved p t.id (by_enabled t.enabled), none)
  unfolding register registered moved
  register_parsed-Agree now t p g true e h ok_on others all =
      let (s, parsed) = parsed_times env t.schedule h in
      let good = checked_times env t.schedule h s parsed in
      rw good (
        refl,
        λ j.
            let on_it : by_enabled t.enabled ≡ on = ap by_enabled e in
            rw on_it (register_on-Kept env now t h.kind s j (p j) g e h.timed h (others refl j)),
      )
  register_parsed-Agree now t p g false e h ok_on others all =
      let (s, parsed) = parsed_times env t.schedule h in
      let good = checked_times env t.schedule h s parsed in
      rw good (
        refl,
        λ j.
            let off_it : by_enabled t.enabled ≡ off = ap by_enabled e in
            rw off_it (
              register_off-Kept env now t h.kind s j (p j) g e h (not_on p t j e ok_on)
                (all refl j)),
      )

  pub update-Agree :
      (now : ℕ) (t : Task) (p : Phases) (g : TaskEngine)
      → Timed env t
      → (is_on (p t.id) ≡ true → t.enabled ≡ true)
      → Follows p g
      → Agree (update env now t g) (moved p t.id (by_enabled t.enabled), none)
  unfolding update
  update-Agree now t p g h ok_on f =
      register_parsed-Agree now t p (unschedule_internal t.id g) t.enabled refl h ok_on
        (λ e j other.
          unschedule_internal-Kept env t.id j (p j) g (λ same. absurd (ground arith)) (f j))
        (λ e j. unschedule_internal-Kept env t.id j (p j) g (not_on p t j e ok_on) (f j))

  -- What the table says of a task that is looked up.
  present_as :
      (id : ℕ) (q : Phase) (o : Option Task) (p : Phases) (g : TaskEngine)
      → p id ≡ q
      → lookup id g.tasks ≡ o
      → Follows p g
      → is_some o ≡ is_present q
  present_as id q o p g e l f = sym (ap is_some l) ∙ (f id).present ∙ ap is_present e

  found_as :
      (id : ℕ) (q : Phase) (t : Task) (p : Phases) (g : TaskEngine)
      → p id ≡ q
      → lookup id g.tasks ≡ some t
      → Follows p g
      → (t.id ≡ id) × (on_wheel t.id g ≡ is_on q) × Timed env t
  unfolding on_wheel
  found_as id q t p g e l f =
      let (at, enabled, times) = (f id).task t l in
      let here : on_wheel t.id g ≡ is_on (p id) = rw at (f id).timed in
      (at, here ∙ ap is_on e, times)

  pub pause-Agree :
      (id : ℕ) (q : Phase) (o : Option Task) (p : Phases) (g : TaskEngine)
      → p id ≡ q
      → lookup id g.tasks ≡ o
      → Follows p g
      → Agree (pause_found o g) (pause_phase p id q)
  unfolding pause_found pause_phase moved
  pause-Agree id absent none p g e l f = (refl, f)
  pause-Agree id absent (some t) p g e l f =
      absurd (let k = present_as id absent (some t) p g e l f in cc)
  pause-Agree id off none p g e l f = absurd (let k = present_as id off none p g e l f in cc)
  pause-Agree id off (some t) p g e l f = rw (found_as id off t p g e l f).1 (refl, f)
  pause-Agree id on none p g e l f = absurd (let k = present_as id on none p g e l f in cc)
  pause-Agree id on (some t) p g e l f =
      let (at, wheel, times) = found_as id on t p g e l f in
      rw wheel (refl, λ j. rw (sym at) (take_off-Kept env t j (p j) g times (f j)))

  pub resume-Agree :
      (now id : ℕ) (q : Phase) (o : Option Task) (p : Phases) (g : TaskEngine)
      → p id ≡ q
      → lookup id g.tasks ≡ o
      → Follows p g
      → Agree (resume_found env now o g) (resume_phase p id q)
  unfolding resume_found resume_phase moved resume_as resume_timed
  resume-Agree now id absent none p g e l f = (refl, f)
  resume-Agree now id absent (some t) p g e l f =
      absurd (let k = present_as id absent (some t) p g e l f in cc)
  resume-Agree now id off none p g e l f = absurd (let k = present_as id off none p g e l f in cc)
  resume-Agree now id on none p g e l f = absurd (let k = present_as id on none p g e l f in cc)
  resume-Agree now id on (some t) p g e l f = rw (found_as id on t p g e l f).1 (refl, f)
  resume-Agree now id off (some t) p g e l f =
      let (at, wheel, times) = found_as id off t p g e l f in
      let (s, parsed) = parsed_times env t.schedule times in
      let none_listed : lookup t.id g.scheds ≡ none =
        is_some-none (lookup t.id g.scheds) (rw at ((f id).listed ∙ ap is_on e)) in
      rw wheel (
        rw times.classified (
          rw times.timed (
            rw none_listed (
              rw parsed (
                refl,
                λ j.
                    rw (sym at)
                      (resumed-Kept env now t times.kind s j (p j) g times.timed times (f j)),
              )))))
