-- ===== src/Task/Lifecycle/Calls.antt =====
-- Each call of the task engine (pkg/task/engine.go) moves one task from phase to phase.
use tickraft.Base.{
  ℕ, ◌≡◌, refl, sym, ◌∙◌, Bool, true, false, Option, some, none, arith, Bool-cases, ◌==◌,
  if◌then◌else◌, inl, inr, nat_key, lookup-insert, lookup-remove,
}
use tickraft.Scheduler.Engine.{Schedule}
use tickraft.Scheduler.Engine.Domain.{has_schedule-add, has_schedule-remove_id}
use tickraft.Task.Lifecycle.{
  Environment, ScheduleType, Task, TaskEngine, is_event, set_task, unschedule_internal, add_timed,
  record_sched, record_event, drive, register_parsed, is_timed, forget_sched, take_off, unschedule,
  on_fire_callback, enable,
}
use tickraft.Task.Lifecycle.Phases.{
  Phase, absent, off, on, is_on, HasTimes, Kept, KeptIn, moved-Kept,
}

drive_on :
    (b v : Bool) (now id : ℕ) (s : Schedule) (x y : TaskEngine)
    → b ≡ true
    → v ≡ false
    → drive b v now id s x y ≡ add_timed now id s y
unfolding drive
drive_on true false now id s x y e f = refl
drive_on true true now id s x y e f = absurd (cc)
drive_on false v now id s x y e f = absurd (cc)

drive_off :
    (b v : Bool) (now id : ℕ) (s : Schedule) (x y : TaskEngine)
    → b ≡ false
    → drive b v now id s x y ≡ x
unfolding drive
drive_off true v now id s x y e = absurd (cc)
drive_off false v now id s x y e = refl

module _ (env : Environment) where
  abbrev pub Timed : Task → Type 0
  Timed t = HasTimes env t.schedule

  abbrev pub KeptAt : Phase → ℕ → TaskEngine → Type 0
  KeptAt p id g = KeptIn env p id g

  abbrev pub KeptBy :
      Phase → ℕ → Option Task → Option Schedule → Option ScheduleType → Bool → Type 0
  KeptBy p id o s k d = Kept env p id o s k d

  Kept-by :
      (p : Phase) (id : ℕ) (o o' : Option Task) (s s' : Option Schedule)
      (k k' : Option ScheduleType) (d d' : Bool)
      → o' ≡ o
      → s' ≡ s
      → k' ≡ k
      → d' ≡ d
      → KeptBy p id o s k d
      → KeptBy p id o' s' k' d'
  Kept-by p id o o' s s' k k' d d' eo es ek ed h = rw (eo, es, ek, ed) h

  -- A task that is off the wheel, and one that is on it.
  off-Kept :
      (id : ℕ) (t : Task) (k : Option ScheduleType)
      → t.id ≡ id
      → t.enabled ≡ false
      → Timed t
      → KeptBy off id (some t) none k false
  unfolding is_timed
  off-Kept id t k i e h = record {
    present = refl;
    task = λ u same. let at : t ≡ u = cc in rw (sym at) (i, e, h);
    listed = refl;
    timed = refl;
    driven_on = refl;
  }

  on-Kept :
      (id : ℕ) (t : Task) (s : Schedule) (k : ScheduleType)
      → t.id ≡ id
      → t.enabled ≡ true
      → Timed t
      → is_event k ≡ false
      → KeptBy on id (some t) (some s) (some k) true
  unfolding is_timed
  on-Kept id t s k i e h timed = record {
    present = refl;
    task = λ u same. let at : t ≡ u = cc in rw (sym at) (i, e, h);
    listed = refl;
    timed = rw timed refl;
    driven_on = refl;
  }

  pub take_off-Kept :
      (t : Task) (j : ℕ) (p : Phase) (g : TaskEngine)
      → Timed t
      → KeptAt p j g
      → KeptAt (if t.id == j then off else p) j (take_off t g)
  unfolding take_off set_task forget_sched unschedule_internal
  take_off-Kept t j p g h there =
      let paused : Task = record t { enabled = false } in
      Kept-by _ j _ _ _ _ _ _ _ _ (lookup-insert t.id j paused g.tasks)
        (lookup-remove t.id j g.scheds) (lookup-remove t.id j g.schedule_types)
        (has_schedule-remove_id t.id j g.engine)
        (moved-Kept env t.id j off p (some paused) _ none _ none _ false _
          (off-Kept t.id paused none refl refl h) (λ other. there))

  pub absent-Kept : (id : ℕ) (k : Option ScheduleType) → KeptBy absent id none none k false
  unfolding is_timed
  absent-Kept id k = record {
    present = refl;
    task = λ u same. absurd (cc);
    listed = refl;
    timed = refl;
    driven_on = refl;
  }

  pub unschedule-Kept :
      (id j : ℕ) (p : Phase) (g : TaskEngine)
      → KeptAt p j g
      → KeptAt (if id == j then absent else p) j (unschedule id g).0
  unfolding unschedule forget_sched unschedule_internal
  unschedule-Kept id j p g there =
      Kept-by _ j _ _ _ _ _ _ _ _ (lookup-remove id j g.tasks) (lookup-remove id j g.scheds)
        (lookup-remove id j g.schedule_types) (has_schedule-remove_id id j g.engine)
        (moved-Kept env id j absent p none _ none _ none _ false _ (absent-Kept id none)
          (λ other. there))

  -- `Register` of a task that is enabled.
  pub register_on-Kept :
      (now : ℕ) (t : Task) (kind : ScheduleType) (s : Schedule) (j : ℕ) (p : Phase) (g : TaskEngine)
      → t.enabled ≡ true
      → is_event kind ≡ false
      → Timed t
      → ((t.id == j) ≡ false → KeptAt p j g)
      → KeptAt (if t.id == j then on else p) j (register_parsed now t kind s g)
  unfolding register_parsed set_task record_sched record_event add_timed
  register_on-Kept now t kind s j p g e timed h there =
      rw (drive_on t.enabled (is_event kind) now t.id s _ _ e timed) (
        Kept-by _ j _ _ _ _ _ _ _ _ (lookup-insert t.id j t g.tasks)
          (lookup-insert t.id j s g.scheds) (lookup-insert t.id j kind g.schedule_types)
          (has_schedule-add now t.id j s on_fire_callback g.engine)
          (moved-Kept env t.id j on p (some t) _ (some s) _ (some kind) _ true _
            (on-Kept t.id t s kind refl e h timed) there))

  -- `Register` of one that is disabled and not on the wheel.
  pub register_off-Kept :
      (now : ℕ) (t : Task) (kind : ScheduleType) (s : Schedule) (j : ℕ) (p : Phase) (g : TaskEngine)
      → t.enabled ≡ false
      → Timed t
      → (t.id ≡ j → is_on p ≡ false)
      → KeptAt p j g
      → KeptAt (if t.id == j then off else p) j (register_parsed now t kind s g)
  unfolding register_parsed set_task
  register_off-Kept now t kind s j p g e h not_on there =
      rw (drive_off t.enabled (is_event kind) now t.id s _ _ e) (
        Kept-by _ j _ _ _ _ _ _ _ _ (lookup-insert t.id j t g.tasks) refl refl refl
          (elim (Bool-cases (t.id == j)) [
            | inl same ↦
                let at : t.id ≡ j = ground arith in
                let is_off = not_on at in
                rw same (record {
                  present = refl;
                  task = λ u eq. let one : t ≡ u = cc in rw (sym one) (at, e, h);
                  listed = there.listed ∙ is_off;
                  timed = there.timed ∙ is_off;
                  driven_on = there.driven_on ∙ is_off;
                })
            | inr other ↦ rw other there
          ]))

  pub unschedule_internal-Kept :
      (id j : ℕ) (p : Phase) (g : TaskEngine)
      → (id ≡ j → is_on p ≡ false)
      → KeptAt p j g
      → KeptAt p j (unschedule_internal id g)
  unfolding unschedule_internal
  unschedule_internal-Kept id j p g not_on there = record {
    present = there.present;
    task = there.task;
    listed = there.listed;
    timed = there.timed;
    driven_on =
        let driven = there.driven_on in
        has_schedule-remove_id id j g.engine ∙ elim (Bool-cases (id == j)) [
          | inl same ↦ rw same (sym (not_on (ground arith)))
          | inr other ↦ rw other driven
        ];
  }

  pub resumed-Kept :
      (now : ℕ) (t : Task) (kind : ScheduleType) (s : Schedule) (j : ℕ) (p : Phase) (g : TaskEngine)
      → is_event kind ≡ false
      → Timed t
      → KeptAt p j g
      → KeptAt
          (if t.id == j then on else p)
          j
          (enable t (add_timed now t.id s (record_sched t.id kind s g)))
  unfolding enable set_task record_sched add_timed
  resumed-Kept now t kind s j p g timed h there =
      let resumed : Task = record t { enabled = true } in
      Kept-by _ j _ _ _ _ _ _ _ _ (lookup-insert t.id j resumed g.tasks)
        (lookup-insert t.id j s g.scheds) (lookup-insert t.id j kind g.schedule_types)
        (has_schedule-add now t.id j s on_fire_callback g.engine)
        (moved-Kept env t.id j on p (some resumed) _ (some s) _ (some kind) _ true _
          (on-Kept t.id resumed s kind refl refl h timed) (λ other. there))
