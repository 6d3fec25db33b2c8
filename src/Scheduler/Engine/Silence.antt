-- ===== src/Scheduler/Engine/Silence.antt =====
-- What `Remove` of the engine of the scheduler promises (pkg/scheduler/engine_impl.go): the id
-- expires no more.
use tickraft.Base.{
  ℕ, ◌≡◌, ◌≢◌, refl, sym, ap, ◌∙◌, Bool, true, false, if◌then◌else◌, List, [], ◌∷◌, Option, some,
  none, arith, inl, inr, lookup, insert, remove, nat_key, lookup-remove, Option-cases,
}
use tickraft.TimeWheel.{tick}
use tickraft.TimeWheel.Absence.{tick-Absent, uncollected}
use tickraft.Scheduler.Engine.{
  Schedule, Closure, Engine, new_engine, remove_old, add, unlist, take_out, tick_wheel, reschedule,
  finish_closure, on_fire, start, stop, Call, added, unlisted, taken_out, ticked, finished,
  start_called, stop_called, step, run,
}
use tickraft.Scheduler.Engine.Pending.{first, IsChained}
use tickraft.Scheduler.Engine.Chains.{
  retold, scheduled-IsChained, remove_old-IsChained, leaving-remove_old, lookup-mark_all_fired,
}
use tickraft.Scheduler.Engine.Leaving.{gone_from, take_out-IsChained}
use tickraft.Scheduler.Engine.OneChain.{turned, ended, ended_ran, ended-IsChained, known_once}
use tickraft.Scheduler.Engine.Runs.{AllWaited, step-IsChained, run-IsChained, new_engine-IsChained}
use tickraft.Scheduler.Engine.Quiet.{
  IsQuiet, scheduled-IsQuiet, schedule_next-IsQuiet, remove_old-IsQuiet,
}

-- No call of `Add` is for the id.
unfoldable pub NeverAdded : ℕ → List Call → Type 0
NeverAdded id [] = Unit
NeverAdded id (added now i sched callback ∷ cs) = (i ≢ id) × NeverAdded id cs
NeverAdded id (unlisted i ∷ cs) = NeverAdded id cs
NeverAdded id (taken_out i ∷ cs) = NeverAdded id cs
NeverAdded id (ticked now ∷ cs) = NeverAdded id cs
NeverAdded id (finished now entry ∷ cs) = NeverAdded id cs
NeverAdded id (start_called ∷ cs) = NeverAdded id cs
NeverAdded id (stop_called ∷ cs) = NeverAdded id cs

module _ {id : ℕ} {ran : List (ℕ × Closure)} where
  add-IsQuiet :
      (now i : ℕ) (sched : Schedule) (callback : ℕ) (g : Engine)
      → IsChained g
      → i ≢ id
      → lookup i g.leaving ≡ none
      → IsQuiet id ran g
      → IsQuiet id ran (add now i sched callback g)
  unfolding add
  add-IsQuiet now i sched callback g a other stays q =
      let o = lookup i g.entries in
      let old = remove_old o g in
      let s = insert i sched old.scheds in
      let k = insert i callback old.callbacks in
      let (chained, cleared) = remove_old-IsChained i o g refl stays a in
      let still : lookup i old.leaving ≡ none = rw (leaving-remove_old o g) stays in
      schedule_next-IsQuiet now i sched (retold old s k old.started)
        (scheduled-IsChained old i sched k still chained) other still
        (scheduled-IsQuiet i sched k old other (remove_old-IsQuiet o g a.coherent q))

  unlist-IsQuiet : (i : ℕ) (g : Engine) → IsQuiet id ran g → IsQuiet id ran (unlist i g)
  unfolding unlist
  unlist-IsQuiet i g q = record {
    gone = q.gone;
    unscheduled = let before = q.unscheduled in ground (arith, lookup-remove i id g.scheds);
    only = q.only;
  }

  take_out-IsQuiet :
      (i : ℕ) (g : Engine) → IsChained g → IsQuiet id ran g → IsQuiet id ran (take_out i g)
  unfolding take_out
  take_out-IsQuiet i g a q =
      remove_old-IsQuiet (lookup i g.leaving) (gone_from i g) a.coherent
        (record { gone = q.gone; unscheduled = q.unscheduled; only = q.only })

  turned-IsQuiet :
      (g : Engine) (now : ℕ) → IsChained g → IsQuiet id ran g → IsQuiet id ran (turned g now)
  turned-IsQuiet g now a q = record {
    gone = λ j c h same. tick-Absent g.wheel now j a.coherent (q.gone j c h same);
    unscheduled = q.unscheduled;
    only = λ j c h same.
        elim (lookup-mark_all_fired g.closures (tick g.wheel now).1 g.fired j c h) [
          | inl ((e, out), known) ↦
              let inside = uncollected g.wheel now j a.coherent (q.gone j c known same) in
              absurd (cc)
          | inr before ↦ q.only j c before same
        ];
  }

  ended-IsQuiet : (entry : ℕ) (g : Engine) → IsQuiet id ran g → IsQuiet id ran (ended entry g)
  ended-IsQuiet entry g q = record {
    gone = q.gone;
    unscheduled = q.unscheduled;
    only = λ j c h same. q.only j c (ended_ran g entry j c h).0 same;
  }

  reschedule-IsQuiet :
      (now i : ℕ) (o : Option Schedule) (g : Engine)
      → lookup i g.scheds ≡ o
      → IsChained g
      → IsQuiet id ran g
      → IsQuiet id ran (reschedule now i o g)
  unfolding reschedule
  reschedule-IsQuiet now i none g h a q = q
  reschedule-IsQuiet now i (some sched) g h a q =
      let other : i ≢ id = λ e.
        let unscheduled = q.unscheduled in
        let there : lookup id g.scheds ≡ some sched = rw (sym e) h in absurd (cc) in
      elim (Option-cases (lookup i g.leaving)) [
        | inl stays ↦ schedule_next-IsQuiet now i sched g a other stays q
        | inr (n, leaves) ↦ absurd (let gone = (a.off i n leaves).1 in cc)
      ]

  finish_closure-IsQuiet :
      (now entry : ℕ) (o : Option Closure) (g : Engine)
      → IsChained g
      → IsQuiet id ran g
      → IsQuiet id ran (finish_closure now entry o g)
  unfolding finish_closure
  finish_closure-IsQuiet now entry none g a q = q
  finish_closure-IsQuiet now entry (some c) g a q =
      reschedule-IsQuiet now c.id (lookup c.id g.scheds) (ended entry g) refl
        (ended-IsChained g entry a) (ended-IsQuiet entry g q)

  if-IsQuiet :
      (b : Bool) (g h : Engine)
      → IsQuiet id ran g
      → IsQuiet id ran h
      → IsQuiet id ran (if b then g else h)
  if-IsQuiet true g h q r = q
  if-IsQuiet false g h q r = r

  flagged-IsQuiet :
      (b : Bool) (g : Engine) → IsQuiet id ran g → IsQuiet id ran (record g { started = b })
  flagged-IsQuiet b g q = record { gone = q.gone; unscheduled = q.unscheduled; only = q.only }

  run-IsQuiet :
      (g : Engine) (cs : List Call)
      → NeverAdded id cs
      → AllWaited g cs
      → IsChained g
      → IsQuiet id ran g
      → IsQuiet id ran (run g cs)
  unfolding run step NeverAdded AllWaited on_fire tick_wheel start stop
  run-IsQuiet g [] never w a q = q
  run-IsQuiet g (added now i sched callback ∷ cs) never w a q =
      run-IsQuiet (add now i sched callback g) cs never.1 w.1
        (step-IsChained g (added now i sched callback) w.0 a)
        (add-IsQuiet now i sched callback g a never.0 w.0.1 q)
  run-IsQuiet g (unlisted i ∷ cs) never w a q =
      run-IsQuiet (unlist i g) cs never w.1 (step-IsChained g (unlisted i) w.0 a)
        (unlist-IsQuiet i g q)
  run-IsQuiet g (taken_out i ∷ cs) never w a q =
      run-IsQuiet (take_out i g) cs never w.1 (step-IsChained g (taken_out i) w.0 a)
        (take_out-IsQuiet i g a q)
  run-IsQuiet g (ticked now ∷ cs) never w a q =
      run-IsQuiet (tick_wheel now g) cs never w.1 (step-IsChained g (ticked now) w.0 a)
        (if-IsQuiet g.started (turned g now) g (turned-IsQuiet g now a q) q)
  run-IsQuiet g (finished now entry ∷ cs) never w a q =
      run-IsQuiet (on_fire now entry g) cs never w.1 (step-IsChained g (finished now entry) w.0 a)
        (finish_closure-IsQuiet now entry (lookup entry g.fired) g a q)
  run-IsQuiet g (start_called ∷ cs) never w a q =
      run-IsQuiet (start g) cs never w.1 (step-IsChained g start_called w.0 a)
        (if-IsQuiet g.started g (record g { started = true }) q (flagged-IsQuiet true g q))
  run-IsQuiet g (stop_called ∷ cs) never w a q =
      run-IsQuiet (stop g) cs never w.1 (step-IsChained g stop_called w.0 a)
        (if-IsQuiet g.started (record g { started = false }) g (flagged-IsQuiet false g q) q)

-- Behind both parts of `Remove` the id has no entry and no schedule.
taken_out-IsQuiet :
    (id n : ℕ) (g : Engine)
    → IsChained g
    → lookup id g.leaving ≡ some n
    → IsChained (remove_old (some n) (gone_from id g))
    → IsQuiet id g.fired (remove_old (some n) (gone_from id g))
unfolding remove_old
taken_out-IsQuiet id n g a leaves chained =
    let (no_entry, no_schedule) = a.off id n leaves in
    record {
      gone = λ j c h same. elim (chained.waiting j) [
        | inl absent ↦ absent
        | inr w ↦
            let is : w.closure.id ≡ id =
              ap Closure.id (known_once (remove_old (some n) (gone_from id g)) j c w h) ∙ same in
            let named : first (lookup w.closure.id (remove id g.leaving))
                  (lookup w.closure.id g.entries)
                ≡ some j =
              w.current in
            let left : lookup w.closure.id (remove id g.leaving) ≡ none =
              ground (arith, lookup-remove id w.closure.id g.leaving) in
            let unnamed : first (lookup w.closure.id (remove id g.leaving))
                  (lookup w.closure.id g.entries)
                ≡ none =
              rw left (rw is no_entry) in
            absurd (cc)
      ];
      unscheduled = no_schedule;
      only = λ j c h same. h;
    }

take_out-IsQuiet_from :
    (id n : ℕ) (g : Engine)
    → IsChained g
    → lookup id g.leaving ≡ some n
    → IsQuiet id g.fired (take_out id g)
unfolding take_out
take_out-IsQuiet_from id n g a leaves =
    let chained = take_out-IsChained id g a in
    let found : IsChained (remove_old (some n) (gone_from id g)) = rw (sym leaves) chained in
    rw leaves (taken_out-IsQuiet id n g a leaves found)

-- By any calls of a new engine, ticks and callbacks that end, at any times and in any order, also between the
-- two parts of a `Remove` (the tables, under the mutex, and then the wheel), where `Add` of an id comes while
-- no callback of it waits for the pool or runs, and no `Remove` of it is between its parts: when a `Remove`
-- that has found an entry of the id takes it out of the wheel, and `Add` is not called for the id any more,
-- no entry of the id expires. A callback of it that waits for the pool or runs at any later moment had
-- expired when `Remove` took the entry out, which does not stop it: it may still be waiting then.
pub remove_id-Silent :
    (before after : List Call) (id n j : ℕ) (c : Closure)
    → AllWaited new_engine before
    → lookup id (run new_engine before).leaving ≡ some n
    → NeverAdded id after
    → AllWaited (take_out id (run new_engine before)) after
    → lookup j (run (take_out id (run new_engine before)) after).fired ≡ some c
    → c.id ≡ id
    → lookup j (run new_engine before).fired ≡ some c
remove_id-Silent before after id n j c w leaves never w_after h same =
    let g = run new_engine before in
    let chained = run-IsChained new_engine before w new_engine-IsChained in
    let quiet =
      run-IsQuiet (take_out id g) after never w_after (take_out-IsChained id g chained)
        (take_out-IsQuiet_from id n g chained leaves) in
    quiet.only j c h same
