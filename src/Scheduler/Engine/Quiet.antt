-- ===== src/Scheduler/Engine/Quiet.antt =====
-- An id that the engine of the scheduler (pkg/scheduler/engine_impl.go) has nothing under way for, and what is
-- armed for other ids.
use tickraft.Base.{
  ℕ, ◌≡◌, ◌≢◌, ap, ◌∙◌, ◌+◌, ◌-◌, List, Option, some, none, arith, Bool-cases, inl, inr, lookup,
  insert, nat_key, lookup-insert, leb,
}
use tickraft.TimeWheel.{add_at}
use tickraft.TimeWheel.Places.{IsCoherent, Absent}
use tickraft.TimeWheel.Absence.{add_at-Absent, remove_entry-Absent}
use tickraft.Scheduler.Engine.{
  Schedule, next, Closure, Engine, or_nil, arm, arm_next, schedule_next, remove_old,
}
use tickraft.Scheduler.Engine.Pending.{IsChained, inserted, due, later, arm-due, arm-later}
use tickraft.Scheduler.Engine.Chains.{retold, scheduled-IsChained}

-- No entry of the id is in the wheel, none will be, and of its callbacks only those of the list run.
pub record IsQuiet (id : ℕ) (ran : List (ℕ × Closure)) (g : Engine) : Type 0 where
  pub gone : (j : ℕ) (c : Closure) → lookup j g.closures ≡ some c → c.id ≡ id → Absent g.wheel j
  pub unscheduled : lookup id g.scheds ≡ none
  pub only : (j : ℕ) (c : Closure) → lookup j g.fired ≡ some c → c.id ≡ id → lookup j ran ≡ some c

module _ {id : ℕ} {ran : List (ℕ × Closure)} where
  pub due-IsQuiet :
      (g : Engine) (c : Closure) (n : ℕ) → c.id ≢ id → IsQuiet id ran g → IsQuiet id ran (due n c g)
  due-IsQuiet g c n other q = record {
    gone = λ j d h same. elim (inserted n j c d g.closures h) [
      | inl (at, e) ↦ absurd (other (ap Closure.id e ∙ same))
      | inr old ↦ q.gone j d old same
    ];
    unscheduled = q.unscheduled;
    only = λ j d h same. elim (inserted n j c d g.fired h) [
      | inl (at, e) ↦ absurd (other (ap Closure.id e ∙ same))
      | inr old ↦ q.only j d old same
    ];
  }

  pub later-IsQuiet :
      (g : Engine) (c : Closure) (now fire_at : ℕ)
      → IsChained g
      → c.id ≢ id
      → IsQuiet id ran g
      → IsQuiet id ran (
          later
            (add_at g.wheel (g.next_entry + 1) now fire_at (g.next_entry + 1)).0
            (g.next_entry + 1)
            c
            g)
  later-IsQuiet g c now fire_at a other q = record {
    gone = λ j d h same. elim (inserted (g.next_entry + 1) j c d g.closures h) [
      | inl (at, e) ↦ absurd (other (ap Closure.id e ∙ same))
      | inr old ↦
          let issued : g.next_entry + 1 ≢ j =
            λ at. let (absent, unknown, idle) = a.fresh j (omega (arith, at)) in absurd (cc) in
          add_at-Absent g.wheel (g.next_entry + 1) now fire_at (g.next_entry + 1) j issued
            (q.gone j d old same)
    ];
    unscheduled = q.unscheduled;
    only = q.only;
  }

  pub arm-IsQuiet :
      (now fire_at : ℕ) (c : Closure) (g : Engine)
      → IsChained g
      → c.id ≢ id
      → IsQuiet id ran g
      → IsQuiet id ran (arm now fire_at (g.next_entry + 1) c g)
  arm-IsQuiet now fire_at c g a other q = elim (Bool-cases (leb fire_at now)) [
    | inl now_due ↦
        rw (arm-due now fire_at (g.next_entry + 1) c g now_due)
          (due-IsQuiet g c (g.next_entry + 1) other q)
    | inr is_later ↦
        rw (arm-later now fire_at (g.next_entry + 1) c g is_later)
          (later-IsQuiet g c now fire_at a other q)
  ]

  pub arm_next-IsQuiet :
      (now i : ℕ) (at : Option ℕ) (g : Engine)
      → IsChained g
      → i ≢ id
      → IsQuiet id ran g
      → IsQuiet id ran (arm_next now i at g)
  unfolding arm_next
  arm_next-IsQuiet now i none g a other q = q
  arm_next-IsQuiet now i (some at) g a other q =
      arm-IsQuiet now (now + (at - now))
        (record { id = i; callback = or_nil (lookup i g.callbacks) }) g a other q

  -- The table of schedules gets one for another id.
  pub scheduled-IsQuiet :
      (i : ℕ) (s : Schedule) (k : List (ℕ × ℕ)) (g : Engine)
      → i ≢ id
      → IsQuiet id ran g
      → IsQuiet id ran (retold g (insert i s g.scheds) k g.started)
  scheduled-IsQuiet i s k g other q = record {
    gone = q.gone;
    unscheduled = let before = q.unscheduled in ground (arith, lookup-insert i id s g.scheds);
    only = q.only;
  }

  pub schedule_next-IsQuiet :
      (now i : ℕ) (sched : Schedule) (g : Engine)
      → IsChained g
      → i ≢ id
      → lookup i g.leaving ≡ none
      → IsQuiet id ran g
      → IsQuiet id ran (schedule_next now i sched g)
  unfolding schedule_next
  schedule_next-IsQuiet now i sched g a other stays q =
      let s = (next now sched).0 in
      arm_next-IsQuiet now i (next now sched).1
        (retold g (insert i s g.scheds) g.callbacks g.started)
        (scheduled-IsChained g i s g.callbacks stays a) other
        (scheduled-IsQuiet i s g.callbacks g other q)

  pub remove_old-IsQuiet :
      (o : Option ℕ) (g : Engine)
      → IsCoherent g.wheel
      → IsQuiet id ran g
      → IsQuiet id ran (remove_old o g)
  unfolding remove_old
  remove_old-IsQuiet none g a q = q
  remove_old-IsQuiet (some n) g a q = record {
    gone = λ j c h same. remove_entry-Absent g.wheel n j a (q.gone j c h same);
    unscheduled = q.unscheduled;
    only = q.only;
  }
