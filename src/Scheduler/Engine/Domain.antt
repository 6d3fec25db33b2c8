-- ===== src/Scheduler/Engine/Domain.antt =====
-- The ids that have a schedule in the engine of the scheduler (pkg/scheduler/engine_impl.go), behind each call.
use tickraft.Base.{
  ℕ, ◌≡◌, refl, ◌∙◌, Bool, true, false, Option, some, none, arith, ◌==◌, if◌then◌else◌, lookup,
  insert, remove, nat_key, lookup-insert, lookup-remove,
}
use tickraft.Scheduler.Engine.{
  Schedule, next, Closure, Engine, arm, arm_next, schedule_next, remove_old, add, unlist, take_out,
  remove_id, tick_wheel, reschedule, finish_closure, on_fire,
}

abbrev pub is_some {ℓ} : {A : Type ℓ} → Option A → Bool
is_some none = false
is_some (some a) = true

abbrev pub has_schedule : ℕ → Engine → Bool
has_schedule id g = is_some (lookup id g.scheds)

scheds-arm_next :
    (now id : ℕ) (at : Option ℕ) (g : Engine) → (arm_next now id at g).scheds ≡ g.scheds
unfolding arm_next arm
scheds-arm_next now id none g = refl
scheds-arm_next now id (some at) g = refl

scheds-remove_old : (o : Option ℕ) (g : Engine) → (remove_old o g).scheds ≡ g.scheds
unfolding remove_old
scheds-remove_old none g = refl
scheds-remove_old (some n) g = refl

has_schedule-schedule_next :
    (now id j : ℕ) (s : Schedule) (g : Engine)
    → has_schedule j (schedule_next now id s g) ≡ (if id == j then true else has_schedule j g)
unfolding schedule_next
has_schedule-schedule_next now id j s g =
    rw
      (scheds-arm_next now id (next now s).1
        (record g { scheds = insert id (next now s).0 g.scheds }))
      (ground (arith, lookup-insert id j (next now s).0 g.scheds))

pub has_schedule-add :
    (now id j : ℕ) (s : Schedule) (callback : ℕ) (g : Engine)
    → has_schedule j (add now id s callback g) ≡ (if id == j then true else has_schedule j g)
unfolding add
has_schedule-add now id j s callback g =
    let old = remove_old (lookup id g.entries) g in
    let same = scheds-remove_old (lookup id g.entries) g in
    has_schedule-schedule_next now id j s
      (record old { scheds = insert id s old.scheds; callbacks = insert id callback old.callbacks })
    ∙ ground (arith, lookup-insert id j s old.scheds, same)

pub has_schedule-remove_id :
    (id j : ℕ) (g : Engine)
    → has_schedule j (remove_id id g) ≡ (if id == j then false else has_schedule j g)
unfolding remove_id unlist take_out
has_schedule-remove_id id j g =
    let listed = unlist id g in
    rw
      (scheds-remove_old (lookup id listed.leaving)
        (record listed { leaving = remove id listed.leaving }))
      (ground (arith, lookup-remove id j g.scheds))

has_schedule-if :
    (j : ℕ) (b : Bool) (g h : Engine)
    → has_schedule j g ≡ has_schedule j h
    → has_schedule j (if b then g else h) ≡ has_schedule j h
has_schedule-if j true g h e = e
has_schedule-if j false g h e = refl

pub has_schedule-tick_wheel :
    (now j : ℕ) (g : Engine) → has_schedule j (tick_wheel now g) ≡ has_schedule j g
unfolding tick_wheel
has_schedule-tick_wheel now j g = has_schedule-if j g.started _ g refl

has_schedule-reschedule :
    (now id j : ℕ) (o : Option Schedule) (g : Engine)
    → lookup id g.scheds ≡ o
    → has_schedule j (reschedule now id o g) ≡ has_schedule j g
unfolding reschedule
has_schedule-reschedule now id j none g h = refl
has_schedule-reschedule now id j (some s) g h =
    has_schedule-schedule_next now id j s g ∙ (let there = h in ground arith)

has_schedule-finish_closure :
    (now entry j : ℕ) (o : Option Closure) (g : Engine)
    → has_schedule j (finish_closure now entry o g) ≡ has_schedule j g
unfolding finish_closure
has_schedule-finish_closure now entry j none g = refl
has_schedule-finish_closure now entry j (some c) g =
    has_schedule-reschedule now c.id j (lookup c.id g.scheds)
      (record g { fired = remove entry g.fired }) refl

pub has_schedule-on_fire :
    (now entry j : ℕ) (g : Engine) → has_schedule j (on_fire now entry g) ≡ has_schedule j g
unfolding on_fire
has_schedule-on_fire now entry j g =
    has_schedule-finish_closure now entry j (lookup entry g.fired) g
