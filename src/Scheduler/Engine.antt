-- ===== src/Scheduler/Engine.antt =====
-- The engine of the job scheduler (pkg/scheduler/engine_impl.go) and its schedules
-- (pkg/scheduler/schedule.go), over the time wheel of pkg/timewheel/wheel.go. Times are nanoseconds, and a
-- method reads the clock once. The zero time is none.
pub mod Pending
pub mod Chains
pub mod Leaving
pub mod OneChain
pub mod Runs
pub mod Quiet
pub mod Silence
pub mod Domain
mod Examples
use tickraft.Base.{
  ℕ, ◌+◌, ◌-◌, Bool, true, false, List, [], ◌∷◌, Option, some, none, ltb, if◌then◌else◌, lookup,
  insert, remove, nat_key,
}
use tickraft.TimeWheel.{Entry, Wheel, new_wheel, add_at, remove_entry, tick}

-- The schedules of schedule.go with their fired flags, and an expression of pkg/cron as its `Next`.
pub data Schedule : Type 0 where
  constant_interval : ℕ → Schedule
  one_time : ℕ → Bool → Schedule
  immediate : Bool → Schedule
  never : Schedule
  by_cron : (ℕ → Option ℕ) → Schedule

-- `Next`: the schedule with its flag after the call, and the time.
unfoldable pub next : ℕ → Schedule → Schedule × Option ℕ
next from (constant_interval interval) = (constant_interval interval, some (from + interval))
next from (one_time fire_at true) = (one_time fire_at true, none)
next from (one_time fire_at false) =
    if ltb fire_at from
    then (one_time fire_at true, none)
    else (one_time fire_at false, some fire_at)
next from (immediate true) = (immediate true, none)
next from (immediate false) = (immediate true, some from)
next from never = (never, none)
next from (by_cron f) = (by_cron f, f from)

-- What an entry of the wheel calls: `onFire` of an id, with the callback of that time.
pub record Closure : Type 0 where
  pub id : ℕ
  pub callback : ℕ

-- The closures stand under the numbers of their entries. The fired ones are those that the wheel took out,
-- under its lock, to call them, and that have not ended: they wait for the pool, or run. An entry is leaving
-- under its id while a `Remove` has it in hand, between its two parts: one for an id, as long as no `Add` of
-- it comes between.
pub record Engine : Type 0 where
  pub wheel : Wheel
  pub next_entry : ℕ
  pub closures : List (ℕ × Closure)
  pub fired : List (ℕ × Closure)
  pub entries : List (ℕ × ℕ)
  pub leaving : List (ℕ × ℕ)
  pub scheds : List (ℕ × Schedule)
  pub callbacks : List (ℕ × ℕ)
  pub started : Bool

abbrev pub new_engine : Engine
new_engine = record {
  wheel = new_wheel;
  next_entry = 0;
  closures = [];
  fired = [];
  entries = [];
  leaving = [];
  scheds = [];
  callbacks = [];
  started = false;
}

-- A closure that the wheel has taken out to call it.
unfoldable pub mark_fired : ℕ → Option Closure → List (ℕ × Closure) → List (ℕ × Closure)
mark_fired entry none fired = fired
mark_fired entry (some c) fired = insert entry c fired

-- The closure that `wheel.Add` calls at once, when the delay is 0.
unfoldable pub at_once : ℕ → Closure → Option ℕ → Option Closure
at_once entry c none = none
at_once entry c (some submitted) = some c

-- `wheel.Add` with the closure of `onFire`, and the entry written under the id.
unfoldable pub arm : ℕ → ℕ → ℕ → Closure → Engine → Engine
arm now fire_at entry c g =
    let (w, submitted) = add_at g.wheel entry now fire_at entry in
    record g {
      wheel = w;
      next_entry = entry;
      closures = insert entry c g.closures;
      fired = mark_fired entry (at_once entry c submitted) g.fired;
      entries = insert c.id entry g.entries;
    }

abbrev pub or_nil : Option ℕ → ℕ
or_nil none = 0
or_nil (some callback) = callback

-- `scheduleNextLocked` behind `Next`. A nil callback is the number 0. A time that is over gives the delay 0.
unfoldable pub arm_next : ℕ → ℕ → Option ℕ → Engine → Engine
arm_next now id none g = g
arm_next now id (some at) g =
    arm now (now + (at - now)) (g.next_entry + 1)
      (record { id = id; callback = or_nil (lookup id g.callbacks) }) g

-- `scheduleNextLocked`: the schedule is the one under the id, whose flag `Next` may set.
unfoldable pub schedule_next : ℕ → ℕ → Schedule → Engine → Engine
schedule_next now id sched g =
    let (sched_after, at) = next now sched in
    arm_next now id at (record g { scheds = insert id sched_after g.scheds })

unfoldable pub remove_old : Option ℕ → Engine → Engine
remove_old none g = g
remove_old (some entry) g = record g { wheel = remove_entry g.wheel entry }

-- `Add`, with a schedule that is not nil and in no other entry.
unfoldable pub add : ℕ → ℕ → Schedule → ℕ → Engine → Engine
add now id sched callback g =
    let old = remove_old (lookup id g.entries) g in
    schedule_next now id sched (record old {
      scheds = insert id sched old.scheds;
      callbacks = insert id callback old.callbacks;
    })

-- The first part of `Remove`, under the mutex: the tables, and the entry that it has found.
abbrev pub leave : ℕ → Option ℕ → List (ℕ × ℕ) → List (ℕ × ℕ)
leave id none leaving = leaving
leave id (some entry) leaving = insert id entry leaving

unfoldable pub unlist : ℕ → Engine → Engine
unlist id g = record g {
  leaving = leave id (lookup id g.entries) g.leaving;
  entries = remove id g.entries;
  scheds = remove id g.scheds;
  callbacks = remove id g.callbacks;
}

-- The second part, behind the mutex: the entry leaves the wheel.
unfoldable pub take_out : ℕ → Engine → Engine
take_out id g = remove_old (lookup id g.leaving) (record g { leaving = remove id g.leaving })

-- `Remove`, when nothing comes between.
unfoldable pub remove_id : ℕ → Engine → Engine
unfolding unlist take_out
remove_id id g = take_out id (unlist id g)

-- The closures of the expired entries, which the wheel collects under its lock.
unfoldable pub mark_all_fired :
    List (ℕ × Closure) → List (ℕ × Entry) → List (ℕ × Closure) → List (ℕ × Closure)
mark_all_fired closures [] fired = fired
mark_all_fired closures ((entry, e) ∷ es) fired =
    mark_all_fired closures es (mark_fired entry (lookup entry closures) fired)

-- One tick of the loop that `Start` starts and `Stop` ends.
unfoldable pub tick_wheel : ℕ → Engine → Engine
tick_wheel now g =
    let (w, expired) = tick g.wheel now in
    if g.started
    then record g { wheel = w; fired = mark_all_fired g.closures expired g.fired }
    else g

-- The deferred part of `onFire`, by the schedule under the id.
unfoldable pub reschedule : ℕ → ℕ → Option Schedule → Engine → Engine
reschedule now id none g = g
reschedule now id (some sched) g = schedule_next now id sched g

-- The end of a closure that runs, whether its callback returned or panicked.
unfoldable pub finish_closure : ℕ → ℕ → Option Closure → Engine → Engine
finish_closure now entry none g = g
finish_closure now entry (some c) g =
    reschedule now c.id (lookup c.id g.scheds) (record g { fired = remove entry g.fired })

unfoldable pub on_fire : ℕ → ℕ → Engine → Engine
on_fire now entry g = finish_closure now entry (lookup entry g.fired) g

unfoldable pub start : Engine → Engine
start g = if g.started then g else record g { started = true }

unfoldable pub stop : Engine → Engine
stop g = if g.started then record g { started = false } else g

-- The calls, `Remove` in its two parts, and the moments at which the loop ticks and a closure ends.
pub data Call : Type 0 where
  added : ℕ → ℕ → Schedule → ℕ → Call
  unlisted taken_out : ℕ → Call
  ticked : ℕ → Call
  finished : ℕ → ℕ → Call
  start_called stop_called : Call

unfoldable pub step : Engine → Call → Engine
step g (added now id sched callback) = add now id sched callback g
step g (unlisted id) = unlist id g
step g (taken_out id) = take_out id g
step g (ticked now) = tick_wheel now g
step g (finished now entry) = on_fire now entry g
step g start_called = start g
step g stop_called = stop g

unfoldable pub run : Engine → List Call → Engine
run g [] = g
run g (c ∷ cs) = run (step g c) cs
