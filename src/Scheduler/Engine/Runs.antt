-- ===== src/Scheduler/Engine/Runs.antt =====
-- Runs of the engine of the scheduler (pkg/scheduler/engine_impl.go): calls, ticks and callbacks that end, in
-- any order.
use tickraft.Base.{
  ℕ, ◌≡◌, refl, ap, ◌∙◌, sym, Bool, true, false, if◌then◌else◌, List, [], ◌∷◌, some, none, inl, inr,
  ◌⊎◌, lookup, nat_key,
}
use tickraft.TimeWheel.{Entry, Location}
use tickraft.TimeWheel.Calls.{new_absent, new-IsCoherent}
use tickraft.TimeWheel.Places.{slot_at}
use tickraft.Scheduler.Engine.{
  Closure, Engine, new_engine, on_fire, start, stop, Call, added, unlisted, taken_out, ticked,
  finished, start_called, stop_called, step, run,
}
use tickraft.Scheduler.Engine.Pending.{IsIdle, WaitsIn, IsChained}
use tickraft.Scheduler.Engine.Chains.{add-IsChained, retold-IsChained}
use tickraft.Scheduler.Engine.Leaving.{unlist-IsChained, take_out-IsChained}
use tickraft.Scheduler.Engine.OneChain.{
  waits_once, known_once, tick_wheel-IsChained, finish_closure-IsChained,
}

-- `Add` of an id comes while none of its callbacks is fired, so that none waits for the pool and none runs,
-- and while no `Remove` of it is between its two parts.
abbrev pub Waited : Engine → Call → Type 0
Waited g (added now id sched callback) = IsIdle g.fired id × (lookup id g.leaving ≡ none)
Waited g (unlisted id) = Unit
Waited g (taken_out id) = Unit
Waited g (ticked now) = Unit
Waited g (finished now entry) = Unit
Waited g start_called = Unit
Waited g stop_called = Unit

unfoldable pub AllWaited : Engine → List Call → Type 0
AllWaited g [] = Unit
AllWaited g (c ∷ cs) = Waited g c × AllWaited (step g c) cs

-- An entry of the id that the wheel holds in a slot, or a callback of it that is fired and has not ended.
pub record UnderWay (g : Engine) (id j : ℕ) : Type 0 where
  pub closure : Closure
  pub known : lookup j g.closures ≡ some closure
  pub of_id : closure.id ≡ id
  pub active :
      ((a : Location) × (e : Entry) × (lookup j (slot_at g.wheel a) ≡ some e))
      ⊎ (lookup j g.fired ≡ some closure)

flagged-IsChained : (g : Engine) (b : Bool) → IsChained g → IsChained (record g { started = b })
flagged-IsChained g b a = retold-IsChained g g.scheds g.callbacks b (λ id n h. (a.off id n h).1) a

if-IsChained :
    (b : Bool) (g h : Engine) → IsChained g → IsChained h → IsChained (if b then g else h)
if-IsChained true g h a c = a
if-IsChained false g h a c = c

pub step-IsChained : (g : Engine) (c : Call) → Waited g c → IsChained g → IsChained (step g c)
unfolding step on_fire start stop
step-IsChained g (added now id sched callback) w a = add-IsChained now id sched callback g a w.0 w.1
step-IsChained g (unlisted id) w a = unlist-IsChained id g a
step-IsChained g (taken_out id) w a = take_out-IsChained id g a
step-IsChained g (ticked now) w a = tick_wheel-IsChained now g a
step-IsChained g (finished now entry) w a =
    finish_closure-IsChained now entry (lookup entry g.fired) g refl a
step-IsChained g start_called w a =
    if-IsChained g.started g (record g { started = true }) a (flagged-IsChained g true a)
step-IsChained g stop_called w a =
    if-IsChained g.started (record g { started = false }) g (flagged-IsChained g false a) a

pub new_engine-IsChained : IsChained new_engine
unfolding lookup
new_engine-IsChained = record {
  coherent = new-IsCoherent;
  fresh = λ j h. (new_absent j, refl, refl);
  off = λ id n h. absurd (cc);
  waiting = λ j. inl (new_absent j);
  runs = λ j c h. absurd (cc);
  single = λ j k c d h i same. absurd (cc);
}

pub run-IsChained :
    (g : Engine) (cs : List Call) → AllWaited g cs → IsChained g → IsChained (run g cs)
unfolding run AllWaited
run-IsChained g [] w a = a
run-IsChained g (c ∷ cs) w a = run-IsChained (step g c) cs w.1 (step-IsChained g c w.0 a)

held_waits :
    (g : Engine) (j : ℕ) (c : Closure) (a : Location) (e : Entry)
    → IsChained g
    → lookup j g.closures ≡ some c
    → lookup j (slot_at g.wheel a) ≡ some e
    → (w : WaitsIn g j) × (w.closure ≡ c)
held_waits g j c a e chained known held = elim (chained.waiting j) [
  | inl absent ↦ let gone = absent a in absurd (cc)
  | inr w ↦ (w, known_once g j c w known)
]

one_chain : (g : Engine) (id j k : ℕ) → IsChained g → UnderWay g id j → UnderWay g id k → j ≡ k
one_chain g id j k a u v =
    let same = u.of_id ∙ sym v.of_id in
    elim u.active [
      | inl (l, e, held) ↦
          let (w, is_u) = held_waits g j u.closure l e a u.known held in
          elim v.active [
            | inl (m, f, held_too) ↦
                let (x, is_v) = held_waits g k v.closure m f a v.known held_too in
                waits_once g j k w x (ap Closure.id is_u ∙ same ∙ sym (ap Closure.id is_v))
            | inr ran ↦ absurd (w.idle k v.closure ran (sym same ∙ sym (ap Closure.id is_u)))
          ]
      | inr ran ↦ elim v.active [
        | inl (m, f, held) ↦
            let (x, is_v) = held_waits g k v.closure m f a v.known held in
            absurd (x.idle j u.closure ran (same ∙ sym (ap Closure.id is_v)))
        | inr ran_too ↦ a.single j k u.closure v.closure ran ran_too same
      ]
    ]

-- By any calls of a new engine, ticks and callbacks that end, at any times and in any order, also between the
-- two parts of a `Remove` (the tables, under the mutex, and then the wheel), where `Add` of an id comes while
-- no callback of it waits for the pool or runs, and no `Remove` of it is between its parts: an id never has
-- two entries in the wheel, never two callbacks that expired and have not ended, and never one of each.
pub run-OneChain :
    (cs : List Call) (id j k : ℕ)
    → AllWaited new_engine cs
    → UnderWay (run new_engine cs) id j
    → UnderWay (run new_engine cs) id k
    → j ≡ k
run-OneChain cs id j k w u v =
    one_chain (run new_engine cs) id j k (run-IsChained new_engine cs w new_engine-IsChained) u v
