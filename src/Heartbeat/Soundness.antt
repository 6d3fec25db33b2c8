-- ===== src/Heartbeat/Soundness.antt =====
-- Every run of the state manager keeps its wheel in agreement and its numbers apart
-- (pkg/telemetry/state.go, over pkg/timewheel/wheel.go).
use tickraft.Base.{
  ℕ, ◌≡◌, ◌≤◌, refl, ◌+◌, List, [], ◌∷◌, Option, some, none, arith, lookup, nat_key, lookup-insert,
  lookup-remove,
}
use tickraft.TimeWheel.{Wheel, tick}
use tickraft.Heartbeat.{
  TimeoutEntry, StateManager, arm_entry, remove_previous, track, register_asset, remove_tracked,
  unregister_asset, update_active, timeout_or_default,
}
use tickraft.TimeWheel.Calls.{IsFresh, add_at-IsFresh, remove_entry-IsFresh, tick-IsFresh}
use tickraft.TimeWheel.Filled.{IsFilled, add_at-IsFilled, remove_entry-IsFilled, tick-IsFilled}
use tickraft.Heartbeat.Detection.{IsSound}

wheel_part : (s : StateManager) → IsSound s → IsFresh s.wheel s.next_entry_id
wheel_part s sound = record { coherent = sound.coherent; bound = sound.bound; fresh = sound.fresh }

-- A manager with such a wheel, whose entries are those of a sound one.
with_wheel :
    (w : Wheel) (next : ℕ) (s : StateManager)
    → IsFresh w next
    → ((asset : ℕ) (t : TimeoutEntry) → lookup asset s.entries ≡ some t → t.entry_id ≤ next)
    → IsSound (record s { wheel = w; next_entry_id = next })
with_wheel w next s f issued = record {
  coherent = f.coherent;
  bound = f.bound;
  fresh = f.fresh;
  issued = issued;
}

arm_entry-IsSound :
    (now asset timeout : ℕ) (s : StateManager)
    → IsSound s
    → IsSound (arm_entry now asset timeout s).0
unfolding arm_entry
arm_entry-IsSound now asset timeout s sound =
    with_wheel _ (s.next_entry_id + 1) s
      (add_at-IsFresh s.wheel s.next_entry_id now (now + timeout) asset (wheel_part s sound))
      (λ a t h. let known = sound.issued a t h in omega (arith, known))

remove_previous-IsSound :
    (old : Option TimeoutEntry) (s : StateManager) → IsSound s → IsSound (remove_previous old s)
unfolding remove_previous
remove_previous-IsSound none s sound = sound
remove_previous-IsSound (some t) s sound =
    with_wheel _ s.next_entry_id s
      (remove_entry-IsFresh s.wheel t.entry_id s.next_entry_id (wheel_part s sound)) sound.issued

track-IsSound :
    (now asset id timeout : ℕ) (s : StateManager)
    → IsSound s
    → id ≤ s.next_entry_id
    → IsSound (track now asset id timeout s)
unfolding track
track-IsSound now asset id timeout s sound known = record {
  coherent = sound.coherent;
  bound = sound.bound;
  fresh = sound.fresh;
  issued = λ a t h.
      let here = lookup-insert asset a (record { entry_id = id; timeout = timeout }) s.entries in
      let before = sound.issued a t in ground arith;
}

remove_tracked-IsSound :
    (old : Option TimeoutEntry) (asset : ℕ) (s : StateManager)
    → IsSound s
    → IsSound (remove_tracked old asset s)
unfolding remove_tracked
remove_tracked-IsSound none asset s sound = sound
remove_tracked-IsSound (some t) asset s sound =
    let f = remove_entry-IsFresh s.wheel t.entry_id s.next_entry_id (wheel_part s sound) in
    record {
      coherent = f.coherent;
      bound = f.bound;
      fresh = f.fresh;
      issued = λ a u h.
          let left = lookup-remove asset a s.entries in
          let before = sound.issued a u in ground arith;
    }

unregister_asset-IsSound :
    (asset : ℕ) (s : StateManager) → IsSound s → IsSound (unregister_asset asset s)
unfolding unregister_asset
unregister_asset-IsSound asset s sound =
    let left = remove_tracked-IsSound (lookup asset s.entries) asset s sound in
    record {
      coherent = left.coherent;
      bound = left.bound;
      fresh = left.fresh;
      issued = left.issued;
    }

pub data Call : Type 0 where
  registered : ℕ → ℕ → ℕ → Call
  unregistered : ℕ → Call
  reported : ℕ → ℕ → Call
  ticked : ℕ → Call

unfoldable pub step : StateManager → Call → StateManager
step s (registered now asset timeout) = register_asset now asset timeout s
step s (unregistered asset) = unregister_asset asset s
step s (reported now asset) = update_active now asset s
step s (ticked now) = record s { wheel = (tick s.wheel now).0 }

unfoldable pub run : StateManager → List Call → StateManager
run s [] = s
run s (c ∷ cs) = run (step s c) cs

next_of_previous :
    (old : Option TimeoutEntry) (s : StateManager)
    → (remove_previous old s).next_entry_id ≡ s.next_entry_id
unfolding remove_previous
next_of_previous none s = refl
next_of_previous (some t) s = refl

update_active-IsSound :
    (now asset : ℕ) (s : StateManager) → IsSound s → IsSound (update_active now asset s)
unfolding update_active arm_entry
update_active-IsSound now asset s sound =
    let old = lookup asset s.entries in
    let armed = (arm_entry now asset (timeout_or_default old) s).0 in
    let next = next_of_previous old armed in
    track-IsSound now asset (s.next_entry_id + 1) (timeout_or_default old)
      (remove_previous old armed)
      (remove_previous-IsSound old armed
        (arm_entry-IsSound now asset (timeout_or_default old) s sound))
      (rw next (omega arith))

register_asset-IsSound :
    (now asset timeout : ℕ) (s : StateManager)
    → IsSound s
    → IsSound (register_asset now asset timeout s)
unfolding register_asset arm_entry
register_asset-IsSound now asset timeout s sound =
    let cleared = remove_previous (lookup asset s.entries) s in
    track-IsSound now asset (cleared.next_entry_id + 1) timeout
      (arm_entry now asset timeout cleared).0
      (arm_entry-IsSound now asset timeout cleared
        (remove_previous-IsSound (lookup asset s.entries) s sound))
      (omega arith)

step-IsSound : (s : StateManager) (c : Call) → IsSound s → IsSound (step s c)
unfolding step
step-IsSound s (registered now asset timeout) sound =
    register_asset-IsSound now asset timeout s sound
step-IsSound s (unregistered asset) sound = unregister_asset-IsSound asset s sound
step-IsSound s (reported now asset) sound = update_active-IsSound now asset s sound
step-IsSound s (ticked now) sound =
    with_wheel _ s.next_entry_id s (tick-IsFresh s.wheel now s.next_entry_id (wheel_part s sound))
      sound.issued

remove_previous-IsFilled :
    (old : Option TimeoutEntry) (s : StateManager)
    → IsFilled s.wheel
    → IsFilled (remove_previous old s).wheel
unfolding remove_previous
remove_previous-IsFilled none s f = f
remove_previous-IsFilled (some t) s f = remove_entry-IsFilled s.wheel t.entry_id f

remove_tracked-IsFilled :
    (old : Option TimeoutEntry) (asset : ℕ) (s : StateManager)
    → IsFilled s.wheel
    → IsFilled (remove_tracked old asset s).wheel
unfolding remove_tracked
remove_tracked-IsFilled none asset s f = f
remove_tracked-IsFilled (some t) asset s f = remove_entry-IsFilled s.wheel t.entry_id f

arm_entry-IsFilled :
    (now asset timeout : ℕ) (s : StateManager)
    → IsFilled s.wheel
    → IsFilled (arm_entry now asset timeout s).0.wheel
unfolding arm_entry
arm_entry-IsFilled now asset timeout s f =
    add_at-IsFilled s.wheel (s.next_entry_id + 1) now (now + timeout) asset f

step-IsFilled :
    (s : StateManager) (c : Call) → IsSound s → IsFilled s.wheel → IsFilled (step s c).wheel
unfolding step register_asset unregister_asset update_active track
step-IsFilled s (registered now asset timeout) sound f =
    arm_entry-IsFilled now asset timeout (remove_previous (lookup asset s.entries) s)
      (remove_previous-IsFilled (lookup asset s.entries) s f)
step-IsFilled s (unregistered asset) sound f =
    remove_tracked-IsFilled (lookup asset s.entries) asset s f
step-IsFilled s (reported now asset) sound f =
    let old = lookup asset s.entries in
    remove_previous-IsFilled old (arm_entry now asset (timeout_or_default old) s).0
      (arm_entry-IsFilled now asset (timeout_or_default old) s f)
step-IsFilled s (ticked now) sound f = tick-IsFilled s.wheel now sound.coherent f

-- Every run of registrations, reports, removals and ticks, at any times and from a sound manager whose index
-- names no slot in vain, ends in such a one. The index and the slots of the wheel agree: each entry in a slot
-- stands under its own number, in the slot that the index names for it, and each number of the index has an
-- entry in the slot that it names. The pointer of the seconds is below 60, and all entry numbers in the
-- wheel and in the table of the assets are issued ones.
pub run-IsSound :
    (s : StateManager) (cs : List Call)
    → IsSound s
    → IsFilled s.wheel
    → IsSound (run s cs) × IsFilled (run s cs).wheel
unfolding run
run-IsSound s [] sound f = (sound, f)
run-IsSound s (c ∷ cs) sound f =
    run-IsSound (step s c) cs (step-IsSound s c sound) (step-IsFilled s c sound f)
