-- ===== src/TimeWheel/Calls.antt =====
-- Any calls and ticks of the time wheel (pkg/timewheel/wheel.go, `AddAt`, `Remove`, `tick`).
use tickraft.Base.{
  ℕ, ◌≡◌, ◌<◌, refl, ◌+◌, List, [], ◌∷◌, arith, lookup, nat_key, Bool-cases, inl, inr, leb,
}
use tickraft.TimeWheel.{
  Wheel, Location, second_slot, minute_slot, new_wheel, add_at, remove_entry, tick, collect,
}
use tickraft.TimeWheel.Places.{slot_at, IsCoherent, Absent}
use tickraft.TimeWheel.Loop.{pointers-put}
use tickraft.TimeWheel.Turn.{add_at-IsCoherent, remove_entry-IsCoherent, tick-IsCoherent}
use tickraft.TimeWheel.Deadline.Advance.{advance_bound}
use tickraft.TimeWheel.Removal.{pointers-remove_entry}
use tickraft.TimeWheel.Absence.{tick-Absent, add_at-Absent, remove_entry-Absent}

-- The index and the slots agree, and the numbers that are still to be issued are in no slot.
pub record IsFresh (w : Wheel) (next : ℕ) : Type 0 where
  pub coherent : IsCoherent w
  pub bound : w.sec_ptr < 60
  pub fresh : (id : ℕ) → next < id → Absent w id

bound-add_at :
    (w : Wheel) (id now fire_at callback : ℕ)
    → w.sec_ptr < 60
    → (add_at w id now fire_at callback).0.sec_ptr < 60
unfolding add_at
bound-add_at w id now fire_at callback b = elim (Bool-cases (leb fire_at now)) [
  | inl due ↦ rw due b
  | inr later ↦ rw later (rw (pointers-put w _ _).0 b)
]

pub add_at-IsFresh :
    (w : Wheel) (next now fire_at callback : ℕ)
    → IsFresh w next
    → IsFresh (add_at w (next + 1) now fire_at callback).0 (next + 1)
add_at-IsFresh w next now fire_at callback f = record {
  coherent =
      add_at-IsCoherent w (next + 1) now fire_at callback f.coherent
        (f.fresh (next + 1) (omega arith));
  bound = bound-add_at w (next + 1) now fire_at callback f.bound;
  fresh = λ id a.
      add_at-Absent w (next + 1) now fire_at callback id (λ eq. omega (arith, a, eq))
        (f.fresh id (omega (arith, a)));
}

pub remove_entry-IsFresh :
    (w : Wheel) (id next : ℕ) → IsFresh w next → IsFresh (remove_entry w id) next
remove_entry-IsFresh w id next f = record {
  coherent = (remove_entry-IsCoherent w id f.coherent).0;
  bound = rw (pointers-remove_entry w id).0 f.bound;
  fresh = λ j a. remove_entry-Absent w id j f.coherent (f.fresh j a);
}

bound-tick : (w : Wheel) (now : ℕ) → (tick w now).0.sec_ptr < 60
unfolding tick collect
bound-tick w now = advance_bound 0 (record { id = 0; callback = 0; expire_at = 0 }) w now

pub tick-IsFresh : (w : Wheel) (now next : ℕ) → IsFresh w next → IsFresh (tick w now).0 next
tick-IsFresh w now next f = record {
  coherent = tick-IsCoherent w now f.coherent;
  bound = bound-tick w now;
  fresh = λ j a. tick-Absent w now j f.coherent (f.fresh j a);
}

pub new_absent : (id : ℕ) → Absent new_wheel id
unfolding lookup
new_absent id (second_slot s) = refl
new_absent id (minute_slot s) = refl

new_distinct : (a : Location) → slot_at new_wheel a ≡ []
new_distinct (second_slot s) = refl
new_distinct (minute_slot s) = refl

pub new-IsCoherent : IsCoherent new_wheel
new-IsCoherent = record {
  indexed = λ a id e h. absurd (let none_there = new_absent id a in cc);
  slots_distinct = λ a. rw (new_distinct a) tt;
}

new-IsFresh : IsFresh new_wheel 0
new-IsFresh = record {
  coherent = new-IsCoherent;
  bound = omega arith;
  fresh = λ id h. new_absent id;
}

-- `AddAt` takes the next number.
pub data Call : Type 0 where
  added : ℕ → ℕ → ℕ → Call
  removed : ℕ → Call
  ticked : ℕ → Call

unfoldable pub step : Wheel × ℕ → Call → Wheel × ℕ
step (w, next) (added now fire_at callback) =
    ((add_at w (next + 1) now fire_at callback).0, next + 1)
step (w, next) (removed id) = (remove_entry w id, next)
step (w, next) (ticked now) = ((tick w now).0, next)

unfoldable pub run : Wheel × ℕ → List Call → Wheel × ℕ
run s [] = s
run s (c ∷ cs) = run (step s c) cs

step-IsFresh : (s : Wheel × ℕ) (c : Call) → IsFresh s.0 s.1 → IsFresh (step s c).0 (step s c).1
unfolding step
step-IsFresh (w, next) (added now fire_at callback) f = add_at-IsFresh w next now fire_at callback f
step-IsFresh (w, next) (removed id) f = remove_entry-IsFresh w id next f
step-IsFresh (w, next) (ticked now) f = tick-IsFresh w now next f

run-IsFresh : (s : Wheel × ℕ) (cs : List Call) → IsFresh s.0 s.1 → IsFresh (run s cs).0 (run s cs).1
unfolding run
run-IsFresh s [] f = f
run-IsFresh s (c ∷ cs) f = run-IsFresh (step s c) cs (step-IsFresh s c f)

-- After any calls of `AddAt` and `Remove` and any ticks of a new wheel, at any times: each entry that is left
-- stands under its own number, in the one slot that the index names, whatever the cascades moved.
pub run-IsCoherent : (cs : List Call) → IsCoherent (run (new_wheel, 0) cs).0
run-IsCoherent cs = (run-IsFresh (new_wheel, 0) cs new-IsFresh).coherent
