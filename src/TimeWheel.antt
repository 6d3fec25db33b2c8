-- ===== src/TimeWheel.antt =====
-- The hierarchical time wheel: pkg/timewheel/wheel.go. Times are nanoseconds; the clock that the code
-- reads is an argument. The callbacks are numbers, and the pool that runs them is left out.
pub mod Places
pub mod Loop
pub mod Turn
pub mod Deadline
pub mod Removal
pub mod Absence
pub mod Calls
pub mod Filled
mod Examples
use tickraft.Base.{
  ℕ, ◌+◌, ◌-◌, ◌*◌, ◌/◌, ◌%◌, Bool, List, [], ◌∷◌, Option, some, none, ltb, leb, ◌==◌,
  if◌then◌else◌, max, lookup, insert, remove, nat_key,
}

abbrev pub wheel_size : ℕ
wheel_size = 60

abbrev pub seconds_per_min : ℕ
seconds_per_min = 60

abbrev pub nanos : ℕ
nanos = 1_000_000_000

pub record Entry : Type 0 where
  pub id : ℕ
  pub callback : ℕ
  pub expire_at : ℕ

-- `entryLocation`: layer 0 is the seconds wheel, layer 1 the minutes wheel.
pub data Location : Type 0 where
  second_slot minute_slot : ℕ → Location

-- The arrays of slots are functions of the index.
pub record Wheel : Type 0 where
  pub seconds : ℕ → List (ℕ × Entry)
  pub minutes : ℕ → List (ℕ × Entry)
  pub sec_ptr : ℕ
  pub min_ptr : ℕ
  pub index : List (ℕ × Location)

abbrev pub new_wheel : Wheel
new_wheel = record { seconds = λ s. []; minutes = λ s. []; sec_ptr = 0; min_ptr = 0; index = [] }

unfoldable pub with_slot : (ℕ → List (ℕ × Entry)) → ℕ → List (ℕ × Entry) → ℕ → List (ℕ × Entry)
with_slot slots s m j = if s == j then m else slots j

-- `w.seconds[slot][id] = entry; w.index[id] = ...`, and the same for the minutes.
unfoldable pub put : Wheel → Location → Entry → Wheel
unfolding with_slot
put w (second_slot s) e = record w {
  seconds = with_slot w.seconds s (insert e.id e (w.seconds s));
  index = insert e.id (second_slot s) w.index;
}
put w (minute_slot s) e = record w {
  minutes = with_slot w.minutes s (insert e.id e (w.minutes s));
  index = insert e.id (minute_slot s) w.index;
}

-- The slot for a delay in whole seconds.
unfoldable pub slot_for : Wheel → ℕ → Location
slot_for w total =
    if ltb total seconds_per_min
    then second_slot ((w.sec_ptr + total) % wheel_size)
    else minute_slot ((w.min_ptr + total / seconds_per_min) % wheel_size)

-- `max(int(delay.Seconds()), 1)`
unfoldable pub delay_seconds : ℕ → ℕ → ℕ
delay_seconds now fire_at = max ((fire_at - now) / nanos) 1

-- `AddAt`, with the fresh number; the callback that it submits at once, if there is one.
unfoldable pub add_at : Wheel → ℕ → ℕ → ℕ → ℕ → Wheel × Option ℕ
add_at w id now fire_at callback = if leb fire_at now then (w, some callback) else (
  put w (slot_for w (delay_seconds now fire_at))
      (record { id = id; callback = callback; expire_at = fire_at }),
  none,
)

unfoldable pub remove_at : Wheel → Location → ℕ → Wheel
unfolding with_slot
remove_at w (second_slot s) id = record w {
  seconds = with_slot w.seconds s (remove id (w.seconds s));
  index = remove id w.index;
}
remove_at w (minute_slot s) id = record w {
  minutes = with_slot w.minutes s (remove id (w.minutes s));
  index = remove id w.index;
}

unfoldable pub remove_found : Wheel → ℕ → Option Location → Wheel
remove_found w id none = w
remove_found w id (some loc) = remove_at w loc id

-- `removeEntry`
unfoldable pub remove_entry : Wheel → ℕ → Wheel
unfolding remove_found
remove_entry w id = remove_found w id (lookup id w.index)

-- Where `cascade` puts an entry, by the whole seconds that remain.
unfoldable pub cascade_slot : Wheel → ℕ → Location
cascade_slot w remaining =
    if ltb remaining 1
    then second_slot w.sec_ptr
    else if ltb remaining seconds_per_min
    then second_slot ((w.sec_ptr + remaining) % wheel_size)
    else minute_slot ((w.min_ptr + remaining / seconds_per_min) % wheel_size)

-- One round of the second loop of `cascade`.
unfoldable pub cascade_entry : Wheel → ℕ → Entry → Wheel
cascade_entry w now e =
    put (record w { index = remove e.id w.index }) (cascade_slot w ((e.expire_at - now) / nanos)) e

unfoldable pub cascade_all : Wheel → ℕ → List (ℕ × Entry) → Wheel
cascade_all w now [] = w
cascade_all w now ((id, e) ∷ es) = cascade_all (cascade_entry w now e) now es

unfoldable pub cascade : Wheel → ℕ → Wheel
unfolding with_slot
cascade w now =
    cascade_all (record w { minutes = with_slot w.minutes w.min_ptr [] }) now (w.minutes w.min_ptr)

-- The first part of `tick`: the pointers and the cascade.
unfoldable pub advance : Wheel → ℕ → Wheel
advance w now =
    let sec = (w.sec_ptr + 1) % wheel_size in
    let turned = cascade (record w { sec_ptr = sec; min_ptr = (w.min_ptr + 1) % wheel_size }) now in
    if sec == 0 then turned else record w { sec_ptr = sec }

unfoldable pub forget_all : List (ℕ × Entry) → List (ℕ × Location) → List (ℕ × Location)
forget_all [] index = index
forget_all ((id, e) ∷ es) index = forget_all es (remove id index)

-- The second part: the entries of the current second leave the wheel.
unfoldable pub collect : Wheel → Wheel × List (ℕ × Entry)
unfolding with_slot
collect w = (
  record w {
    seconds = with_slot w.seconds w.sec_ptr [];
    index = forget_all (w.seconds w.sec_ptr) w.index;
  },
  w.seconds w.sec_ptr,
)

-- `tick`, with the expired entries, whose callbacks are submitted next.
unfoldable pub tick : Wheel → ℕ → Wheel × List (ℕ × Entry)
tick w now = collect (advance w now)
