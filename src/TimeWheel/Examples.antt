-- ===== src/TimeWheel/Examples.antt =====
-- A time wheel with one entry, and the theorems at it.
use tickraft.Base.{ℕ, ◌+◌, ◌*◌, [], ◌∷◌, arith, nat_key}
use tickraft.TimeWheel.{nanos, Wheel, new_wheel, add_at}
use tickraft.TimeWheel.Places.{IsCoherent}
use tickraft.TimeWheel.Calls.{
  new_absent, new-IsCoherent, run, run-IsCoherent, added, removed, ticked,
}
use tickraft.TimeWheel.Turn.{add_at-IsCoherent}
use tickraft.TimeWheel.Deadline.Schedule.{Fires, add_at-Fires}

-- Two minutes and ten seconds away, and a bit.
abbrev fire_time : ℕ
fire_time = 130 * nanos + 700_000_000

abbrev loaded : Wheel
loaded = (add_at new_wheel 1 300_000_000 fire_time 42).0

add_at-Fires_example : Fires 1 (record { id = 1; callback = 42; expire_at = fire_time }) loaded 0
add_at-Fires_example =
    add_at-Fires new_wheel 1 0 300_000_000 fire_time 42 new-IsCoherent (omega arith) (new_absent 1)
      (omega arith) (omega arith) (omega arith)

loaded-IsCoherent : IsCoherent loaded
loaded-IsCoherent =
    add_at-IsCoherent new_wheel 1 300_000_000 fire_time 42 new-IsCoherent (new_absent 1)

run-IsCoherent_example :
    IsCoherent
      (run
        (new_wheel, 0)
        (added 300_000_000 fire_time 42 ∷ ticked nanos ∷ removed 1 ∷ ticked (2 * nanos) ∷ [])).0
run-IsCoherent_example =
    run-IsCoherent
      (added 300_000_000 fire_time 42 ∷ ticked nanos ∷ removed 1 ∷ ticked (2 * nanos) ∷ [])
