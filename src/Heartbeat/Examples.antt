-- ===== src/Heartbeat/Examples.antt =====
-- An asset that reports once, and the theorems at it.
use tickraft.Base.{◌<◌, ◌*◌, ◌+◌, true, false, List, [], ◌∷◌, arith, lookup, nat_key}
use tickraft.TimeWheel.Calls.{new_absent, new-IsCoherent}
use tickraft.TimeWheel.{nanos}
use tickraft.StatusPage.{asset_offline}
use tickraft.Heartbeat.{
  new_state_manager, update_active, timeout_or_default, update_status, Persisted,
}
use tickraft.Heartbeat.Detection.{IsSound, Detects, update_active-Detects}
use tickraft.TimeWheel.Filled.{IsFilled, new-IsFilled}
use tickraft.Heartbeat.Soundness.{
  Call, registered, unregistered, reported, ticked, run, run-IsSound,
}
use tickraft.Heartbeat.Statuses.{Updated, update_status-Updated}

new-IsSound : IsSound new_state_manager
unfolding lookup
new-IsSound = record {
  coherent = new-IsCoherent;
  bound = omega arith;
  fresh = λ id h. new_absent id;
  issued = λ a t h. absurd (cc);
}

abbrev some_calls : List Call
some_calls =
    registered 5 7 (90 * nanos) ∷ ticked nanos ∷ reported (nanos + 3) 7 ∷ unregistered 7 ∷ []

run-IsSound_example :
    IsSound (run new_state_manager some_calls) × IsFilled (run new_state_manager some_calls).wheel
run-IsSound_example = run-IsSound new_state_manager some_calls new-IsSound new-IsFilled

some_timeout : 0 < timeout_or_default (lookup 7 new_state_manager.entries)
unfolding timeout_or_default lookup
some_timeout = omega arith

update_active-Detects_example :
    Detects 7 5
      (timeout_or_default (lookup 7 new_state_manager.entries))
      0
      (update_active 5 7 new_state_manager)
update_active-Detects_example =
    update_active-Detects 5 7 0 new_state_manager new-IsSound (omega arith) (omega arith)
      some_timeout

abbrev nothing_stored : Persisted
nothing_stored = record { statuses = []; history = [] }

update_status-Updated_example :
    Updated true 7 asset_offline new_state_manager nothing_stored
      (update_status true true false 7 asset_offline new_state_manager nothing_stored)
update_status-Updated_example =
    update_status-Updated true true false 7 asset_offline new_state_manager nothing_stored
