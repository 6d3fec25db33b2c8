-- ===== src/Task/Dispatch/Examples.antt =====
-- A task without concurrency, and the theorem at it.
use tickraft.Base.{◌≡◌, refl, true, false, List, [], ◌∷◌, some, lookup, insert, remove, nat_key}
use tickraft.StatusPage.{asset_normal}
use tickraft.Catchup.{advance_watermark}
use tickraft.Task.Sleep.{in_sleep_window, in_some}
use tickraft.Task.Dispatch.{
  Task, Slot, new_engine, advance, hold, release_running, claim_free, try_claim_running,
  claim_or_hold, is_ready, dispatch_gated, schedule, is_held, drop_held, trigger, is_live,
  drop_live, on_completed, update_status, Event, slot_due, scheduled_by_hand, triggered, completed,
  step, run,
}
use tickraft.Task.Dispatch.Exclusive.{IsExclusive, AllGated}
use tickraft.Task.Dispatch.Runs.{run-IsExclusive}

abbrev backup : Task
backup = record {
  id = 4;
  asset_id = 0;
  enabled = true;
  concurrency = 1;
  depends_on = 0;
  sleep_windows = [];
}

abbrev slot_at : Slot
slot_at = record { at = 100; hour = 2; minute = 0; weekday = 1 }

abbrev later_slot : Slot
later_slot = record { at = 160; hour = 2; minute = 1; weekday = 1 }

abbrev a_night : List Event
a_night =
    slot_due true backup slot_at
    ∷ triggered 101 4 true true
    ∷ slot_due true backup later_slot
    ∷ completed 4 asset_normal
    ∷ []

a_night-AllGated : AllGated 4 a_night
unfolding AllGated
a_night-AllGated = (λ e. refl, (tt, (λ e. refl, (tt, tt))))

run-IsExclusive_example : IsExclusive 4 (run new_engine a_night)
run-IsExclusive_example = run-IsExclusive 4 a_night a_night-AllGated

-- Two missed slots of the task, replayed one behind the other: the second one finds the marker of the first,
-- and the watermark is past both.
abbrev replayed : List Event
replayed =
    slot_due true backup slot_at ∷ triggered 500 4 true true ∷ slot_due true backup later_slot ∷ []

one_replayed :
    ((run new_engine replayed).live ≡ 4 ∷ [])
    × ((run new_engine replayed).held ≡ [])
    × (lookup 4 (run new_engine replayed).watermarks ≡ some 500)
unfolding run step dispatch_gated in_sleep_window in_some is_ready claim_or_hold try_claim_running
    claim_free hold trigger is_held drop_held advance advance_watermark lookup insert
one_replayed = (refl, refl, refl)

-- Scheduled by hand while it runs, the task runs twice, and the end of one run lets a third one start.
abbrev by_hand : List Event
by_hand =
    slot_due true backup slot_at
    ∷ triggered 101 4 true true
    ∷ scheduled_by_hand 4
    ∷ triggered 110 4 false true
    ∷ completed 4 asset_normal
    ∷ slot_due true backup later_slot
    ∷ triggered 161 4 true true
    ∷ []

two_live : (run new_engine by_hand).live ≡ 4 ∷ 4 ∷ []
unfolding run step dispatch_gated in_sleep_window in_some is_ready claim_or_hold try_claim_running
    claim_free hold trigger schedule is_held drop_held is_live drop_live on_completed update_status
    release_running advance advance_watermark lookup insert remove
two_live = refl
