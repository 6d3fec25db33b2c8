-- ===== src/Scheduler/Engine/Examples.antt =====
-- A job of every three seconds and a job of one time, and the theorems at them.
use tickraft.Base.{
  ℕ, ◌≡◌, refl, ◌+◌, ◌*◌, false, List, [], ◌∷◌, some, lookup, insert, remove, nat_key, inr,
}
use tickraft.TimeWheel.{
  nanos, Entry, tick, advance, collect, cascade, cascade_all, with_slot, forget_all, add_at, put,
  slot_for, delay_seconds, second_slot, remove_entry, remove_found, remove_at,
}
use tickraft.TimeWheel.Places.{slot_at}
use tickraft.Scheduler.Engine.{
  constant_interval, one_time, next, Closure, Engine, new_engine, mark_fired, at_once, arm,
  arm_next, schedule_next, remove_old, add, unlist, take_out, remove_id, mark_all_fired, tick_wheel,
  reschedule, finish_closure, on_fire, start, Call, added, unlisted, ticked, finished, start_called,
  step, run,
}
use tickraft.Scheduler.Engine.Runs.{AllWaited, UnderWay, run-OneChain}
use tickraft.Scheduler.Engine.Silence.{NeverAdded, remove_id-Silent}

abbrev every_three : List Call
every_three =
    start_called
    ∷ added 0 7 (constant_interval (3 * nanos)) 9
    ∷ ticked nanos
    ∷ ticked (2 * nanos)
    ∷ ticked (3 * nanos)
    ∷ []

abbrev its_closure : Closure
its_closure = record { id = 7; callback = 9 }

every_three-AllWaited : AllWaited new_engine every_three
unfolding AllWaited step start lookup
every_three-AllWaited = (tt, ((λ j c h. absurd (cc), refl), (tt, (tt, (tt, tt)))))

it_runs : lookup 1 (run new_engine every_three).fired ≡ some its_closure
unfolding run step start add remove_old schedule_next next arm_next arm mark_fired at_once add_at
    put slot_for delay_seconds with_slot tick_wheel tick advance collect cascade cascade_all
    forget_all mark_all_fired lookup insert remove
it_runs = refl

it_is_known : lookup 1 (run new_engine every_three).closures ≡ some its_closure
unfolding run step start add remove_old schedule_next next arm_next arm mark_fired at_once add_at
    put slot_for delay_seconds with_slot tick_wheel tick advance collect cascade cascade_all
    forget_all mark_all_fired lookup insert remove
it_is_known = refl

under_way : UnderWay (run new_engine every_three) 7 1
under_way = record {
  closure = its_closure;
  known = it_is_known;
  of_id = refl;
  active = inr it_runs;
}

abbrev first_entry : ℕ
first_entry = 1

run-OneChain_example : first_entry ≡ first_entry
run-OneChain_example = run-OneChain every_three 7 1 1 every_three-AllWaited under_way under_way

-- The callback is fired between the two parts of `Remove`.
abbrev into_remove : List Call
into_remove =
    start_called
    ∷ added 0 7 (constant_interval (3 * nanos)) 9
    ∷ ticked nanos
    ∷ ticked (2 * nanos)
    ∷ unlisted 7
    ∷ ticked (3 * nanos)
    ∷ []

into_remove-AllWaited : AllWaited new_engine into_remove
unfolding AllWaited step start lookup
into_remove-AllWaited = (tt, ((λ j c h. absurd (cc), refl), (tt, (tt, (tt, (tt, tt))))))

it_leaves : lookup 7 (run new_engine into_remove).leaving ≡ some 1
unfolding run step start add remove_old schedule_next next arm_next arm mark_fired at_once add_at
    put slot_for delay_seconds with_slot tick_wheel tick advance collect cascade cascade_all
    forget_all mark_all_fired lookup insert remove remove_id unlist take_out remove_entry
    remove_found remove_at on_fire finish_closure reschedule
it_leaves = refl

abbrev one_more_tick : List Call
one_more_tick = ticked (4 * nanos) ∷ []

still_runs :
    lookup 1 (run (take_out 7 (run new_engine into_remove)) one_more_tick).fired ≡ some its_closure
unfolding run step start add remove_old schedule_next next arm_next arm mark_fired at_once add_at
    put slot_for delay_seconds with_slot tick_wheel tick advance collect cascade cascade_all
    forget_all mark_all_fired lookup insert remove remove_id unlist take_out remove_entry
    remove_found remove_at on_fire finish_closure reschedule
still_runs = refl

never_added : NeverAdded 7 one_more_tick
unfolding NeverAdded
never_added = tt

ticks_wait : AllWaited (take_out 7 (run new_engine into_remove)) one_more_tick
unfolding AllWaited
ticks_wait = (tt, tt)

remove_id-Silent_example : lookup 1 (run new_engine into_remove).fired ≡ some its_closure
remove_id-Silent_example =
    remove_id-Silent into_remove one_more_tick 7 1 1 its_closure into_remove-AllWaited it_leaves
      never_added ticks_wait still_runs refl

-- `Add` between the two parts of `Remove`: the wheel holds two entries of the id.
abbrev added_between : Engine
added_between = run new_engine (
    start_called
    ∷ added 0 7 (constant_interval (3 * nanos)) 9
    ∷ unlisted 7
    ∷ added 0 7 (constant_interval (3 * nanos)) 9
    ∷ [])

between_two_wait :
    (lookup 1 (slot_at added_between.wheel (second_slot 3))
      ≡ some (record { id = 1; callback = 1; expire_at = 3 * nanos }))
    × (lookup 2 (slot_at added_between.wheel (second_slot 3))
        ≡ some (record { id = 2; callback = 2; expire_at = 3 * nanos }))
unfolding run step start add remove_old schedule_next next arm_next arm mark_fired at_once add_at
    put slot_for delay_seconds with_slot tick_wheel tick advance collect cascade cascade_all
    forget_all mark_all_fired lookup insert remove remove_id unlist take_out remove_entry
    remove_found remove_at on_fire finish_closure reschedule
between_two_wait = (refl, refl)

-- `Add` while the callback runs: behind its end two entries of the id wait, and `Remove` takes one away.
abbrev twice : Engine
twice =
    run (run new_engine every_three)
      (added (3 * nanos + 5) 7 (constant_interval (3 * nanos)) 9 ∷ finished (3 * nanos + 9) 1 ∷ [])

abbrev waits_for : ℕ → ℕ → Entry
waits_for j at = record { id = j; callback = j; expire_at = at }

two_wait :
    (lookup 2 (slot_at twice.wheel (second_slot 6)) ≡ some (waits_for 2 (6 * nanos + 5)))
    × (lookup 3 (slot_at twice.wheel (second_slot 6)) ≡ some (waits_for 3 (6 * nanos + 9)))
unfolding run step start add remove_old schedule_next next arm_next arm mark_fired at_once add_at
    put slot_for delay_seconds with_slot tick_wheel tick advance collect cascade cascade_all
    forget_all mark_all_fired lookup insert remove remove_id unlist take_out remove_entry
    remove_found remove_at on_fire finish_closure reschedule
two_wait = (refl, refl)

one_is_left :
    lookup 2 (slot_at (remove_id 7 twice).wheel (second_slot 6))
    ≡ some (waits_for 2 (6 * nanos + 5))
unfolding run step start add remove_old schedule_next next arm_next arm mark_fired at_once add_at
    put slot_for delay_seconds with_slot tick_wheel tick advance collect cascade cascade_all
    forget_all mark_all_fired lookup insert remove remove_id unlist take_out remove_entry
    remove_found remove_at on_fire finish_closure reschedule
one_is_left = refl

-- A job of one time, 2.3 seconds behind the start, that is added after 0.9 seconds: it is called behind the ticks
-- of 1, 2 and 3 seconds.
abbrev one_time_calls : List Call
one_time_calls =
    start_called
    ∷ added 900_000_000 7 (one_time 2_300_000_000 false) 9
    ∷ ticked nanos
    ∷ finished (nanos + 5) 1
    ∷ ticked (2 * nanos)
    ∷ finished (2 * nanos + 5) 2
    ∷ ticked (3 * nanos)
    ∷ []

runs_third_time : lookup 3 (run new_engine one_time_calls).fired ≡ some its_closure
unfolding run step start add remove_old schedule_next next arm_next arm mark_fired at_once add_at
    put slot_for delay_seconds with_slot tick_wheel tick advance collect cascade cascade_all
    forget_all mark_all_fired lookup insert remove remove_id unlist take_out remove_entry
    remove_found remove_at on_fire finish_closure reschedule
runs_third_time = refl
