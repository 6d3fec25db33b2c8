-- ===== src/Catchup/Examples.antt =====
-- A task of each minute, by a cron schedule and by an interval.
use tickraft.Base.{some, true, ℕ, ◌≡◌, refl, ◌+◌, ◌*◌, ◌/◌, [], ◌∷◌, arith}
use tickraft.Catchup.{
  policy_once, slot_published, run_catchup, interval_slots, schedule_interval, schedule_cron,
  latest_of_interval, missed_behind, missed_slots,
}
use tickraft.Catchup.Windows.{missed, Times, ended, one_more}
use tickraft.Catchup.Replay.{run_catchup-latest}

abbrev next_full : ℕ → ℕ
next_full t = (t / 60 + 1) * 60

two_missed : Times next_full 200 (next_full 65) (120 ∷ 180 ∷ [])
two_missed =
    one_more 120 (180 ∷ []) (omega arith) (one_more 180 [] (omega arith) (ended 240 (omega arith)))

-- The latest slot is published a second behind the start of the catch-up.
run_catchup-latest_example :
    ((run_catchup true policy_once
        (schedule_cron next_full)
        (λ slot. slot_published 201)
        (some 65)
        200).0
      ≡ 180 ∷ [])
    × ((run_catchup true policy_once
          (schedule_cron next_full)
          (λ slot. slot_published 201)
          (some 65)
          200).1
        ≡ some 201)
run_catchup-latest_example =
    run_catchup-latest true policy_once (schedule_cron next_full) (λ slot. slot_published 201) 65
      200 (120 ∷ 180 ∷ []) (omega arith) (two_missed, omega arith)

-- Twelve missed, of which ten are kept.
twelve_missed :
    missed_slots (schedule_interval 60) 0 730
    ≡ missed (180 ∷ 240 ∷ 300 ∷ 360 ∷ 420 ∷ 480 ∷ 540 ∷ 600 ∷ 660 ∷ 720 ∷ []) 2
unfolding missed_slots missed_behind latest_of_interval interval_slots
twelve_missed = refl
