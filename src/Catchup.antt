-- ===== src/Catchup.antt =====
-- The runs of a task that a restart has missed: `missedSlots` and `runCatchup` of pkg/task/catchup.go. Times
-- are numbers, in nanoseconds; the schedule is its `Next`.
pub mod Windows
pub mod Replay
mod Examples
use tickraft.Base.{
  ℕ, zero, suc, ◌+◌, ◌-◌, ◌*◌, ◌/◌, Bool, true, false, not, ◌&&◌, List, [], ◌∷◌, ◌++◌, Option, some,
  none, ltb, leb, ◌==◌, if◌then◌else◌, max, length,
}

abbrev pub catchup_max_slots : ℕ
catchup_max_slots = 10

abbrev pub catchup_max_iterations : ℕ
catchup_max_iterations = 1_000_000

pub record Missed : Type 0 where
  pub slots : List ℕ
  pub dropped : ℕ

abbrev pub none_missed : Missed
none_missed = record { slots = []; dropped = 0 }

abbrev pub tail : List ℕ → List ℕ
tail [] = []
tail (t ∷ ts) = ts

-- The rolling window of the latest slots.
unfoldable pub push_slot : Missed → ℕ → Missed
push_slot m t =
    if length m.slots == catchup_max_slots
    then record { slots = tail m.slots ++ t ∷ []; dropped = m.dropped + 1 }
    else record { slots = m.slots ++ t ∷ []; dropped = m.dropped }

-- The loop over the times of a cron schedule, for the rounds that are left; `none` when they are used up.
unfoldable pub cron_loop : (ℕ → ℕ) → ℕ → ℕ → ℕ → Missed → Option Missed
cron_loop next_after zero now next m = none
cron_loop next_after (suc n) now next m =
    let rest = cron_loop next_after n now (next_after next) (push_slot m next) in
    if ltb now next then some m else rest

abbrev pub or_all_dropped : Option Missed → Missed
or_all_dropped none = record { slots = []; dropped = catchup_max_iterations }
or_all_dropped (some m) = m

-- The times `watermark + k * interval` for n values of k from `first` on.
unfoldable pub interval_slots : ℕ → ℕ → ℕ → ℕ → List ℕ
interval_slots watermark interval first zero = []
interval_slots watermark interval first (suc n) =
    (watermark + first * interval) ∷ interval_slots watermark interval (first + 1) n

-- `ScheduleType`, with what `missedSlots` reads of the schedule.
pub data Schedule : Type 0 where
  schedule_interval : ℕ → Schedule
  schedule_cron : (ℕ → ℕ) → Schedule
  schedule_other : Schedule

-- For a total of slots that is not 0.
unfoldable pub latest_of_interval : ℕ → ℕ → ℕ → Missed
latest_of_interval watermark interval total =
    let first = max (total + 1 - catchup_max_slots) 1 in
    record {
      slots = interval_slots watermark interval first (total + 1 - first);
      dropped = total - (total + 1 - first);
    }

unfoldable pub missed_behind : Schedule → ℕ → ℕ → Missed
missed_behind (schedule_interval interval) watermark now =
    if interval == 0
    then none_missed
    else if (now - watermark) / interval == 0
    then none_missed
    else latest_of_interval watermark interval ((now - watermark) / interval)
missed_behind (schedule_cron next_after) watermark now =
    or_all_dropped
      (cron_loop next_after catchup_max_iterations now (next_after watermark) none_missed)
missed_behind schedule_other watermark now = none_missed

unfoldable pub missed_slots : Schedule → ℕ → ℕ → Missed
missed_slots s watermark now =
    if leb now watermark then none_missed else missed_behind s watermark now

pub data CatchupPolicy : Type 0 where
  policy_skip policy_once policy_all : CatchupPolicy

-- `slots[len(slots)-1:]`
unfoldable pub last_slot : List ℕ → List ℕ
last_slot [] = []
last_slot (t ∷ []) = t ∷ []
last_slot (t ∷ u ∷ ts) = last_slot (u ∷ ts)

unfoldable pub by_policy : CatchupPolicy → List ℕ → List ℕ
by_policy policy_skip slots = []
by_policy policy_once slots = last_slot slots
by_policy policy_all slots = slots

-- `advanceWatermark`: never back.
unfoldable pub advance_watermark : ℕ → ℕ → ℕ
advance_watermark watermark at = if ltb watermark at then at else watermark

abbrev pub is_replay : CatchupPolicy → Bool
is_replay policy_skip = false
is_replay policy_once = true
is_replay policy_all = true

abbrev pub is_timed : Schedule → Bool
is_timed (schedule_interval interval) = true
is_timed (schedule_cron next_after) = true
is_timed schedule_other = false

-- What `dispatchGated` makes of a slot: it is within a sleep window, a gate keeps it back or its publish fails,
-- or it was published, at a time that `trigger` reads behind the publish.
pub data SlotOutcome : Type 0 where
  slot_slept slot_skipped : SlotOutcome
  slot_published : ℕ → SlotOutcome

-- The watermark behind it.
unfoldable pub advance_for_slot : SlotOutcome → ℕ → ℕ → ℕ
advance_for_slot slot_slept slot watermark = advance_watermark watermark slot
advance_for_slot slot_skipped slot watermark = watermark
advance_for_slot (slot_published at) slot watermark = advance_watermark watermark at

-- The loop over the slots.
unfoldable pub replay_slots : (ℕ → SlotOutcome) → List ℕ → ℕ → ℕ
replay_slots outcome [] watermark = watermark
replay_slots outcome (slot ∷ slots) watermark =
    replay_slots outcome slots (advance_for_slot (outcome slot) slot watermark)

-- `runCatchup`: the slots that are handed to `dispatchGated`, and the new watermark. `owned` says if the shard of this
-- instance owns the task.
unfoldable pub run_catchup :
    Bool → CatchupPolicy → Schedule → (ℕ → SlotOutcome) → Option ℕ → ℕ → List ℕ × Option ℕ
run_catchup owned policy s outcome none now = ([], none)
run_catchup owned policy s outcome (some watermark) now =
    let slots = by_policy policy (missed_slots s watermark now).slots in
    if is_replay policy && is_timed s && owned
    then (slots, some (advance_watermark (replay_slots outcome slots watermark) now))
    else ([], some watermark)
