-- ===== src/Task/Dispatch.antt =====
-- How the task engine starts runs: `dispatchGated`, the running markers and `Schedule` of pkg/task/engine.go,
-- `trigger`, `handleStatusChange` and the handler of completed executions of pkg/task/events.go, and the
-- dependency checker of pkg/task/dependency.go. A step is what one of them does alone; claims and publishes
-- of different callers interleave.
pub mod Exclusive
pub mod Runs
mod Examples
use tickraft.Base.{
  ℕ, zero, suc, ◌+◌, ◌-◌, Bool, true, false, not, ◌&&◌, ◌||◌, List, [], ◌∷◌, Option, some, none,
  ◌==◌, if◌then◌else◌, lookup, insert, remove, nat_key,
}
use tickraft.StatusPage.{
  AssetStatus, asset_normal, asset_abnormal, asset_offline, asset_unknown, asset_other,
}
use tickraft.Catchup.{advance_watermark}
use tickraft.Task.Sleep.{SleepWindow, in_sleep_window}

-- What the gates read of a task.
pub record Task : Type 0 where
  pub id : ℕ
  pub asset_id : ℕ
  pub enabled : Bool
  pub concurrency : ℕ
  pub depends_on : ℕ
  pub sleep_windows : List SleepWindow

-- The time of a slot, with what a sleep window reads of it.
pub record Slot : Type 0 where
  pub at : ℕ
  pub hour : ℕ
  pub minute : ℕ
  pub weekday : ℕ

-- `held` has the calls of `trigger` that are still to publish, each with its task and whether it is for a
-- slot; `live` has a task's number for each run that was published and has not completed.
pub record Engine : Type 0 where
  pub running : List (ℕ × Unit {0})
  pub statuses : List (ℕ × AssetStatus)
  pub watermarks : List (ℕ × ℕ)
  pub held : List (ℕ × Bool)
  pub live : List ℕ

abbrev pub new_engine : Engine
new_engine = record { running = []; statuses = []; watermarks = []; held = []; live = [] }

unfoldable pub is_normal : Option AssetStatus → Bool
is_normal none = false
is_normal (some asset_normal) = true
is_normal (some asset_abnormal) = false
is_normal (some asset_offline) = false
is_normal (some asset_unknown) = false
is_normal (some (asset_other s)) = false

-- `CanExecute`, `UpdateStatus` and `Reset` of the dependency checker.
unfoldable pub can_execute : ℕ → List (ℕ × AssetStatus) → Bool
can_execute task statuses = is_normal (lookup task statuses)

unfoldable pub update_status : ℕ → AssetStatus → Engine → Engine
update_status task status g = record g { statuses = insert task status g.statuses }

unfoldable pub reset : ℕ → Engine → Engine
reset task g = record g { statuses = remove task g.statuses }

abbrev pub later_of : Option ℕ → ℕ → ℕ
later_of none at = at
later_of (some watermark) at = advance_watermark watermark at

-- `advanceWatermark`, for a task in memory.
unfoldable pub advance : ℕ → ℕ → Engine → Engine
advance task at g = record g {
  watermarks = insert task (later_of (lookup task g.watermarks) at) g.watermarks;
}

unfoldable pub hold : ℕ → Bool → Engine → Engine
hold task for_slot g = record g { held = (task, for_slot) ∷ g.held }

unfoldable pub release_running : ℕ → Engine → Engine
release_running task g = record g { running = remove task g.running }

-- `tryClaimRunning` behind its read, and the call of `trigger` that follows it.
unfoldable pub claim_free : ℕ → Bool → Option (Unit {0}) → Engine → Engine
claim_free task for_slot (some u) g = g
claim_free task for_slot none g =
    hold task for_slot (record g { running = insert task tt g.running })

unfoldable pub try_claim_running : ℕ → Bool → Engine → Engine
try_claim_running task for_slot g = claim_free task for_slot (lookup task g.running) g

-- The gate of the concurrency.
unfoldable pub claim_or_hold : Task → Bool → Engine → Engine
claim_or_hold t for_slot g =
    if t.concurrency == 1 then try_claim_running t.id for_slot g else hold t.id for_slot g

unfoldable pub is_ready : Task → Engine → Bool
is_ready t g = t.depends_on == 0 || can_execute t.depends_on g.statuses

-- `dispatchGated`, to the call of `trigger`. `owned` says whether the shard of this instance owns the task.
unfoldable pub dispatch_gated : Bool → Task → Slot → Engine → Engine
dispatch_gated owned t s g =
    if not owned
    then g
    else if in_sleep_window t.sleep_windows s.hour s.minute s.weekday
    then advance t.id s.at g
    else if is_ready t g
    then claim_or_hold t true g
    else g

-- `Schedule`: without a gate.
unfoldable pub schedule : ℕ → Engine → Engine
schedule task g = hold task false g

unfoldable pub is_abnormal : AssetStatus → Bool
is_abnormal asset_normal = false
is_abnormal asset_abnormal = true
is_abnormal asset_offline = false
is_abnormal asset_unknown = false
is_abnormal (asset_other s) = false

-- One round of the loop of `handleStatusChange`.
unfoldable pub trigger_event : ℕ → Bool → Task → Engine → Engine
trigger_event asset owned t g =
    if t.enabled && (t.asset_id == 0 || t.asset_id == asset) && owned
    then claim_or_hold t false g
    else g

-- The event-driven tasks, in the order of the map, with who owns them.
unfoldable pub trigger_all : ℕ → List (Bool × Task) → Engine → Engine
trigger_all asset [] g = g
trigger_all asset ((owned, t) ∷ ts) g = trigger_all asset ts (trigger_event asset owned t g)

-- `handleStatusChange`
unfoldable pub handle_status_change : ℕ → AssetStatus → List (Bool × Task) → Engine → Engine
handle_status_change asset status tasks g =
    if is_abnormal status then trigger_all asset tasks g else g

abbrev pub same_call : ℕ → Bool → ℕ → Bool → Bool
same_call task true other true = task == other
same_call task true other false = false
same_call task false other true = false
same_call task false other false = task == other

unfoldable pub is_held : ℕ → Bool → List (ℕ × Bool) → Bool
is_held task for_slot [] = false
is_held task for_slot ((t, b) ∷ cs) = same_call task for_slot t b || is_held task for_slot cs

unfoldable pub drop_held : ℕ → Bool → List (ℕ × Bool) → List (ℕ × Bool)
drop_held task for_slot [] = []
drop_held task for_slot ((t, b) ∷ cs) =
    let rest = drop_held task for_slot cs in
    if same_call task for_slot t b then cs else (t, b) ∷ rest

-- `trigger`: the marker, and the publish, which may fail, as it does without a bus.
unfoldable pub trigger : ℕ → ℕ → Bool → Bool → Engine → Engine
trigger now task for_slot published g =
    let marked = record g {
      running = insert task tt g.running;
      held = drop_held task for_slot g.held;
    } in
    let sent = record marked { live = task ∷ marked.live } in
    if published
    then (if for_slot then advance task now sent else sent)
    else release_running task marked

unfoldable pub is_live : ℕ → List ℕ → Bool
is_live task [] = false
is_live task (t ∷ ts) = task == t || is_live task ts

unfoldable pub drop_live : ℕ → List ℕ → List ℕ
drop_live task [] = []
drop_live task (t ∷ ts) = let rest = drop_live task ts in if task == t then ts else t ∷ rest

-- The handler of `TypeExecutionCompleted`, for one of the task's runs.
unfoldable pub on_completed : ℕ → AssetStatus → Engine → Engine
on_completed task status g =
    release_running task (update_status task status (record g { live = drop_live task g.live }))

pub data Event : Type 0 where
  slot_due : Bool → Task → Slot → Event
  asset_changed : ℕ → AssetStatus → List (Bool × Task) → Event
  scheduled_by_hand : ℕ → Event
  triggered : ℕ → ℕ → Bool → Bool → Event
  completed : ℕ → AssetStatus → Event
  unscheduled : ℕ → Event

-- Only a call that is held publishes, and only a run that is live completes.
unfoldable pub step : Engine → Event → Engine
step g (slot_due owned t s) = dispatch_gated owned t s g
step g (asset_changed asset status tasks) = handle_status_change asset status tasks g
step g (scheduled_by_hand task) = schedule task g
step g (triggered now task for_slot published) =
    if is_held task for_slot g.held then trigger now task for_slot published g else g
step g (completed task status) = if is_live task g.live then on_completed task status g else g
step g (unscheduled task) = reset task g

unfoldable pub run : Engine → List Event → Engine
run g [] = g
run g (e ∷ es) = run (step g e) es
