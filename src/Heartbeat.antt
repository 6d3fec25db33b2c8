-- ===== src/Heartbeat.antt =====
-- The state manager of the telemetry engine: pkg/telemetry/state.go. It keeps a timeout entry of the time
-- wheel for each asset, and the cached status of each. The callback of an entry is the number of its
-- asset. The store and the table of the history are parameters: whether their writes succeed.
pub mod Detection
pub mod Soundness
pub mod Statuses
mod Examples
use tickraft.Base.{
  ℕ, ◌+◌, ◌-◌, ◌*◌, Bool, true, false, not, ◌&&◌, ◌||◌, List, [], ◌∷◌, Option, some, none, ltb,
  ◌==◌, if◌then◌else◌, lookup, insert, remove, nat_key, Outcome, ok, failed, ◌>>=◌,
}
use Prim.Native.String.{String}
use text.Mathlib.Text.{◌==◌ as text_eq}
use tickraft.TimeWheel.{nanos, Wheel, new_wheel, add_at, remove_entry}
use tickraft.StatusPage.{
  AssetStatus, asset_normal, asset_abnormal, asset_offline, asset_unknown, asset_other,
}

pub record TimeoutEntry : Type 0 where
  pub entry_id : ℕ
  pub timeout : ℕ

-- With the wheel, and the counter of `newEntryID`.
pub record StateManager : Type 0 where
  pub wheel : Wheel
  pub next_entry_id : ℕ
  pub cache : List (ℕ × AssetStatus)
  pub entries : List (ℕ × TimeoutEntry)
  pub last_active : List (ℕ × ℕ)

abbrev pub new_state_manager : StateManager
new_state_manager = record {
  wheel = new_wheel;
  next_entry_id = 0;
  cache = [];
  entries = [];
  last_active = [];
}

abbrev pub default_heartbeat_timeout : ℕ
default_heartbeat_timeout = 180 * nanos

-- `armEntry`: the number of the fresh entry, and the callback that a timeout of 0 submits at once.
unfoldable pub arm_entry : ℕ → ℕ → ℕ → StateManager → StateManager × ℕ × Option ℕ
arm_entry now asset timeout s =
    let id = s.next_entry_id + 1 in
    let (w, at_once) = add_at s.wheel id now (now + timeout) asset in
    (record s { wheel = w; next_entry_id = id }, id, at_once)

-- `if _, exists := sm.cache[assetID]; !exists { ... }`
unfoldable pub init_cache : ℕ → List (ℕ × AssetStatus) → List (ℕ × AssetStatus)
init_cache asset cache = elim (lookup asset cache) [
  | none ↦ insert asset asset_unknown cache
  | some status ↦ cache
]

unfoldable pub remove_previous : Option TimeoutEntry → StateManager → StateManager
remove_previous none s = s
remove_previous (some prev) s = record s { wheel = remove_entry s.wheel prev.entry_id }

-- The writes behind `armEntry`.
unfoldable pub track : ℕ → ℕ → ℕ → ℕ → StateManager → StateManager
track now asset id timeout s = record s {
  entries = insert asset (record { entry_id = id; timeout = timeout }) s.entries;
  last_active = insert asset now s.last_active;
  cache = init_cache asset s.cache;
}

unfoldable pub register_asset : ℕ → ℕ → ℕ → StateManager → StateManager
register_asset now asset timeout s =
    let (armed, id, at_once) =
      arm_entry now asset timeout (remove_previous (lookup asset s.entries) s) in
    track now asset id timeout armed

unfoldable pub remove_tracked : Option TimeoutEntry → ℕ → StateManager → StateManager
remove_tracked none asset s = s
remove_tracked (some entry) asset s = record s {
  wheel = remove_entry s.wheel entry.entry_id;
  entries = remove asset s.entries;
}

unfoldable pub unregister_asset : ℕ → StateManager → StateManager
unregister_asset asset s =
    let untracked = remove_tracked (lookup asset s.entries) asset s in
    record untracked {
      cache = remove asset untracked.cache;
      last_active = remove asset untracked.last_active;
    }

unfoldable pub timeout_or_default : Option TimeoutEntry → ℕ
timeout_or_default none = default_heartbeat_timeout
timeout_or_default (some entry) = entry.timeout

-- `UpdateActive`: it arms the fresh entry first, and then removes the old one.
unfoldable pub update_active : ℕ → ℕ → StateManager → StateManager
update_active now asset s =
    let old = lookup asset s.entries in
    let (armed, id, at_once) = arm_entry now asset (timeout_or_default old) s in
    track now asset id (timeout_or_default old) (remove_previous old armed)

-- The zero time of a missing key is before all others.
abbrev pub last_or_zero : Option ℕ → ℕ
last_or_zero none = 0
last_or_zero (some t) = t

-- The test of `fireTimeout`, for the time since the last report.
unfoldable pub is_timeout : Option TimeoutEntry → ℕ → ℕ → Bool
is_timeout none fired_id silent = false
is_timeout (some entry) fired_id silent =
    not (not (entry.entry_id == fired_id) || ltb silent (entry.timeout - 2 * nanos))

-- `fireTimeout`: whether it reports the asset as silent.
unfoldable pub fire_timeout : ℕ → ℕ → ℕ → StateManager → Bool
fire_timeout now asset fired_id s =
    is_timeout (lookup asset s.entries) fired_id (now - last_or_zero (lookup asset s.last_active))

abbrev pub or_unknown : Option AssetStatus → AssetStatus
or_unknown none = asset_unknown
or_unknown (some status) = status

unfoldable pub get_status : ℕ → StateManager → AssetStatus
get_status asset s = or_unknown (lookup asset s.cache)

unfoldable pub status_eq : AssetStatus → AssetStatus → Bool
status_eq asset_normal asset_normal = true
status_eq asset_abnormal asset_abnormal = true
status_eq asset_offline asset_offline = true
status_eq asset_unknown asset_unknown = true
status_eq (asset_other a) (asset_other b) = text_eq a b
status_eq a b = false

pub data PersistError : Type 0 where
  store_failed history_failed : PersistError

-- The statuses in the store, and the rows of the history with the status before and the new one.
pub record Persisted : Type 0 where
  pub statuses : List (ℕ × AssetStatus)
  pub history : List (ℕ × AssetStatus × AssetStatus)

-- `persistStatus`: whether the store's write succeeds, whether there is a database for the history, and
-- whether that write succeeds.
unfoldable pub persist_status :
    Bool
    → Bool
    → Bool
    → ℕ
    → AssetStatus
    → AssetStatus
    → Persisted
    → Persisted × Outcome PersistError (Unit {0})
persist_status stored has_db recorded asset prev new_status p =
    let updated : Persisted = record p { statuses = insert asset new_status p.statuses } in
    if not stored
    then (p, failed store_failed)
    else if not has_db
    then (updated, ok tt)
    else if not recorded
    then (updated, failed history_failed)
    else (record updated { history = (asset, prev, new_status) ∷ p.history }, ok tt)

-- `exists` and `prevStatus == newStatus`
unfoldable pub already : Option AssetStatus → AssetStatus → Bool
already none new_status = false
already (some prev) new_status = status_eq prev new_status

abbrev pub StatusUpdate : Type 0
StatusUpdate = StateManager × Persisted × Outcome PersistError Bool

unfoldable pub commit :
    ℕ → AssetStatus → StateManager → Persisted × Outcome PersistError (Unit {0}) → StatusUpdate
commit asset new_status s (p, failed e) = (s, p, failed e)
commit asset new_status s (p, ok done) =
    (record s { cache = insert asset new_status s.cache }, p, ok true)

-- `UpdateStatus`
unfoldable pub update_status :
    Bool → Bool → Bool → ℕ → AssetStatus → StateManager → Persisted → StatusUpdate
update_status stored has_db recorded asset new_status s p =
    let prev = lookup asset s.cache in
    if already prev new_status
    then (s, p, ok false)
    else commit asset new_status s
        (persist_status stored has_db recorded asset (or_unknown prev) new_status p)

-- `SyncStatus`, with the status of the asset in the store if it is found.
unfoldable pub sync_status : Option AssetStatus → ℕ → StateManager → StateManager
sync_status none asset s = s
sync_status (some status) asset s = record s { cache = insert asset status s.cache }
