-- ===== src/StatusPage.antt =====
-- The public status page: pkg/status/types.go and pkg/status/aggregate.go. The monitor store and the
-- probe store are parameters: two lists or an error, and the latest record of a point if it can be
-- read. A system probe is its name with the result of its check, if it has one.
mod Health
mod Worst
mod Rendering
mod Examples
use Prim.Native.String.{String}
use tickraft.Base.{
  ℕ, ◌+◌, Bool, true, false, List, [], ◌∷◌, ◌++◌, ◌&&◌, Option, some, none, if◌then◌else◌, ltb,
  ◌==◌, map, length, lookup, insert, nat_key, max,
}

-- The status vocabulary; any other string is `other`.
pub data Status : Type 0 where
  status_unknown status_operational status_degraded status_partial_outage status_major_outage :
      Status
  other : String → Status

-- `types.AssetStatus` of a probe record.
pub data AssetStatus : Type 0 where
  asset_normal asset_abnormal asset_offline asset_unknown : AssetStatus
  asset_other : String → AssetStatus

pub data MonitorStatus : Type 0 where
  monitor_active monitor_inactive monitor_error monitor_pending : MonitorStatus

pub record MonitorPoint : Type 0 where
  pub id : ℕ
  pub name : String
  pub enabled : Bool
  pub status : MonitorStatus

pub record ProbeRecord : Type 0 where
  pub status : AssetStatus
  pub started_at : ℕ

pub record Component : Type 0 where
  pub name : String
  pub description : String
  pub point_ids : List ℕ

-- The zero time is 0.
pub record ComponentStatus : Type 0 where
  pub name : String
  pub description : String
  pub status : Status
  pub monitor_count : ℕ
  pub last_checked : ℕ

-- `rank[s]`, if the map has it.
unfoldable pub rank : Status → Option ℕ
rank status_unknown = some 0
rank status_operational = some 1
rank status_degraded = some 2
rank status_partial_outage = some 3
rank status_major_outage = some 4
rank (other s) = none

unfoldable pub is_unknown : Status → Bool
is_unknown status_unknown = true
is_unknown _ = false

-- A read of the map that may miss yields 0.
unfoldable pub rank_or_zero : Status → ℕ
unfolding rank
rank_or_zero s = elim (rank s) [ none ↦ 0 | some n ↦ n ]

-- One round of the loop of `Overall`.
unfoldable pub worse : Status → Status → Status
unfolding rank is_unknown rank_or_zero
worse worst s = elim (rank s) [
  | none ↦ worst
  | some n ↦
      if is_unknown s
      then worst
      else if is_unknown worst
      then s
      else if ltb (rank_or_zero worst) n
      then s
      else worst
]

unfoldable pub overall_from : Status → List ComponentStatus → Status
overall_from worst [] = worst
overall_from worst (c ∷ cs) = overall_from (worse worst c.status) cs

unfoldable pub overall : List ComponentStatus → Status
overall cs = overall_from status_unknown cs

-- The enabled points of a list, written into the map.
unfoldable pub add_enabled : List MonitorPoint → List (ℕ × MonitorPoint) → List (ℕ × MonitorPoint)
add_enabled [] m = m
add_enabled (p ∷ ps) m = add_enabled ps (if p.enabled then insert p.id p m else m)

-- `loadMonitorMap`: without a lister the map is empty; an error of either list stops it.
unfoldable pub load_monitor_map :
    Option (Option (List MonitorPoint) × Option (List MonitorPoint))
    → Option (List (ℕ × MonitorPoint))
unfolding add_enabled
load_monitor_map none = some []
load_monitor_map (some (none, passive)) = none
load_monitor_map (some (some active, none)) = none
load_monitor_map (some (some active, some passive)) =
    some (add_enabled passive (add_enabled active []))

-- `slices.Sorted(maps.Keys(byID))`, with the points.
unfoldable pub insert_sorted : ℕ × MonitorPoint → List (ℕ × MonitorPoint) → List (ℕ × MonitorPoint)
insert_sorted x [] = x ∷ []
insert_sorted x (y ∷ ys) =
    let rest = insert_sorted x ys in if ltb x.0 y.0 then x ∷ y ∷ ys else y ∷ rest

unfoldable pub sorted_points : List (ℕ × MonitorPoint) → List (ℕ × MonitorPoint)
unfolding insert_sorted
sorted_points [] = []
sorted_points (x ∷ xs) = insert_sorted x (sorted_points xs)

unfoldable pub auto_component : ℕ × MonitorPoint → Component
auto_component (_, p) = record { name = p.name; description = ""; point_ids = p.id ∷ [] }

unfoldable pub auto_components : List (ℕ × MonitorPoint) → List Component
unfolding sorted_points auto_component
auto_components by_id = map auto_component (sorted_points by_id)

is_error : MonitorStatus → Bool
is_error monitor_error = true
is_error _ = false

unfoldable pub probe_health : AssetStatus → Status
probe_health asset_normal = status_operational
probe_health asset_abnormal = status_degraded
probe_health asset_offline = status_major_outage
probe_health asset_unknown = status_unknown
probe_health (asset_other s) = status_unknown

unfoldable pub point_health : MonitorPoint → Option ProbeRecord → Status
unfolding is_error probe_health
point_health p none = if is_error p.status then status_degraded else status_unknown
point_health p (some probe) = probe_health probe.status

-- The counters of `aggregateHealth`.
pub record Tally : Type 0 where
  pub bad : ℕ
  pub major : ℕ
  pub seen : ℕ

unfoldable pub tally : Tally → Status → Tally
tally t status_operational = record t { seen = t.seen + 1 }
tally t status_major_outage = record t { bad = t.bad + 1; major = t.major + 1; seen = t.seen + 1 }
tally t status_degraded = record t { bad = t.bad + 1; seen = t.seen + 1 }
tally t status_partial_outage = record t { bad = t.bad + 1; seen = t.seen + 1 }
tally t status_unknown = t
tally t (other s) = t

unfoldable pub tally_all : Tally → List Status → Tally
tally_all t [] = t
tally_all t (s ∷ ss) = tally_all (tally t s) ss

-- The final `switch` of `aggregateHealth`.
unfoldable pub verdict : Tally → Status
verdict t =
    if t.seen == 0
    then status_unknown
    else if t.bad == 0
    then status_operational
    else if t.major == t.seen
    then status_major_outage
    else if t.bad == t.seen && t.major == 0
    then status_degraded
    else status_partial_outage

unfoldable pub aggregate_health : List Status → Status
unfolding tally tally_all verdict
aggregate_health ss = verdict (tally_all (record { bad = 0; major = 0; seen = 0 }) ss)

-- What the loop of `renderComponent` gathers.
pub record Gathered : Type 0 where
  pub states : List Status
  pub monitor_count : ℕ
  pub last_checked : ℕ

-- `if len(states) > 0`
unfoldable pub status_of : List Status → Status
status_of [] = status_unknown
status_of (s ∷ ss) = aggregate_health (s ∷ ss)

module _ (latest : ℕ → Option ProbeRecord) (by_id : List (ℕ × MonitorPoint)) where
  -- One round of the loop.
  unfoldable pub gather_one : ℕ → Gathered → Gathered
  unfolding point_health
  gather_one id g = elim (lookup id by_id) [
    | none ↦ record g { states = g.states ++ (status_unknown ∷ []) }
    | some p ↦ record {
      states = g.states ++ (point_health p (latest id) ∷ []);
      monitor_count = g.monitor_count + 1;
      last_checked = elim (latest id) [
        | none ↦ g.last_checked
        | some probe ↦
            if ltb g.last_checked probe.started_at then probe.started_at else g.last_checked
      ];
    }
  ]

  unfoldable pub gather : List ℕ → Gathered → Gathered
  unfolding gather_one
  gather [] g = g
  gather (id ∷ ids) g = gather ids (gather_one id g)

  unfoldable pub render_component : Component → ComponentStatus
  unfolding gather status_of
  render_component c =
      let g = gather c.point_ids (record { states = []; monitor_count = 0; last_checked = 0 }) in
      record {
        name = c.name;
        description = c.description;
        status = status_of g.states;
        monitor_count = g.monitor_count;
        last_checked = g.last_checked;
      }

-- A check that the probe lacks, passes or fails.
pub data Check : Type 0 where
  no_check passes fails : Check

unfoldable pub system_probe_status : ℕ → String × Check → ComponentStatus
system_probe_status now (name, check) = elim check [
  | no_check ↦ record {
    name = name;
    description = "";
    status = status_unknown;
    monitor_count = 0;
    last_checked = 0;
  }
  | passes ↦ record {
    name = name;
    description = "";
    status = status_operational;
    monitor_count = 0;
    last_checked = now;
  }
  | fails ↦ record {
    name = name;
    description = "";
    status = status_degraded;
    monitor_count = 0;
    last_checked = now;
  }
]

-- `RenderComponents`: `none` is the error of the lister.
unfoldable pub render_components :
    ℕ
    → (ℕ → Option ProbeRecord)
    → Option (Option (List MonitorPoint) × Option (List MonitorPoint))
    → List (String × Check)
    → List Component
    → Option (List ComponentStatus)
unfolding load_monitor_map auto_components render_component system_probe_status
render_components now latest monitors probes comps = elim (load_monitor_map monitors) [
  | none ↦ none
  | some by_id ↦
      let shown = elim comps as (λ _. List Component) [
        | [] ↦ auto_components by_id
        | c ∷ cs ↦ c ∷ cs
      ] in
      some (map (render_component latest by_id) shown ++ map (system_probe_status now) probes)
]
