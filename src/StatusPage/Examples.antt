-- ===== src/StatusPage/Examples.antt =====
-- A small status page, and the theorems at it.
use Prim.Native.String.{String}
use mathlib.Core.Option
use tickraft.Base.{
  ℕ, ◌≡◌, ◌⊎◌, refl, List, [], ◌∷◌, Option, some, none, true, ◌==◌, if◌then◌else◌, lookup, insert,
}
use tickraft.StatusPage.{
  status_unknown, status_degraded, status_partial_outage, status_major_outage, asset_normal,
  monitor_active, monitor_error, MonitorPoint, ProbeRecord, Component, ComponentStatus, fails,
  overall, aggregate_health, render_component, render_components,
}
use tickraft.StatusPage.Health.{counts, health_of, aggregate_health-counts}
use tickraft.StatusPage.Worst.{HasStatus, AllWithin, overall_worst}
use tickraft.StatusPage.{rank_or_zero}

abbrev web : MonitorPoint
web = record { id = 7; name = "web"; enabled = true; status = monitor_active }

abbrev base : MonitorPoint
base = record { id = 3; name = "base"; enabled = true; status = monitor_error }

abbrev latest : ℕ → Option ProbeRecord
latest id = if id == 7 then some (record { status = asset_normal; started_at = 50 }) else none

abbrev points : List (ℕ × MonitorPoint)
points = (7, web) ∷ (3, base) ∷ []

abbrev site : Component
site = record { name = "site"; description = "all"; point_ids = 7 ∷ 3 ∷ 9 ∷ [] }

-- A healthy point, one in error and an unknown number: a partial outage of two monitors.
site_shown : render_component latest points site ≡ record {
  name = "site";
  description = "all";
  status = status_partial_outage;
  monitor_count = 2;
  last_checked = 50;
}
unfolding render_component lookup aggregate_health
site_shown = refl

names : List ComponentStatus → List String
names [] = []
names (c ∷ cs) = c.name ∷ names cs

-- Without configured components the points are shown by ascending number, then the system probes.
page_names :
    Option.map names (
      render_components 60 latest
        (some (some (web ∷ []), some (base ∷ [])))
        (("engine", fails) ∷ [])
        [])
    ≡ some ("base" ∷ "web" ∷ "engine" ∷ [])
unfolding names render_components lookup insert aggregate_health
page_names = refl

aggregate_health-counts_example :
    aggregate_health (status_degraded ∷ status_major_outage ∷ [])
    ≡ health_of (counts (status_degraded ∷ status_major_outage ∷ []))
aggregate_health-counts_example =
    aggregate_health-counts (status_degraded ∷ status_major_outage ∷ [])

abbrev shown : List ComponentStatus
shown =
    render_component latest points site
    ∷ render_component latest points (record site { point_ids = 7 ∷ [] })
    ∷ []

overall_worst_example :
    AllWithin (rank_or_zero (overall shown)) shown
    × ((overall shown ≡ status_unknown) ⊎ HasStatus (overall shown) shown)
overall_worst_example = overall_worst shown
