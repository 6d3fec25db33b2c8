-- ===== src/StatusPage/Rendering.antt =====
-- What `renderComponent` shows of a configured component (pkg/status/aggregate.go).
use mathlib.Core.List.{append_assoc, append-nil}
use tickraft.Base.{
  ℕ, ◌+◌, ◌≤◌, ◌≡◌, refl, sym, ap, ◌∙◌, List, [], ◌∷◌, ◌++◌, map, Option, some, none, arith, lookup,
  nat_key,
}
use tickraft.StatusPage.{
  Status, status_unknown, MonitorPoint, ProbeRecord, Component, point_health, Gathered, gather_one,
  gather, status_of, render_component,
}

module _ (latest : ℕ → Option ProbeRecord) (by_id : List (ℕ × MonitorPoint)) where
  -- The state of one configured point: unknown if no enabled monitor has its number.
  abbrev pub state_of : ℕ → Status
  state_of id = elim (lookup id by_id) [
    | none ↦ status_unknown
    | some p ↦ point_health p (latest id)
  ]

  -- How many configured points are enabled monitors.
  abbrev pub known_one : ℕ → ℕ
  known_one id = elim (lookup id by_id) [ none ↦ 0 | some _ ↦ 1 ]

  abbrev pub known : List ℕ → ℕ
  known [] = 0
  known (id ∷ ids) = known_one id + known ids

  -- The latest probe of each point that is an enabled monitor started no later.
  abbrev pub CheckedBy : ℕ → List ℕ → Type 0
  CheckedBy t [] = Unit {0}
  CheckedBy t (id ∷ ids) =
      ((p : MonitorPoint) (probe : ProbeRecord)
        → lookup id by_id ≡ some p
        → latest id ≡ some probe
        → probe.started_at ≤ t)
      × CheckedBy t ids

  gathered_one :
      (id : ℕ) (g : Gathered)
      → ((gather_one latest by_id id g).states ≡ g.states ++ (state_of id ∷ []))
        × ((gather_one latest by_id id g).monitor_count ≡ g.monitor_count + known_one id)
        × (g.last_checked ≤ (gather_one latest by_id id g).last_checked)
  unfolding gather_one
  gathered_one id g = ground arith

  checked_one :
      (id : ℕ) (g : Gathered) (p : MonitorPoint) (probe : ProbeRecord)
      → lookup id by_id ≡ some p
      → latest id ≡ some probe
      → probe.started_at ≤ (gather_one latest by_id id g).last_checked
  unfolding gather_one
  checked_one id g p probe hit found = ground arith

  gathered :
      (ids : List ℕ) (g : Gathered)
      → ((gather latest by_id ids g).states ≡ g.states ++ map state_of ids)
        × ((gather latest by_id ids g).monitor_count ≡ g.monitor_count + known ids)
        × (g.last_checked ≤ (gather latest by_id ids g).last_checked)
        × CheckedBy (gather latest by_id ids g).last_checked ids
  unfolding gather
  gathered [] g = (sym (append-nil g.states), omega arith, omega arith, tt)
  gathered (id ∷ ids) g =
      let g' = gather_one latest by_id id g in
      let (s, n, above) = gathered_one id g in
      let (s', n', above', checked) = gathered ids g' in
      (
        s'
            ∙ (ap (λ l. l ++ map state_of ids) s
                ∙ append_assoc g.states (state_of id ∷ []) (map state_of ids)),
        omega (arith, n, n'),
        omega (arith, above, above'),
        ((λ p probe hit found. omega (arith, checked_one id g p probe hit found, above')), checked),
      )

  -- A rendered component keeps its name and description; its status is the aggregate of the health of
  -- its points in order, with unknown for a number that no enabled monitor has; it counts the numbers
  -- that an enabled monitor has; and no latest probe of such a monitor started after its time of last
  -- check.
  pub render_component_lem :
      (c : Component)
      → let shown = render_component latest by_id c in
        (shown.name ≡ c.name)
        × (shown.description ≡ c.description)
        × (shown.status ≡ status_of (map state_of c.point_ids))
        × (shown.monitor_count ≡ known c.point_ids)
        × CheckedBy shown.last_checked c.point_ids
  unfolding render_component
  render_component_lem c =
      let start : Gathered = record { states = []; monitor_count = 0; last_checked = 0 } in
      let (s, n, above, checked) = gathered c.point_ids start in
      (refl, refl, ap status_of s, omega (arith, n), checked)
