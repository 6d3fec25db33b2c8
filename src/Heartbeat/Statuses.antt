-- ===== src/Heartbeat/Statuses.antt =====
-- The cached status of an asset and what is persisted of it (pkg/telemetry/state.go, `UpdateStatus`).
use tickraft.Base.{
  List, ◌∷◌, if◌then◌else◌, ℕ, ◌≡◌, ◌≢◌, refl, ap, Bool, true, false, Option, some, none, arith,
  lookup, insert, nat_key, lookup-insert, Bool-cases, inl, inr, ok, failed, ◌==◌,
}
use text.Mathlib.TextEquality.{eq_iff}
use tickraft.StatusPage.{
  AssetStatus, asset_normal, asset_abnormal, asset_offline, asset_unknown, asset_other,
}
use tickraft.Heartbeat.{
  or_unknown, StateManager, store_failed, history_failed, Persisted, persist_status, StatusUpdate,
  already, commit, update_status, status_eq, or_unknown,
}

status_eq_eq : (a b : AssetStatus) → status_eq a b ≡ true → a ≡ b
unfolding status_eq
status_eq_eq asset_normal asset_normal h = refl
status_eq_eq asset_abnormal asset_abnormal h = refl
status_eq_eq asset_offline asset_offline h = refl
status_eq_eq asset_unknown asset_unknown h = refl
status_eq_eq (asset_other a) (asset_other b) h = ap asset_other ((eq_iff a b).0 h)
status_eq_eq a b h = absurd (cc)

status_eq_refl : (a : AssetStatus) → status_eq a a ≡ true
unfolding status_eq
status_eq_refl asset_normal = refl
status_eq_refl asset_abnormal = refl
status_eq_refl asset_offline = refl
status_eq_refl asset_unknown = refl
status_eq_refl (asset_other a) = (eq_iff a a).1 refl

-- The status of one asset is the new one, and those of the others did not move.
abbrev pub Set : ℕ → AssetStatus → List (ℕ × AssetStatus) → List (ℕ × AssetStatus) → Type 0
Set asset new_status m m' =
    (lookup asset m' ≡ some new_status)
    × ((other : ℕ) → asset ≢ other → lookup other m' ≡ lookup other m)

-- What a call of `UpdateStatus` with this result has done to the cache and to what is persisted.
abbrev pub Updated : Bool → ℕ → AssetStatus → StateManager → Persisted → StatusUpdate → Type 0
Updated has_db asset new_status s p (s', p', ok true) =
    (lookup asset s.cache ≢ some new_status)
    × Set asset new_status s.cache s'.cache
    × Set asset new_status p.statuses p'.statuses
    × (p'.history ≡ (
        if has_db
        then (asset, or_unknown (lookup asset s.cache), new_status) ∷ p.history
        else p.history))
Updated has_db asset new_status s p (s', p', ok false) =
    (lookup asset s.cache ≡ some new_status) × (s' ≡ s) × (p' ≡ p)
Updated has_db asset new_status s p (s', p', failed store_failed) =
    (lookup asset s.cache ≢ some new_status) × (s' ≡ s) × (p' ≡ p)
Updated has_db asset new_status s p (s', p', failed history_failed) =
    (lookup asset s.cache ≢ some new_status)
    × (s' ≡ s)
    × Set asset new_status p.statuses p'.statuses
    × (p'.history ≡ p.history)

insert-Set :
    (asset : ℕ) (new_status : AssetStatus) (m : List (ℕ × AssetStatus))
    → Set asset new_status m (insert asset new_status m)
insert-Set asset new_status m =
    let own = lookup-insert asset asset new_status m in
    (
      ground arith,
      λ other differ.
          let away = lookup-insert asset other new_status m in
          let apart : asset == other ≡ false = ground arith in ground arith,
    )

commit_lem :
    (stored has_db recorded : Bool) (asset : ℕ) (new_status : AssetStatus) (s : StateManager)
    (p : Persisted)
    → lookup asset s.cache ≢ some new_status
    → Updated has_db asset new_status s p (
        commit asset new_status s (
          persist_status stored has_db recorded asset
            (or_unknown (lookup asset s.cache))
            new_status
            p))
unfolding commit persist_status
commit_lem false has_db recorded asset new_status s p moved = (moved, refl, refl)
commit_lem true false recorded asset new_status s p moved =
    (moved, insert-Set asset new_status s.cache, insert-Set asset new_status p.statuses, refl)
commit_lem true true false asset new_status s p moved =
    (moved, refl, insert-Set asset new_status p.statuses, refl)
commit_lem true true true asset new_status s p moved =
    (moved, insert-Set asset new_status s.cache, insert-Set asset new_status p.statuses, refl)

unchanged :
    (found : Option AssetStatus) (new_status : AssetStatus)
    → already found new_status ≡ true
    → found ≡ some new_status
unfolding already
unchanged none new_status h = absurd (cc)
unchanged (some prev) new_status h = ap some (status_eq_eq prev new_status h)

changed :
    (found : Option AssetStatus) (new_status : AssetStatus)
    → already found new_status ≡ false
    → found ≢ some new_status
unfolding already
changed none new_status h eq = absurd (cc)
changed (some prev) new_status h eq =
    let same : prev ≡ new_status = cc in
    let no_change : status_eq prev new_status ≡ true = rw same (status_eq_refl new_status) in
    absurd (cc)

-- Whatever the writes of the store and of the history do: `UpdateStatus` reports no change exactly when the
-- cached status is the new one already, and nothing moves then. When it reports a change, the asset has the
-- new status in the cache and in the store, with a row of the history if there is a database for it, and no
-- other asset's status moved. When it fails the cache did not move; behind a failed write of the store nothing
-- did, and behind a failed write of the history the store has the new status already.
pub update_status-Updated :
    (stored has_db recorded : Bool) (asset : ℕ) (new_status : AssetStatus) (s : StateManager)
    (p : Persisted)
    → Updated has_db asset new_status s p
        (update_status stored has_db recorded asset new_status s p)
unfolding update_status
update_status-Updated stored has_db recorded asset new_status s p =
    elim (Bool-cases (already (lookup asset s.cache) new_status)) [
      | inl same ↦ rw same (unchanged (lookup asset s.cache) new_status same, refl, refl)
      | inr change ↦ rw change (
          commit_lem stored has_db recorded asset new_status s p
            (changed (lookup asset s.cache) new_status change))
    ]
