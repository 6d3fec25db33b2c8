-- ===== src/Heartbeat/Detection.antt =====
-- A silent asset is reported, and a renewed one is not reported by an older entry (pkg/telemetry/state.go,
-- `RegisterAsset`, `UpdateActive` and `fireTimeout` on the time wheel).
use tickraft.Base.{
  ℕ, ◌≡◌, ◌<◌, ◌≤◌, refl, ◌+◌, ◌*◌, true, false, Option, some, none, arith, lookup, nat_key,
  lookup-insert,
}
use tickraft.TimeWheel.{nanos, Entry}
use tickraft.TimeWheel.Places.{IsCoherent, Absent}
use tickraft.TimeWheel.Deadline.Schedule.{Fires, IsPlanned, add_at-IsPlanned, IsPlanned-Fires}
use tickraft.Heartbeat.{
  TimeoutEntry, StateManager, arm_entry, remove_previous, track, update_active, timeout_or_default,
  fire_timeout, is_timeout,
}
use tickraft.TimeWheel.Removal.{remove_entry-IsPlanned}

-- The wheel is in agreement, its numbers are those issued so far, and so are those of the assets' entries.
pub record IsSound (s : StateManager) : Type 0 where
  pub coherent : IsCoherent s.wheel
  pub bound : s.wheel.sec_ptr < 60
  pub fresh : (id : ℕ) → s.next_entry_id < id → Absent s.wheel id
  pub issued :
      (asset : ℕ) (t : TimeoutEntry)
      → lookup asset s.entries ≡ some t
      → t.entry_id ≤ s.next_entry_id

tracked_entry :
    (now asset id timeout : ℕ) (s : StateManager)
    → (lookup asset (track now asset id timeout s).entries
        ≡ some (record { entry_id = id; timeout = timeout }))
      × (lookup asset (track now asset id timeout s).last_active ≡ some now)
unfolding track
tracked_entry now asset id timeout s =
    let e = lookup-insert asset asset (record { entry_id = id; timeout = timeout }) s.entries in
    let l = lookup-insert asset asset now s.last_active in (ground arith, ground arith)

track_reports :
    (at now asset id timeout : ℕ) (s : StateManager)
    → now + timeout < at + 2 * nanos
    → fire_timeout at asset id (track now asset id timeout s) ≡ true
unfolding fire_timeout is_timeout
track_reports at now asset id timeout s h =
    let (e, l) = tracked_entry now asset id timeout s in rw e (rw l (ground arith))

track_drops :
    (at now asset id old timeout : ℕ) (s : StateManager)
    → old < id
    → fire_timeout at asset old (track now asset id timeout s) ≡ false
unfolding fire_timeout is_timeout
track_drops at now asset id old timeout s h =
    let (e, l) = tracked_entry now asset id timeout s in rw e (rw l (ground arith))

-- The fresh entry of an asset fires, and its callback then reports the asset, whenever the pool runs it.
pub record Detects (asset now timeout last : ℕ) (s : StateManager) : Type 0 where
  pub id : ℕ
  pub fires :
      Fires id (record { id = id; callback = asset; expire_at = now + timeout }) s.wheel last
  pub reports : (at : ℕ) → last + (fires.round + 1) * nanos ≤ at → fire_timeout at asset id s ≡ true

detected :
    (now asset id timeout last : ℕ) (s : StateManager)
    → IsPlanned id (record { id = id; callback = asset; expire_at = now + timeout }) s.wheel last
    → Detects asset now timeout last (track now asset id timeout s)
unfolding track
detected now asset id timeout last s p =
    let f = IsPlanned-Fires s.wheel id _ last p in
    record {
      id = id;
      fires = f;
      reports = λ at h. track_reports at now asset id timeout s (omega (arith, h, f.not_early));
    }

module _ (now asset last : ℕ) (s : StateManager) (sound : IsSound s) (since : last ≤ now)
    (until : now < last + nanos) where
  armed_IsPlanned :
      (timeout : ℕ)
      → 0 < timeout
      → IsPlanned
          (s.next_entry_id + 1)
          (record { id = s.next_entry_id + 1; callback = asset; expire_at = now + timeout })
          (arm_entry now asset timeout s).0.wheel
          last
  unfolding arm_entry
  armed_IsPlanned timeout some_time =
      add_at-IsPlanned s.wheel (s.next_entry_id + 1) last now (now + timeout) asset sound.coherent
        sound.bound (sound.fresh (s.next_entry_id + 1) (omega arith)) since until
        (omega (arith, some_time))

  previous_removed :
      (old : Option TimeoutEntry) (id : ℕ) (e : Entry) (s' : StateManager)
      → ((t : TimeoutEntry) → old ≡ some t → t.entry_id < id)
      → IsPlanned id e s'.wheel last
      → IsPlanned id e (remove_previous old s').wheel last
  unfolding remove_previous
  previous_removed none id e s' older p = p
  previous_removed (some t) id e s' older p =
      let below = older t refl in
      remove_entry-IsPlanned s'.wheel t.entry_id id e last (λ eq. omega (arith, eq, below)) p

  -- On a sound manager, for an asset with a timeout above 0 that reports less than a second after the last
  -- tick: when it then stays silent and the wheel ticks each second, the fresh entry is fired at one tick
  -- near the end of the timeout, and its callback reports the asset, at that tick or at any time later.
  pub update_active-Detects :
      0 < timeout_or_default (lookup asset s.entries)
      → Detects asset now
          (timeout_or_default (lookup asset s.entries))
          last
          (update_active now asset s)
  unfolding update_active arm_entry
  update_active-Detects some_time =
      let old = lookup asset s.entries in
      let timeout = timeout_or_default old in
      detected now asset (s.next_entry_id + 1) timeout last
        (remove_previous old (arm_entry now asset timeout s).0)
        (previous_removed old (s.next_entry_id + 1) _ (arm_entry now asset timeout s).0
          (λ t h. let known = sound.issued asset t h in omega (arith, known))
          (armed_IsPlanned timeout some_time))

-- After a report of an asset, a callback of any entry that was armed before it is dropped, at any time.
pub update_active_stale :
    (at now asset old : ℕ) (s : StateManager)
    → old ≤ s.next_entry_id
    → fire_timeout at asset old (update_active now asset s) ≡ false
unfolding update_active arm_entry
update_active_stale at now asset old s h =
    track_drops at now asset (s.next_entry_id + 1) old (timeout_or_default (lookup asset s.entries))
      _ (omega (arith, h))
