-- ===== src/Prism/Remediation/Tripped.antt =====
-- A rule whose circuit breaker has tripped (pkg/prism/remediation/engine.go, pkg/prism/remediation/store.go).
use tickraft.Base.{
  ℕ, zero, suc, ◌≡◌, ◌<◌, ◌≤◌, refl, Bool, true, ◌&&◌, List, [], ◌∷◌, arith, inl, inr, Bool-cases,
  ltb, leb,
}
use tickraft.Prism.Remediation.{
  Rule, is_active, cools_down, check_gates, update_rule_status, Circuit, behind_gates, check_loaded,
  end_job, record_outcome, CircuitStep, loads, checks, ends, records, sets_status, circuit_step,
  circuit_run, behind_head, bring,
}

-- As many failures in a row as the threshold, which is above 0.
abbrev pub IsTripped : Rule → Type 0
IsTripped r =
    (0 < r.circuit_breaker_threshold) × (r.circuit_breaker_threshold ≤ r.consecutive_failures)

abbrev pub AllTripped : List Rule → Type 0
AllTripped [] = Unit
AllTripped (r ∷ rs) = IsTripped r × AllTripped rs

-- The row and each copy has tripped, and no job is under way.
pub record IsStuck (c : Circuit) : Type 0 where
  pub row : IsTripped c.row
  pub loaded : AllTripped c.loaded
  pub running : c.running ≡ 0
  pub recording : c.recording ≡ 0

check_loaded-IsStuck :
    (now : ℕ) (rs : List Rule) (c : Circuit)
    → AllTripped rs
    → IsStuck c
    → IsStuck (check_loaded now rs c)
unfolding check_loaded behind_gates check_gates update_rule_status
check_loaded-IsStuck now [] c all x = x
check_loaded-IsStuck now (r ∷ rest) c all x = elim (Bool-cases (r.enabled && is_active r.status)) [
  | inr off ↦
      rw off (record { row = x.row; loaded = all.1; running = x.running; recording = x.recording })
  | inl on ↦ rw on (elim (Bool-cases (cools_down now r r.last_run_at)) [
    | inl cooling ↦
        rw cooling
          (record { row = x.row; loaded = all.1; running = x.running; recording = x.recording })
    | inr cold ↦ rw cold (
        let tripped = all.0 in
        let set : (ltb 0 r.circuit_breaker_threshold
              && leb r.circuit_breaker_threshold r.consecutive_failures)
            ≡ true =
          ground (arith, tripped) in
        rw set
          (record { row = x.row; loaded = all.1; running = x.running; recording = x.recording }))
  ])
]

behind_head-AllTripped :
    (r : Rule) (rs : List Rule) → IsTripped r → AllTripped rs → AllTripped (behind_head r rs)
unfolding behind_head
behind_head-AllTripped r [] x xs = (x, xs)
behind_head-AllTripped r (y ∷ ys) x xs = (xs.0, (x, xs.1))

bring-AllTripped : (n : ℕ) (rs : List Rule) → AllTripped rs → AllTripped (bring n rs)
unfolding bring
bring-AllTripped zero rs all = all
bring-AllTripped (suc n) [] all = all
bring-AllTripped (suc n) (r ∷ rs) all =
    behind_head-AllTripped r (bring n rs) all.0 (bring-AllTripped n rs all.1)

end_job-none : (now n : ℕ) (c : Circuit) → n ≡ 0 → end_job now n c ≡ c
unfolding end_job
end_job-none now n c none_left = rw none_left refl

record_outcome-none :
    (success : Bool) (n : ℕ) (c : Circuit) → n ≡ 0 → record_outcome success n c ≡ c
unfolding record_outcome
record_outcome-none success n c none_left = rw none_left refl

circuit_step-IsStuck : (c : Circuit) (s : CircuitStep) → IsStuck c → IsStuck (circuit_step c s)
unfolding circuit_step update_rule_status
circuit_step-IsStuck c loads x = record {
  row = x.row;
  loaded = (x.row, x.loaded);
  running = x.running;
  recording = x.recording;
}
circuit_step-IsStuck c (checks now n) x =
    check_loaded-IsStuck now (bring n c.loaded) c (bring-AllTripped n c.loaded x.loaded) x
circuit_step-IsStuck c (ends now) x = rw (end_job-none now c.running c x.running) x
circuit_step-IsStuck c (records success) x =
    rw (record_outcome-none success c.recording c x.recording) x
circuit_step-IsStuck c (sets_status s) x = record {
  row = x.row;
  loaded = x.loaded;
  running = x.running;
  recording = x.recording;
}

circuit_run-IsStuck :
    (c : Circuit) (steps : List CircuitStep) → IsStuck c → IsStuck (circuit_run c steps)
unfolding circuit_run
circuit_run-IsStuck c [] x = x
circuit_run-IsStuck c (s ∷ steps) x =
    circuit_run-IsStuck (circuit_step c s) steps (circuit_step-IsStuck c s x)

-- When a rule has a threshold above 0 and as many failures in a row, and no trigger has loaded it and none of
-- its jobs, on any asset, is in the pool or still to record its outcome: no job of it is in the pool at any
-- later moment, whatever triggers come, at any times and side by side, and however its status is set, as long
-- as no other column of it is edited.
pub circuit_run_idle :
    (r : Rule) (steps : List CircuitStep)
    → 0 < r.circuit_breaker_threshold
    → r.circuit_breaker_threshold ≤ r.consecutive_failures
    → (circuit_run (record { row = r; loaded = []; running = 0; recording = 0 }) steps).running ≡ 0
circuit_run_idle r steps some_threshold reached =
    (circuit_run-IsStuck (record { row = r; loaded = []; running = 0; recording = 0 }) steps
      (record {
        row = (some_threshold, reached);
        loaded = tt;
        running = refl;
        recording = refl;
      })).running
