-- ===== src/Prism/Remediation/Examples.antt =====
-- A rule on one asset, a rule that has tripped, and a rule that is read too early.
use tickraft.Base.{◌≡◌, refl, ◌*◌, true, [], ◌∷◌, none, arith, lookup, insert}
use tickraft.Cron.Text.{Text, codes, text_eq}
use tickraft.Prism.{decimal}
use tickraft.Prism.Keys.{text_key}
use tickraft.Prism.Remediation.{
  status_active, status_paused, Rule, Job, second, in_flight_key, claim_free, try_claim_in_flight,
  gate_open, gate_cooldown, check_gates, update_last_run, Engine, new_engine, claimed, claim_rule,
  submit_job, Reachable, start, go, loads, checks, ends, records, sets_status, circuit_step,
  circuit_run, bring, end_job, record_outcome, record_execution_outcome, update_rule_status,
  check_loaded, behind_gates, claims, submits,
}
use tickraft.Prism.Remediation.Claims.{OneEach, UnderWay, Reachable-OneEach}
use tickraft.Prism.Remediation.Tripped.{circuit_run_idle}

abbrev restart : Rule
restart = record {
  id = 4;
  enabled = true;
  status = status_active;
  cooldown = 60;
  circuit_breaker_threshold = 3;
  last_run_at = none;
  consecutive_failures = 0;
}

abbrev restart_job : Job
restart_job = record { rule = restart; asset = 12 }

abbrev one_claim : Engine
one_claim = record {
  held = (codes "4:12", restart_job) ∷ [];
  jobs = [];
  in_flight = (codes "4:12", tt) ∷ [];
}

restart_claimed : claim_rule new_engine restart 12 ≡ one_claim
unfolding claim_rule claimed try_claim_in_flight claim_free in_flight_key decimal lookup insert
restart_claimed = refl

-- A second trigger for the same asset finds the key in flight.
restart_claimed_twice : claim_rule one_claim restart 12 ≡ one_claim
unfolding claim_rule claimed try_claim_in_flight claim_free in_flight_key decimal lookup insert
    text_eq
restart_claimed_twice = refl

abbrev one_job : Engine
one_job = submit_job (claim_rule new_engine restart 12) (codes "4:12") restart_job

submitted-Reachable :
    Reachable (submit_job (claim_rule new_engine restart 12) (codes "4:12") restart_job)
unfolding claim_rule claimed try_claim_in_flight claim_free in_flight_key decimal lookup insert
    text_eq check_gates
submitted-Reachable =
    go (claim_rule new_engine restart 12) _ (go new_engine _ start (claims new_engine restart 12))
      (submits (claim_rule new_engine restart 12) (codes "4:12") restart_job 0 refl refl)

Reachable-OneEach_example :
    OneEach one_job
    × ((k j : Text) (c d : Job)
        → UnderWay one_job k c
        → UnderWay one_job j d
        → c.rule.id ≡ d.rule.id
        → c.asset ≡ d.asset
        → k ≡ j)
Reachable-OneEach_example = Reachable-OneEach one_job submitted-Reachable

-- Failed three times, paused, and set to active again by hand.
abbrev failed_restart : Rule
failed_restart = record restart { consecutive_failures = 3; status = status_paused }

circuit_run_idle_example :
    (circuit_run
      (record { row = failed_restart; loaded = []; running = 0; recording = 0 })
      (sets_status status_active ∷ loads ∷ checks (90 * second) 0 ∷ [])).running
    ≡ 0
circuit_run_idle_example =
    circuit_run_idle failed_restart
      (sets_status status_active ∷ loads ∷ checks (90 * second) 0 ∷ []) (omega arith) (omega arith)

-- A job of the rule on another asset that was in the pool when it tripped, and succeeds, lets it run again.
late_success :
    (circuit_run
      (record { row = failed_restart; loaded = []; running = 1; recording = 0 })
      (ends (80 * second)
        ∷ records true
        ∷ sets_status status_active
        ∷ loads
        ∷ checks (190 * second) 0
        ∷ [])).running
    ≡ 1
unfolding circuit_run circuit_step end_job record_outcome record_execution_outcome update_last_run
    update_rule_status check_loaded behind_gates check_gates bring
late_success = refl

-- Loaded before the last execution ended, the rule passes the gate a second later; loaded then, it does not.
early_gate : check_gates (11 * second) restart ≡ gate_open
unfolding check_gates
early_gate = refl

late_gate : check_gates (11 * second) (update_last_run restart (10 * second)) ≡ gate_cooldown
unfolding check_gates update_last_run
late_gate = refl
