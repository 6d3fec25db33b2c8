-- ===== src/Prism/Remediation.antt =====
-- Remediation of alerts: the claims, the gates and the executions of pkg/prism/remediation/engine.go, and
-- what pkg/prism/remediation/store.go writes to a rule. Times are nanoseconds; the clock is an argument.
pub mod Claims
pub mod Tripped
mod Examples
use tickraft.Base.{
  ℕ, zero, suc, ◌≡◌, ◌≤◌, ◌+◌, ◌-◌, ◌*◌, Bool, true, false, ◌&&◌, List, [], ◌∷◌, ◌++◌, Option, some,
  none, ltb, leb, if◌then◌else◌, lookup, insert, remove,
}
use tickraft.Cron.Text.{Text, codes}
use tickraft.Prism.{decimal}
use tickraft.Prism.Keys.{text_key}

pub data Status : Type 0 where
  status_active status_paused : Status

-- `Rule`: the columns that decide over an execution.
pub record Rule : Type 0 where
  pub id : ℕ
  pub enabled : Bool
  pub status : Status
  pub cooldown : ℕ
  pub circuit_breaker_threshold : ℕ
  pub last_run_at : Option ℕ
  pub consecutive_failures : ℕ

abbrev pub is_active : Status → Bool
is_active status_active = true
is_active status_paused = false

abbrev pub second : ℕ
second = 1_000_000_000

unfoldable pub in_flight_key : ℕ → ℕ → Text
in_flight_key rule asset = decimal 19 rule ++ codes ":" ++ decimal 19 asset

abbrev pub InFlight : Type 0
InFlight = List (Text × Unit {0})

unfoldable pub claim_free : InFlight → Text → Option (Unit {0}) → Bool × InFlight
claim_free s key (some u) = (false, s)
claim_free s key none = (true, insert key tt s)

unfoldable pub try_claim_in_flight : InFlight → Text → Bool × InFlight
unfolding claim_free
try_claim_in_flight s key = claim_free s key (lookup key s)

unfoldable pub release_in_flight : InFlight → Text → InFlight
release_in_flight s key = remove key s

pub data Gate : Type 0 where
  gate_open gate_cooldown gate_tripped : Gate

abbrev pub cools_down : ℕ → Rule → Option ℕ → Bool
cools_down now r none = false
cools_down now r (some last) = ltb 0 r.cooldown && ltb (now - last) (r.cooldown * second)

-- `checkGates`, on the rule as it was loaded.
unfoldable pub check_gates : ℕ → Rule → Gate
check_gates now r =
    if cools_down now r r.last_run_at
    then gate_cooldown
    else if ltb 0 r.circuit_breaker_threshold
        && leb r.circuit_breaker_threshold r.consecutive_failures
    then gate_tripped
    else gate_open

-- `UpdateRuleStatus`, `UpdateLastRun` and `RecordExecutionOutcome` of the store.
unfoldable pub update_rule_status : Rule → Status → Rule
update_rule_status r status = record r { status = status }

unfoldable pub update_last_run : Rule → ℕ → Rule
update_last_run r now = record r { last_run_at = some now }

unfoldable pub record_execution_outcome : Rule → Bool → Rule
record_execution_outcome r success =
    if success then record r { consecutive_failures = 0 } else record r {
      consecutive_failures = r.consecutive_failures + 1;
      status =
          if ltb 0 r.circuit_breaker_threshold
            && leb r.circuit_breaker_threshold (r.consecutive_failures + 1)
          then status_paused
          else r.status;
    }

-- A rule as a trigger has loaded it, and the asset of the trigger.
pub record Job : Type 0 where
  pub rule : Rule
  pub asset : ℕ

-- A rule that a trigger wakes: the claims of `handle` that are not handed over yet, the jobs of the pool that
-- have not ended, and the keys in flight.
pub record Engine : Type 0 where
  pub held : List (Text × Job)
  pub jobs : List (Text × Job)
  pub in_flight : InFlight

abbrev pub new_engine : Engine
new_engine = record { held = []; jobs = []; in_flight = [] }

-- `handle`, for one rule as it was loaded: the claim, and nothing when the key is in flight.
unfoldable pub claimed : Engine → Text → Job → Bool × InFlight → Engine
claimed g key r (false, s) = g
claimed g key r (true, s) = record g { held = (key, r) ∷ g.held; in_flight = s }

unfoldable pub claim_rule : Engine → Rule → ℕ → Engine
unfolding claimed try_claim_in_flight in_flight_key
claim_rule g r asset =
    let key = in_flight_key r.id asset in
    if r.enabled && is_active r.status
    then claimed g key (record { rule = r; asset = asset }) (try_claim_in_flight g.in_flight key)
    else g

-- A gate is closed, the operator is missing, or the pool is full: the claim is given back.
unfoldable pub give_up : Engine → Text → Engine
unfolding release_in_flight
give_up g key = record g { held = remove key g.held; in_flight = release_in_flight g.in_flight key }

-- `dispatch`, when the pool takes the job.
unfoldable pub submit_job : Engine → Text → Job → Engine
submit_job g key r = record g { held = remove key g.held; jobs = (key, r) ∷ g.jobs }

-- The end of a job.
unfoldable pub finish_job : Engine → Text → Engine
unfolding release_in_flight
finish_job g key = record g {
  jobs = remove key g.jobs;
  in_flight = release_in_flight g.in_flight key;
}

-- The steps of any number of triggers and jobs that run side by side; a step is what one holds the lock for.
pub data Step : Engine → Engine → Type 0 where
  claims : (g : Engine) (r : Rule) (asset : ℕ) → Step g (claim_rule g r asset)
  gives_up :
      (g : Engine) (key : Text) (r : Job) → lookup key g.held ≡ some r → Step g (give_up g key)
  submits :
      (g : Engine) (key : Text) (r : Job) (now : ℕ)
      → lookup key g.held ≡ some r
      → check_gates now r.rule ≡ gate_open
      → Step g (submit_job g key r)
  finishes :
      (g : Engine) (key : Text) (r : Job) → lookup key g.jobs ≡ some r → Step g (finish_job g key)

pub data Reachable : Engine → Type 0 where
  start : Reachable new_engine
  go : (g h : Engine) → Reachable g → Step g h → Reachable h

-- One rule in the store, with the copies that triggers have loaded and not checked yet, and, on any assets,
-- the number of its jobs in the pool and of those that have ended and not recorded their outcome yet.
pub record Circuit : Type 0 where
  pub row : Rule
  pub loaded : List Rule
  pub running : ℕ
  pub recording : ℕ

-- The gates of a copy, and what is done behind each.
unfoldable pub behind_gates : Gate → List Rule → Circuit → Circuit
unfolding update_rule_status
behind_gates gate_cooldown rest c = record c { loaded = rest }
behind_gates gate_tripped rest c = record c {
  row = update_rule_status c.row status_paused;
  loaded = rest;
}
behind_gates gate_open rest c = record c { loaded = rest; running = c.running + 1 }

-- `handle` behind the loading, for the copy at the head.
unfoldable pub check_loaded : ℕ → List Rule → Circuit → Circuit
unfolding behind_gates
check_loaded now [] c = c
check_loaded now (r ∷ rest) c =
    if r.enabled && is_active r.status
    then behind_gates (check_gates now r) rest c
    else record c { loaded = rest }

-- The end of a job: `UpdateLastRun`, and then `RecordExecutionOutcome`.
unfoldable pub end_job : ℕ → ℕ → Circuit → Circuit
unfolding update_last_run
end_job now zero c = c
end_job now (suc n) c = record c {
  row = update_last_run c.row now;
  running = n;
  recording = c.recording + 1;
}

unfoldable pub record_outcome : Bool → ℕ → Circuit → Circuit
unfolding record_execution_outcome
record_outcome success zero c = c
record_outcome success (suc n) c = record c {
  row = record_execution_outcome c.row success;
  recording = n;
}

-- Any of the triggers goes on next: its copy comes to the head.
unfoldable pub behind_head : Rule → List Rule → List Rule
behind_head r [] = r ∷ []
behind_head r (x ∷ xs) = x ∷ r ∷ xs

unfoldable pub bring : ℕ → List Rule → List Rule
unfolding behind_head
bring zero rs = rs
bring (suc n) [] = []
bring (suc n) (r ∷ rs) = behind_head r (bring n rs)

pub data CircuitStep : Type 0 where
  loads : CircuitStep
  checks : ℕ → ℕ → CircuitStep
  ends : ℕ → CircuitStep
  records : Bool → CircuitStep
  sets_status : Status → CircuitStep

-- Triggers, jobs and writes of the status, side by side.
unfoldable pub circuit_step : Circuit → CircuitStep → Circuit
unfolding update_rule_status
circuit_step c loads = record c { loaded = c.row ∷ c.loaded }
circuit_step c (checks now n) = check_loaded now (bring n c.loaded) c
circuit_step c (ends now) = end_job now c.running c
circuit_step c (records success) = record_outcome success c.recording c
circuit_step c (sets_status s) = record c { row = update_rule_status c.row s }

unfoldable pub circuit_run : Circuit → List CircuitStep → Circuit
circuit_run c [] = c
circuit_run c (s ∷ ss) = circuit_run (circuit_step c s) ss
