-- ===== src/Breaker/Invariant.antt =====
-- What holds of a breaker between two calls (pkg/circuitbreaker/circuitbreaker.go).
use tickraft.Base.{◌≤◌, ◌<◌, ◌≡◌, ◌≢◌, List, [], ◌∷◌, arith, positive_or-pos}
use tickraft.Breaker.{
  state_closed, state_half_open, Config, CircuitBreaker, Call, allowing, succeeded, failed, new,
  step, run, default_failure_threshold, default_cooldown, default_half_open_max,
}

pub record IsValid (cb : CircuitBreaker) : Type 0 where
  pub threshold_pos : 0 < cb.failure_threshold
  pub cooldown_pos : 0 < cb.cooldown
  pub probes_pos : 0 < cb.half_open_max
  pub closed_below : cb.state ≡ state_closed → cb.failure_count < cb.failure_threshold
  pub tripped_at : cb.state ≢ state_closed → cb.failure_count ≡ cb.failure_threshold
  pub probing :
      cb.state ≡ state_half_open
      → (0 < cb.half_open_passed) × (cb.half_open_passed ≤ cb.half_open_max)
  pub not_probing : cb.state ≢ state_half_open → cb.half_open_passed ≡ 0

pub new-IsValid : (cfg : Config) → IsValid (new cfg)
unfolding new
new-IsValid cfg =
    let a = positive_or-pos cfg.failure_threshold default_failure_threshold (omega arith) in
    let b = positive_or-pos cfg.cooldown default_cooldown (omega arith) in
    let c = positive_or-pos cfg.half_open_max default_half_open_max (omega arith) in ground arith

pub step-IsValid : (cb : CircuitBreaker) (c : Call) → IsValid cb → IsValid (step cb c)
unfolding step
step-IsValid cb (allowing now) h = ground arith
step-IsValid cb succeeded h = ground arith
step-IsValid cb (failed now) h = ground arith

run-IsValid_from : (cb : CircuitBreaker) (cs : List Call) → IsValid cb → IsValid (run cb cs)
unfolding run
run-IsValid_from cb [] h = h
run-IsValid_from cb (c ∷ cs) h = run-IsValid_from (step cb c) cs (step-IsValid cb c h)

-- After any sequence of calls on a new breaker, whatever its configuration: the three settings are
-- positive, a closed breaker has counted fewer failures than the threshold and any other exactly the
-- threshold, a half-open one has admitted at least one probe and at most `half_open_max`, and no
-- other has a probe admitted.
pub run-IsValid : (cfg : Config) (cs : List Call) → IsValid (run (new cfg) cs)
run-IsValid cfg cs = run-IsValid_from (new cfg) cs (new-IsValid cfg)
