-- ===== src/Breaker/Trip.antt =====
-- When a breaker opens (pkg/circuitbreaker/circuitbreaker.go, `RecordFailure` and `RecordSuccess`).
use tickraft.Base.{
  ℕ, ◌+◌, ◌<◌, ◌≡◌, refl, Bool, true, List, [], ◌∷◌, map, arith, length, ltb, if◌then◌else◌,
}
use tickraft.Breaker.{
  state_closed, state_open, Config, CircuitBreaker, Call, allowing, succeeded, failed, new, step,
  run, allow,
}
use tickraft.Breaker.Invariant.{new-IsValid}

abbrev pub failures : List ℕ → List Call
failures = map failed

open_step :
    (cb : CircuitBreaker) (now : ℕ)
    → cb.state ≡ state_open
    → (step cb (failed now)).state ≡ state_open
unfolding step
open_step cb now h = ground arith

run_open :
    (cb : CircuitBreaker) (ts : List ℕ)
    → cb.state ≡ state_open
    → (run cb (failures ts)).state ≡ state_open
unfolding run
run_open cb [] h = h
run_open cb (t ∷ ts) h = run_open (step cb (failed t)) ts (open_step cb t h)

closed_step :
    (cb : CircuitBreaker) (now : ℕ)
    → cb.state ≡ state_closed
    → ((step cb (failed now)).state
        ≡ (if ltb (cb.failure_count + 1) cb.failure_threshold then state_closed else state_open))
      × ((step cb (failed now)).failure_count ≡ cb.failure_count + 1)
      × ((step cb (failed now)).failure_threshold ≡ cb.failure_threshold)
unfolding step
closed_step cb now h = ground arith

run_closed :
    (cb : CircuitBreaker) (ts : List ℕ)
    → cb.state ≡ state_closed
    → cb.failure_count < cb.failure_threshold
    → (run cb (failures ts)).state ≡ (
        if ltb (cb.failure_count + length ts) cb.failure_threshold
        then state_closed
        else state_open)
unfolding run
run_closed cb [] h k = ground arith
run_closed cb (t ∷ ts) h k = ground (
  arith,
  closed_step cb t h,
  run_closed (step cb (failed t)) ts,
  run_open (step cb (failed t)) ts,
)

-- Consecutive failures on a new breaker, at any times: it is closed after fewer of them than its
-- failure threshold, and open after that many or more.
pub run-failures :
    (cfg : Config) (ts : List ℕ)
    → (run (new cfg) (failures ts)).state
      ≡ (if ltb (length ts) (new cfg).failure_threshold then state_closed else state_open)
unfolding new
run-failures cfg ts = ground (arith, run_closed (new cfg) ts, (new-IsValid cfg).threshold_pos)

-- No streak of failures, the first of them continuing a streak of `n`, reaches `limit`. A success ends
-- a streak and a request does not.
abbrev pub StreaksBelow : ℕ → ℕ → List Call → Type 0
StreaksBelow limit n [] = Unit {0}
StreaksBelow limit n (allowing now ∷ cs) = StreaksBelow limit n cs
StreaksBelow limit n (succeeded ∷ cs) = StreaksBelow limit 0 cs
StreaksBelow limit n (failed now ∷ cs) = (n + 1 < limit) × StreaksBelow limit (n + 1) cs

-- The answers that `Allow` gives along a run.
pub answers : CircuitBreaker → List Call → List Bool
answers cb [] = []
answers cb (allowing now ∷ cs) = (allow now cb).1 ∷ answers (step cb (allowing now)) cs
answers cb (c ∷ cs) = answers (step cb c) cs

abbrev pub AllTrue : List Bool → Type 0
AllTrue [] = Unit {0}
AllTrue (b ∷ bs) = (b ≡ true) × AllTrue bs

step_allowing :
    (cb : CircuitBreaker) (now : ℕ)
    → cb.state ≡ state_closed
    → (step cb (allowing now) ≡ cb) × ((allow now cb).1 ≡ true)
unfolding step allow
step_allowing cb now h = ground arith

step_succeeded :
    (cb : CircuitBreaker)
    → ((step cb succeeded).state ≡ state_closed)
      × ((step cb succeeded).failure_count ≡ 0)
      × ((step cb succeeded).failure_threshold ≡ cb.failure_threshold)
unfolding step
step_succeeded cb = ground arith

run-StreaksBelow_from :
    (cb : CircuitBreaker) (cs : List Call) (n limit : ℕ)
    → cb.state ≡ state_closed
    → cb.failure_count ≡ n
    → cb.failure_threshold ≡ limit
    → StreaksBelow limit n cs
    → ((run cb cs).state ≡ state_closed) × AllTrue (answers cb cs)
unfolding run answers
run-StreaksBelow_from cb [] n limit h k l s = (h, tt)
run-StreaksBelow_from cb (allowing now ∷ cs) n limit h k l s =
    let (same, passes) = step_allowing cb now h in
    let (a, b) =
      run-StreaksBelow_from (step cb (allowing now)) cs n limit (rw same h) (rw same k) (rw same l)
        s in
    (a, (passes, b))
run-StreaksBelow_from cb (succeeded ∷ cs) n limit h k l s =
    let (a, b, c) = step_succeeded cb in
    run-StreaksBelow_from (step cb succeeded) cs 0 limit a b (cc) s
run-StreaksBelow_from cb (failed now ∷ cs) n limit h k l (s, ss) =
    let (a, b, c) = closed_step cb now h in
    run-StreaksBelow_from (step cb (failed now)) cs (n + 1) limit (ground arith) (ground arith)
      (ground arith) ss

-- A new breaker whose failures never come in a streak as long as its threshold (a success between
-- them ends a streak) is closed at the end of any run, and admits every request of it.
pub run-StreaksBelow :
    (cfg : Config) (cs : List Call)
    → StreaksBelow (new cfg).failure_threshold 0 cs
    → ((run (new cfg) cs).state ≡ state_closed) × AllTrue (answers (new cfg) cs)
unfolding new
run-StreaksBelow cfg cs s = run-StreaksBelow_from (new cfg) cs 0 _ refl refl refl s
