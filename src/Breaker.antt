-- ===== src/Breaker.antt =====
-- The circuit breaker of pkg/circuitbreaker/circuitbreaker.go. Times are nanoseconds on the monotonic
-- clock. A method takes the time that it reads and returns the new breaker with its result; the mutex
-- makes each method one step.
mod Invariant
mod Trip
mod Probes
mod Examples
use Prim.Native.String.{String}
use tickraft.Base.{
  ℕ, ◌+◌, ◌-◌, ◌*◌, ◌^◌, Bool, true, false, List, [], ◌∷◌, if◌then◌else◌, leb, ltb, ℤ, positive_or,
}

pub data State : Type 0 where
  state_closed state_open state_half_open : State

-- `State.String`; the default branch is for values outside the enumeration.
unfoldable pub state_string : State → String
state_string state_closed = "closed"
state_string state_open = "open"
state_string state_half_open = "half_open"

abbrev pub second : ℕ
second = 1_000_000_000

abbrev pub default_failure_threshold : ℕ
default_failure_threshold = 5

abbrev pub default_cooldown : ℕ
default_cooldown = 30 * second

abbrev pub default_half_open_max : ℕ
default_half_open_max = 1

-- What a caller writes: any integers.
pub record Config : Type 0 where
  pub failure_threshold : ℤ
  pub cooldown : ℤ
  pub half_open_max : ℤ

-- The breaker, with the three settings that `New` has made positive.
pub record CircuitBreaker : Type 0 where
  pub failure_threshold : ℕ
  pub cooldown : ℕ
  pub half_open_max : ℕ
  pub state : State
  pub failure_count : ℕ
  pub last_failure_time : ℕ
  pub half_open_passed : ℕ

unfoldable pub new : Config → CircuitBreaker
new cfg = record {
  failure_threshold = positive_or cfg.failure_threshold default_failure_threshold;
  cooldown = positive_or cfg.cooldown default_cooldown;
  half_open_max = positive_or cfg.half_open_max default_half_open_max;
  state = state_closed;
  failure_count = 0;
  last_failure_time = 0;
  half_open_passed = 0;
}

-- The `switch` of `Allow`. The test `time.Since(last) >= Cooldown` has its subtraction moved over.
allow_in : State → ℕ → CircuitBreaker → CircuitBreaker × Bool
allow_in state_closed now cb = (cb, true)
allow_in state_open now cb =
    if leb (cb.last_failure_time + cb.cooldown) now
    then (record cb { state = state_half_open; half_open_passed = 1 }, true)
    else (cb, false)
allow_in state_half_open now cb =
    if ltb cb.half_open_passed cb.half_open_max
    then (record cb { half_open_passed = cb.half_open_passed + 1 }, true)
    else (cb, false)

unfoldable pub allow : ℕ → CircuitBreaker → CircuitBreaker × Bool
unfolding allow_in
allow now cb = allow_in cb.state now cb

unfoldable pub record_success : CircuitBreaker → CircuitBreaker
record_success cb = record cb { failure_count = 0; half_open_passed = 0; state = state_closed }

-- The `switch` of `RecordFailure`, once the time is stored.
record_failure_in : State → CircuitBreaker → CircuitBreaker
record_failure_in state_half_open cb = record cb {
  state = state_open;
  failure_count = cb.failure_threshold;
  half_open_passed = 0;
}
record_failure_in state_closed cb =
    let counted = record cb { failure_count = cb.failure_count + 1 } in
    if leb cb.failure_threshold (cb.failure_count + 1)
    then record counted { state = state_open; half_open_passed = 0 }
    else counted
record_failure_in state_open cb = cb

unfoldable pub record_failure : ℕ → CircuitBreaker → CircuitBreaker
unfolding record_failure_in
record_failure now cb = record_failure_in cb.state (record cb { last_failure_time = now })

-- One call of a client, at the time that it is made.
pub data Call : Type 0 where
  allowing : ℕ → Call
  succeeded : Call
  failed : ℕ → Call

unfoldable pub step : CircuitBreaker → Call → CircuitBreaker
unfolding allow record_success record_failure
step cb (allowing now) = (allow now cb).0
step cb succeeded = record_success cb
step cb (failed now) = record_failure now cb

unfoldable pub run : CircuitBreaker → List Call → CircuitBreaker
run cb [] = cb
run cb (c ∷ cs) = run (step cb c) cs

-- How many of the requests at these times are admitted when nothing is recorded between them, and the
-- breaker that they leave.
unfoldable pub admit_all : List ℕ → CircuitBreaker → ℕ × CircuitBreaker
admit_all [] cb = (0, cb)
admit_all (now ∷ ts) cb =
    let (cb', admitted) = allow now cb in
    let (n, last) = admit_all ts cb' in (if admitted then n + 1 else n, last)
