-- ===== src/Retry.antt =====
-- Retries: pkg/retry/retry.go, `New`, `Do` and `DoAsync`. An error is a value of any type; what the caller's
-- function and its context answer at each attempt is an argument, and so is the backoff.
pub mod Attempts
pub mod Endings
mod Examples
use tickraft.Base.{
  ℕ, zero, suc, ◌+◌, ◌-◌, Bool, true, false, not, ◌||◌, List, [], ◌∷◌, Option, some, none, ltb, leb,
  ◌==◌, if◌then◌else◌, Outcome, ok, failed, ℤ, pos, negsuc,
}

pub record Retry {ℓ} (E : Type ℓ) : Type ℓ where
  pub max_attempts : ℕ
  pub backoff : ℕ → ℕ
  pub retryable : E → Bool

pub data ConfigError : Type 0 where
  bad_max_attempts nil_backoff : ConfigError

-- The checks at the end of `New`; a backoff that is nil is none.
unfoldable pub new {ℓ} :
    {E : Type ℓ} → ℤ → Option (ℕ → ℕ) → (E → Bool) → Outcome ConfigError (Retry E)
new (negsuc n) backoff retryable = failed bad_max_attempts
new (pos zero) backoff retryable = failed bad_max_attempts
new (pos (suc n)) none retryable = failed nil_backoff
new (pos (suc n)) (some b) retryable =
    ok (record { max_attempts = suc n; backoff = b; retryable = retryable })

-- What the context and the function answer: `ctx.Err()` before an attempt, the error of the attempt, and
-- the error of the context when it is done during the wait behind the attempt.
pub record World {ℓ} (E : Type ℓ) : Type ℓ where
  pub ctx_err : ℕ → Option E
  pub call : ℕ → Option E
  pub wait_err : ℕ → Option E

module _ {ℓ} {E : Type ℓ} (r : Retry E) (w : World E) where
  -- The wait behind a failed attempt: the error that ends it, if the context is done.
  unfoldable pub wait : ℕ → Option E
  wait attempt = if ltb 0 (r.backoff attempt) then w.wait_err attempt else none

  -- The context is done during the wait, or the loop goes on.
  unfoldable pub after_wait : Option E → Option (Option E)
  after_wait none = none
  after_wait (some e) = some (some e)

  -- What an attempt of `Do` leads to, by what the context and the function answer: a result, or the next
  -- attempt.
  unfoldable pub attempt_result : Option E → Option E → ℕ → Option (Option E)
  attempt_result (some e) called attempt = some (some e)
  attempt_result none none attempt = some none
  attempt_result none (some e) attempt =
      if not (r.retryable e)
      then some (some e)
      else if attempt == r.max_attempts - 1
      then some (some e)
      else after_wait (wait attempt)

  unfoldable pub or_next : Option (Option E) → Option E → Option E
  or_next (some result) next = result
  or_next none next = next

  -- The loop of `Do`, over the attempts that are left. Behind its last round it returns `lastErr`, which
  -- is nil when there was no round.
  unfoldable pub do_from : ℕ → ℕ → Option E → Option E
  do_from zero attempt last_err = last_err
  do_from (suc left) attempt last_err =
      or_next (attempt_result (w.ctx_err attempt) (w.call attempt) attempt)
        (do_from left (attempt + 1) (w.call attempt))

  unfoldable pub do_retry : Option E
  do_retry = do_from r.max_attempts 0 none

  -- The callback of an attempt: the results that it hands to `onComplete`, or those of the next attempt.
  unfoldable pub callback_results : Option E → Option E → ℕ → List (Option E) → List (Option E)
  callback_results (some e) called attempt next = some e ∷ []
  callback_results none none attempt next = none ∷ []
  callback_results none (some e) attempt next =
      if not (r.retryable e) || leb (r.max_attempts - 1) attempt then some e ∷ [] else next

  -- `scheduleAttempt`: the results that `onComplete` is called with, on fuel.
  unfoldable pub schedule_attempt : ℕ → ℕ → List (Option E)
  schedule_attempt zero attempt = []
  schedule_attempt (suc fuel) attempt =
      callback_results (w.ctx_err attempt) (w.call attempt) attempt
        (schedule_attempt fuel (attempt + 1))

  -- `DoAsync`: at most `maxAttempts` callbacks run, so that this is enough fuel.
  unfoldable pub do_async : List (Option E)
  do_async = schedule_attempt r.max_attempts 0
