-- ===== src/Retry/Attempts.antt =====
-- How a retried function ends (pkg/retry/retry.go, `Do` and `DoAsync`).
use tickraft.Base.{
  ℕ, zero, suc, ◌≡◌, ◌<◌, refl, ◌+◌, ◌-◌, true, false, List, [], ◌∷◌, Option, some, none, arith,
  Bool-cases, inl, inr, leb, ◌==◌,
}
use tickraft.Retry.{
  Retry, World, wait, after_wait, attempt_result, or_next, do_from, do_retry, callback_results,
  schedule_attempt, do_async,
}

module _ {ℓ} {E : Type ℓ} (r : Retry E) (w : World E) where
  last_agrees :
      (ctx called : Option E) (attempt : ℕ) (next : Option E) (others : List (Option E))
      → attempt + 1 ≡ r.max_attempts
      → callback_results r w ctx called attempt others
        ≡ or_next r w (attempt_result r w ctx called attempt) next ∷ []
  unfolding callback_results attempt_result or_next
  last_agrees (some e) called attempt next others count = refl
  last_agrees none none attempt next others count = refl
  last_agrees none (some e) attempt next others count =
      let last : attempt == r.max_attempts - 1 ≡ true = ground arith in
      let reached : leb (r.max_attempts - 1) attempt ≡ true = ground arith in
      elim (Bool-cases (r.retryable e)) [
        | inl again ↦ rw again (rw last (rw reached refl))
        | inr final ↦ rw final refl
      ]

  earlier_agrees :
      (ctx called : Option E) (attempt : ℕ) (next : Option E)
      → attempt + 1 < r.max_attempts
      → wait r w attempt ≡ none
      → callback_results r w ctx called attempt (next ∷ [])
        ≡ or_next r w (attempt_result r w ctx called attempt) next ∷ []
  unfolding callback_results attempt_result or_next after_wait
  earlier_agrees (some e) called attempt next count calm = refl
  earlier_agrees none none attempt next count calm = refl
  earlier_agrees none (some e) attempt next count calm =
      let more : attempt == r.max_attempts - 1 ≡ false = ground arith in
      let below : leb (r.max_attempts - 1) attempt ≡ false = ground arith in
      elim (Bool-cases (r.retryable e)) [
        | inl again ↦ rw again (rw more (rw below (rw calm refl)))
        | inr final ↦ rw final refl
      ]

  same_from :
      (left attempt : ℕ) (last_err : Option E)
      → suc left + attempt ≡ r.max_attempts
      → ((n : ℕ) → wait r w n ≡ none)
      → schedule_attempt r w (suc left) attempt ≡ do_from r w (suc left) attempt last_err ∷ []
  unfolding schedule_attempt do_from
  same_from zero attempt last_err count calm =
      last_agrees (w.ctx_err attempt) (w.call attempt) attempt (w.call attempt) []
        (omega (arith, count))
  same_from (suc left) attempt last_err count calm =
      rw (same_from left (attempt + 1) (w.call attempt) (omega (arith, count)) calm) (
        earlier_agrees (w.ctx_err attempt) (w.call attempt) attempt
          (do_from r w (suc left) (attempt + 1) (w.call attempt)) (omega (arith, count))
          (calm attempt))

  same_from_start :
      (n : ℕ)
      → 0 < n
      → n ≡ r.max_attempts
      → ((k : ℕ) → wait r w k ≡ none)
      → schedule_attempt r w n 0 ≡ do_from r w n 0 none ∷ []
  same_from_start zero some_attempt count calm = absurd (omega (arith, some_attempt))
  same_from_start (suc n) some_attempt count calm = same_from n 0 none (omega (arith, count)) calm

  -- With one attempt at least, and with no context that is done during a wait: `DoAsync` completes exactly
  -- once, within its number of callbacks, and with the result that `Do` returns on the same answers of the
  -- context and of the function.
  pub do_async-do_retry :
      0 < r.max_attempts → ((n : ℕ) → wait r w n ≡ none) → do_async r w ≡ do_retry r w ∷ []
  unfolding do_async do_retry
  do_async-do_retry some_attempt calm = same_from_start r.max_attempts some_attempt refl calm
