-- ===== src/Retry/Examples.antt =====
-- A function that fails twice and then succeeds, and the theorems at it.
use tickraft.Base.{ℕ, ◌≡◌, refl, true, some, none, [], ◌∷◌, arith, ltb, if◌then◌else◌}
use tickraft.Retry.{
  Retry, World, wait, do_retry, do_async, do_from, attempt_result, or_next, after_wait,
}
use tickraft.Retry.Attempts.{do_async-do_retry}
use tickraft.Retry.Endings.{FirstEnds, do_retry-FirstEnds}

abbrev thrice : Retry ℕ
thrice = record { max_attempts = 3; backoff = λ n. 0; retryable = λ e. true }

abbrev flaky : World ℕ
flaky = record {
  ctx_err = λ n. none;
  call = λ n. if ltb n 2 then some n else none;
  wait_err = λ n. none;
}

no_wait : (n : ℕ) → wait thrice flaky n ≡ none
unfolding wait
no_wait n = refl

do_async-do_retry_example : do_async thrice flaky ≡ do_retry thrice flaky ∷ []
do_async-do_retry_example = do_async-do_retry thrice flaky (omega arith) no_wait

third_time : do_retry thrice flaky ≡ none
unfolding do_retry do_from attempt_result or_next after_wait wait
third_time = refl

do_retry-FirstEnds_example : FirstEnds thrice flaky 0 (do_retry thrice flaky)
do_retry-FirstEnds_example = do_retry-FirstEnds thrice flaky (omega arith)
