-- ===== src/Retry/Endings.antt =====
-- Which attempt ends a retried call, and with which result (pkg/retry/retry.go, `Do`).
use tickraft.Base.{
  ℕ, zero, suc, ◌≡◌, ◌≢◌, ◌⊎◌, ◌<◌, ◌≤◌, refl, ◌+◌, ◌-◌, true, false, Option, some, none, arith,
  Bool-cases, Option-cases, inl, inr, ◌==◌,
}
use tickraft.Retry.{Retry, World, wait, after_wait, attempt_result, or_next, do_from, do_retry}

module _ {ℓ} {E : Type ℓ} (r : Retry E) (w : World E) where
  -- How attempt `k` ends the call with a result, by what the context and the function answer: the context
  -- is done, the function succeeds, its error may not be retried, it was the last attempt, or the
  -- context is done during the wait for the next one.
  pub data EndsBy (ctx called : Option E) (k : ℕ) (result : Option E) : Type ℓ where
    cancelled : (e : E) → ctx ≡ some e → result ≡ some e → EndsBy ctx called k result
    succeeded : ctx ≡ none → called ≡ none → result ≡ none → EndsBy ctx called k result
    final :
        (e : E)
        → ctx ≡ none
        → called ≡ some e
        → r.retryable e ≡ false
        → result ≡ some e
        → EndsBy ctx called k result
    last :
        (e : E)
        → ctx ≡ none
        → called ≡ some e
        → k + 1 ≡ r.max_attempts
        → result ≡ some e
        → EndsBy ctx called k result
    stopped :
        (e e' : E)
        → ctx ≡ none
        → called ≡ some e
        → r.retryable e ≡ true
        → k + 1 ≢ r.max_attempts
        → wait r w k ≡ some e'
        → result ≡ some e'
        → EndsBy ctx called k result

  -- Attempt `k` fails with an error that may be retried, is not the last one, and its wait is not
  -- disturbed.
  pub record GoesBy (ctx called : Option E) (k : ℕ) : Type ℓ where
    pub live : ctx ≡ none
    pub error : E
    pub failing : called ≡ some error
    pub again : r.retryable error ≡ true
    pub others : k + 1 ≢ r.max_attempts
    pub calm : wait r w k ≡ none

  abbrev pub Ends : ℕ → Option E → Type ℓ
  Ends k result = EndsBy (w.ctx_err k) (w.call k) k result

  abbrev pub Goes : ℕ → Type ℓ
  Goes k = GoesBy (w.ctx_err k) (w.call k) k

  attempt_cases :
      (ctx called : Option E) (k : ℕ) (next : Option E)
      → k < r.max_attempts
      → EndsBy ctx called k (or_next r w (attempt_result r w ctx called k) next)
        ⊎ (GoesBy ctx called k × (or_next r w (attempt_result r w ctx called k) next ≡ next))
  unfolding or_next attempt_result after_wait
  attempt_cases (some e) called k next h = inl (EndsBy.cancelled e refl refl)
  attempt_cases none none k next h = inl (EndsBy.succeeded refl refl refl)
  attempt_cases none (some e) k next h = elim (Bool-cases (r.retryable e)) [
    | inr refused ↦ inl (EndsBy.final e refl refl refused (rw refused refl))
    | inl again ↦ elim (Bool-cases (k == r.max_attempts - 1)) [
      | inl at_end ↦
          let count : k + 1 ≡ r.max_attempts = ground arith in
          inl (EndsBy.last e refl refl count (rw again (rw at_end refl)))
      | inr more ↦ elim (Option-cases (wait r w k)) [
        | inr (e', done) ↦
            let others : k + 1 ≢ r.max_attempts = λ eq. ground arith in
            inl
              (EndsBy.stopped e e' refl refl again others done (rw again (rw more (rw done refl))))
        | inl calm ↦ inr (
          record {
            live = refl;
            error = e;
            failing = refl;
            again = again;
            others = λ eq. ground arith;
            calm = calm;
          },
          rw again (rw more (rw calm refl)),
        )
      ]
    ]
  ]

  -- The attempt from `low` on that ends the call, behind others that go on.
  abbrev pub FirstEnds : ℕ → Option E → Type ℓ
  FirstEnds low result =
      (k : ℕ) × (low ≤ k)
      × (k < r.max_attempts)
      × Ends k result
      × ((i : ℕ) → low ≤ i → i < k → Goes i)

  Ends-FirstEnds :
      (k : ℕ) (result : Option E) → k < r.max_attempts → Ends k result → FirstEnds k result
  Ends-FirstEnds k result below ends =
      (k, omega arith, below, ends, λ i a b. absurd (omega (arith, a, b)))

  Goes-FirstEnds :
      (k : ℕ) (result : Option E) → Goes k → FirstEnds (k + 1) result → FirstEnds k result
  Goes-FirstEnds k result goes (m, from, below, ends, before) = (
    m,
    omega (arith, from),
    below,
    ends,
    λ i a b. elim (Bool-cases (i == k)) [
      | inl here ↦ let eq : i ≡ k = ground arith in rw eq goes
      | inr later ↦ before i (ground arith) b
    ],
  )

  do_from-FirstEnds :
      (left k : ℕ) (last_err : Option E)
      → suc left + k ≡ r.max_attempts
      → FirstEnds k (do_from r w (suc left) k last_err)
  unfolding do_from
  do_from-FirstEnds zero k last_err count =
      let below : k < r.max_attempts = omega (arith, count) in
      elim (attempt_cases (w.ctx_err k) (w.call k) k (w.call k) below) [
        | inl ends ↦ Ends-FirstEnds k _ below ends
        | inr (goes, same) ↦ absurd (goes.others (omega (arith, count)))
      ]
  do_from-FirstEnds (suc left) k last_err count =
      let below : k < r.max_attempts = omega (arith, count) in
      let rest = do_from-FirstEnds left (k + 1) (w.call k) (omega (arith, count)) in
      elim (attempt_cases (w.ctx_err k) (w.call k) k _ below) [
        | inl ends ↦ Ends-FirstEnds k _ below ends
        | inr (goes, same) ↦ Goes-FirstEnds k _ goes (rw same rest)
      ]

  do_from-FirstEnds_all : (n : ℕ) → 0 < n → n ≡ r.max_attempts → FirstEnds 0 (do_from r w n 0 none)
  do_from-FirstEnds_all zero some_attempt count = absurd (omega (arith, some_attempt))
  do_from-FirstEnds_all (suc n) some_attempt count =
      do_from-FirstEnds n 0 none (omega (arith, count))

  -- With one attempt at least: `Do` returns what the first attempt that ends the call gives it, and there is
  -- one within the number of attempts. An attempt ends the call when the context is done before it or in
  -- the wait behind it (with the context's error), when the function succeeds (with nil), and when the
  -- function fails with an error that may not be retried, or at the last attempt (with its error). Every
  -- earlier attempt was none of these: it failed on a live context with an error that may be retried.
  pub do_retry-FirstEnds : 0 < r.max_attempts → FirstEnds 0 (do_retry r w)
  unfolding do_retry
  do_retry-FirstEnds some_attempt = do_from-FirstEnds_all r.max_attempts some_attempt refl
