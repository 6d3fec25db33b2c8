-- ===== src/Breaker/Probes.antt =====
-- Which requests an open or half-open breaker admits (pkg/circuitbreaker/circuitbreaker.go, `Allow`).
use tickraft.Base.{◌++◌, ℕ, ◌+◌, ◌-◌, ◌≤◌, ◌<◌, ◌≡◌, refl, List, [], ◌∷◌, arith, length, min}
use tickraft.Breaker.{state_open, state_half_open, CircuitBreaker, admit_all, allow}
use tickraft.Breaker.Invariant.{IsValid}

-- Every time in the list is before, or not before, the end of the cooldown.
abbrev pub AllBefore : ℕ → List ℕ → Type 0
AllBefore t [] = Unit {0}
AllBefore t (now ∷ ts) = (now < t) × AllBefore t ts

abbrev pub AllFrom : ℕ → List ℕ → Type 0
AllFrom t [] = Unit {0}
AllFrom t (now ∷ ts) = (t ≤ now) × AllFrom t ts

admit_all-AllBefore :
    (cb : CircuitBreaker) (ts : List ℕ)
    → cb.state ≡ state_open
    → AllBefore (cb.last_failure_time + cb.cooldown) ts
    → admit_all ts cb ≡ (0, cb)
unfolding admit_all allow
admit_all-AllBefore cb [] o h = refl
admit_all-AllBefore cb (now ∷ ts) o h = ground (arith, admit_all-AllBefore cb ts o h.1)

half_open_admits :
    (cb : CircuitBreaker) (ts : List ℕ)
    → cb.state ≡ state_half_open
    → (admit_all ts cb).0 ≡ min (length ts) (cb.half_open_max - cb.half_open_passed)
unfolding admit_all allow
half_open_admits cb [] o = ground arith
half_open_admits cb (now ∷ ts) o = ground (
  arith,
  half_open_admits cb ts o,
  half_open_admits (record cb { half_open_passed = cb.half_open_passed + 1 }) ts o,
)

admit_all-AllFrom :
    (cb : CircuitBreaker) (ts : List ℕ)
    → IsValid cb
    → cb.state ≡ state_open
    → AllFrom (cb.last_failure_time + cb.cooldown) ts
    → (admit_all ts cb).0 ≡ min (length ts) cb.half_open_max
unfolding admit_all allow
admit_all-AllFrom cb [] v o h = ground arith
admit_all-AllFrom cb (now ∷ ts) v o h = ground (
  arith,
  v.probes_pos,
  half_open_admits (record cb { state = state_half_open; half_open_passed = 1 }) ts refl,
)

-- An open breaker of valid state refuses every request before the cooldown has passed since the last
-- failure, and stays as it is. Of the requests after that, made before any result is recorded, it admits
-- exactly the first `half_open_max`, or all if there are fewer.
pub admit_all-append :
    (cb : CircuitBreaker) (early late : List ℕ)
    → IsValid cb
    → cb.state ≡ state_open
    → AllBefore (cb.last_failure_time + cb.cooldown) early
    → AllFrom (cb.last_failure_time + cb.cooldown) late
    → (admit_all early cb ≡ (0, cb))
      × ((admit_all (early ++ late) cb).0 ≡ min (length late) cb.half_open_max)
unfolding admit_all allow
admit_all-append cb [] late v o before from = (refl, admit_all-AllFrom cb late v o from)
admit_all-append cb (now ∷ early) late v o before from = (
  admit_all-AllBefore cb (now ∷ early) o before,
  ground (arith, (admit_all-append cb early late v o before.1 from).1),
)

-- A half-open breaker whose probes are all out refuses every request, however late, and stays as it
-- is: no clock leads out of this state, only a recorded result.
pub admit_all_exhausted :
    (cb : CircuitBreaker) (ts : List ℕ)
    → cb.state ≡ state_half_open
    → cb.half_open_passed ≡ cb.half_open_max
    → admit_all ts cb ≡ (0, cb)
unfolding admit_all allow
admit_all_exhausted cb [] o h = refl
admit_all_exhausted cb (now ∷ ts) o h = ground (arith, admit_all_exhausted cb ts o h)
