-- ===== src/Breaker/Examples.antt =====
-- Runs of the circuit breaker, and its theorems at concrete inputs.
use tickraft.Base.{◌≡◌, refl, List, [], ◌∷◌, arith, pos, negsuc, min}
use tickraft.Breaker.{
  state_closed, state_open, state_half_open, Config, CircuitBreaker, Call, allowing, succeeded,
  failed, new, step, run, admit_all, state_string,
}
use tickraft.Breaker.Invariant.{IsValid, run-IsValid}
use tickraft.Breaker.Trip.{failures, AllTrue, answers, run-StreaksBelow}
use tickraft.Breaker.Probes.{admit_all-append}

abbrev small : Config
small = record { failure_threshold = pos 2; cooldown = pos 100; half_open_max = negsuc 4 }

abbrev life : List Call
life = allowing 5 ∷ failed 10 ∷ succeeded ∷ failed 20 ∷ failed 30 ∷ allowing 129 ∷ allowing 130 ∷ []

-- The failure before the success does not count; the breaker opens at 30 and probes at 130.
life_probes : state_string (run (new small) life).state ≡ "half_open"
unfolding run new step state_string
life_probes = refl

abbrev opened : CircuitBreaker
opened = record {
  failure_threshold = 2;
  cooldown = 100;
  half_open_max = 1;
  state = state_open;
  failure_count = 2;
  last_failure_time = 30;
  half_open_passed = 0;
}

opened_reached : run (new small) (failures (20 ∷ 30 ∷ [])) ≡ opened
unfolding run new step
opened_reached = refl

opened-IsValid : IsValid opened
opened-IsValid = ground arith

run-IsValid_example : IsValid (run (new small) life)
run-IsValid_example = run-IsValid small life

abbrev calm : List Call
calm = failed 1 ∷ allowing 2 ∷ succeeded ∷ failed 3 ∷ allowing 4 ∷ []

run-StreaksBelow_example :
    ((run (new small) calm).state ≡ state_closed) × AllTrue (answers (new small) calm)
unfolding new
run-StreaksBelow_example = run-StreaksBelow small calm (omega arith)

admit_all-append_example :
    (admit_all (31 ∷ 129 ∷ []) opened ≡ (0, opened))
    × ((admit_all (31 ∷ 129 ∷ 130 ∷ 140 ∷ 150 ∷ []) opened).0 ≡ min 3 1)
admit_all-append_example =
    admit_all-append opened (31 ∷ 129 ∷ []) (130 ∷ 140 ∷ 150 ∷ []) opened-IsValid refl (omega arith)
      (omega arith)

abbrev exhausted : CircuitBreaker
exhausted = record opened { state = state_half_open; half_open_passed = 1 }
