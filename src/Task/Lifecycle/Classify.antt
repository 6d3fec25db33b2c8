-- ===== src/Task/Lifecycle/Classify.antt =====
-- The two readers of a schedule string agree (pkg/task/schedule.go, `ClassifySchedule`, `parseSchedule`).
use tickraft.Base.{◌≡◌, refl, [], ◌∷◌, Option, some, none, ℤ, Outcome, ok, failed, ◌>>=◌}
use tickraft.Cron.Text.{Text}
use tickraft.Task.Lifecycle.{
  Environment, TaskError, positive, parse_cron, classify_by, classify_schedule, parse_by,
  parse_schedule,
}

abbrev pub error_of {ℓ} : {A : Type ℓ} → Outcome TaskError A → Option TaskError
error_of (ok x) = none
error_of (failed why) = some why

error_of-both {κ ℓ ι} :
    {A : Type κ} {B : Type ℓ} {C : Type ι} (call : Outcome TaskError A) (f : A → B) (g : A → C)
    → error_of (call >>= λ a. ok (f a)) ≡ error_of (call >>= λ a. ok (g a))
error_of-both (ok x) f g = refl
error_of-both (failed why) f g = refl

module _ (env : Environment) where
  by-errors :
      (s : Text) (d : Option ℤ) → error_of (classify_by env s d) ≡ error_of (parse_by env s d)
  unfolding classify_by parse_by
  by-errors s (some d) = error_of-both (positive d) _ _
  by-errors s none = error_of-both (parse_cron env s) _ _

  -- `ClassifySchedule` and `parseSchedule` fail on the same strings, with the same errors.
  pub classify_schedule-errors :
      (s : Text) → error_of (classify_schedule env s) ≡ error_of (parse_schedule env s)
  unfolding classify_schedule parse_schedule
  classify_schedule-errors [] = refl
  classify_schedule-errors (c ∷ s) = by-errors (c ∷ s) (env.parse_duration (c ∷ s))
