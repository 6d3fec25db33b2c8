-- ===== src/Prism/Dispatch/Effects.antt =====
-- The calls of a dispatch (`dispatchToChannels` of pkg/prism/dispatch.go), sorted by what is called.
use tickraft.Base.{◌≡◌, refl, ap, Bool, true, List, [], ◌∷◌, inl, inr, Bool-cases, if◌then◌else◌}
use tickraft.Cron.Text.{Text}
use tickraft.Prism.{Event}
use tickraft.Prism.Dispatch.{Engine, Effect, recorded, hooked, submitted, dead_lettered, deliver}

-- The channels that were handed the alert, or whose dead letter was, with the alert.
abbrev pub handed : List Effect → List (Text × Event)
handed [] = []
handed (recorded e ∷ fx) = handed fx
handed (hooked e ∷ fx) = handed fx
handed (submitted name e ∷ fx) = (name, e) ∷ handed fx
handed (dead_lettered name e ∷ fx) = (name, e) ∷ handed fx

-- The channels whose job the pool took.
abbrev pub taken : List Effect → List (Text × Event)
taken [] = []
taken (recorded e ∷ fx) = taken fx
taken (hooked e ∷ fx) = taken fx
taken (submitted name e ∷ fx) = (name, e) ∷ taken fx
taken (dead_lettered name e ∷ fx) = taken fx

abbrev pub records : List Effect → List Event
records [] = []
records (recorded e ∷ fx) = e ∷ records fx
records (hooked e ∷ fx) = records fx
records (submitted name e ∷ fx) = records fx
records (dead_lettered name e ∷ fx) = records fx

abbrev pub hooks : List Effect → List Event
hooks [] = []
hooks (recorded e ∷ fx) = hooks fx
hooks (hooked e ∷ fx) = e ∷ hooks fx
hooks (submitted name e ∷ fx) = hooks fx
hooks (dead_lettered name e ∷ fx) = hooks fx

-- An alert for each channel, and for those that the pool takes.
abbrev pub to_each : Event → List Text → List (Text × Event)
to_each e [] = []
to_each e (name ∷ names) = (name, e) ∷ to_each e names

abbrev pub kept : (Text → Bool) → List Text → List Text
kept p [] = []
kept p (name ∷ names) = if p name then name ∷ kept p names else kept p names

pub handed-deliver :
    (g : Engine) (e : Event) (names : List Text)
    → g.dead_letter ≡ true
    → handed (deliver g e names) ≡ to_each e names
unfolding deliver
handed-deliver g e [] letters = refl
handed-deliver g e (name ∷ names) letters = rw letters (elim (Bool-cases (g.submit name)) [
  | inl taken ↦ rw taken (ap (λ rest. (name, e) ∷ rest) (handed-deliver g e names letters))
  | inr full ↦ rw full (ap (λ rest. (name, e) ∷ rest) (handed-deliver g e names letters))
])

-- What `dispatchToChannels` calls: jobs for the channels that the pool takes, no record and no hook.
pub deliver_calls :
    (g : Engine) (e : Event) (names : List Text)
    → (taken (deliver g e names) ≡ to_each e (kept g.submit names))
      × (records (deliver g e names) ≡ [])
      × (hooks (deliver g e names) ≡ [])
unfolding deliver
deliver_calls g e [] = (refl, refl, refl)
deliver_calls g e (name ∷ names) =
    let (jobs, no_record, no_hook) = deliver_calls g e names in
    elim (Bool-cases (g.submit name)) [
      | inl free ↦ rw free (ap (λ rest. (name, e) ∷ rest) jobs, no_record, no_hook)
      | inr full ↦ rw full (elim (Bool-cases g.dead_letter) [
        | inl letters ↦ rw letters (jobs, no_record, no_hook)
        | inr none_left ↦ rw none_left (jobs, no_record, no_hook)
      ])
    ]
