-- ===== src/Prism/Dispatch/Repeats.antt =====
-- Repeated alerts through a dispatch with the guards of a plain deployment (`DefaultGuards` of
-- pkg/prism/config.go, `Dispatch` of pkg/prism/dispatch.go, pkg/prism/governance/dedup.go).
use tickraft.Base.{
  ℕ, ◌≡◌, refl, ◌∙◌, ap, Bool, ◌&&◌, List, [], ◌∷◌, Option, some, arith, if◌then◌else◌, ◌==◌,
}
use tickraft.Cron.Text.{Text}
use tickraft.Prism.{Event}
use tickraft.Prism.Dedup.{Decision, Dedup, default_dedup_window, new_dedup, process}
use tickraft.Prism.Dedup.Window.{decisions, by_rule, InOrder, decisions-by_rule}
use tickraft.Prism.Dispatch.{Engine, answer, dispatch}
use tickraft.Prism.Dispatch.Delivery.{is_pass, seen_event, dispatch-Delivers}
use tickraft.Prism.Dispatch.Sent.{rules_match}

-- The one guard, as it stands at a time.
abbrev pub default_guards : Dedup → ℕ → List (Event → Option Decision)
default_guards d now = (λ e. some (process d now (some e)).1) ∷ []

-- Alerts with the times at which they come and the numbers that the engine gives them.
abbrev pub Alerts : Type 0
Alerts = List (ℕ × Text × Event)

abbrev pub all_accepted : Engine → Dedup → Alerts → List Bool
all_accepted g d [] = []
all_accepted g d ((now, id, evt) ∷ es) =
    (dispatch (record g { guards = default_guards d now }) id evt).0.accepted
    ∷ all_accepted g (process d now (some (seen_event id evt))).0 es

abbrev pub as_seen : Alerts → List (ℕ × Option Event)
as_seen [] = []
as_seen ((now, id, evt) ∷ es) = (now, some (seen_event id evt)) ∷ as_seen es

-- A decision to pass, and rules that match.
abbrev pub with_rules : Engine → List Decision → Alerts → List Bool
with_rules g [] es = []
with_rules g (x ∷ xs) [] = []
with_rules g (x ∷ xs) ((now, id, evt) ∷ es) =
    (is_pass x && rules_match g.rules (seen_event id evt)) ∷ with_rules g xs es

accepted-decisions :
    (g : Engine) (d : Dedup) (es : Alerts)
    → all_accepted g d es ≡ with_rules g (decisions d (as_seen es)) es
unfolding answer
accepted-decisions g d [] = refl
accepted-decisions g d ((now, id, evt) ∷ es) =
    let sent = dispatch-Delivers (record g { guards = default_guards d now }) id evt in
    let first : (dispatch (record g { guards = default_guards d now }) id evt).0.accepted ≡ (
        is_pass (process d now (some (seen_event id evt))).1
        && rules_match g.rules (seen_event id evt)) =
      sent.accepted ∙ ground arith in
    rw first (
      ap
        (λ rest.
          (is_pass (process d now (some (seen_event id evt))).1
            && rules_match g.rules (seen_event id evt))
          ∷ rest)
        (accepted-decisions g (process d now (some (seen_event id evt))).0 es))

-- With the guards of a plain deployment, for alerts that come at times that do not go back: an alert is
-- accepted exactly when none of its fingerprint has passed the guard less than the window before, and a rule
-- forwards it, or there are no rules.
pub accepted-by_rule :
    (g : Engine) (window : ℕ) (es : Alerts)
    → InOrder 0 (as_seen es)
    → all_accepted g (new_dedup window) es
      ≡ with_rules g
          (by_rule (if window == 0 then default_dedup_window else window) [] (as_seen es))
          es
accepted-by_rule g window es order =
    accepted-decisions g (new_dedup window) es
    ∙ ap (λ ds. with_rules g ds es) (decisions-by_rule window (as_seen es) order)
