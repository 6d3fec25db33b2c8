-- ===== src/Prism/Dispatch.antt =====
-- The dispatch of an alert: `Dispatch` of pkg/prism/dispatch.go. Guards, rules and channels are
-- parameters; a guard or a rule that panics gives no answer.
pub mod Sent
pub mod Effects
pub mod Delivery
pub mod Repeats
use tickraft.Base.{ℕ, Bool, true, false, List, [], ◌∷◌, ◌++◌, Option, some, none, if◌then◌else◌}
use tickraft.Cron.Text.{Text}
use tickraft.Prism.{Violation, Event}
use tickraft.Prism.Dedup.{Decision, decision_pass, decision_suppress, decision_aggregate}

-- `MatchedRule`
pub record MatchedRule : Type 0 where
  pub id : ℕ
  pub name : Text

pub record MatchResult : Type 0 where
  pub forward : Bool
  pub matched : List MatchedRule
  pub violations : List Violation

-- What the engine holds: of a channel its name, and whether the pool takes the job for it; of the
-- callbacks, whether they are registered.
pub record Engine : Type 0 where
  pub guards : List (Event → Option Decision)
  pub rules : List (Event → Option MatchResult)
  pub channels : List Text
  pub submit : Text → Bool
  pub on_alert : Bool
  pub post_guard_hook : Bool
  pub dead_letter : Bool

pub data Message : Type 0 where
  suppressed_by_guard aggregated_by_guard suppressed_by_rules no_channels alert_accepted : Message

pub record DispatchResult : Type 0 where
  pub accepted : Bool
  pub event_id : Text
  pub dispatched_channels : List Text
  pub message : Message

-- What a dispatch calls, in order.
pub data Effect : Type 0 where
  recorded hooked : Event → Effect
  submitted dead_lettered : Text → Event → Effect

abbrev pub Dispatched : Type 0
Dispatched = DispatchResult × List Effect

-- `process`: a panic counts as a pass.
unfoldable pub answer : Option Decision → Decision
answer none = decision_pass
answer (some d) = d

unfoldable pub record_alert : Engine → Event → List Effect
record_alert g e = if g.on_alert then recorded e ∷ [] else []

abbrev pub rejected : Text → Message → DispatchResult
rejected id m = record { accepted = false; event_id = id; dispatched_channels = []; message = m }

-- A round of `runGovernanceGuards`, for the decision of a guard and what the later guards come to.
unfoldable pub guard_decided :
    Engine → Text → Event → Option Dispatched → Decision → Option Dispatched
unfolding record_alert
guard_decided g id e rest decision_pass = rest
guard_decided g id e rest decision_suppress =
    some (rejected id suppressed_by_guard, record_alert g e)
guard_decided g id e rest decision_aggregate =
    some (rejected id aggregated_by_guard, record_alert g e)

-- `runGovernanceGuards`: `none` when all guards have passed.
unfoldable pub run_guards :
    Engine → Text → Event → List (Event → Option Decision) → Option Dispatched
unfolding answer guard_decided
run_guards g id e [] = none
run_guards g id e (guard ∷ gs) = guard_decided g id e (run_guards g id e gs) (answer (guard e))

-- The results of `evaluateRules`.
pub record Evaluation : Type 0 where
  pub collected : List Violation
  pub matched : Bool
  pub rules : List MatchedRule

-- A round of its loop, for the result of a rule.
unfoldable pub collect : Evaluation → Option MatchResult → Evaluation
collect v none = v
collect v (some r) =
    if r.forward
    then record {
      collected = v.collected ++ r.violations;
      matched = true;
      rules = v.rules ++ r.matched;
    }
    else v

unfoldable pub collect_all : Event → Evaluation → List (Event → Option MatchResult) → Evaluation
unfolding collect
collect_all e v [] = v
collect_all e v (r ∷ rs) = collect_all e (collect v (r e)) rs

abbrev pub is_empty {ℓ} : {A : Type ℓ} → List A → Bool
is_empty [] = true
is_empty (x ∷ xs) = false

unfoldable pub evaluate_rules : List (Event → Option MatchResult) → Event → Evaluation
unfolding collect_all
evaluate_rules rs e =
    collect_all e (record { collected = []; matched = is_empty rs; rules = [] }) rs

unfoldable pub attribute : MatchedRule → List Violation → List Violation
attribute rule [] = []
attribute rule (v ∷ vs) = record v { rule_id = rule.id; rule_name = rule.name } ∷ attribute rule vs

-- The violations behind the rules: those of the rules, or the event's own, of the first rule that matched.
unfoldable pub final_violations :
    List Violation → List MatchedRule → List Violation → List Violation
unfolding attribute
final_violations (c ∷ cs) rules own = c ∷ cs
final_violations [] (rule ∷ rules) own = attribute rule own
final_violations [] [] own = own

-- `dispatchToChannels`, for the channels from one on.
unfoldable pub deliver : Engine → Event → List Text → List Effect
deliver g e [] = []
deliver g e (name ∷ names) =
    let rest = deliver g e names in
    if g.submit name
    then submitted name e ∷ rest
    else if g.dead_letter
    then dead_lettered name e ∷ rest
    else rest

unfoldable pub with_default : Event → Event
with_default e =
    if is_empty e.violations
    then record e {
      violations =
          record { kind = e.event_type; rule_id = 0; rule_name = []; severity = []; metric = none }
          ∷ [];
    }
    else e

unfoldable pub send_all : Engine → Text → Event → Dispatched
unfolding deliver record_alert
send_all g id e = (
  record {
    accepted = true;
    event_id = id;
    dispatched_channels = g.channels;
    message = if is_empty g.channels then no_channels else alert_accepted;
  },
  record_alert g e ++ deliver g e g.channels,
)

-- The part of `Dispatch` behind the guards.
unfoldable pub match_rules : Engine → Text → Event → Dispatched
unfolding evaluate_rules final_violations send_all
match_rules g id e =
    let v = evaluate_rules g.rules e in
    if v.matched
    then send_all g id (record e { violations = final_violations v.collected v.rules e.violations })
    else (rejected id suppressed_by_rules, [])

-- The call of the hook, when it is registered, ahead of the rest.
abbrev pub call_hook : Bool → Event → Dispatched → Dispatched
call_hook true e (r, fx) = (r, hooked e ∷ fx)
call_hook false e out = out

unfoldable pub pass_guards : Engine → Text → Event → Option Dispatched → Dispatched
unfolding match_rules
pass_guards g id e (some out) = out
pass_guards g id e none = call_hook g.post_guard_hook e (match_rules g id e)

unfoldable pub dispatch : Engine → Text → Event → Dispatched
unfolding pass_guards run_guards with_default
dispatch g id evt =
    let e = record (with_default evt) { event_id = id } in
    pass_guards g id e (run_guards g id e g.guards)
