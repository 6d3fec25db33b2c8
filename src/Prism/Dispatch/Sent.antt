-- ===== src/Prism/Dispatch/Sent.antt =====
-- The alert that `Dispatch` of pkg/prism/dispatch.go sends on, described without the loops of the code: which
-- rules forward it, what they say of it, and whom its own violations are attributed to.
use tickraft.Base.{
  ◌≡◌, refl, sym, ap, ◌∙◌, Bool, false, ◌||◌, List, [], ◌∷◌, ◌++◌, map, Option, some, none, arith,
  inl, inr, Bool-cases, if◌then◌else◌,
}
use mathlib.Core.List.{append-nil, append_assoc}
use tickraft.Prism.{Violation, Event}
use tickraft.Prism.Dispatch.{
  MatchedRule, MatchResult, Evaluation, collect, collect_all, is_empty, evaluate_rules, attribute,
  final_violations,
}

abbrev pub forwards : Option MatchResult → Bool
forwards none = false
forwards (some r) = r.forward

abbrev pub some_forward : List (Event → Option MatchResult) → Event → Bool
some_forward [] e = false
some_forward (r ∷ rs) e = forwards (r e) || some_forward rs e

abbrev pub rules_match : List (Event → Option MatchResult) → Event → Bool
rules_match rs e = is_empty rs || some_forward rs e

-- Of the answer of a rule, the violations and the matched rules, when it forwards the alert.
abbrev pub told : Option MatchResult → List Violation
told none = []
told (some r) = if r.forward then r.violations else []

abbrev pub named : Option MatchResult → List MatchedRule
named none = []
named (some r) = if r.forward then r.matched else []

-- Of all rules, in their order.
abbrev pub all_told : List (Event → Option MatchResult) → Event → List Violation
all_told [] e = []
all_told (r ∷ rs) e = told (r e) ++ all_told rs e

abbrev pub all_named : List (Event → Option MatchResult) → Event → List MatchedRule
all_named [] e = []
all_named (r ∷ rs) e = named (r e) ++ all_named rs e

abbrev pub of_rule : MatchedRule → Violation → Violation
of_rule rule v = record v { rule_id = rule.id; rule_name = rule.name }

-- The violations of an alert as those of its first matched rule, when it has one.
abbrev pub of_first : List MatchedRule → List Violation → List Violation
of_first [] vs = vs
of_first (rule ∷ rules) vs = map (of_rule rule) vs

-- What the rules say of the alert, or its own violations when they say nothing.
abbrev pub sent_violations : List (Event → Option MatchResult) → Event → List Violation
sent_violations rs e =
    if is_empty (all_told rs e) then of_first (all_named rs e) e.violations else all_told rs e

abbrev pub sent_event : List (Event → Option MatchResult) → Event → Event
sent_event rs e = record e { violations = sent_violations rs e }

collect_is :
    (v : Evaluation) (o : Option MatchResult)
    → ((collect v o).matched ≡ (forwards o || v.matched))
      × ((collect v o).collected ≡ v.collected ++ told o)
      × ((collect v o).rules ≡ v.rules ++ named o)
unfolding collect
collect_is v none = (refl, sym (append-nil v.collected), sym (append-nil v.rules))
collect_is v (some r) = elim (Bool-cases r.forward) [
  | inl forward ↦ rw forward (refl, refl, refl)
  | inr stays ↦ rw stays (refl, sym (append-nil v.collected), sym (append-nil v.rules))
]

collect_all_is :
    (e : Event) (v : Evaluation) (rs : List (Event → Option MatchResult))
    → ((collect_all e v rs).matched ≡ (v.matched || some_forward rs e))
      × ((collect_all e v rs).collected ≡ v.collected ++ all_told rs e)
      × ((collect_all e v rs).rules ≡ v.rules ++ all_named rs e)
unfolding collect_all
collect_all_is e v [] = (ground arith, sym (append-nil v.collected), sym (append-nil v.rules))
collect_all_is e v (r ∷ rs) =
    let (matched, collected, rules) = collect_is v (r e) in
    let (later_matched, later_collected, later_rules) = collect_all_is e (collect v (r e)) rs in
    (
      ground (arith, later_matched, matched),
      later_collected
          ∙ ap (λ c. c ++ all_told rs e) collected
          ∙ append_assoc v.collected (told (r e)) (all_told rs e),
      later_rules
          ∙ ap (λ c. c ++ all_named rs e) rules
          ∙ append_assoc v.rules (named (r e)) (all_named rs e),
    )

attribute_is :
    (rule : MatchedRule) (vs : List Violation) → attribute rule vs ≡ map (of_rule rule) vs
unfolding attribute
attribute_is rule [] = refl
attribute_is rule (v ∷ vs) = ap (λ rest. of_rule rule v ∷ rest) (attribute_is rule vs)

final_violations_is :
    (told_all : List Violation) (rules : List MatchedRule) (own : List Violation)
    → final_violations told_all rules own
      ≡ (if is_empty told_all then of_first rules own else told_all)
unfolding final_violations
final_violations_is (c ∷ cs) rules own = refl
final_violations_is [] (rule ∷ rules) own = attribute_is rule own
final_violations_is [] [] own = refl

-- The evaluation of the rules: whether one matches, and the violations behind it.
pub evaluate_rules_is :
    (rs : List (Event → Option MatchResult)) (e : Event)
    → ((evaluate_rules rs e).matched ≡ rules_match rs e)
      × (final_violations (evaluate_rules rs e).collected (evaluate_rules rs e).rules e.violations
          ≡ sent_violations rs e)
unfolding evaluate_rules
evaluate_rules_is rs e =
    let (matched, collected, rules) =
      collect_all_is e (record { collected = []; matched = is_empty rs; rules = [] }) rs in
    (
      matched,
      rw (collected, rules) (final_violations_is (all_told rs e) (all_named rs e) e.violations),
    )
