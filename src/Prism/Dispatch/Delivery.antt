-- ===== src/Prism/Dispatch/Delivery.antt =====
-- What `Dispatch` of pkg/prism/dispatch.go calls for an alert.
use tickraft.Base.{
  ◌≡◌, refl, sym, ◌∙◌, ap, Bool, true, false, ◌&&◌, List, [], ◌∷◌, Option, some, none, arith, ◌⊎◌,
  inl, inr, Bool-cases, if◌then◌else◌,
}
use tickraft.Cron.Text.{Text}
use tickraft.Prism.{Event}
use tickraft.Prism.Dedup.{Decision, decision_pass, decision_suppress, decision_aggregate}
use tickraft.Prism.Dispatch.Effects.{
  handed, taken, records, hooks, to_each, kept, handed-deliver, deliver_calls,
}
use tickraft.Prism.Dispatch.Sent.{rules_match, sent_event, evaluate_rules_is}
use tickraft.Prism.Dispatch.{
  Engine, DispatchResult, Dispatched, answer, record_alert, guard_decided, run_guards,
  evaluate_rules, with_default, send_all, match_rules, call_hook, pass_guards, dispatch,
}

abbrev pub is_pass : Decision → Bool
is_pass decision_pass = true
is_pass decision_suppress = false
is_pass decision_aggregate = false

-- All guards let the event pass.
abbrev pub all_pass : List (Event → Option Decision) → Event → Bool
all_pass [] e = true
all_pass (guard ∷ gs) e = is_pass (answer (guard e)) && all_pass gs e

-- The event as the guards and the rules see it.
abbrev pub seen_event : Text → Event → Event
seen_event id evt = record (with_default evt) { event_id = id }

-- The event that the callback records, for whether the guards pass and the rules match.
abbrev pub record_of : Bool → Bool → Event → Event → List Event
record_of true true seen sent = sent ∷ []
record_of true false seen sent = []
record_of false match seen sent = seen ∷ []

-- The promises of a dispatch, for whether the guards pass and the rules match, and for the event as it is
-- seen and as it is sent.
pub record Delivers (g : Engine) (hook pass match : Bool) (seen sent : Event) (out : Dispatched)
    : Type 0 where
  pub accepted : out.0.accepted ≡ (pass && match)
  pub numbered : out.0.event_id ≡ seen.event_id
  pub named : out.0.dispatched_channels ≡ (if pass && match then g.channels else [])
  pub handed_over :
      g.dead_letter ≡ true → handed out.1 ≡ (if pass && match then to_each sent g.channels else [])
  pub taken_over :
      taken out.1 ≡ (if pass && match then to_each sent (kept g.submit g.channels) else [])
  pub recorded_once : records out.1 ≡ (if g.on_alert then record_of pass match seen sent else [])
  pub hooked_once : hooks out.1 ≡ (if hook && pass then seen ∷ [] else [])

send_all-Delivers :
    (g : Engine) (id : Text) (seen sent : Event)
    → id ≡ seen.event_id
    → Delivers g false true true seen sent (send_all g id sent)
unfolding send_all record_alert
send_all-Delivers g id seen sent number =
    let (jobs, no_record, no_hook) = deliver_calls g sent g.channels in
    elim (Bool-cases g.on_alert) [
      | inl callback ↦ record {
        accepted = refl;
        numbered = number;
        named = refl;
        handed_over = λ letters. rw callback (handed-deliver g sent g.channels letters);
        taken_over = rw callback jobs;
        recorded_once = rw callback (ap (λ rest. sent ∷ rest) no_record);
        hooked_once = rw callback no_hook;
      }
      | inr silent ↦ record {
        accepted = refl;
        numbered = number;
        named = refl;
        handed_over = λ letters. rw silent (handed-deliver g sent g.channels letters);
        taken_over = rw silent jobs;
        recorded_once = rw silent no_record;
        hooked_once = rw silent no_hook;
      }
    ]

match_rules-Delivers :
    (g : Engine) (id : Text) (e : Event)
    → id ≡ e.event_id
    → Delivers g false true (rules_match g.rules e) e (sent_event g.rules e) (match_rules g id e)
unfolding match_rules
match_rules-Delivers g id e number =
    let v = evaluate_rules g.rules e in
    let (rule, violations) = evaluate_rules_is g.rules e in
    elim (Bool-cases v.matched) [
      | inl matched ↦
          rw (matched, sym rule ∙ matched, violations)
            (send_all-Delivers g id e (sent_event g.rules e) number)
      | inr unmatched ↦
          rw (unmatched, sym rule ∙ unmatched)
            (record {
              accepted = refl;
              numbered = number;
              named = refl;
              handed_over = λ letters. refl;
              taken_over = refl;
              recorded_once = ground arith;
              hooked_once = refl;
            })
    ]

-- A guard that does not pass: the alert is recorded as it was seen, and no channel and no hook is called.
stopped-Delivers :
    (g : Engine) (hook match : Bool) (r : DispatchResult) (seen sent : Event)
    → r.accepted ≡ false
    → r.event_id ≡ seen.event_id
    → r.dispatched_channels ≡ []
    → Delivers g hook false match seen sent (r, record_alert g seen)
unfolding record_alert
stopped-Delivers g hook match r seen sent no_accept number no_channel =
    elim (Bool-cases g.on_alert) [
      | inl callback ↦ record {
        accepted = no_accept;
        numbered = number;
        named = no_channel;
        handed_over = λ letters. rw callback refl;
        taken_over = rw callback refl;
        recorded_once = rw callback refl;
        hooked_once = rw callback (ground arith);
      }
      | inr silent ↦ record {
        accepted = no_accept;
        numbered = number;
        named = no_channel;
        handed_over = λ letters. rw silent refl;
        taken_over = rw silent refl;
        recorded_once = rw silent refl;
        hooked_once = rw silent (ground arith);
      }
    ]

-- All guards pass, or one of them ends the dispatch.
abbrev Ended : Engine → Event → Bool → Option Dispatched → Type 0
Ended g e pass o =
    (pass ≡ true) × (o ≡ none)
    ⊎ (pass ≡ false)
      × (out : Dispatched) × (o ≡ some out)
      × ((hook match : Bool) (sent : Event) → Delivers g hook false match e sent out)

guard_decided-Ended :
    (g : Engine) (id : Text) (e : Event) (pass : Bool) (rest : Option Dispatched) (d : Decision)
    → id ≡ e.event_id
    → Ended g e pass rest
    → Ended g e (is_pass d && pass) (guard_decided g id e rest d)
unfolding guard_decided
guard_decided-Ended g id e pass rest decision_pass number later = later
guard_decided-Ended g id e pass rest decision_suppress number later =
    inr (refl, _, refl, λ hook match sent. stopped-Delivers g hook match _ e sent refl number refl)
guard_decided-Ended g id e pass rest decision_aggregate number later =
    inr (refl, _, refl, λ hook match sent. stopped-Delivers g hook match _ e sent refl number refl)

run_guards-Ended :
    (g : Engine) (id : Text) (e : Event) (gs : List (Event → Option Decision))
    → id ≡ e.event_id
    → Ended g e (all_pass gs e) (run_guards g id e gs)
unfolding run_guards
run_guards-Ended g id e [] number = inl (refl, refl)
run_guards-Ended g id e (guard ∷ gs) number =
    guard_decided-Ended g id e (all_pass gs e) (run_guards g id e gs) (answer (guard e)) number
      (run_guards-Ended g id e gs number)

call_hook-Delivers :
    (g : Engine) (hook match : Bool) (seen sent : Event) (out : Dispatched)
    → Delivers g false true match seen sent out
    → Delivers g hook true match seen sent (call_hook hook seen out)
call_hook-Delivers g true match seen sent (r, fx) d = record {
  accepted = d.accepted;
  numbered = d.numbered;
  named = d.named;
  handed_over = d.handed_over;
  taken_over = d.taken_over;
  recorded_once = d.recorded_once;
  hooked_once = ap (λ rest. seen ∷ rest) d.hooked_once;
}
call_hook-Delivers g false match seen sent out d = d

-- For any guards, rules, channels, pool and event: the alert is accepted exactly when all guards pass it, or
-- panic, and a rule forwards it, or there are no rules. The result bears the alert's number, and names all
-- channels then, those whose job the pool refuses included, and none otherwise. What is sent is the event as
-- the guards and the rules see it, with the violations that the rules tell of it, or, when they tell none,
-- its own as those of the first matched rule. The pool takes it for the channels that it has room for, in
-- order; with a handler of dead letters, each channel is handed it once or its dead letter is, in order. No
-- other channel is called. The callback, when there is one, records once what is sent, or the event as it is
-- seen when a guard stops it, but nothing when the guards pass and no rule forwards it. The hook behind the
-- guards, when there is one, is called once with the event as it is seen, when all guards pass.
pub dispatch-Delivers :
    (g : Engine) (id : Text) (evt : Event)
    → Delivers g g.post_guard_hook
        (all_pass g.guards (seen_event id evt))
        (rules_match g.rules (seen_event id evt))
        (seen_event id evt)
        (sent_event g.rules (seen_event id evt))
        (dispatch g id evt)
unfolding dispatch pass_guards
dispatch-Delivers g id evt =
    let e = seen_event id evt in
    let sent = sent_event g.rules e in
    elim (run_guards-Ended g id e g.guards refl) [
      | inl (pass, through) ↦
          rw (pass, through)
            (call_hook-Delivers g g.post_guard_hook (rules_match g.rules e) e sent
              (match_rules g id e) (match_rules-Delivers g id e refl))
      | inr (stop, out, stopped, delivers) ↦
          rw (stop, stopped) (delivers g.post_guard_hook (rules_match g.rules e) sent)
    ]
