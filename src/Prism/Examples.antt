-- ===== src/Prism/Examples.antt =====
-- One alert that comes three times.
use tickraft.Base.{
  ◌≡◌, refl, ◌*◌, true, false, [], ◌∷◌, some, arith, ◌==◌, if◌then◌else◌, lookup, insert,
}
use tickraft.Cron.Text.{codes, text_eq}
use tickraft.Prism.{
  Violation, Event, decimal, leb_text, put_in_order, sort_texts, join, violation_part,
  violation_parts, fingerprint,
}
use tickraft.Prism.Dedup.{default_dedup_window, new_dedup, sweep, maybe_sweep, process_key, process}
use tickraft.Prism.Dedup.Window.{by_rule}
use tickraft.Prism.Dispatch.{
  Engine, recorded, submitted, dead_lettered, answer, record_alert, guard_decided, run_guards,
  collect_all, evaluate_rules, final_violations, deliver, with_default, send_all, match_rules,
  pass_guards, dispatch,
}
use tickraft.Prism.Dispatch.Delivery.{all_pass, seen_event, Delivers, dispatch-Delivers}
use tickraft.Prism.Dispatch.Sent.{rules_match, sent_event}
use tickraft.Prism.Dispatch.Repeats.{Alerts, all_accepted, as_seen, with_rules, accepted-by_rule}

abbrev cpu : Violation
cpu = record {
  kind = codes "metric";
  rule_id = 0;
  rule_name = [];
  severity = codes "error";
  metric = some (codes "cpu");
}

abbrev memory : Violation
memory = record {
  kind = codes "metric";
  rule_id = 0;
  rule_name = [];
  severity = [];
  metric = some (codes "mem");
}

abbrev overload : Event
overload = record {
  event_type = codes "metric";
  event_id = [];
  asset_id = 12;
  violations = cpu ∷ memory ∷ [];
}

overload_key : fingerprint overload ≡ codes "metric|12|metric:error:cpu,metric:mem"
unfolding fingerprint decimal sort_texts put_in_order leb_text violation_parts violation_part join
overload_key = refl

-- No rules; the pool has no room for the second channel.
abbrev plain : Engine
plain = record {
  guards = [];
  rules = [];
  channels = codes "mail" ∷ codes "sms" ∷ [];
  submit = λ name. text_eq name (codes "mail");
  on_alert = true;
  post_guard_hook = false;
  dead_letter = true;
}

plain_effects :
    (dispatch plain (codes "1-1") overload).1
    ≡ recorded (seen_event (codes "1-1") overload)
      ∷ submitted (codes "mail") (seen_event (codes "1-1") overload)
      ∷ dead_lettered (codes "sms") (seen_event (codes "1-1") overload)
      ∷ []
unfolding dispatch pass_guards match_rules run_guards send_all deliver record_alert evaluate_rules
    collect_all final_violations with_default text_eq
plain_effects = refl

-- At 0, 30 and 60 seconds.
abbrev three_times : Alerts
three_times =
    (0, codes "1-1", overload)
    ∷ (30 * 1_000_000_000, codes "1-2", overload)
    ∷ (60 * 1_000_000_000, codes "1-3", overload)
    ∷ []

three_times_accepted : all_accepted plain (new_dedup 0) three_times ≡ true ∷ false ∷ true ∷ []
unfolding dispatch pass_guards match_rules run_guards guard_decided answer send_all deliver
    record_alert evaluate_rules collect_all final_violations with_default text_eq new_dedup process
    process_key maybe_sweep sweep lookup insert fingerprint decimal sort_texts put_in_order leb_text
    violation_parts violation_part join
three_times_accepted = refl

accepted-by_rule_example :
    all_accepted plain (new_dedup 0) three_times
    ≡ with_rules plain
        (by_rule (if 0 == 0 then default_dedup_window else 0) [] (as_seen three_times))
        three_times
accepted-by_rule_example =
    accepted-by_rule plain 0 three_times (omega arith, (omega arith, (omega arith, tt)))

dispatch-Delivers_example :
    Delivers plain plain.post_guard_hook
      (all_pass plain.guards (seen_event (codes "1-1") overload))
      (rules_match plain.rules (seen_event (codes "1-1") overload))
      (seen_event (codes "1-1") overload)
      (sent_event plain.rules (seen_event (codes "1-1") overload))
      (dispatch plain (codes "1-1") overload)
dispatch-Delivers_example = dispatch-Delivers plain (codes "1-1") overload
