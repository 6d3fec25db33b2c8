-- ===== src/Cron/Spec/Parsed.antt =====
-- The six masks of a schedule that parses (pkg/cron/parser.go, `parseSpecFields`).
use mathlib.Core.Path.{subst}
use tickraft.Base.{ok, >>=-eq-ok, ℕ, ◌≡◌, ◌∙◌, Bool, false, List, arith}
use tickraft.Cron.Text.{Text, codes, contains_any, to_upper}
use tickraft.Cron.Fields.{parse_field}
use tickraft.Cron.Fields.Bounds.{IsField}
use tickraft.Cron.Fields.Masks.{IsMask, parse_field-IsMask}
use tickraft.Cron.Spec.{
  Parser, SpecSchedule, field_bounds, pick_token, check_token, apply_field_mask,
  validate_schedule_masks, Progress, parse_place, parse_places, initial_progress, finish,
  parse_spec_fields, field_places,
}

field_bounds-IsField : (i : ℕ) → IsField (field_bounds i).0 (field_bounds i).1 i
unfolding field_bounds
field_bounds-IsField i = ground arith

-- What a round of the loop did: the token that it took, with its checks passed, and its mask.
pub record Round (p : Parser) (texts : List Text) (i : ℕ) (s s' : Progress) : Type 0 where
  pub token : Text
  pub mask : ℕ
  pub picked :
      pick_token p i texts s.field_index s.extra_fields
      ≡ ok (token, s'.field_index, s'.extra_fields)
  pub clean : contains_any (to_upper token) (codes "LW#") ≡ false
  pub parsed : IsMask (field_bounds i).0 (field_bounds i).1 mask
  pub applied : s'.sched ≡ apply_field_mask s.sched token i mask

check_token_clean :
    (t : Text) (i : ℕ) (q : Bool × Bool)
    → check_token t i ≡ ok q
    → contains_any (to_upper t) (codes "LW#") ≡ false
unfolding check_token
check_token_clean t i q h = ground arith

pub parse_place-Round :
    (p : Parser) (texts : List Text) (i : ℕ) (s s' : Progress)
    → parse_place p texts i s ≡ ok s'
    → Round p texts i s s'
unfolding parse_place
parse_place-Round p texts i s s' h =
    let ((token, index, extra), picked, h1) =
      >>=-eq-ok (pick_token p i texts s.field_index s.extra_fields) _ h in
    let (q, checked, h2) = >>=-eq-ok (check_token token i) _ h1 in
    let (mask, parsed, h3) =
      >>=-eq-ok (parse_field token (field_bounds i).0 (field_bounds i).1 i) _ h2 in
    record {
      token = token;
      mask = mask;
      picked = picked ∙ ground arith;
      clean = check_token_clean token i q checked;
      parsed =
          parse_field-IsMask (field_bounds i).0 (field_bounds i).1 i (field_bounds-IsField i) token
            mask parsed;
      applied = ground arith;
    }

finish-eq-ok : (q : Progress) (s : SpecSchedule) → finish q ≡ ok s → q.sched ≡ s
unfolding finish validate_schedule_masks
finish-eq-ok q s h = ground arith

-- The masks of a schedule, each within the range of its field.
pub record Parsed (s : SpecSchedule) : Type 0 where
  pub seconds : IsMask 0 59 s.sec
  pub minutes : IsMask 0 59 s.min
  pub hours : IsMask 0 23 s.hour
  pub days : IsMask 1 31 s.dom
  pub months : IsMask 1 12 s.month
  pub weekdays : IsMask 0 7 s.dow

-- An expression whose fields parse, with any options of the parser and any number of fields, has in
-- each of the six masks a value of the field's range and none above it.
pub parse_spec_fields-Parsed :
    (p : Parser) (texts : List Text) (loc : ℕ) (s : SpecSchedule)
    → parse_spec_fields p texts loc ≡ ok s
    → Parsed s
unfolding parse_spec_fields parse_places field_bounds apply_field_mask
parse_spec_fields-Parsed p texts loc s h =
    let (s6, rounds, done) =
      >>=-eq-ok (parse_places p texts field_places (initial_progress p texts loc)) _ h in
    let (s1, h1, k1) = >>=-eq-ok (parse_place p texts 0 (initial_progress p texts loc)) _ rounds in
    let (s2, h2, k2) = >>=-eq-ok (parse_place p texts 1 s1) _ k1 in
    let (s3, h3, k3) = >>=-eq-ok (parse_place p texts 2 s2) _ k2 in
    let (s4, h4, k4) = >>=-eq-ok (parse_place p texts 3 s3) _ k3 in
    let (s5, h5, k5) = >>=-eq-ok (parse_place p texts 4 s4) _ k4 in
    let (s6', h6, k6) = >>=-eq-ok (parse_place p texts 5 s5) _ k5 in
    let e1 = parse_place-Round p texts 0 (initial_progress p texts loc) s1 h1 in
    let e2 = parse_place-Round p texts 1 s1 s2 h2 in
    let e3 = parse_place-Round p texts 2 s2 s3 h3 in
    let e4 = parse_place-Round p texts 3 s3 s4 h4 in
    let e5 = parse_place-Round p texts 4 s4 s5 h5 in
    let e6 = parse_place-Round p texts 5 s5 s6' h6 in
    let last : s6' ≡ s6 = cc in
    let same : s6'.sched ≡ s = let fin = finish-eq-ok s6 s done in cc in
    subst Parsed same (record {
      seconds =
          rw e6.applied (
            rw e5.applied
              (rw e4.applied (rw e3.applied (rw e2.applied (rw e1.applied e1.parsed)))));
      minutes =
          rw e6.applied (rw e5.applied (rw e4.applied (rw e3.applied (rw e2.applied e2.parsed))));
      hours = rw e6.applied (rw e5.applied (rw e4.applied (rw e3.applied e3.parsed)));
      days = rw e6.applied (rw e5.applied (rw e4.applied e4.parsed));
      months = rw e6.applied (rw e5.applied e5.parsed);
      weekdays = rw e6.applied e6.parsed;
    })
