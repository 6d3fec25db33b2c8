-- ===== src/Cron/Spec.antt =====
-- A whole cron expression: the parser of pkg/cron/parser.go with its options, and the schedules of
-- pkg/cron/schedule.go that it makes. The time zone data and `time.ParseDuration` are parameters.
pub mod Parsed
pub mod Letters
use tickraft.Base.{
  ok, failed, ◌>>=◌, ℕ, zero, suc, ◌+◌, ◌-◌, ◌*◌, ◌/◌, Bool, true, false, not, ◌&&◌, ◌||◌, List, [],
  ◌∷◌, Option, some, none, ltb, leb, ◌==◌, if◌then◌else◌, ℤ, pos, negsuc, length,
}
use tickraft.Cron.Bits.{all_bits, bit_match}
use tickraft.Cron.Text.{
  Text, codes, text_eq, trim_space, to_upper, to_lower, contains_any, has_prefix, drop, split_once,
  fields,
}
use tickraft.Cron.Fields.{
  Error, empty_spec, descriptors_not_supported, bad_field_count, multiple_optional, bad_location,
  unsupported_syntax, misplaced_question, two_questions, empty_mask, bad_duration,
  unrecognized_descriptor, index_out_of_range, Result, is_star, parse_field, field_program,
}

-- `ParseOption`: a flag for each bit.
pub record Parser : Type 0 where
  pub second : Bool
  pub second_optional : Bool
  pub minute : Bool
  pub hour : Bool
  pub dom : Bool
  pub month : Bool
  pub dow : Bool
  pub dow_optional : Bool
  pub descriptor : Bool

unfoldable pub new_parser : Parser → Result Parser
new_parser p = if p.second_optional && p.dow_optional then failed multiple_optional else ok p

abbrev pub default_parser : Parser
default_parser = record {
  second = false;
  second_optional = true;
  minute = true;
  hour = true;
  dom = true;
  month = true;
  dow = true;
  dow_optional = false;
  descriptor = true;
}

-- The places of the fields, in order: seconds, minutes, hours, day of month, month, day of week.
abbrev pub field_places : List ℕ
field_places = 0 ∷ 1 ∷ 2 ∷ 3 ∷ 4 ∷ 5 ∷ []

-- `p.options&place > 0`
unfoldable pub has_place : Parser → ℕ → Bool
has_place p i =
    if i == 0
    then p.second
    else if i == 1
    then p.minute
    else if i == 2
    then p.hour
    else if i == 3
    then p.dom
    else if i == 4
    then p.month
    else p.dow

unfoldable pub field_bounds : ℕ → ℕ × ℕ
field_bounds i =
    if i == 0
    then (0, 59)
    else if i == 1
    then (0, 59)
    else if i == 2
    then (0, 23)
    else if i == 3
    then (1, 31)
    else if i == 4
    then (1, 12)
    else (0, 7)

unfoldable pub field_default : ℕ → Text
field_default i = if ltb i 3 then codes "0" else codes "*"

abbrev pub one_if : Bool → ℕ
one_if true = 1
one_if false = 0

-- How many of the places the parser reads always.
unfoldable pub count_places : Parser → List ℕ → ℕ
count_places p [] = 0
count_places p (i ∷ is) = one_if (has_place p i) + count_places p is

unfoldable pub field_count : Parser → ℕ × ℕ
unfolding count_places
field_count p =
    let n = count_places p field_places in (n, n + one_if p.second_optional + one_if p.dow_optional)

-- `fields[i]`
unfoldable pub field_at : List Text → ℕ → Result Text
field_at [] i = failed index_out_of_range
field_at (t ∷ ts) zero = ok t
field_at (t ∷ ts) (suc i) = field_at ts i

-- Whether the place is an optional one of the parser.
unfoldable pub is_optional : Parser → ℕ → Bool
is_optional p i = i == 0 && p.second_optional || i == 5 && p.dow_optional

-- The token of a place, with the next index and the optional fields left. A negative `extraFields`
-- and 0 are the same to it.
unfoldable pub pick_token : Parser → ℕ → List Text → ℕ → ℕ → Result (Text × ℕ × ℕ)
pick_token p i texts index extra =
    if has_place p i
    then (do t ← field_at texts index; ok (t, index + 1, extra))
    else if is_optional p i && ltb 0 extra
    then (do t ← field_at texts index; ok (t, index + 1, extra - 1))
    else ok (field_default i, index, extra)

-- Whether the day of month and the day of week are `?`.
unfoldable pub check_token : Text → ℕ → Result (Bool × Bool)
check_token token i =
    if contains_any (to_upper token) (codes "LW#")
    then failed unsupported_syntax
    else if text_eq token (codes "?") && not (i == 3) && not (i == 5)
    then failed misplaced_question
    else ok (text_eq token (codes "?") && i == 3, text_eq token (codes "?") && i == 5)

-- `specSchedule`; the location is a number that the time zone data gives, 0 the local one.
pub record SpecSchedule : Type 0 where
  pub sec : ℕ
  pub min : ℕ
  pub hour : ℕ
  pub dom : ℕ
  pub month : ℕ
  pub dow : ℕ
  pub dom_star : Bool
  pub dow_star : Bool
  pub loc : ℕ

unfoldable pub apply_field_mask : SpecSchedule → Text → ℕ → ℕ → SpecSchedule
apply_field_mask s token i mask =
    if i == 0
    then record s { sec = mask }
    else if i == 1
    then record s { min = mask }
    else if i == 2
    then record s { hour = mask }
    else if i == 3
    then record s { dom = mask; dom_star = is_star token || s.dom_star }
    else if i == 4
    then record s { month = mask }
    else record s { dow = mask; dow_star = is_star token || s.dow_star }

unfoldable pub validate_schedule_masks : SpecSchedule → Result SpecSchedule
validate_schedule_masks s =
    if s.sec == 0
    then failed (empty_mask 0)
    else if s.min == 0
    then failed (empty_mask 1)
    else if s.hour == 0
    then failed (empty_mask 2)
    else if s.dom == 0
    then failed (empty_mask 3)
    else if s.month == 0
    then failed (empty_mask 4)
    else if s.dow == 0
    then failed (empty_mask 5)
    else ok s

-- The variables of the loop of `parseSpecFields`.
pub record Progress : Type 0 where
  pub sched : SpecSchedule
  pub field_index : ℕ
  pub extra_fields : ℕ
  pub dom_is_question : Bool
  pub dow_is_question : Bool

-- One round, for the place `i`.
unfoldable pub parse_place : Parser → List Text → ℕ → Progress → Result Progress
parse_place p texts i s = do
  (token, index, extra) ← pick_token p i texts s.field_index s.extra_fields
  (dom_q, dow_q) ← check_token token i
  mask ← parse_field token (field_bounds i).0 (field_bounds i).1 i
  ok (record {
    sched = apply_field_mask s.sched token i mask;
    field_index = index;
    extra_fields = extra;
    dom_is_question = s.dom_is_question || dom_q;
    dow_is_question = s.dow_is_question || dow_q;
  })

unfoldable pub parse_places : Parser → List Text → List ℕ → Progress → Result Progress
parse_places p texts [] s = ok s
parse_places p texts (i ∷ is) s = do s' ← parse_place p texts i s; parse_places p texts is s'

abbrev pub blank : ℕ → SpecSchedule
blank loc = record {
  sec = 0;
  min = 0;
  hour = 0;
  dom = 0;
  month = 0;
  dow = 0;
  dom_star = false;
  dow_star = false;
  loc = loc;
}

abbrev pub initial_progress : Parser → List Text → ℕ → Progress
initial_progress p texts loc = record {
  sched = blank loc;
  field_index = 0;
  extra_fields = length texts - (field_count p).0;
  dom_is_question = false;
  dow_is_question = false;
}

unfoldable pub finish : Progress → Result SpecSchedule
finish s =
    if s.dom_is_question && s.dow_is_question
    then failed two_questions
    else validate_schedule_masks s.sched

unfoldable pub parse_spec_fields : Parser → List Text → ℕ → Result SpecSchedule
parse_spec_fields p texts loc = do
  s ← parse_places p texts field_places (initial_progress p texts loc)
  finish s
