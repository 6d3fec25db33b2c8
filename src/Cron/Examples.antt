-- ===== src/Cron/Examples.antt =====
-- Cron expressions that the parser reads and refuses, and the theorems at them.
use tickraft.Base.{◌+◌, ◌^◌, ok, failed, ◌≡◌, refl, true, false, List, [], ◌∷◌, arith}
use tickraft.Cron.Bits.{all_bits, next_set_bit}
use tickraft.Cron.Bits.Search.{IsNext, next_set_bit-IsNext}
use tickraft.Cron.Text.{Text, codes, contains_any}
use tickraft.Cron.Fields.{unsupported_syntax, parse_field, field_program}
use tickraft.Cron.Fields.Bounds.{IsField}
use tickraft.Cron.Spec.{
  default_parser, has_place, SpecSchedule, field_at, pick_token, check_token, field_count,
  count_places, parse_place, parse_places, finish, parse_spec_fields, is_optional, field_default,
  field_bounds, apply_field_mask, validate_schedule_masks,
}
use tickraft.Cron.Spec.Parsed.{Parsed, parse_spec_fields-Parsed}
use tickraft.Cron.Spec.Letters.{IsClean, parse_spec_fields-letters}

-- Bits 3 and 9; the search starts at 4.
next_set_bit-IsNext_example : IsNext 520 4 59 (next_set_bit 520 4 59)
next_set_bit-IsNext_example = next_set_bit-IsNext 520 4 59 (ground arith)

weekday-IsField : IsField 0 7 5
weekday-IsField = ground arith

-- Friday to Monday, round the end of the week.
weekend : parse_field (codes "fri-mon") 0 7 5 ≡ ok 227
unfolding field_program
weekend = refl

abbrev monday_at_nine : SpecSchedule
monday_at_nine = record {
  sec = 1;
  min = 1;
  hour = 512;
  dom = all_bits 1 31;
  month = all_bits 1 12;
  dow = 2;
  dom_star = true;
  dow_star = false;
  loc = 0;
}

abbrev texts : List Text
texts = codes "0" ∷ codes "9" ∷ codes "*" ∷ codes "*" ∷ codes "MON" ∷ []

monday_parsed : parse_spec_fields default_parser texts 0 ≡ ok monday_at_nine
unfolding parse_spec_fields parse_places parse_place pick_token check_token field_count count_places
    has_place is_optional field_at field_default field_bounds apply_field_mask finish
    validate_schedule_masks field_program contains_any
monday_parsed = refl

parse_spec_fields-Parsed_example : Parsed monday_at_nine
parse_spec_fields-Parsed_example =
    parse_spec_fields-Parsed default_parser texts 0 monday_at_nine monday_parsed

parse_spec_fields-letters_example :
    IsClean (codes "0")
    × IsClean (codes "9")
    × IsClean (codes "*")
    × IsClean (codes "*")
    × IsClean (codes "MON")
parse_spec_fields-letters_example =
    parse_spec_fields-letters (codes "0") (codes "9") (codes "*") (codes "*") (codes "MON") 0
      monday_at_nine monday_parsed

-- The field reads the name of Wednesday, and the whole expression is refused.
wednesday_field : parse_field (codes "WED") 0 7 5 ≡ ok 8
unfolding field_program
wednesday_field = refl

wednesday_refused :
    parse_spec_fields default_parser
      (codes "0" ∷ codes "9" ∷ codes "*" ∷ codes "*" ∷ codes "WED" ∷ [])
      0
    ≡ failed unsupported_syntax
unfolding parse_spec_fields parse_places parse_place pick_token check_token field_count count_places
    has_place is_optional field_at field_default field_bounds apply_field_mask finish
    validate_schedule_masks field_program contains_any
wednesday_refused = refl

-- A step close to 2 ^ 63 is accepted, its sums wrap, and the minutes 20, 10 and 0 are set beside 30.
huge_step : parse_field (codes "30/9223372036854775803") 0 59 1 ≡ ok (2 ^ 30 + 2 ^ 20 + 2 ^ 10 + 1)
unfolding field_program
huge_step = refl
