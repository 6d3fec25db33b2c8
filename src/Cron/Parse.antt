-- ===== src/Cron/Parse.antt =====
-- `Parser.Parse` of pkg/cron/parser.go, with the descriptors and the time zone prefix, and the day rule
-- and the fixed delay of pkg/cron/schedule.go.
use tickraft.Base.{
  ok, failed, ◌>>=◌, ℕ, ◌+◌, ◌*◌, ◌/◌, Bool, true, not, ◌&&◌, ◌||◌, List, [], ◌∷◌, Option, some,
  none, ltb, ◌==◌, if◌then◌else◌, ℤ, pos, negsuc, length,
}
use tickraft.Cron.Bits.{all_bits, bit_match}
use tickraft.Cron.Text.{
  Text, codes, text_eq, trim_space, to_lower, has_prefix, drop, split_once, fields,
}
use tickraft.Cron.Fields.{
  empty_spec, descriptors_not_supported, bad_field_count, bad_location, bad_duration,
  unrecognized_descriptor, Result,
}
use tickraft.Cron.Spec.{Parser, SpecSchedule, blank, field_count, parse_spec_fields}

pub data Schedule : Type 0 where
  spec : SpecSchedule → Schedule
  constant_delay : ℕ → Schedule
  immediate : Schedule

abbrev pub second : ℕ
second = 1_000_000_000

-- `Every`: at least a second, in whole seconds.
unfoldable pub every : ℤ → Schedule
every (pos d) = constant_delay ((if ltb d second then second else d) / second * second)
every (negsuc n) = constant_delay second

-- `constantDelaySchedule.Next`, for a positive delay.
unfoldable pub next_delay : ℕ → ℕ → ℕ
next_delay delay t =
    let next = t / delay * delay + delay in if ltb t next then next else next + delay

-- `specSchedule.matchesDay`, of the day of the month and the day of the week (0 is Sunday).
unfoldable pub matches_day : SpecSchedule → ℕ → ℕ → Bool
matches_day s day weekday =
    let dom_match = bit_match s.dom day in
    let dow_match = bit_match s.dow weekday || weekday == 0 && bit_match s.dow 7 in
    if s.dom_star && s.dow_star
    then true
    else if s.dom_star
    then dow_match
    else if s.dow_star
    then dom_match
    else dom_match || dow_match

-- The schedules of the descriptors, at midnight or on the hour.
abbrev pub midnight : ℕ → SpecSchedule
midnight loc = record (blank loc) { sec = 1; min = 1; hour = 1 }

unfoldable pub yearly : ℕ → SpecSchedule
yearly loc = record (midnight loc) { dom = 2; month = 2; dow = all_bits 0 7; dow_star = true }

unfoldable pub monthly : ℕ → SpecSchedule
monthly loc = record (midnight loc) {
  dom = 2;
  month = all_bits 1 12;
  dow = all_bits 0 7;
  dow_star = true;
}

unfoldable pub weekly : ℕ → SpecSchedule
weekly loc = record (midnight loc) {
  dom = all_bits 1 31;
  month = all_bits 1 12;
  dow = 1;
  dom_star = true;
}

unfoldable pub daily : ℕ → SpecSchedule
daily loc = record (midnight loc) {
  dom = all_bits 1 31;
  month = all_bits 1 12;
  dow = all_bits 0 7;
  dom_star = true;
  dow_star = true;
}

unfoldable pub hourly : ℕ → SpecSchedule
hourly loc = record (daily loc) { hour = all_bits 0 23 }

module _ (load_location : Text → Option ℕ) (parse_duration : Text → Option ℤ) where
  unfoldable pub every_of : Option ℤ → Result Schedule
  every_of none = failed bad_duration
  every_of (some d) = ok (every d)

  unfoldable pub parse_descriptor : Text → ℕ → Result Schedule
  parse_descriptor text loc =
      let name = to_lower text in
      if has_prefix name (codes "@every ")
      then every_of (parse_duration (drop 7 text))
      else if text_eq name (codes "@yearly") || text_eq name (codes "@annually")
      then ok (spec (yearly loc))
      else if text_eq name (codes "@monthly")
      then ok (spec (monthly loc))
      else if text_eq name (codes "@weekly")
      then ok (spec (weekly loc))
      else if text_eq name (codes "@daily") || text_eq name (codes "@midnight")
      then ok (spec (daily loc))
      else if text_eq name (codes "@hourly")
      then ok (spec (hourly loc))
      else if text_eq name (codes "@reboot")
      then ok immediate
      else failed unrecognized_descriptor

  abbrev pub local : ℕ
  local = 0

  abbrev pub or_empty : Option Text → Text
  or_empty none = []
  or_empty (some t) = t

  -- The name of the zone behind `TZ=` or `CRON_TZ=`.
  abbrev pub zone_of : Text → Text
  zone_of t = if has_prefix t (codes "TZ=") then drop 3 t else drop 8 t

  unfoldable pub located : Option ℕ → Option Text → Result (Text × ℕ)
  located none rest = failed bad_location
  located (some loc) rest = ok (or_empty rest, loc)

  unfoldable pub extract_timezone : Text → Result (Text × ℕ)
  extract_timezone text =
      if not (has_prefix text (codes "TZ=")) && not (has_prefix text (codes "CRON_TZ="))
      then ok (text, local)
      else let (zone, rest) = split_once text in located (load_location (zone_of zone)) rest

  unfoldable pub parse_fields : Parser → List Text → ℕ → Result Schedule
  parse_fields p texts loc =
      if ltb (length texts) (field_count p).0 || ltb (field_count p).1 (length texts)
      then failed bad_field_count
      else (do s ← parse_spec_fields p texts loc; ok (spec s))

  unfoldable pub parse_located : Parser → Text × ℕ → Result Schedule
  parse_located p (text, loc) =
      if has_prefix text (codes "@")
      then (if p.descriptor then parse_descriptor text loc else failed descriptors_not_supported)
      else parse_fields p (fields text) loc

  unfoldable pub parse : Parser → Text → Result Schedule
  parse p text = elim (trim_space text) [
    | [] ↦ failed empty_spec
    | c ∷ t ↦ extract_timezone (c ∷ t) >>= parse_located p
  ]
