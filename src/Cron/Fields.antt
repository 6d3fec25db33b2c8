-- ===== src/Cron/Fields.antt =====
-- One field of a cron expression: pkg/cron/parser.go, from `parseField` to `parseValue`.
pub mod Bounds
pub mod Masks
use Prim.Native.String.{String}
use tickraft.Base.{
  Outcome, ok, failed, ◌>>=◌, ℕ, zero, suc, ◌+◌, ◌-◌, Bool, true, false, not, ◌&&◌, ◌||◌, List, [],
  ◌∷◌, Option, some, none, ltb, leb, ◌==◌, if◌then◌else◌, ℤ, pos, negsuc,
}
use tickraft.Cron.Bits.{all_bits, fill_range}
use tickraft.Cron.Text.{Text, codes, text_eq, trim_space, to_upper, contains, split, atoi}

-- The errors that the parser reports, by kind; `index_out_of_range` is a run-time panic.
pub data Error : Type 0 where
  empty_spec descriptors_not_supported bad_field_count multiple_optional : Error
  bad_location unsupported_syntax misplaced_question two_questions : Error
  empty_mask : ℕ → Error
  empty_token bad_step_syntax bad_step_value bad_range_syntax bad_range_order : Error
  bad_number out_of_range bad_duration unrecognized_descriptor index_out_of_range : Error

abbrev pub Result {ℓ} : Type ℓ → Type ℓ
Result A = Outcome Error A

abbrev pub month_names : List (Text × ℕ)
month_names =
    (codes "JAN", 1)
    ∷ (codes "FEB", 2)
    ∷ (codes "MAR", 3)
    ∷ (codes "APR", 4)
    ∷ (codes "MAY", 5)
    ∷ (codes "JUN", 6)
    ∷ (codes "JUL", 7)
    ∷ (codes "AUG", 8)
    ∷ (codes "SEP", 9)
    ∷ (codes "OCT", 10)
    ∷ (codes "NOV", 11)
    ∷ (codes "DEC", 12)
    ∷ []

abbrev pub weekday_names : List (Text × ℕ)
weekday_names =
    (codes "SUN", 0)
    ∷ (codes "MON", 1)
    ∷ (codes "TUE", 2)
    ∷ (codes "WED", 3)
    ∷ (codes "THU", 4)
    ∷ (codes "FRI", 5)
    ∷ (codes "SAT", 6)
    ∷ []

unfoldable pub named : Text → List (Text × ℕ) → Option ℕ
named token [] = none
named token ((name, v) ∷ names) =
    let rest = named token names in if text_eq name token then some v else rest

-- `token == "*" || token == "?"`
unfoldable pub is_star : Text → Bool
is_star token = text_eq token (codes "*") || text_eq token (codes "?")

-- The end of `parseValue`: the range check of a number.
unfoldable pub check_value : ℤ → ℕ → ℕ → ℕ → Result ℕ
check_value value min_val max_val index = elim value [
  | pos v ↦
      if index == 5 && v == 7
      then ok 0
      else if ltb v min_val || ltb max_val v
      then failed out_of_range
      else ok v
  | negsuc n ↦ failed out_of_range
]

unfoldable pub month_value : Text → Option ℕ
unfolding named
month_value token = named token month_names

unfoldable pub weekday_value : Text → Option ℕ
unfolding named
weekday_value token = named token weekday_names

-- The names of a field, and `7` of the day of the week.
unfoldable pub named_value : Text → ℕ → Option ℕ
named_value token index =
    if index == 4
    then month_value token
    else if index == 5
    then (elim (weekday_value token) [
      | some v ↦ some v
      | none ↦ if text_eq token (codes "7") then some 0 else none
    ])
    else none

-- A token that is no star: a name, or a number in range.
unfoldable pub number_value : Option ℤ → ℕ → ℕ → ℕ → Result ℕ
number_value none min_val max_val index = failed bad_number
number_value (some value) min_val max_val index = check_value value min_val max_val index

unfoldable pub token_value : Text → ℕ → ℕ → ℕ → Result ℕ
token_value token min_val max_val index = elim (named_value token index) [
  | some v ↦ ok v
  | none ↦ number_value (atoi token) min_val max_val index
]

unfoldable pub parse_value : Text → ℕ → ℕ → ℕ → Result ℕ
parse_value text min_val max_val index =
    let token = trim_space (to_upper text) in
    if is_star token then ok min_val else token_value token min_val max_val index

-- `parseStep`: the range, the step, and whether one is written.
pub record Step : Type 0 where
  pub range_part : Text
  pub step : ℕ
  pub has_step : Bool

unfoldable pub or_star : Text → Text
or_star [] = codes "*"
or_star (c ∷ s) = c ∷ s

-- The step behind the slash, which is positive.
unfoldable pub positive_step : Text → Option ℤ → Result Step
positive_step range_part none = failed bad_step_value
positive_step range_part (some (negsuc n)) = failed bad_step_value
positive_step range_part (some (pos zero)) = failed bad_step_value
positive_step range_part (some (pos (suc n))) =
    ok (record { range_part = range_part; step = suc n; has_step = true })

unfoldable pub step_of : List Text → Result Step
step_of (a ∷ b ∷ []) = positive_step (or_star (trim_space a)) (atoi b)
step_of [] = failed bad_step_syntax
step_of (a ∷ []) = failed bad_step_syntax
step_of (a ∷ b ∷ c ∷ l) = failed bad_step_syntax

unfoldable pub parse_step : Text → Result Step
parse_step part =
    if contains b'/' part
    then step_of (split b'/' part)
    else ok (record { range_part = part; step = 1; has_step = false })

-- `parseBounds`: the ends, and whether the range wraps round the week.
pub record Range : Type 0 where
  pub start : ℕ
  pub end : ℕ
  pub wrapped : Bool

unfoldable pub ordered : ℕ → ℕ → ℕ → Result Range
ordered start end index =
    if ltb end start
    then (if index == 5
        then ok (record { start = start; end = end; wrapped = true })
        else failed bad_range_order)
    else ok (record { start = start; end = end; wrapped = false })

unfoldable pub range_of : List Text → ℕ → ℕ → ℕ → Result Range
range_of (a ∷ b ∷ []) min_val max_val index = do
  start ← parse_value a min_val max_val index
  end ← parse_value b min_val max_val index
  ordered start end index
range_of [] min_val max_val index = failed bad_range_syntax
range_of (a ∷ []) min_val max_val index = failed bad_range_syntax
range_of (a ∷ b ∷ c ∷ l) min_val max_val index = failed bad_range_syntax

unfoldable pub parse_bounds : Text → ℕ → ℕ → ℕ → Bool → Result Range
parse_bounds part min_val max_val index has_step =
    if is_star part
    then ok (record { start = min_val; end = max_val; wrapped = false })
    else if contains b'-' part
    then range_of (split b'-' part) min_val max_val index
    else do
      value ← parse_value part min_val max_val index
      ok (record { start = value; end = if has_step then max_val else value; wrapped = false })

-- Fuel for `fillRange`: a range has at most 60 values.
abbrev pub range_fuel : ℕ
range_fuel = 256

unfoldable pub fill : ℕ → Range → ℕ → ℕ → ℕ → ℕ
fill mask r step min_val max_val =
    if r.wrapped
    then fill_range range_fuel (fill_range range_fuel mask (pos r.start) (pos max_val) step)
        (pos min_val) (pos r.end) step
    else fill_range range_fuel mask (pos r.start) (pos r.end) step

-- One round of the loop of `parseField`, once the part is trimmed.
unfoldable pub parse_trimmed : Text → ℕ → ℕ → ℕ → ℕ → Result ℕ
parse_trimmed [] mask min_val max_val index = failed empty_token
parse_trimmed (c ∷ part) mask min_val max_val index = do
  s ← parse_step (c ∷ part)
  r ← parse_bounds s.range_part min_val max_val index s.has_step
  ok (fill mask r s.step min_val max_val)

unfoldable pub parse_part : Text → ℕ → ℕ → ℕ → ℕ → Result ℕ
parse_part text mask min_val max_val index =
    parse_trimmed (trim_space text) mask min_val max_val index

unfoldable pub parse_parts : List Text → ℕ → ℕ → ℕ → ℕ → Result ℕ
parse_parts [] mask min_val max_val index = ok mask
parse_parts (text ∷ texts) mask min_val max_val index = do
  mask' ← parse_part text mask min_val max_val index
  parse_parts texts mask' min_val max_val index

unfoldable pub parse_field : Text → ℕ → ℕ → ℕ → Result ℕ
parse_field text min_val max_val index =
    let token = trim_space text in
    if is_star token
    then ok (all_bits min_val max_val)
    else parse_parts (split b',' token) 0 min_val max_val index

-- For tests: one name unfolds all that a field computes with.
unfoldable pub field_program : Unit {0}
unfolding parse_field parse_parts parse_part parse_trimmed parse_bounds range_of ordered parse_step
    step_of positive_step or_star fill fill_range all_bits parse_value token_value number_value
    named_value month_value weekday_value named text_eq is_star atoi trim_space to_upper contains
    split check_value
field_program = tt
