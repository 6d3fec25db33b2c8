-- ===== src/Prism.antt =====
-- The events of the alert pipeline (pkg/prism/alert/event.go), and the fingerprint by which
-- pkg/prism/governance/dedup.go tells alerts apart.
pub mod Keys
pub mod Order
pub mod Dedup
pub mod Dispatch
pub mod Remediation
mod Examples
use tickraft.Base.{
  ℕ, zero, suc, ◌+◌, ◌/◌, ◌%◌, Bool, true, false, ◌||◌, List, [], ◌∷◌, ◌++◌, Option, some, none,
  ltb, ◌==◌, if◌then◌else◌,
}
use tickraft.Cron.Text.{Text, codes, text_eq}

-- `Violation`, with of the metric its name.
pub record Violation : Type 0 where
  pub kind : Text
  pub rule_id : ℕ
  pub rule_name : Text
  pub severity : Text
  pub metric : Option Text

pub record Event : Type 0 where
  pub event_type : Text
  pub event_id : Text
  pub asset_id : ℕ
  pub violations : List Violation

-- `%d`, for a number of at most as many digits as the fuel; an int64 has at most 19.
unfoldable pub decimal : ℕ → ℕ → Text
decimal zero n = []
decimal (suc fuel) n =
    let front = decimal fuel (n / 10) in
    if ltb n 10 then (b'0' + n) ∷ [] else front ++ (b'0' + n % 10) ∷ []

unfoldable pub leb_text : Text → Text → Bool
leb_text [] t = true
leb_text (c ∷ s) [] = false
leb_text (c ∷ s) (d ∷ t) = if ltb c d then true else if c == d then leb_text s t else false

unfoldable pub put_in_order : Text → List Text → List Text
put_in_order s [] = s ∷ []
put_in_order s (t ∷ ts) = if leb_text s t then s ∷ t ∷ ts else t ∷ put_in_order s ts

-- `sort.Strings`
unfoldable pub sort_texts : List Text → List Text
sort_texts [] = []
sort_texts (s ∷ ss) = put_in_order s (sort_texts ss)

-- `strings.Join(parts, ",")`
unfoldable pub join : List Text → Text
join [] = []
join (s ∷ []) = s
join (s ∷ t ∷ ts) = s ++ codes "," ++ join (t ∷ ts)

-- `":" + name`, but nothing for an empty name.
abbrev pub with_colon : Text → Text
with_colon [] = []
with_colon (c ∷ s) = codes ":" ++ c ∷ s

abbrev pub metric_part : Option Text → Text
metric_part none = []
metric_part (some name) = with_colon name

unfoldable pub violation_part : Violation → Text
violation_part v = v.kind ++ with_colon v.severity ++ metric_part v.metric

unfoldable pub violation_parts : List Violation → List Text
unfolding violation_part
violation_parts [] = []
violation_parts (v ∷ vs) = violation_part v ∷ violation_parts vs

unfoldable pub fingerprint : Event → Text
fingerprint e =
    e.event_type
    ++ codes "|"
    ++ decimal 19 e.asset_id
    ++ codes "|"
    ++ join (sort_texts (violation_parts e.violations))
