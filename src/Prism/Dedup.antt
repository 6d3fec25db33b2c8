-- ===== src/Prism/Dedup.antt =====
-- The guard that drops repeated alerts: pkg/prism/governance/dedup.go. The clock is an argument, in
-- nanoseconds.
pub mod Window
use tickraft.Base.{
  ℕ, ◌-◌, ◌*◌, Bool, true, false, ◌&&◌, List, [], ◌∷◌, Option, some, none, ltb, leb, ◌==◌,
  if◌then◌else◌, lookup, insert,
}
use tickraft.Cron.Text.{Text}
use tickraft.Prism.{Event, fingerprint}
use tickraft.Prism.Keys.{text_key}

pub data Decision : Type 0 where
  decision_pass decision_suppress decision_aggregate : Decision

-- The zero time of the last sweep is `none`.
pub record Dedup : Type 0 where
  pub window : ℕ
  pub seen : List (Text × ℕ)
  pub last_sweep : Option ℕ

abbrev pub default_dedup_window : ℕ
default_dedup_window = 60 * 1_000_000_000

unfoldable pub new_dedup : ℕ → Dedup
new_dedup window = record {
  window = if window == 0 then default_dedup_window else window;
  seen = [];
  last_sweep = none;
}

-- The loop of `maybeSweepLocked`.
unfoldable pub sweep : ℕ → ℕ → List (Text × ℕ) → List (Text × ℕ)
sweep now window [] = []
sweep now window ((fp, last) ∷ seen) =
    let rest = sweep now window seen in if leb window (now - last) then rest else (fp, last) ∷ rest

abbrev pub needs_sweep : ℕ → ℕ → Option ℕ → Bool
needs_sweep now window none = true
needs_sweep now window (some last) = leb window (now - last)

unfoldable pub maybe_sweep : Dedup → ℕ → Dedup
maybe_sweep d now =
    if needs_sweep now d.window d.last_sweep
    then record d { seen = sweep now d.window d.seen; last_sweep = some now }
    else d

abbrev pub is_recent : ℕ → ℕ → Option ℕ → Bool
is_recent now window none = false
is_recent now window (some last) = ltb (now - last) window

unfoldable pub process_key : Dedup → ℕ → Text → Dedup × Decision
process_key d now fp =
    if is_recent now d.window (lookup fp d.seen)
    then (d, decision_suppress)
    else (record d { seen = insert fp now d.seen }, decision_pass)

-- `Process`; a nil event is `none`.
unfoldable pub process : Dedup → ℕ → Option Event → Dedup × Decision
unfolding process_key maybe_sweep
process d now none = (d, decision_pass)
process d now (some e) = process_key (maybe_sweep d now) now (fingerprint e)
