-- ===== src/Cron/Fields/Masks.antt =====
-- A field that parses has a mask that is not empty and has no value above the field's range
-- (pkg/cron/parser.go, `parseField` and what it calls), whatever step is written.
use mathlib.Core.Path.{subst}
use tickraft.Base.{
  ok, >>=-eq-ok, ℕ, ◌≤◌, ◌<◌, ◌≡◌, ◌≢◌, refl, ◌∙◌, inl, inr, true, false, List, [], ◌∷◌, arith,
  Bool-cases, pos, leb, ◌==◌, ◌&&◌,
}
use tickraft.Cron.Bits.{bit_match, all_bits, fill_range}
use tickraft.Cron.Bits.Laws.{bit_match-zero, bit_match-all_bits}
use tickraft.Cron.Bits.Growth.{
  Grows, Grows-refl, Grows-trans, Grows-mono, fill_range-Grows, fill_range_first,
}
use tickraft.Cron.Text.{Text, add_first, split, trim_space}
use tickraft.Cron.Fields.{
  is_star, parse_step, Range, parse_bounds, range_fuel, fill, parse_trimmed, parse_part,
  parse_parts, parse_field,
}
use tickraft.Cron.Fields.Bounds.{IsField, IsRange, parse_bounds_range}

-- A mask has a value in the field's range and none above it.
pub record IsMask (mn mx mask : ℕ) : Type 0 where
  pub some_value : (v : ℕ) × (mn ≤ v) × (v ≤ mx) × (bit_match mask v ≡ true)
  pub none_above : (w : ℕ) → mx < w → bit_match mask w ≡ false

add_first_ne_nil : (c : ℕ) (l : List Text) → add_first c l ≢ []
add_first_ne_nil c [] = λ e. cc
add_first_ne_nil c (p ∷ l) = λ e. cc

split_ne_nil : (sep : ℕ) (s : Text) → split sep s ≢ []
unfolding split
split_ne_nil sep [] = λ e. cc
split_ne_nil sep (c ∷ s) = elim (Bool-cases (c == sep)) [
  | inl cut ↦ rw cut (λ e. cc)
  | inr more ↦ rw more (add_first_ne_nil c (split sep s))
]

module _ (mn mx index : ℕ) (fd : IsField mn mx index) where
  fill-Grows :
      (mask step : ℕ) (r : Range)
      → IsRange mn mx index fd r
      → Grows mx mask (fill mask r step mn mx) × (bit_match (fill mask r step mn mx) r.start ≡ true)
  unfolding fill
  fill-Grows mask step r h = elim (Bool-cases r.wrapped) [
    | inl wraps ↦ rw wraps (
        let first =
          fill_range_first 255 mask mx step r.start h.high (omega (arith, h.high, fd.few)) in
        let second =
          fill_range-Grows range_fuel (fill_range range_fuel mask (pos r.start) (pos mx) step) r.end
            step (pos mn) in
        (
          Grows-trans (fill_range-Grows range_fuel mask mx step (pos r.start))
              (Grows-mono h.end_high second),
          second.keeps r.start first,
        ))
    | inr straight ↦ rw straight (
      Grows-mono h.end_high (fill_range-Grows range_fuel mask r.end step (pos r.start)),
      fill_range_first 255 mask r.end step r.start (h.order straight)
          (omega (arith, h.high, fd.few)),
    )
  ]

  Wins : ℕ → ℕ → Type 0
  Wins mask mask' =
      Grows mx mask mask' × ((v : ℕ) × (mn ≤ v) × (v ≤ mx) × (bit_match mask' v ≡ true))

  parse_part_Wins :
      (part : Text) (mask mask' : ℕ)
      → parse_trimmed part mask mn mx index ≡ ok mask'
      → Wins mask mask'
  unfolding parse_trimmed Wins
  parse_part_Wins [] mask mask' h = absurd (cc)
  parse_part_Wins (c ∷ part) mask mask' h =
      let (s, stepped, h') = >>=-eq-ok (parse_step (c ∷ part)) _ h in
      let (r, bounded, h'') = >>=-eq-ok (parse_bounds s.range_part mn mx index s.has_step) _ h' in
      let range = parse_bounds_range mn mx index fd s.range_part s.has_step r bounded in
      let filled = fill-Grows mask s.step r range in
      let same : fill mask r s.step mn mx ≡ mask' = cc in
      subst (Wins mask) same (filled.0, (r.start, range.low, range.high, filled.1))

  parse_parts-Grows :
      (texts : List Text) (mask mask' : ℕ)
      → parse_parts texts mask mn mx index ≡ ok mask'
      → Grows mx mask mask'
  unfolding parse_parts parse_part Wins
  parse_parts-Grows [] mask mask' h =
      let e : mask ≡ mask' = cc in subst (Grows mx mask) e (Grows-refl mx mask)
  parse_parts-Grows (text ∷ texts) mask mask' h =
      let (m, first, h') = >>=-eq-ok (parse_trimmed (trim_space text) mask mn mx index) _ h in
      Grows-trans (parse_part_Wins (trim_space text) mask m first).0
        (parse_parts-Grows texts m mask' h')

  parse_parts-IsMask :
      (text : Text) (texts : List Text) (mask : ℕ)
      → parse_parts (text ∷ texts) 0 mn mx index ≡ ok mask
      → IsMask mn mx mask
  unfolding parse_parts parse_part Wins
  parse_parts-IsMask text texts mask h =
      let (m, first, h') = >>=-eq-ok (parse_trimmed (trim_space text) 0 mn mx index) _ h in
      let (grows, (v, low, high, set)) = parse_part_Wins (trim_space text) 0 m first in
      let rest = parse_parts-Grows texts m mask h' in
      record {
        some_value = (v, low, high, rest.keeps v set);
        none_above = λ w a. rest.above w a ∙ (grows.above w a ∙ bit_match-zero w);
      }

  split-IsMask :
      (pieces : List Text) (mask : ℕ)
      → pieces ≢ []
      → parse_parts pieces 0 mn mx index ≡ ok mask
      → IsMask mn mx mask
  split-IsMask [] mask ne h = absurd (ne refl)
  split-IsMask (text ∷ texts) mask ne h = parse_parts-IsMask text texts mask h

  all_bits_at : (w : ℕ) → bit_match (all_bits mn mx) w ≡ (leb mn w && leb w mx)
  all_bits_at w =
      bit_match-all_bits mn mx w fd.not_empty (omega (arith, fd.few)) (omega (arith, fd.few))

  -- A field that parses, in any form, has a value in the field's range, and no value above it.
  pub parse_field-IsMask :
      (token : Text) (mask : ℕ) → parse_field token mn mx index ≡ ok mask → IsMask mn mx mask
  unfolding parse_field
  parse_field-IsMask token mask h = elim (Bool-cases (is_star (trim_space token))) [
    | inl star ↦
        let same : all_bits mn mx ≡ mask = ground arith in
        subst (IsMask mn mx) same (record {
          some_value =
              (mn, omega arith, fd.not_empty, all_bits_at mn ∙ ground (arith, fd.not_empty));
          none_above = λ w a. all_bits_at w ∙ ground arith;
        })
    | inr list ↦
        split-IsMask (split b',' (trim_space token)) mask (split_ne_nil b',' (trim_space token))
          (rw list at h)
  ]
