-- ===== src/Cron/Fields/Bounds.antt =====
-- Values and ranges that parse lie in the range of their field (pkg/cron/parser.go, `parseValue` and
-- `parseBounds`).
use tickraft.Base.{
  ok, ◌>>=◌, >>=-eq-ok, ℕ, ◌≤◌, ◌<◌, ◌≡◌, inl, inr, Bool, false, List, [], ◌∷◌, Option, some, none,
  if◌then◌else◌, arith, Bool-cases, ℤ,
}
use tickraft.Cron.Text.{Text, split, trim_space, to_upper, atoi, contains}
use tickraft.Cron.Fields.{
  month_names, weekday_names, named, month_value, weekday_value, named_value, check_value,
  number_value, token_value, is_star, parse_value, Range, ordered, range_of, parse_bounds,
}

-- The bounds of a field leave room for its names.
pub record IsField (mn mx index : ℕ) : Type 0 where
  pub not_empty : mn ≤ mx
  pub few : mx < 60
  pub months : index ≡ 4 → (mn ≤ 1) × (12 ≤ mx)
  pub days : index ≡ 5 → (mn ≡ 0) × (7 ≤ mx)

AllIn : ℕ → ℕ → List (Text × ℕ) → Type 0
AllIn lo hi [] = Unit {0}
AllIn lo hi ((t, v) ∷ l) = (lo ≤ v) × (v ≤ hi) × AllIn lo hi l

named-AllIn :
    (t : Text) (v lo hi : ℕ) (names : List (Text × ℕ))
    → AllIn lo hi names
    → named t names ≡ some v
    → (lo ≤ v) × (v ≤ hi)
unfolding named AllIn
named-AllIn t v lo hi [] a h = absurd (cc)
named-AllIn t v lo hi ((name, w) ∷ names) a h = ground (arith, named-AllIn t v lo hi names a.2)

month_range : (t : Text) (v : ℕ) → month_value t ≡ some v → (1 ≤ v) × (v ≤ 12)
unfolding month_value AllIn
month_range t v h = named-AllIn t v 1 12 month_names (omega arith) h

weekday_range : (t : Text) (v : ℕ) → weekday_value t ≡ some v → (0 ≤ v) × (v ≤ 6)
unfolding weekday_value AllIn
weekday_range t v h = named-AllIn t v 0 6 weekday_names (omega arith) h

module _ (mn mx index : ℕ) (fd : IsField mn mx index) where
  named_value_range : (t : Text) (v : ℕ) → named_value t index ≡ some v → (mn ≤ v) × (v ≤ mx)
  unfolding named_value
  named_value_range t v h = ground (arith, month_range t v, weekday_range t v, fd.months, fd.days)

  check_value_range : (z : ℤ) (v : ℕ) → check_value z mn mx index ≡ ok v → (mn ≤ v) × (v ≤ mx)
  unfolding check_value
  check_value_range z v h = ground (arith, fd.not_empty, fd.days)

  number_value_range :
      (o : Option ℤ) (v : ℕ) → number_value o mn mx index ≡ ok v → (mn ≤ v) × (v ≤ mx)
  unfolding number_value
  number_value_range none v h = absurd (cc)
  number_value_range (some z) v h = check_value_range z v h

  parse_value_range : (t : Text) (v : ℕ) → parse_value t mn mx index ≡ ok v → (mn ≤ v) × (v ≤ mx)
  unfolding parse_value token_value
  parse_value_range t v h =
      let token = trim_space (to_upper t) in
      ground (arith, fd.not_empty, named_value_range token v, number_value_range (atoi token) v)

  -- A parsed range lies in the field, and one that does not wrap is in order.
  pub record IsRange (r : Range) : Type 0 where
    pub low : mn ≤ r.start
    pub high : r.start ≤ mx
    pub end_low : mn ≤ r.end
    pub end_high : r.end ≤ mx
    pub order : r.wrapped ≡ false → r.start ≤ r.end

  ordered_range :
      (a b : ℕ) (r : Range)
      → (mn ≤ a) × (a ≤ mx)
      → (mn ≤ b) × (b ≤ mx)
      → ordered a b index ≡ ok r
      → IsRange r
  unfolding ordered
  ordered_range a b r ha hb h = ground arith

  range_of_range : (l : List Text) (r : Range) → range_of l mn mx index ≡ ok r → IsRange r
  unfolding range_of
  range_of_range [] r h = absurd (cc)
  range_of_range (a ∷ []) r h = absurd (cc)
  range_of_range (a ∷ b ∷ c ∷ l) r h = absurd (cc)
  range_of_range (a ∷ b ∷ []) r h =
      let (s, first, h') = >>=-eq-ok (parse_value a mn mx index) _ h in
      let (e, second, h'') = >>=-eq-ok (parse_value b mn mx index) _ h' in
      ordered_range s e r (parse_value_range a s first) (parse_value_range b e second) h''

  single_range :
      (part : Text) (has_step : Bool) (r : Range)
      → (parse_value part mn mx index >>= λ v.
          ok (record { start = v; end = if has_step then mx else v; wrapped = false }))
        ≡ ok r
      → IsRange r
  single_range part has_step r h =
      let (v, value, e) = >>=-eq-ok (parse_value part mn mx index) _ h in
      ground (arith, parse_value_range part v value)

  pub parse_bounds_range :
      (part : Text) (has_step : Bool) (r : Range)
      → parse_bounds part mn mx index has_step ≡ ok r
      → IsRange r
  unfolding parse_bounds
  parse_bounds_range part has_step r h = elim (Bool-cases (is_star part)) [
    | inl star ↦ ground (arith, fd.not_empty)
    | inr other ↦ elim (Bool-cases (contains b'-' part)) [
      | inl dash ↦ range_of_range (split b'-' part) r (rw (other, dash) at h)
      | inr plain ↦ single_range part has_step r (rw (other, plain) at h)
    ]
  ]
