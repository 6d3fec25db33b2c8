-- ===== src/Cron/Bits/Ranges.antt =====
-- `fillRange` sets the values of a range that its step meets (pkg/cron/parser.go).
use native.Mathlib.Nat.{mod-eq_of_lt, mod-eq-sub-mod}
use tickraft.Base.{
  ℕ, zero, suc, ◌+◌, ◌-◌, ◌%◌, ◌≤◌, ◌<◌, ◌≡◌, refl, ◌∙◌, Bool, false, ◌&&◌, ◌||◌, ltb, leb, ◌==◌,
  arith, leb→gt, leb→le, Bool-cases, inl, inr, pos,
}
use tickraft.Cron.Bits.{bit_match, set_bit, add_int, fill_range, int_limit}
use tickraft.Cron.Bits.Laws.{bit_match-set_bit}

add_int-pos : (a b : ℕ) → a + b < int_limit → add_int (pos a) (pos b) ≡ pos (a + b)
unfolding add_int
add_int-pos a b h = ground arith

-- Whether `v` is met from `value` on, in steps of `step` up to `end`: by remainders, with no loop.
unfoldable pub met : ℕ → ℕ → ℕ → ℕ → Bool
met value end step v = leb value v && leb v end && (v - value) % step == 0

mod_back : (a step : ℕ) → step ≤ a → a % step ≡ (a - step) % step
mod_back a step h = mod-eq-sub-mod h

met-next :
    (value end step v : ℕ)
    → value ≤ end
    → 0 < step
    → met value end step v ≡ (value == v || met (value + step) end step v)
unfolding met
met-next value end step v h p = elim (Bool-cases (ltb v (value + step))) [
  | inl near ↦ ground (arith, mod-eq_of_lt {n = v - value} {m = step})
  | inr far ↦ ground (arith, mod_back (v - value) step)
]

fill_range_step :
    (f mask value end step : ℕ)
    → value ≤ end
    → end < 64
    → value + step < int_limit
    → fill_range (suc f) mask (pos value) (pos end) step
      ≡ fill_range f (set_bit mask value) (pos (value + step)) (pos end) step
unfolding fill_range
fill_range_step f mask value end step h small fits = ground (arith, add_int-pos value step)

fill_range_end :
    (f mask value end step : ℕ) → end < value → fill_range f mask (pos value) (pos end) step ≡ mask
unfolding fill_range
fill_range_end zero mask value end step h = refl
fill_range_end (suc f) mask value end step h = ground arith

met_none : (value end step v : ℕ) → end < value → met value end step v ≡ false
unfolding met
met_none value end step v h = ground arith

-- From an empty or any other mask the loop adds the values `value`, `value + step`, ... up to `end`,
-- and no other. One round more than the length of the range is enough fuel. The step keeps the last
-- sum below 2 ^ 63; a larger one wraps.
pub fill_range-met :
    (f mask value end step v : ℕ)
    → end < value + f
    → 0 < step
    → end < 64
    → end + step < int_limit
    → bit_match (fill_range f mask (pos value) (pos end) step) v
      ≡ (met value end step v || bit_match mask v)
fill_range-met zero mask value end step v enough p small fits =
    rw
      (
        fill_range_end zero mask value end step (omega arith),
        met_none value end step v (omega arith),
      )
      refl
fill_range-met (suc f) mask value end step v enough p small fits =
    elim (Bool-cases (leb value end)) [
      | inr done ↦
          rw
            (
              fill_range_end (suc f) mask value end step (leb→gt value end done),
              met_none value end step v (leb→gt value end done),
            )
            refl
      | inl more ↦
          let within = leb→le value end more in
          rw (fill_range_step f mask value end step within small (omega arith)) (
            fill_range-met f (set_bit mask value) (value + step) end step v (omega arith) p small
              fits
            ∙ ground (arith, met-next value end step v within p, bit_match-set_bit mask value v))
    ]
