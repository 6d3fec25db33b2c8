-- ===== src/Cron/Bits/Search.antt =====
-- `nextSetBit` finds the least set bit of a range (pkg/cron/parser.go).
use native.Mathlib.Numerals.{add-one}
use tickraft.Base.{
  ℕ, zero, suc, ◌+◌, ◌-◌, ◌/◌, ◌%◌, ◌^◌, ◌≤◌, ◌<◌, ◌≡◌, refl, ◌∙◌, sym, ap, true, false, Option,
  some, none, ltb, ◌==◌, arith, ltb→lt, ltb→ge, Bool-cases, inl, inr,
}
use tickraft.Cron.Bits.{bit_match, shift_right, trailing_zeros, next_set_bit, uint64_mod}
use tickraft.Cron.Bits.Laws.{double, bit_match-zero}

shift_right-le : (m n : ℕ) → shift_right m n ≤ m
unfolding shift_right
shift_right-le m zero = omega arith
shift_right-le m (suc n) = omega (arith, shift_right-le (m / 2) n)

bit_match-shift_right : (m n v k : ℕ) → n + v ≡ k → bit_match (shift_right m n) v ≡ bit_match m k
unfolding shift_right bit_match
bit_match-shift_right m zero v k e = let e' : v ≡ k = omega (arith, e) in rw e' refl
bit_match-shift_right m (suc n) v zero e = absurd (omega arith)
bit_match-shift_right m (suc n) v (suc k) e = bit_match-shift_right (m / 2) n v k (omega arith)

bit_match-suc : (m w : ℕ) → bit_match m (w + 1) ≡ bit_match (m / 2) w
unfolding bit_match
bit_match-suc m w = rw add-one refl

trailing_zeros-set : (f m : ℕ) → 0 < m → m < 2 ^ f → bit_match m (trailing_zeros f m) ≡ true
unfolding trailing_zeros bit_match
trailing_zeros-set zero m p h = absurd (omega arith)
trailing_zeros-set (suc f) m p h = elim (Bool-cases (m % 2 == 1)) [
  | inl odd ↦ rw odd odd
  | inr even ↦
      ground
        (arith, double f, trailing_zeros-set f (m / 2), bit_match-suc m (trailing_zeros f (m / 2)))
]

trailing_zeros-clear : (f m w : ℕ) → w < trailing_zeros f m → bit_match m w ≡ false
unfolding trailing_zeros bit_match
trailing_zeros-clear zero m w h = elim h [ ]
trailing_zeros-clear (suc f) m zero h = ground arith
trailing_zeros-clear (suc f) m (suc w) h = ground (arith, trailing_zeros-clear f (m / 2) w)

-- What `nextSetBit` returns: the least bit set between the two ends, or no bit is set there.
abbrev pub IsNext : ℕ → ℕ → ℕ → Option ℕ → Type 0
IsNext mask from last (some v) =
    (from ≤ v)
    × (v ≤ last)
    × (bit_match mask v ≡ true)
    × ((w : ℕ) → from ≤ w → w < v → bit_match mask w ≡ false)
IsNext mask from last none = (w : ℕ) → from ≤ w → w ≤ last → bit_match mask w ≡ false

module _ (mask from last : ℕ) (h : mask < uint64_mod) where
  abbrev shifted : ℕ
  shifted = shift_right mask from

  shifted_bit : (w : ℕ) → from ≤ w → bit_match shifted (w - from) ≡ bit_match mask w
  shifted_bit w a = bit_match-shift_right mask from (w - from) w (omega arith)

  no_bits : shifted ≡ 0 → (w : ℕ) → from ≤ w → bit_match mask w ≡ false
  no_bits e w a =
      sym (shifted_bit w a) ∙ (ap (λ m. bit_match m (w - from)) e ∙ bit_match-zero (w - from))

  first_bit : 0 < shifted → bit_match mask (from + trailing_zeros 64 shifted) ≡ true
  first_bit p =
      sym (bit_match-shift_right mask from (trailing_zeros 64 shifted) _ refl)
      ∙ trailing_zeros-set 64 shifted p (omega (arith, shift_right-le mask from, h))

  none_before : (w : ℕ) → from ≤ w → w < from + trailing_zeros 64 shifted → bit_match mask w ≡ false
  none_before w a b =
      sym (shifted_bit w a) ∙ trailing_zeros-clear 64 shifted (w - from) (omega arith)

  -- On any 64-bit mask `nextSetBit` returns the least set bit from `from` to `last`, both included,
  -- and none only when no bit is set there.
  pub next_set_bit-IsNext : IsNext mask from last (next_set_bit mask from last)
  unfolding next_set_bit
  next_set_bit-IsNext = elim (Bool-cases (ltb last from)) [
    | inl empty ↦ rw empty (λ w a b. absurd (ground arith))
    | inr range ↦ rw range (elim (Bool-cases (shifted == 0)) [
      | inl zeros ↦ rw zeros (λ w a b. no_bits (ground arith) w a)
      | inr ones ↦ rw ones (elim (Bool-cases (ltb last (from + trailing_zeros 64 shifted))) [
        | inl beyond ↦ rw beyond (λ w a b. none_before w a (omega (arith, ltb→lt last _ beyond)))
        | inr within ↦
            rw within (omega arith, ltb→ge last _ within, first_bit (ground arith), none_before)
      ])
    ])
  ]
