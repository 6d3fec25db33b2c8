-- ===== src/Cron/Bits/Laws.antt =====
-- Reading the bits of a mask that was written (pkg/cron/parser.go, `bitFor`, `bitMatch`, `allBits`).
use native.Mathlib.Nat.{pow-suc, pow-le-pow_right, mod-eq_of_lt}
use tickraft.Base.{
  ℕ, zero, suc, ◌+◌, ◌-◌, ◌*◌, ◌/◌, ◌%◌, ◌^◌, ◌≤◌, ◌<◌, ◌≡◌, refl, ◌∙◌, false, ◌&&◌, ◌||◌, ltb, leb,
  ◌==◌, arith,
}
use tickraft.Cron.Bits.{bit_match, set_bit, all_bits, uint64_mod}

halve : (a : ℕ) (b : ℕ) → b < 2 → (a * 2 + b) / 2 ≡ a
halve a b h = omega arith

parity : (a : ℕ) (b : ℕ) → b < 2 → (a * 2 + b) % 2 ≡ b
parity a b h = omega arith

pub bit_match-set_bit : (mask v w : ℕ) → bit_match (set_bit mask v) w ≡ (v == w || bit_match mask w)
unfolding bit_match set_bit
bit_match-set_bit mask zero zero = ground arith
bit_match-set_bit mask zero (suc w) = rw (halve (mask / 2) 1 (omega arith)) (ground arith)
bit_match-set_bit mask (suc v) zero = ground arith
bit_match-set_bit mask (suc v) (suc w) =
    rw (halve (set_bit (mask / 2) v) (mask % 2) (omega arith))
      (ground (arith, bit_match-set_bit (mask / 2) v w))

pub bit_match-zero : (w : ℕ) → bit_match 0 w ≡ false
unfolding bit_match
bit_match-zero zero = refl
bit_match-zero (suc w) = bit_match-zero w

pub double : (n : ℕ) → 2 ^ suc n ≡ 2 ^ n * 2
double n = pow-suc 2 n

pub pow_pos : (n : ℕ) → 0 < 2 ^ n
pow_pos zero = omega arith
pow_pos (suc n) = omega (arith, double n, pow_pos n)

ones : (n v : ℕ) → bit_match (2 ^ n - 1) v ≡ ltb v n
unfolding bit_match
ones zero v = rw (bit_match-zero v) (ground arith)
ones (suc n) zero = ground (arith, double n, pow_pos n)
ones (suc n) (suc v) =
    let e : (2 ^ suc n - 1) / 2 ≡ 2 ^ n - 1 = omega (arith, double n, pow_pos n) in
    rw e (ground (arith, ones n v))

regroup : (a b : ℕ) → a * (b * 2) ≡ a * b * 2
regroup a b = omega arith

shifted_even : (n m : ℕ) → (2 ^ n - 1) * 2 ^ suc m ≡ (2 ^ n - 1) * 2 ^ m * 2
shifted_even n m = rw (double m) (regroup (2 ^ n - 1) (2 ^ m))

mul_one : (a : ℕ) → a * 1 ≡ a
mul_one a = omega arith

shifted_ones : (n m v : ℕ) → bit_match ((2 ^ n - 1) * 2 ^ m) v ≡ (leb m v && ltb v (m + n))
unfolding bit_match
shifted_ones n zero v = rw (mul_one (2 ^ n - 1)) (ground (arith, ones n v))
shifted_ones n (suc m) zero = ground (arith, shifted_even n m)
shifted_ones n (suc m) (suc v) =
    let e : (2 ^ n - 1) * 2 ^ suc m / 2 ≡ (2 ^ n - 1) * 2 ^ m = omega (arith, shifted_even n m) in
    rw e (ground (arith, shifted_ones n m v))

shifted_top : (n m k : ℕ) → m + n ≡ k → (2 ^ n - 1) * 2 ^ m + 2 ^ m ≡ 2 ^ k
shifted_top n zero k e =
    let e' : n ≡ k = omega (arith, e) in rw (← e') (omega (arith, mul_one (2 ^ n - 1), pow_pos n))
shifted_top n (suc m) zero e = absurd (omega arith)
shifted_top n (suc m) (suc k) e =
    omega (arith, shifted_even n m, double m, double k, shifted_top n m k (omega (arith, e)))

shifted_fits : (n m : ℕ) → m + n ≤ 64 → (2 ^ n - 1) * 2 ^ m < uint64_mod
shifted_fits n m h =
    let top = shifted_top n m (m + n) refl in
    let bound : 2 ^ (m + n) ≤ 2 ^ 64 = pow-le-pow_right (omega arith) h in
    omega (arith, top, bound, pow_pos m)

-- A field's full mask has exactly the bits from its least to its greatest value.
pub bit_match-all_bits :
    (mn mx v : ℕ)
    → mn ≤ mx
    → mx < 64
    → mx - mn + 1 < 64
    → bit_match (all_bits mn mx) v ≡ (leb mn v && leb v mx)
unfolding all_bits
bit_match-all_bits mn mx v h k w =
    let n = mx - mn + 1 in
    let small : (ltb mx mn || leb 64 n) ≡ false = ground arith in
    let fits = mod-eq_of_lt (shifted_fits n mn (omega arith)) in
    rw (small, fits) (shifted_ones n mn v ∙ ground arith)
