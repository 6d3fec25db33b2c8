-- ===== src/Cron/Bits.antt =====
-- The 64-bit masks of pkg/cron/parser.go. A mask is a number below 2 ^ 64, and its bits are its binary
-- digits: `mask & (1 << v)` reads the digit at `v`, and `mask | (1 << v)` makes it one.
pub mod Laws
pub mod Search
pub mod Ranges
pub mod Growth
use tickraft.Base.{
  ℕ, zero, suc, ◌+◌, ◌-◌, ◌*◌, ◌/◌, ◌%◌, ◌^◌, Bool, true, false, ◌||◌, Option, some, none, ltb, leb,
  if◌then◌else◌, ◌==◌, ℤ, pos, negsuc, ◌+ℤ◌, ◌-ℤ◌, leb_ℤ,
}

abbrev pub uint64_mod : ℕ
uint64_mod = 2 ^ 64

-- 2 ^ 63: the first number that an `int` does not hold.
abbrev pub int_limit : ℕ
int_limit = 2 ^ 63

-- `mask&(uint64(1)<<uint(value)) != 0`
unfoldable pub bit_match : ℕ → ℕ → Bool
bit_match mask zero = mask % 2 == 1
bit_match mask (suc v) = bit_match (mask / 2) v

-- `mask | bitFor(value)` for a value below 64
unfoldable pub set_bit : ℕ → ℕ → ℕ
set_bit mask zero = mask / 2 * 2 + 1
set_bit mask (suc v) = set_bit (mask / 2) v * 2 + mask % 2

-- `mask >> n`
unfoldable pub shift_right : ℕ → ℕ → ℕ
shift_right mask zero = mask
shift_right mask (suc n) = shift_right (mask / 2) n

unfoldable pub all_bits : ℕ → ℕ → ℕ
all_bits min_val max_val =
    if ltb max_val min_val || leb 64 (max_val - min_val + 1)
    then uint64_mod - 1
    else (2 ^ (max_val - min_val + 1) - 1) * 2 ^ min_val % uint64_mod

-- `bits.TrailingZeros64`, by at most as many digits as the fuel; 64 is enough for a mask.
unfoldable pub trailing_zeros : ℕ → ℕ → ℕ
trailing_zeros zero m = 0
trailing_zeros (suc f) m = let rest = trailing_zeros f (m / 2) in if m % 2 == 1 then 0 else rest + 1

unfoldable pub next_set_bit : ℕ → ℕ → ℕ → Option ℕ
unfolding shift_right trailing_zeros
next_set_bit mask from max_val =
    if ltb max_val from
    then none
    else let shifted = shift_right mask from in
      if shifted == 0
      then none
      else let value = from + trailing_zeros 64 shifted in
        if ltb max_val value then none else some value

-- A sum of two `int`s, which wraps from 2 ^ 63 on to the negative numbers.
unfoldable pub add_int : ℤ → ℤ → ℤ
unfolding ◌+ℤ◌ ◌-ℤ◌
add_int a b = let sum = a +ℤ b in if leb_ℤ (pos int_limit) sum then sum -ℤ pos uint64_mod else sum

-- `mask |= bitFor(value)`: a shift by 64 or more, such as by the unsigned form of a negative number,
-- sets no bit.
unfoldable pub set_bit_for : ℕ → ℤ → ℕ
unfolding set_bit
set_bit_for mask (pos v) = if ltb v 64 then set_bit mask v else mask
set_bit_for mask (negsuc n) = mask

-- `fillRange`, on fuel.
unfoldable pub fill_range : ℕ → ℕ → ℤ → ℤ → ℕ → ℕ
unfolding add_int set_bit_for
fill_range zero mask value end step = mask
fill_range (suc f) mask value end step =
    let rest = fill_range f (set_bit_for mask value) (add_int value (pos step)) end step in
    if leb_ℤ value end then rest else mask
