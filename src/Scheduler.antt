-- ===== src/Scheduler.antt =====
-- The shards of the job scheduler: pkg/scheduler/shard.go. The numbers of tasks are those of the database,
-- which are positive.
pub mod Shares
pub mod Engine
mod Examples
use Prim.Native.Nat.{bit_xor}
use Prim.Native.Char.{code}
use Prim.Native.String.{String}
use tickraft.Base.{
  ℕ, zero, suc, ◌+◌, ◌*◌, ◌/◌, ◌%◌, ◌^◌, Bool, true, List, [], ◌∷◌, ◌++◌, Option, some, none, leb,
  ltb, ◌==◌, if◌then◌else◌,
}

abbrev pub uint64_mod : ℕ
uint64_mod = 2 ^ 64

abbrev pub fnv64_offset : ℕ
fnv64_offset = 14695981039346656037

abbrev pub fnv64_prime : ℕ
fnv64_prime = 1099511628211

-- `fnv1a64`, from a hash so far.
unfoldable pub fnv1a64_from : ℕ → List ℕ → ℕ
fnv1a64_from h [] = h
fnv1a64_from h (c ∷ s) = fnv1a64_from (bit_xor h c * fnv64_prime % uint64_mod) s

unfoldable pub fnv1a64 : List ℕ → ℕ
unfolding fnv1a64_from
fnv1a64 s = fnv1a64_from fnv64_offset s

-- `strconv.FormatInt(n, 10)`: the digits of a positive number, on fuel.
unfoldable pub format_digits : ℕ → ℕ → List ℕ → List ℕ
format_digits zero n s = s
format_digits (suc f) n s =
    let longer = format_digits f (n / 10) ((b'0' + n % 10) ∷ s) in
    if ltb n 10 then (b'0' + n % 10) ∷ s else longer

-- An int64 has at most 19 digits.
unfoldable pub format_int : ℕ → List ℕ
unfolding format_digits
format_int n = format_digits 19 n []

-- `ModuloShardStrategy` and `ConsistentHashShardStrategy`, with the number of shards and the own index.
pub data ShardStrategy : Type 0 where
  modulo consistent_hash : ℕ → ℕ → ShardStrategy

unfoldable pub owns : ShardStrategy → ℕ → Bool
owns (modulo total index) task = if leb total 1 then true else task % total == index
owns (consistent_hash total index) task =
    if leb total 1 then true else fnv1a64 (format_int task) % total == index

-- `ShardManager.Owns`: without a strategy all tasks are owned.
unfoldable pub manager_owns : Option ShardStrategy → ℕ → Bool
manager_owns none task = true
manager_owns (some strategy) task = owns strategy task
