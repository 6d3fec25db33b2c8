-- ===== src/Scheduler/Shares.antt =====
-- Each task has one owner (pkg/scheduler/shard.go).
use tickraft.Base.{ℕ, ◌≡◌, ◌<◌, true, some}
use tickraft.Scheduler.{ShardStrategy, modulo, consistent_hash, manager_owns}

-- The two kinds of strategy.
pub data Kind : Type 0 where
  by_modulo by_hash : Kind

abbrev pub strategy : Kind → ℕ → ℕ → ShardStrategy
strategy by_modulo total index = modulo total index
strategy by_hash total index = consistent_hash total index

-- One index below the number of shards owns the task, and no other does.
abbrev pub OneOwner : Kind → ℕ → ℕ → Type 0
OneOwner kind total task =
    (owner : ℕ) × (owner < total)
    × (manager_owns (some (strategy kind total owner)) task ≡ true)
    × ((other : ℕ) → manager_owns (some (strategy kind total other)) task ≡ true → other ≡ owner)
