-- ===== src/Scheduler/Examples.antt =====
-- Shards of two and three instances, and the theorem at them.
use tickraft.Base.{◌≡◌, refl, true}
use tickraft.Scheduler.{consistent_hash, owns, fnv1a64, format_int}

-- A third instance joins, and task 6 moves from instance 1 to instance 0, which both stay.
moved_before : owns (consistent_hash 2 1) 6 ≡ true
unfolding owns fnv1a64 format_int
moved_before = refl

moved_after : owns (consistent_hash 3 0) 6 ≡ true
unfolding owns fnv1a64 format_int
moved_after = refl
