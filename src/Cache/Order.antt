-- ===== src/Cache/Order.antt =====
-- What the cache of pkg/cache/lru.go promises, with no map and no linked elements: a list of entries,
-- the most recently used first, no key twice.
use Prim.Native.String.{String}
use text.Mathlib.Text.{starts_with, ◌==◌ as str_eq}
use tickraft.Base.{ℕ, zero, suc, not, List, [], ◌∷◌, Option, some, none, if◌then◌else◌, select}
use tickraft.Cache.{LruEntry, expired}

abbrev pub take : ℕ → List LruEntry → List LruEntry
take zero l = []
take (suc n) [] = []
take (suc n) (x ∷ l) = x ∷ take n l

unfoldable pub find : String → List LruEntry → Option LruEntry
find key [] = none
find key (x ∷ l) = if str_eq x.key key then some x else find key l

unfoldable pub without : String → List LruEntry → List LruEntry
without key [] = []
without key (x ∷ l) = let rest = without key l in if str_eq x.key key then rest else x ∷ rest

-- A read: an expired entry is dropped, another moves to the front.
unfoldable pub read : ℕ → String → List LruEntry → List LruEntry × Option LruEntry
read now key l = elim (find key l) [
  | none ↦ (l, none)
  | some x ↦ if expired now x then (without key l, none) else (x ∷ without key l, some x)
]

-- A write: the entry is the most recent, and at most `capacity` entries stay.
unfoldable pub write : ℕ → LruEntry → List LruEntry → List LruEntry
write capacity x l = take capacity (x ∷ without x.key l)

unfoldable pub without_prefix : String → List LruEntry → List LruEntry
without_prefix prefix = select (λ x. not (starts_with x.key prefix))
