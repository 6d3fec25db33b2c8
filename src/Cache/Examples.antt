-- ===== src/Cache/Examples.antt =====
-- Runs of the cache, and its theorems at concrete inputs.
use tickraft.Base.{
  lookup, insert, remove, ◌≡◌, ◌≤◌, refl, false, List, [], ◌∷◌, some, none, length, pos, negsuc,
  ◌+ℤ◌, if◌then◌else◌, ltb_ℤ,
}
use tickraft.Cache.{new_lru, size, get, set_with_ttl, has, delete_by_prefix}
use tickraft.Cache.Refinement.Lookups.{entries}
use tickraft.Cache.Refinement.Runs.{
  Call, getting, setting_with_ttl, deleting_by_prefix, asking, sizing, done, value, present, count,
  serve, serve_spec, call, serve-refines, serve_bounded, get-set_with_ttl, new_lru-IsValid,
}

abbrev session : List Call
session =
    setting_with_ttl 10 "user:1" (1 ∷ []) (pos 100)
    ∷ setting_with_ttl 11 "user:2" (2 ∷ []) (pos 100)
    ∷ getting 12 "user:1"
    ∷ setting_with_ttl 13 "task:3" (3 ∷ []) (pos 5)
    ∷ asking 14 "user:2"
    ∷ getting 19 "task:3"
    ∷ deleting_by_prefix "user:"
    ∷ sizing
    ∷ []

-- The read of user:1 saves it from the eviction, and task:3 has expired when it is read.
session_answers :
    (serve session (new_lru (pos 2) (pos 0))).1
    ≡ done ∷ done ∷ value (some (1 ∷ [])) ∷ done ∷ present false ∷ value none ∷ done ∷ count 0 ∷ []
unfolding serve call new_lru get size has delete_by_prefix set_with_ttl lookup insert remove ◌+ℤ◌
session_answers = refl

serve-refines_example :
    ((serve session (new_lru (pos 2) (negsuc 0))).1
      ≡ (serve_spec
          (new_lru (pos 2) (negsuc 0)).max_entries
          (new_lru (pos 2) (negsuc 0)).default_ttl
          session
          []).1)
    × (entries (serve session (new_lru (pos 2) (negsuc 0))).0.evict_list
        ≡ (serve_spec
            (new_lru (pos 2) (negsuc 0)).max_entries
            (new_lru (pos 2) (negsuc 0)).default_ttl
            session
            []).0)
serve-refines_example = serve-refines (pos 2) (negsuc 0) session

serve_bounded_example :
    (size (serve session (new_lru (pos 2) (pos 9))).0
      ≡ length (serve session (new_lru (pos 2) (pos 9))).0.evict_list)
    × (size (serve session (new_lru (pos 2) (pos 9))).0 ≤ (new_lru (pos 2) (pos 9)).max_entries)
serve_bounded_example = serve_bounded (pos 2) (pos 9) session

get-set_with_ttl_example :
    (get 20 "k" (set_with_ttl 10 "k" (7 ∷ []) (pos 5) (new_lru (pos 2) (pos 9)))).1
    ≡ (if ltb_ℤ (pos 10 +ℤ pos 5) (pos 20) then none else some (7 ∷ []))
get-set_with_ttl_example =
    get-set_with_ttl 10 20 "k" (7 ∷ []) (pos 5) (new_lru (pos 2) (pos 9))
      (new_lru-IsValid (pos 2) (pos 9))
