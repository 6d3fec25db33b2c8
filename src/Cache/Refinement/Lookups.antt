-- ===== src/Cache/Refinement/Lookups.antt =====
-- What a key finds in the map and the list, against the list of entries (pkg/cache/lru.go).
use Prim.Native.String.{String}
use text.Mathlib.TextEquality.{eq_iff}
use tickraft.Base.{
  ℕ, ◌≡◌, refl, List, [], ◌∷◌, some, none, ◌⊎◌, arith, inl, inr, nat_key, string_key, lookup,
  remove, Option-cases,
}
use tickraft.Cache.{LruEntry, LruCache, entry_of}
use tickraft.Cache.Order.{find, without}
use tickraft.Cache.Coherence.{Indexed, Linked}

abbrev pub entries : List (ℕ × LruEntry) → List LruEntry
entries [] = []
entries ((i, x) ∷ l) = x ∷ entries l

pub present_inj :
    (c : LruCache) (k k' : String) (i : ℕ)
    → Linked c
    → lookup k c.items ≡ some i
    → lookup k' c.items ≡ some i
    → k' ≡ k
present_inj c k k' i h p q = ground (arith, h.present k i p, h.present k' i q)

find_miss :
    (items : List (String × ℕ)) (l : List (ℕ × LruEntry)) (k : String)
    → Indexed items l
    → lookup k items ≡ none
    → find k (entries l) ≡ none
unfolding find
find_miss items [] k h e = refl
find_miss items ((j, y) ∷ l) k h e = ground (arith, eq_iff y.key k, find_miss items l k h.1 e)

find_hit :
    (items : List (String × ℕ)) (l : List (ℕ × LruEntry)) (k : String) (i : ℕ) (x : LruEntry)
    → Indexed items l
    → lookup k items ≡ some i
    → lookup i l ≡ some x
    → x.key ≡ k
    → find k (entries l) ≡ some x
unfolding find lookup
find_hit items [] k i x h e f g = absurd (cc)
find_hit items ((j, y) ∷ l) k i x h e f g =
    ground (arith, eq_iff y.key k, find_hit items l k i x h.1 e)

entries-remove :
    (items : List (String × ℕ)) (l : List (ℕ × LruEntry)) (k : String) (i : ℕ)
    → Indexed items l
    → lookup k items ≡ some i
    → ((k' : String) → lookup k' items ≡ some i → k' ≡ k)
    → entries (remove i l) ≡ without k (entries l)
unfolding without remove
entries-remove items [] k i h e inj = refl
entries-remove items ((j, y) ∷ l) k i h e inj =
    ground (arith, eq_iff y.key k, inj y.key, entries-remove items l k i h.1 e inj)

without_absent : (k : String) (l : List LruEntry) → find k l ≡ none → without k l ≡ l
unfolding find without
without_absent k [] e = refl
without_absent k (x ∷ l) e = ground (arith, without_absent k l)

-- What `entry_of` finds, by cases.
pub record Found (c : LruCache) (key : String) (i : ℕ) (x : LruEntry) : Type 0 where
  pub reached : entry_of key c ≡ some (i, x)
  pub in_map : lookup key c.items ≡ some i
  pub in_list : lookup i c.evict_list ≡ some x
  pub same_key : x.key ≡ key
  pub found : find key (entries c.evict_list) ≡ some x
  pub dropped : entries (remove i c.evict_list) ≡ without key (entries c.evict_list)

pub record Missing (c : LruCache) (key : String) : Type 0 where
  pub unreached : entry_of key c ≡ none
  pub not_in_map : lookup key c.items ≡ none
  pub not_found : find key (entries c.evict_list) ≡ none
  pub kept : without key (entries c.evict_list) ≡ entries c.evict_list

pub entry_of-cases :
    (c : LruCache) (key : String)
    → Linked c
    → Missing c key ⊎ ((i : ℕ) × (x : LruEntry) × Found c key i x)
unfolding entry_of
entry_of-cases c key h = elim (Option-cases (lookup key c.items)) [
  | inl miss ↦
      let none_found = find_miss c.items c.evict_list key h.indexed miss in
      inl (record {
        unreached = ground arith;
        not_in_map = miss;
        not_found = none_found;
        kept = without_absent key (entries c.evict_list) none_found;
      })
  | inr (i, hit) ↦
      let (x, in_list, same) = h.present key i hit in
      inr (
        i,
        x,
        record {
          reached = ground arith;
          in_map = hit;
          in_list = in_list;
          same_key = same;
          found = find_hit c.items c.evict_list key i x h.indexed hit in_list same;
          dropped =
              entries-remove c.items c.evict_list key i h.indexed hit
                (λ k' q. present_inj c key k' i h hit q);
        },
      )
]
