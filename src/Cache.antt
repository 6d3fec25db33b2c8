-- ===== src/Cache.antt =====
-- The in-memory LRU cache of pkg/cache/lru.go. A `*list.Element` is the number under which the element
-- was pushed: `items` maps a key to the number of its element, and `evict_list` holds the elements with
-- their entries, front first. Times are nanoseconds. Each method runs under the mutex and is one step;
-- the contexts, which no method reads, are left out.
mod Order
mod Coherence
mod Refinement
mod Examples
use Prim.Native.String.{String}
use text.Mathlib.Text.{starts_with}
use tickraft.Base.{
  ℕ, zero, suc, ◌+◌, ◌*◌, Bool, true, false, not, List, [], ◌∷◌, Option, some, none, if◌then◌else◌,
  ltb, ℤ, pos, ◌+ℤ◌, ◌-ℤ◌, ltb_ℤ, positive_or, length, lookup, insert, remove, nat_key, string_key,
}

abbrev pub Bytes : Type 0
Bytes = List ℕ

pub record LruEntry : Type 0 where
  pub key : String
  pub value : Bytes
  pub expire_at : ℤ

pub record LruCache : Type 0 where
  pub items : List (String × ℕ)
  pub evict_list : List (ℕ × LruEntry)
  pub next_element : ℕ
  pub max_entries : ℕ
  pub default_ttl : ℕ

abbrev pub default_max_entries : ℕ
default_max_entries = 1024

abbrev pub five_minutes : ℕ
five_minutes = 300 * 1_000_000_000

unfoldable pub new_lru : ℤ → ℤ → LruCache
new_lru max_entries default_ttl = record {
  items = [];
  evict_list = [];
  next_element = 0;
  max_entries = positive_or max_entries default_max_entries;
  default_ttl = positive_or default_ttl five_minutes;
}

-- `evictList.Back()`
unfoldable pub back : List (ℕ × LruEntry) → Option (ℕ × LruEntry)
back [] = none
back (x ∷ []) = some x
back (x ∷ y ∷ l) = back (y ∷ l)

-- `removeElement`: the list loses the element, and the map the key of its entry.
unfoldable pub remove_element : ℕ → LruEntry → LruCache → LruCache
remove_element elem entry c = record c {
  items = remove entry.key c.items;
  evict_list = remove elem c.evict_list;
}

-- `MoveToFront` of an element with its entry, which may be written on the way.
unfoldable pub move_to_front : ℕ → LruEntry → LruCache → LruCache
move_to_front elem entry c = record c { evict_list = (elem, entry) ∷ remove elem c.evict_list }

-- `c.items[key]` and `entryOf`: the element of a key with its entry.
unfoldable pub entry_of : String → LruCache → Option (ℕ × LruEntry)
entry_of key c = elim (lookup key c.items) [
  | none ↦ none
  | some elem ↦ elim (lookup elem c.evict_list) [ none ↦ none | some entry ↦ some (elem, entry) ]
]

abbrev pub expired : ℕ → LruEntry → Bool
expired now entry = ltb_ℤ entry.expire_at (pos now)

unfoldable pub get : ℕ → String → LruCache → LruCache × Option Bytes
unfolding entry_of remove_element move_to_front
get now key c = elim (entry_of key c) [
  | none ↦ (c, none)
  | some (elem, entry) ↦
      if expired now entry
      then (remove_element elem entry c, none)
      else (move_to_front elem entry c, some entry.value)
]

-- The eviction at the end of `SetWithTTL`.
unfoldable pub evict_oldest : LruCache → LruCache
unfolding back remove_element
evict_oldest c =
    if ltb c.max_entries (length c.evict_list)
    then (elim (back c.evict_list) [ none ↦ c | some (elem, entry) ↦ remove_element elem entry c ])
    else c

-- `PushFront` of a new entry.
unfoldable pub push_front : LruEntry → LruCache → LruCache
push_front entry c = record c {
  items = insert entry.key c.next_element c.items;
  evict_list = (c.next_element, entry) ∷ c.evict_list;
  next_element = c.next_element + 1;
}

unfoldable pub set_with_ttl : ℕ → String → Bytes → ℤ → LruCache → LruCache
unfolding entry_of move_to_front push_front evict_oldest
set_with_ttl now key value ttl c =
    let entry : LruEntry = record { key = key; value = value; expire_at = pos now +ℤ ttl } in
    elim (entry_of key c) [
      | some (elem, _) ↦ move_to_front elem entry c
      | none ↦ evict_oldest (push_front entry c)
    ]

unfoldable pub set_default : ℕ → String → Bytes → LruCache → LruCache
unfolding set_with_ttl
set_default now key value c = set_with_ttl now key value (pos c.default_ttl) c

unfoldable pub delete : String → LruCache → LruCache
unfolding entry_of remove_element
delete key c = elim (entry_of key c) [ none ↦ c | some (elem, entry) ↦ remove_element elem entry c ]

unfoldable pub clear : LruCache → LruCache
clear c = record c { items = []; evict_list = [] }

unfoldable pub has : ℕ → String → LruCache → Bool
unfolding entry_of
has now key c = elim (entry_of key c) [ none ↦ false | some (_, entry) ↦ not (expired now entry) ]

unfoldable pub get_with_ttl : ℕ → String → LruCache → LruCache × Option (Bytes × ℤ)
unfolding entry_of remove_element move_to_front
get_with_ttl now key c = elim (entry_of key c) [
  | none ↦ (c, none)
  | some (elem, entry) ↦
      if expired now entry
      then (remove_element elem entry c, none)
      else (move_to_front elem entry c, some (entry.value, entry.expire_at -ℤ pos now))
]

-- The first loop of `DeleteByPrefix`: the elements to remove.
unfoldable pub with_prefix : String → List (String × ℕ) → List ℕ
with_prefix prefix [] = []
with_prefix prefix ((key, elem) ∷ m) =
    let rest = with_prefix prefix m in if starts_with key prefix then elem ∷ rest else rest

-- The second loop. An element that the list does not hold has no entry here, and is skipped.
unfoldable pub delete_all : List ℕ → LruCache → LruCache
unfolding remove_element
delete_all [] c = c
delete_all (elem ∷ elems) c =
    delete_all elems
      (elim (lookup elem c.evict_list) [ none ↦ c | some entry ↦ remove_element elem entry c ])

unfoldable pub delete_by_prefix : String → LruCache → LruCache
unfolding with_prefix delete_all
delete_by_prefix prefix c = delete_all (with_prefix prefix c.items) c

unfoldable pub size : LruCache → ℕ
size c = length c.items
