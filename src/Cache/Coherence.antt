-- ===== src/Cache/Coherence.antt =====
-- The map and the linked list of the cache describe the same entries (pkg/cache/lru.go).
use Prim.Native.String.{String}
use text.Mathlib.TextEquality.{eq_iff}
use text.Mathlib.Text.{◌==◌ as str_eq}
use tickraft.Base.{
  ℕ, ◌+◌, ◌<◌, ◌≡◌, refl, List, [], ◌∷◌, some, none, arith, Bool-cases, ◌==◌, inl, inr, nat_key,
  string_key, lookup, insert, remove, length, lookup-remove, lookup-insert, Distinct,
  remove-Distinct, insert-Distinct, length-remove, length-insert,
}
use tickraft.Cache.{LruEntry, LruCache, remove_element, move_to_front, push_front}

-- Each element is the one that the map has for the key of its entry.
abbrev pub Indexed : List (String × ℕ) → List (ℕ × LruEntry) → Type 0
Indexed items [] = Unit {0}
Indexed items ((i, x) ∷ l) = (lookup x.key items ≡ some i) × Indexed items l

-- Each element was pushed before `n`.
abbrev pub Below : ℕ → List (ℕ × LruEntry) → Type 0
Below n [] = Unit {0}
Below n ((i, x) ∷ l) = (i < n) × Below n l

pub record Linked (c : LruCache) : Type 0 where
  pub indexed : Indexed c.items c.evict_list
  pub present :
      (key : String) (elem : ℕ)
      → lookup key c.items ≡ some elem
      → (x : LruEntry) × (lookup elem c.evict_list ≡ some x) × (x.key ≡ key)
  pub distinct_elements : Distinct c.evict_list
  pub distinct_keys : Distinct c.items
  pub fresh : Below c.next_element c.evict_list
  pub same_size : length c.items ≡ length c.evict_list

Indexed-lookup :
    (items : List (String × ℕ)) (l : List (ℕ × LruEntry)) (i : ℕ) (x : LruEntry)
    → Indexed items l
    → lookup i l ≡ some x
    → lookup x.key items ≡ some i
unfolding lookup
Indexed-lookup items [] i x h e = cc
Indexed-lookup items ((j, y) ∷ l) i x h e = ground (arith, Indexed-lookup items l i x h.1)

Indexed-remove :
    (items : List (String × ℕ)) (l : List (ℕ × LruEntry)) (k : String) (i : ℕ)
    → lookup k items ≡ some i
    → Indexed items l
    → Indexed (remove k items) (remove i l)
unfolding remove
Indexed-remove items [] k i e h = tt
Indexed-remove items ((j, y) ∷ l) k i e h =
    ground (arith, eq_iff k y.key, lookup-remove k y.key items, Indexed-remove items l k i e h.1)

Indexed-insert :
    (items : List (String × ℕ)) (l : List (ℕ × LruEntry)) (k : String) (i : ℕ)
    → lookup k items ≡ none
    → Indexed items l
    → Indexed (insert k i items) l
Indexed-insert items [] k i e h = tt
Indexed-insert items ((j, y) ∷ l) k i e h =
    ground (arith, eq_iff k y.key, lookup-insert k y.key i items, Indexed-insert items l k i e h.1)

Indexed-kept :
    (items : List (String × ℕ)) (l : List (ℕ × LruEntry)) (i : ℕ)
    → Indexed items l
    → Indexed items (remove i l)
unfolding remove
Indexed-kept items [] i h = tt
Indexed-kept items ((j, y) ∷ l) i h = ground (arith, Indexed-kept items l i h.1)

Below-remove : (n i : ℕ) (l : List (ℕ × LruEntry)) → Below n l → Below n (remove i l)
unfolding remove
Below-remove n i [] h = tt
Below-remove n i ((j, y) ∷ l) h = ground (arith, Below-remove n i l h.1)

Below-suc : (n : ℕ) (l : List (ℕ × LruEntry)) → Below n l → Below (n + 1) l
Below-suc n [] h = tt
Below-suc n ((j, y) ∷ l) h = (omega arith, Below-suc n l h.1)

Below-lookup : (n : ℕ) (l : List (ℕ × LruEntry)) → Below n l → lookup n l ≡ none
unfolding lookup
Below-lookup n [] h = refl
Below-lookup n ((j, y) ∷ l) h = ground (arith, Below-lookup n l h.1)

Below-at :
    (n i : ℕ) (x : LruEntry) (l : List (ℕ × LruEntry)) → Below n l → lookup i l ≡ some x → i < n
unfolding lookup
Below-at n i x [] h e = absurd (cc)
Below-at n i x ((j, y) ∷ l) h e = ground (arith, Below-at n i x l h.1)

pub remove_element-Linked :
    (c : LruCache) (elem : ℕ) (x : LruEntry)
    → Linked c
    → lookup elem c.evict_list ≡ some x
    → Linked (remove_element elem x c)
unfolding remove_element
remove_element-Linked c elem x h e =
    let key_of = Indexed-lookup c.items c.evict_list elem x h.indexed e in
    record {
      indexed = Indexed-remove c.items c.evict_list x.key elem key_of h.indexed;
      present = λ key elem' q. kept key elem' q;
      distinct_elements = remove-Distinct elem c.evict_list h.distinct_elements;
      distinct_keys = remove-Distinct x.key c.items h.distinct_keys;
      fresh = Below-remove c.next_element elem c.evict_list h.fresh;
      same_size = omega (
        arith,
        h.same_size,
        length-remove x.key elem c.items h.distinct_keys key_of,
        length-remove elem x c.evict_list h.distinct_elements e,
      );
    }
  where
    kept :
        (key : String) (elem' : ℕ)
        → lookup key (remove x.key c.items) ≡ some elem'
        → (y : LruEntry) × (lookup elem' (remove elem c.evict_list) ≡ some y) × (y.key ≡ key)
    kept key elem' q =
        let r : lookup key c.items ≡ some elem' = ground (arith, lookup-remove x.key key c.items) in
        let (y, found, same) = h.present key elem' r in
        (
          y,
          ground (
            arith,
            eq_iff x.key key,
            lookup-remove x.key key c.items,
            lookup-remove elem elem' c.evict_list,
          ),
          same,
        )

pub move_to_front-Linked :
    (c : LruCache) (elem : ℕ) (x old : LruEntry)
    → Linked c
    → lookup elem c.evict_list ≡ some old
    → x.key ≡ old.key
    → Linked (move_to_front elem x c)
unfolding move_to_front lookup
move_to_front-Linked c elem x old h e k =
    let key_of = Indexed-lookup c.items c.evict_list elem old h.indexed e in
    record {
      indexed = (rw k key_of, Indexed-kept c.items c.evict_list elem h.indexed);
      present = λ key elem' q. kept key elem' q;
      distinct_elements = (
        ground (arith, lookup-remove elem elem c.evict_list),
        remove-Distinct elem c.evict_list h.distinct_elements,
      );
      distinct_keys = h.distinct_keys;
      fresh = (
        Below-at c.next_element elem old c.evict_list h.fresh e,
        Below-remove c.next_element elem c.evict_list h.fresh,
      );
      same_size =
          omega (arith, h.same_size, length-remove elem old c.evict_list h.distinct_elements e);
    }
  where
    kept :
        (key : String) (elem' : ℕ)
        → lookup key c.items ≡ some elem'
        → (y : LruEntry) × (lookup elem' ((elem, x) ∷ remove elem c.evict_list) ≡ some y)
          × (y.key ≡ key)
    kept key elem' q =
        let (y, found, same) = h.present key elem' q in
        elim (Bool-cases (elem == elem')) [
          | inl hit ↦ (x, ground arith, ground arith)
          | inr miss ↦ (y, ground (arith, lookup-remove elem elem' c.evict_list), same)
        ]

pub push_front-Linked :
    (c : LruCache) (x : LruEntry) → Linked c → lookup x.key c.items ≡ none → Linked (push_front x c)
unfolding push_front lookup
push_front-Linked c x h e = record {
  indexed = (
    ground (arith, eq_iff x.key x.key, lookup-insert x.key x.key c.next_element c.items),
    Indexed-insert c.items c.evict_list x.key c.next_element e h.indexed,
  );
  present = λ key elem' q. kept key elem' q;
  distinct_elements = (Below-lookup c.next_element c.evict_list h.fresh, h.distinct_elements);
  distinct_keys = insert-Distinct x.key c.next_element c.items h.distinct_keys;
  fresh = (omega arith, Below-suc c.next_element c.evict_list h.fresh);
  same_size = omega (arith, h.same_size, length-insert x.key c.next_element c.items e);
}
  where
    kept :
        (key : String) (elem' : ℕ)
        → lookup key (insert x.key c.next_element c.items) ≡ some elem'
        → (y : LruEntry) × (lookup elem' ((c.next_element, x) ∷ c.evict_list) ≡ some y)
          × (y.key ≡ key)
    kept key elem' q = elim (Bool-cases (str_eq x.key key)) [
      | inl hit ↦ (
        x,
        ground (arith, lookup-insert x.key key c.next_element c.items),
        ground (arith, eq_iff x.key key),
      )
      | inr miss ↦
          let r : lookup key c.items ≡ some elem' =
            ground (arith, lookup-insert x.key key c.next_element c.items) in
          let (y, found, same) = h.present key elem' r in
          (y, ground (arith, Below-lookup c.next_element c.evict_list h.fresh), same)
    ]
