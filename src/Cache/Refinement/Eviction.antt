-- ===== src/Cache/Refinement/Eviction.antt =====
-- Reads, writes with their eviction, and deletions keep the cache valid and do to its entries what
-- Order says (pkg/cache/lru.go).
use Prim.Native.String.{String}
use mathlib.Core.Option
use mathlib.Core.Path.{subst}
use tickraft.Base.{
  ℕ, zero, suc, ◌+◌, ◌≤◌, ◌<◌, ◌≡◌, refl, ap, sym, List, [], ◌∷◌, some, none, true, false,
  if◌then◌else◌, ltb, arith, Bool-cases, inl, inr, nat_key, string_key, lookup, remove, length,
  length-remove, Distinct, ℤ, pos, ◌+ℤ◌, ◌-ℤ◌,
}
use tickraft.Cache.{
  Bytes, LruEntry, LruCache, back, remove_element, move_to_front, push_front, evict_oldest, get,
  set_with_ttl, delete, has, get_with_ttl, expired,
}
use tickraft.Cache.Order.{take, without, read, write}
use tickraft.Cache.Coherence.{
  Linked, remove_element-Linked, move_to_front-Linked, push_front-Linked,
}
use tickraft.Cache.Refinement.Lookups.{entries, entry_of-cases}

pub record IsValid (c : LruCache) : Type 0 where
  pub linked : Linked c
  pub bounded : length c.evict_list ≤ c.max_entries
  pub positive : 0 < c.max_entries

take_of_length-le :
    (n : ℕ) (l : List (ℕ × LruEntry)) → length l ≤ n → take n (entries l) ≡ entries l
take_of_length-le zero [] h = refl
take_of_length-le zero ((i, x) ∷ l) h = absurd (omega arith)
take_of_length-le (suc n) [] h = refl
take_of_length-le (suc n) ((i, x) ∷ l) h = ap (◌∷◌ x) (take_of_length-le n l (omega arith))

back-take :
    (n : ℕ) (l : List (ℕ × LruEntry))
    → Distinct l
    → length l ≡ suc n
    → (i : ℕ) × (x : LruEntry) × (back l ≡ some (i, x))
      × (lookup i l ≡ some x)
      × (entries (remove i l) ≡ take n (entries l))
unfolding back lookup remove
back-take n [] d h = absurd (omega arith)
back-take zero ((j, y) ∷ []) d h = (j, y, refl, ground arith, ground arith)
back-take (suc n) ((j, y) ∷ []) d h = absurd (omega arith)
back-take zero (a ∷ b ∷ l) d h = absurd (omega arith)
back-take (suc n) ((j, y) ∷ b ∷ l) d h =
    let (i, x, last, there, rest) = back-take n (b ∷ l) d.1 (omega arith) in
    (i, x, last, ground arith, ground arith)

module _ (c : LruCache) (i : ℕ) (x : LruEntry) where
  pub removed-IsValid : IsValid c → lookup i c.evict_list ≡ some x → IsValid (remove_element i x c)
  unfolding remove_element
  removed-IsValid v e = record {
    linked = unfold remove_element in remove_element-Linked c i x v.linked e;
    bounded = omega (arith, v.bounded, length-remove i x c.evict_list v.linked.distinct_elements e);
    positive = v.positive;
  }

  moved-IsValid :
      (new : LruEntry)
      → IsValid c
      → lookup i c.evict_list ≡ some x
      → new.key ≡ x.key
      → IsValid (move_to_front i new c)
  unfolding move_to_front
  moved-IsValid new v e k = record {
    linked = move_to_front-Linked c i new x v.linked e k;
    bounded = omega (arith, v.bounded, length-remove i x c.evict_list v.linked.distinct_elements e);
    positive = v.positive;
  }

  -- What a read leaves behind, late or in time.
  read_leaves :
      (now : ℕ)
      → IsValid c
      → lookup i c.evict_list ≡ some x
      → IsValid (if expired now x then remove_element i x c else move_to_front i x c)
  read_leaves now v e = elim (Bool-cases (expired now x)) [
    | inl late ↦ rw late (removed-IsValid v e)
    | inr fresh ↦ rw fresh (moved-IsValid x v e refl)
  ]

settle : {c c' : LruCache} → c' ≡ c → IsValid c → IsValid c'
settle p v = subst IsValid (sym p) v

module _ (now : ℕ) (key : String) (c : LruCache) (v : IsValid c) where
  pub get-IsValid : IsValid (get now key c).0
  unfolding get
  get-IsValid = elim (entry_of-cases c key v.linked) [
    | inl m ↦ settle (ground (arith, m.unreached)) v
    | inr (i, x, f) ↦ settle (ground (arith, f.reached)) (read_leaves c i x now v f.in_list)
  ]

  pub get-read :
      let (c', got) = get now key c in
      let (l', x) = read now key (entries c.evict_list) in
      (entries c'.evict_list ≡ l')
      × (got ≡ Option.map (λ y. y.value) x)
      × (c'.max_entries ≡ c.max_entries)
      × (c'.default_ttl ≡ c.default_ttl)
  unfolding get read
  get-read = elim (entry_of-cases c key v.linked) [
    | inl m ↦ ground (arith, m.unreached, m.not_found)
    | inr (i, x, f) ↦ ground (arith, f.reached, f.found, f.dropped)
  ]

  pub get_with_ttl-IsValid : IsValid (get_with_ttl now key c).0
  unfolding get_with_ttl
  get_with_ttl-IsValid = elim (entry_of-cases c key v.linked) [
    | inl m ↦ settle (ground (arith, m.unreached)) v
    | inr (i, x, f) ↦ settle (ground (arith, f.reached)) (read_leaves c i x now v f.in_list)
  ]

  pub get_with_ttl-read :
      let (c', got) = get_with_ttl now key c in
      let (l', x) = read now key (entries c.evict_list) in
      (entries c'.evict_list ≡ l')
      × (got ≡ Option.map (λ y. (y.value, y.expire_at -ℤ pos now)) x)
      × (c'.max_entries ≡ c.max_entries)
      × (c'.default_ttl ≡ c.default_ttl)
  unfolding get_with_ttl read
  get_with_ttl-read = elim (entry_of-cases c key v.linked) [
    | inl m ↦ ground (arith, m.unreached, m.not_found)
    | inr (i, x, f) ↦ ground (arith, f.reached, f.found, f.dropped)
  ]

  pub has-read :
      has now key c
      ≡ (elim (read now key (entries c.evict_list)).1 [ none ↦ false | some _ ↦ true ])
  unfolding has read
  has-read = elim (entry_of-cases c key v.linked) [
    | inl m ↦ ground (arith, m.unreached, m.not_found)
    | inr (i, x, f) ↦ ground (arith, f.reached, f.found)
  ]

  pub delete-IsValid : IsValid (delete key c)
  unfolding delete
  delete-IsValid = elim (entry_of-cases c key v.linked) [
    | inl m ↦ settle (ground (arith, m.unreached)) v
    | inr (i, x, f) ↦ settle (ground (arith, f.reached)) (removed-IsValid c i x v f.in_list)
  ]

  pub delete-without :
      let c' = delete key c in
      (entries c'.evict_list ≡ without key (entries c.evict_list))
      × (c'.max_entries ≡ c.max_entries)
      × (c'.default_ttl ≡ c.default_ttl)
  unfolding delete
  delete-without = elim (entry_of-cases c key v.linked) [
    | inl m ↦ ground (arith, m.unreached, m.kept)
    | inr (i, x, f) ↦ ground (arith, f.reached, f.dropped)
  ]

evict_oldest-take :
    (c : LruCache)
    → Linked c
    → 0 < c.max_entries
    → length c.evict_list ≤ c.max_entries + 1
    → let c' = evict_oldest c in
      IsValid c'
      × (entries c'.evict_list ≡ take c.max_entries (entries c.evict_list))
      × (c'.max_entries ≡ c.max_entries)
      × (c'.default_ttl ≡ c.default_ttl)
unfolding evict_oldest
evict_oldest-take c h p b = elim (Bool-cases (ltb c.max_entries (length c.evict_list))) [
  | inl full ↦
      let (i, x, last, there, rest) =
        back-take c.max_entries c.evict_list h.distinct_elements (ground arith) in
      let fewer = length-remove i x c.evict_list h.distinct_elements there in
      let linked = remove_element-Linked c i x h there in
      (
        settle {c = remove_element i x c} (ground arith)
            (record { linked = linked; bounded = ground arith; positive = ground arith }),
        ground arith,
        ground arith,
        ground arith,
      )
  | inr fits ↦ (
    settle {c = c} (ground arith) (record { linked = h; bounded = ground arith; positive = p }),
    ground (arith, take_of_length-le c.max_entries c.evict_list),
    ground arith,
    ground arith,
  )
]

module _ (now : ℕ) (key : String) (value : Bytes) (ttl : ℤ) (c : LruCache) (v : IsValid c) where
  abbrev written : LruEntry
  written = record { key = key; value = value; expire_at = pos now +ℤ ttl }

  pub set_with_ttl-write :
      let c' = set_with_ttl now key value ttl c in
      IsValid c'
      × (entries c'.evict_list ≡ write c.max_entries written (entries c.evict_list))
      × (c'.max_entries ≡ c.max_entries)
      × (c'.default_ttl ≡ c.default_ttl)
  unfolding set_with_ttl write push_front
  set_with_ttl-write = elim (entry_of-cases c key v.linked) [
    | inl m ↦
        let pushed = push_front-Linked c written v.linked m.not_in_map in
        let (valid, taken, same, ttl') =
          evict_oldest-take (push_front written c) pushed v.positive (omega (arith, v.bounded)) in
        (
          settle (ground (arith, m.unreached)) valid,
          ground (arith, m.unreached, m.kept),
          ground (arith, m.unreached),
          ground (arith, m.unreached),
        )
    | inr (i, x, f) ↦
        let moved = moved-IsValid c i x written v f.in_list (sym f.same_key) in
        (
          settle (ground (arith, f.reached)) moved,
          ground (
            arith,
            f.reached,
            f.dropped,
            v.bounded,
            length-remove i x c.evict_list v.linked.distinct_elements f.in_list,
            take_of_length-le c.max_entries ((i, written) ∷ remove i c.evict_list),
          ),
          ground (arith, f.reached),
          ground (arith, f.reached),
        )
  ]
