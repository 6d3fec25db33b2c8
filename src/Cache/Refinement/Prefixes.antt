-- ===== src/Cache/Refinement/Prefixes.antt =====
-- `DeleteByPrefix` removes the entries whose key has the prefix, and no other (pkg/cache/lru.go).
use Prim.Native.String.{String}
use text.Mathlib.TextEquality.{eq_iff}
use text.Mathlib.Text.{starts_with}
use mathlib.Core.Path.{subst}
use tickraft.Base.{
  ℕ, ◌≡◌, refl, sym, ap, ◌∙◌, List, [], ◌∷◌, some, none, Bool, true, false, ◌||◌, ◌&&◌,
  remove_absent, arith, Bool-cases, ◌==◌, inl, inr, nat_key, string_key, lookup, remove, Distinct,
  Option-cases,
}
use tickraft.Cache.{LruEntry, LruCache, with_prefix, delete_all, remove_element, delete_by_prefix}
use tickraft.Cache.Order.{without_prefix}
use tickraft.Cache.Coherence.{Indexed, Linked}
use tickraft.Cache.Refinement.Lookups.{entries, present_inj}
use tickraft.Cache.Refinement.Eviction.{IsValid, removed-IsValid}

mem : ℕ → List ℕ → Bool
mem i [] = false
mem i (j ∷ js) = j == i || mem i js

-- The elements to delete are those whose key has the prefix.
abbrev Marks : String → List ℕ → List (ℕ × LruEntry) → Type 0
Marks p js [] = Unit {0}
Marks p js ((i, x) ∷ l) = (mem i js ≡ starts_with x.key p) × Marks p js l

marked :
    (p k : String) (j : ℕ) (items : List (String × ℕ))
    → lookup k items ≡ some j
    → starts_with k p ≡ true
    → mem j (with_prefix p items) ≡ true
unfolding mem with_prefix lookup
marked p k j [] e s = cc
marked p k j ((k', j') ∷ items) e s = ground (arith, eq_iff k' k, marked p k j items)

unmarked :
    (p : String) (j : ℕ) (items : List (String × ℕ))
    → Distinct items
    → mem j (with_prefix p items) ≡ true
    → (k : String) × (lookup k items ≡ some j) × (starts_with k p ≡ true)
unfolding mem with_prefix lookup
unmarked p j [] d e = absurd (cc)
unmarked p j ((k', j') ∷ items) d e = elim (Bool-cases (starts_with k' p && j' == j)) [
  | inl this ↦ (k', ground (arith, eq_iff k' k'), ground arith)
  | inr rest ↦
      let (k, found, s) = unmarked p j items d.1 (ground arith) in
      (k, ground (arith, eq_iff k' k), s)
]

Marks-with_prefix :
    (p : String) (c : LruCache) (l : List (ℕ × LruEntry))
    → Linked c
    → Indexed c.items l
    → Marks p (with_prefix p c.items) l
Marks-with_prefix p c [] h ix = tt
Marks-with_prefix p c ((i, x) ∷ l) h ix = (same, Marks-with_prefix p c l h ix.1)
  where
    same : mem i (with_prefix p c.items) ≡ starts_with x.key p
    same = elim (Bool-cases (starts_with x.key p)) [
      | inl s ↦ marked p x.key i c.items ix.0 s ∙ sym s
      | inr ns ↦ elim (Bool-cases (mem i (with_prefix p c.items))) [
        | inl m ↦
            let (k, found, s) = unmarked p i c.items h.distinct_keys m in
            ground (arith, present_inj c k x.key i h found ix.0)
        | inr nm ↦ nm ∙ sym ns
      ]
    ]

Marks-remove :
    (p : String) (i : ℕ) (js : List ℕ) (l : List (ℕ × LruEntry))
    → Marks p (i ∷ js) l
    → Marks p js (remove i l)
unfolding mem remove
Marks-remove p i js [] h = tt
Marks-remove p i js ((j, x) ∷ l) h = ground (arith, Marks-remove p i js l h.1)

without_prefix-remove :
    (p : String) (i : ℕ) (js : List ℕ) (l : List (ℕ × LruEntry))
    → Marks p (i ∷ js) l
    → without_prefix p (entries (remove i l)) ≡ without_prefix p (entries l)
unfolding mem remove without_prefix
without_prefix-remove p i js [] h = refl
without_prefix-remove p i js ((j, x) ∷ l) h = ground (arith, without_prefix-remove p i js l h.1)

without_prefix_done :
    (p : String) (l : List (ℕ × LruEntry)) → Marks p [] l → without_prefix p (entries l) ≡ entries l
unfolding mem without_prefix
without_prefix_done p [] h = refl
without_prefix_done p ((j, x) ∷ l) h = ground (arith, without_prefix_done p l h.1)

after : ℕ → LruCache → LruCache
after i c = elim (lookup i c.evict_list) [ none ↦ c | some x ↦ remove_element i x c ]

after-IsValid : (i : ℕ) (c : LruCache) → IsValid c → IsValid (after i c)
unfolding after
after-IsValid i c v = elim (Option-cases (lookup i c.evict_list)) [
  | inl miss ↦ subst IsValid (sym (rw (miss, after) refl)) v
  | inr (x, hit) ↦ subst IsValid (sym (rw (hit, after) refl)) (removed-IsValid c i x v hit)
]

after-remove :
    (i : ℕ) (c : LruCache)
    → ((after i c).evict_list ≡ remove i c.evict_list)
      × ((after i c).max_entries ≡ c.max_entries)
      × ((after i c).default_ttl ≡ c.default_ttl)
unfolding after remove_element
after-remove i c = ground (arith, remove_absent i c.evict_list)

delete_all-without :
    (p : String) (js : List ℕ) (c : LruCache)
    → IsValid c
    → Marks p js c.evict_list
    → let c' = delete_all js c in
      IsValid c'
      × (entries c'.evict_list ≡ without_prefix p (entries c.evict_list))
      × (c'.max_entries ≡ c.max_entries)
      × (c'.default_ttl ≡ c.default_ttl)
unfolding delete_all after
delete_all-without p [] c v h = (v, sym (without_prefix_done p c.evict_list h), refl, refl)
delete_all-without p (j ∷ js) c v h =
    let (removed, m, d) = after-remove j c in
    let marks = subst (Marks p js) (sym removed) (Marks-remove p j js c.evict_list h) in
    let (valid, left, m', d') = delete_all-without p js (after j c) (after-IsValid j c v) marks in
    (
      valid,
      left
          ∙ (ap (λ l. without_prefix p (entries l)) removed
              ∙ without_prefix-remove p j js c.evict_list h),
      m' ∙ m,
      d' ∙ d,
    )

pub delete_by_prefix-without :
    (p : String) (c : LruCache)
    → IsValid c
    → let c' = delete_by_prefix p c in
      IsValid c'
      × (entries c'.evict_list ≡ without_prefix p (entries c.evict_list))
      × (c'.max_entries ≡ c.max_entries)
      × (c'.default_ttl ≡ c.default_ttl)
unfolding delete_by_prefix
delete_by_prefix-without p c v =
    delete_all-without p (with_prefix p c.items) c v
      (Marks-with_prefix p c c.evict_list v.linked v.linked.indexed)
