-- ===== src/Cache/Refinement/Runs.antt =====
-- Runs of the cache against runs of its specification (pkg/cache/lru.go).
use Prim.Native.String.{String}
use text.Mathlib.TextEquality.{eq_iff}
use mathlib.Core.Option
use tickraft.Base.{
  ℕ, ◌≤◌, ◌≡◌, refl, sym, ap, ◌∙◌, List, [], ◌∷◌, some, none, Option, Bool, true, false,
  if◌then◌else◌, arith, length, ℤ, pos, ◌+ℤ◌, ◌-ℤ◌, zero, suc, ◌<◌, positive_or-pos, Bool-cases,
  inl, inr, lookup, ltb_ℤ, string_key,
}
use tickraft.Cache.{
  Bytes, LruEntry, LruCache, new_lru, get, set_with_ttl, set_default, delete, clear, has,
  get_with_ttl, delete_by_prefix, size, default_max_entries,
}
use tickraft.Cache.Order.{find, without, read, write, without_prefix}
use tickraft.Cache.Coherence.{Linked}
use tickraft.Cache.Refinement.Lookups.{entries}
use tickraft.Cache.Refinement.Eviction.{
  IsValid, get-IsValid, get-read, get_with_ttl-IsValid, get_with_ttl-read, has-read, delete-IsValid,
  delete-without, set_with_ttl-write,
}
use tickraft.Cache.Refinement.Prefixes.{delete_by_prefix-without}

-- A call of a method, with the time that it reads.
pub data Call : Type 0 where
  getting : ℕ → String → Call
  getting_with_ttl : ℕ → String → Call
  setting : ℕ → String → Bytes → Call
  setting_with_ttl : ℕ → String → Bytes → ℤ → Call
  deleting : String → Call
  deleting_by_prefix : String → Call
  clearing : Call
  asking : ℕ → String → Call
  sizing : Call

pub data Answer : Type 0 where
  done : Answer
  value : Option Bytes → Answer
  value_with_ttl : Option (Bytes × ℤ) → Answer
  present : Bool → Answer
  count : ℕ → Answer

unfoldable pub call : Call → LruCache → LruCache × Answer
call (getting now key) c = let (c', v) = get now key c in (c', value v)
call (getting_with_ttl now key) c = let (c', v) = get_with_ttl now key c in (c', value_with_ttl v)
call (setting now key v) c = (set_default now key v c, done)
call (setting_with_ttl now key v ttl) c = (set_with_ttl now key v ttl c, done)
call (deleting key) c = (delete key c, done)
call (deleting_by_prefix p) c = (delete_by_prefix p c, done)
call clearing c = (clear c, done)
call (asking now key) c = (c, present (has now key c))
call sizing c = (c, count (size c))

-- The same call on the list of entries, for a capacity and a default time to live.
unfoldable pub ask : ℕ → ℕ → Call → List LruEntry → List LruEntry × Answer
ask room ttl (getting now key) l =
    let (l', x) = read now key l in (l', value (Option.map (λ y. y.value) x))
ask room ttl (getting_with_ttl now key) l =
    let (l', x) = read now key l in
    (l', value_with_ttl (Option.map (λ y. (y.value, y.expire_at -ℤ pos now)) x))
ask room ttl (setting now key v) l =
    (write room (record { key = key; value = v; expire_at = pos now +ℤ pos ttl }) l, done)
ask room ttl (setting_with_ttl now key v t) l =
    (write room (record { key = key; value = v; expire_at = pos now +ℤ t }) l, done)
ask room ttl (deleting key) l = (without key l, done)
ask room ttl (deleting_by_prefix p) l = (without_prefix p l, done)
ask room ttl clearing l = ([], done)
ask room ttl (asking now key) l =
    (l, present (elim (read now key l).1 [ none ↦ false | some _ ↦ true ]))
ask room ttl sizing l = (l, count (length l))

length-entries : (l : List (ℕ × LruEntry)) → length (entries l) ≡ length l
length-entries [] = refl
length-entries ((i, x) ∷ l) = omega (arith, length-entries l)

empty_has_none : (key : String) (elem : ℕ) → lookup {V = ℕ} key [] ≡ some elem → ⊥
unfolding lookup
empty_has_none key elem q = cc

empty-Linked : (c : LruCache) → c.items ≡ [] → c.evict_list ≡ [] → Linked c
empty-Linked c e f = record {
  indexed = rw f tt;
  present = λ key elem q. absurd (empty_has_none key elem (rw e at q));
  distinct_elements = rw f tt;
  distinct_keys = rw e tt;
  fresh = rw f tt;
  same_size = rw (e, f) refl;
}

pub call-IsValid : (op : Call) (c : LruCache) → IsValid c → IsValid (call op c).0
unfolding call set_default clear
call-IsValid (getting now key) c v = get-IsValid now key c v
call-IsValid (getting_with_ttl now key) c v = get_with_ttl-IsValid now key c v
call-IsValid (setting now key b) c v = (set_with_ttl-write now key b (pos c.default_ttl) c v).0
call-IsValid (setting_with_ttl now key b ttl) c v = (set_with_ttl-write now key b ttl c v).0
call-IsValid (deleting key) c v = delete-IsValid 0 key c v
call-IsValid (deleting_by_prefix p) c v = (delete_by_prefix-without p c v).0
call-IsValid clearing c v = record {
  linked = empty-Linked (clear c) refl refl;
  bounded = omega arith;
  positive = v.positive;
}
call-IsValid (asking now key) c v = v
call-IsValid sizing c v = v

call-ask :
    (op : Call) (c : LruCache)
    → IsValid c
    → let (c', a) = call op c in
      let (l', a') = ask c.max_entries c.default_ttl op (entries c.evict_list) in
      (entries c'.evict_list ≡ l')
      × (a ≡ a')
      × (c'.max_entries ≡ c.max_entries)
      × (c'.default_ttl ≡ c.default_ttl)
unfolding call ask set_default clear size
call-ask (getting now key) c v = ground (arith, get-read now key c v)
call-ask (getting_with_ttl now key) c v = ground (arith, get_with_ttl-read now key c v)
call-ask (setting now key b) c v =
    let (valid, e, m, d) = set_with_ttl-write now key b (pos c.default_ttl) c v in (e, refl, m, d)
call-ask (setting_with_ttl now key b ttl) c v =
    let (valid, e, m, d) = set_with_ttl-write now key b ttl c v in (e, refl, m, d)
call-ask (deleting key) c v = let (e, m, d) = delete-without 0 key c v in (e, refl, m, d)
call-ask (deleting_by_prefix p) c v =
    let (valid, e, m, d) = delete_by_prefix-without p c v in (e, refl, m, d)
call-ask clearing c v = (refl, refl, refl, refl)
call-ask (asking now key) c v = (refl, ap present (has-read now key c v), refl, refl)
call-ask sizing c v =
    (refl, ap count (v.linked.same_size ∙ sym (length-entries c.evict_list)), refl, refl)

-- A list of calls: the state that it leaves, and the answers in order.
unfoldable pub serve : List Call → LruCache → LruCache × List Answer
serve [] c = (c, [])
serve (op ∷ ops) c =
    let (c', a) = call op c in let (last, answers) = serve ops c' in (last, a ∷ answers)

unfoldable pub serve_spec : ℕ → ℕ → List Call → List LruEntry → List LruEntry × List Answer
serve_spec room ttl [] l = (l, [])
serve_spec room ttl (op ∷ ops) l =
    let (l', a) = ask room ttl op l in
    let (last, answers) = serve_spec room ttl ops l' in (last, a ∷ answers)

serve-serve_spec :
    (ops : List Call) (c : LruCache) (room ttl : ℕ)
    → IsValid c
    → c.max_entries ≡ room
    → c.default_ttl ≡ ttl
    → IsValid (serve ops c).0
      × (entries (serve ops c).0.evict_list ≡ (serve_spec room ttl ops (entries c.evict_list)).0)
      × ((serve ops c).1 ≡ (serve_spec room ttl ops (entries c.evict_list)).1)
      × ((serve ops c).0.max_entries ≡ room)
unfolding serve serve_spec
serve-serve_spec [] c room ttl v m d = (v, refl, refl, m)
serve-serve_spec (op ∷ ops) c room ttl v m d =
    let (e, a, m', d') = call-ask op c v in
    let (v', e', a', k) =
      serve-serve_spec ops (call op c).0 room ttl (call-IsValid op c v) (m' ∙ m) (d' ∙ d) in
    (v', cc, cc, k)

pub new_lru-IsValid : (n ttl : ℤ) → IsValid (new_lru n ttl)
unfolding new_lru
new_lru-IsValid n ttl = record {
  linked = empty-Linked (new_lru n ttl) refl refl;
  bounded = omega arith;
  positive = positive_or-pos n default_max_entries (omega arith);
}

-- A new cache answers every sequence of calls, at any times, as the list of entries in order of use
-- does, and holds the entries of that list in that order at the end.
pub serve-refines :
    (n ttl : ℤ) (ops : List Call)
    → let c = new_lru n ttl in
      let (l, answers) = serve_spec c.max_entries c.default_ttl ops [] in
      ((serve ops c).1 ≡ answers) × (entries (serve ops c).0.evict_list ≡ l)
unfolding new_lru
serve-refines n ttl ops =
    let c = new_lru n ttl in
    let (v, e, a, m) =
      serve-serve_spec ops c c.max_entries c.default_ttl (new_lru-IsValid n ttl) refl refl in
    (a, e)

-- After any sequence of calls on a new cache the map and the list have the same number of entries,
-- and never more than the capacity.
pub serve_bounded :
    (n ttl : ℤ) (ops : List Call)
    → let c = (serve ops (new_lru n ttl)).0 in
      (size c ≡ length c.evict_list) × (size c ≤ (new_lru n ttl).max_entries)
unfolding size
serve_bounded n ttl ops =
    let c = new_lru n ttl in
    let (v, e, a, m) =
      serve-serve_spec ops c c.max_entries c.default_ttl (new_lru-IsValid n ttl) refl refl in
    (v.linked.same_size, omega (arith, v.bounded, v.linked.same_size))

find-write : (n : ℕ) (x : LruEntry) (l : List LruEntry) → 0 < n → find x.key (write n x l) ≡ some x
unfolding find write
find-write zero x l h = absurd (omega arith)
find-write (suc n) x l h = ground (arith, eq_iff x.key x.key)

read-found :
    (now : ℕ) (x : LruEntry) (l : List LruEntry)
    → find x.key l ≡ some x
    → Option.map (λ y. y.value) (read now x.key l).1
      ≡ (if ltb_ℤ x.expire_at (pos now) then none else some x.value)
unfolding read
read-found now x l h = elim (Bool-cases (ltb_ℤ x.expire_at (pos now))) [
  | inl late ↦ ground arith
  | inr fresh ↦ ground arith
]

-- In a valid cache a value that was just written is read back until its expiry, the time of the write
-- plus the time to live, and not after it.
pub get-set_with_ttl :
    (now later : ℕ) (key : String) (b : Bytes) (ttl : ℤ) (c : LruCache)
    → IsValid c
    → (get later key (set_with_ttl now key b ttl c)).1
      ≡ (if ltb_ℤ (pos now +ℤ ttl) (pos later) then none else some b)
get-set_with_ttl now later key b ttl c v =
    let x : LruEntry = record { key = key; value = b; expire_at = pos now +ℤ ttl } in
    let (valid, e, m, d) = set_with_ttl-write now key b ttl c v in
    let (left, got, m', d') = get-read later key (set_with_ttl now key b ttl c) valid in
    let found = ap (find key) e ∙ find-write c.max_entries x (entries c.evict_list) v.positive in
    got ∙ read-found later x (entries (set_with_ttl now key b ttl c).evict_list) found
