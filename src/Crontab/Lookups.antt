-- ===== src/Crontab/Lookups.antt =====
-- Reads of the heap behind the operations of pkg/cron/cron.go, and what container/heap promises of its
-- first entry.
use tickraft.Base.{
  ℕ, ◌≡◌, ◌≤◌, refl, sym, ◌∙◌, [], ◌∷◌, Option, some, none, arith, inl, inr, Option-cases, ◌==◌,
  if◌then◌else◌, lookup, remove, nat_key, Distinct, lookup-remove,
}
use tickraft.Crontab.{Entry, Heap, Crontab, push, remove_found, remove_job, top}

abbrev pub job_of : Option Entry → Option ℕ
job_of none = none
job_of (some e) = some e.job

-- Each entry is under its own number.
abbrev pub Keyed : Heap → Type 0
Keyed h = (k : ℕ) (e : Entry) → lookup k h ≡ some e → e.id ≡ k

-- The heap and the map have the same entries.
pub record Agrees (c : Crontab) : Type 0 where
  pub heap_distinct : Distinct c.heap
  pub entries_distinct : Distinct c.entries
  pub keyed : Keyed c.heap
  pub same_jobs : (k : ℕ) → lookup k c.entries ≡ job_of (lookup k c.heap)

-- The first entry is in the heap, and none has an earlier time.
pub record IsFirst (h : Heap) (e : Entry) : Type 0 where
  pub inside : lookup e.id h ≡ some e
  pub least : (k : ℕ) (x : Entry) → lookup k h ≡ some x → e.next ≤ x.next

abbrev pub IsRoot : (Entry → Heap → Entry) → Type 0
IsRoot root =
    (id : ℕ) (e : Entry) (h : Heap)
    → Distinct ((id, e) ∷ h)
    → Keyed ((id, e) ∷ h)
    → IsFirst ((id, e) ∷ h) (root e h)

pub job_of-none : (o : Option Entry) → job_of o ≡ none → o ≡ none
job_of-none none h = refl
job_of-none (some e) h = absurd (cc)

pub top-IsFirst :
    (root : Entry → Heap → Entry) (first : IsRoot root) (h : Heap) (e : Entry)
    → Distinct h
    → Keyed h
    → top root h ≡ some e
    → IsFirst h e
unfolding top
top-IsFirst root first [] e d keyed p = absurd (cc)
top-IsFirst root first ((id, x) ∷ h) e d keyed p =
    let same : root x h ≡ e = cc in rw same at (first id x h d keyed)

pub top-none :
    (root : Entry → Heap → Entry) (h : Heap) (k : ℕ) → top root h ≡ none → lookup k h ≡ none
unfolding top lookup
top-none root [] k p = refl
top-none root ((id, x) ∷ h) k p = absurd (cc)

pub lookup-push :
    (k : ℕ) (e : Entry) (h : Heap)
    → lookup k (push e h) ≡ (if e.id == k then some e else lookup k h)
unfolding lookup
lookup-push k e h = refl

pub push-Keyed : (e : Entry) (h : Heap) → Keyed h → Keyed (push e h)
push-Keyed e h keyed k x p = ground (arith, lookup-push k e h, keyed k x)

pub remove-Keyed : (id : ℕ) (h : Heap) → Keyed h → Keyed (remove id h)
remove-Keyed id h keyed k x p = ground (arith, lookup-remove id k h, keyed k x)

pub lookup-remove_job :
    (c : Crontab) (id k : ℕ)
    → Agrees c
    → (lookup k (remove_job c id).heap ≡ (if id == k then none else lookup k c.heap))
      × (lookup k (remove_job c id).entries ≡ (if id == k then none else lookup k c.entries))
unfolding remove_job remove_found
lookup-remove_job c id k a = elim (Option-cases (lookup id c.entries)) [
  | inl unknown ↦
      let absent = job_of-none (lookup id c.heap) (sym (a.same_jobs id) ∙ unknown) in
      rw unknown (ground arith)
  | inr (j, known) ↦ rw known (lookup-remove id k c.heap, lookup-remove id k c.entries)
]
