-- ===== src/Crontab/Counts.antt =====
-- How often an entry of the heap passes a test, and how often a job is in a list: what the loop of
-- `runDueJobs` of pkg/cron/cron.go is measured by.
use tickraft.Base.{
  ℕ, ◌≡◌, ◌≤◌, ◌+◌, refl, Bool, false, not, ◌&&◌, List, [], ◌∷◌, ◌++◌, some, arith, ltb, ◌==◌,
  ==_iff, if◌then◌else◌, lookup, remove, nat_key, Distinct, remove_absent, length, beq_refl,
}
use tickraft.Crontab.{Entry, Heap}

-- The entries of the heap that pass a test.
abbrev pub count_if : (Entry → Bool) → Heap → ℕ
count_if p [] = 0
count_if p ((id, e) ∷ h) = (if p e then 1 else 0) + count_if p h

abbrev pub count : ℕ → List ℕ → ℕ
count j [] = 0
count j (i ∷ is) = (if i == j then 1 else 0) + count j is

abbrev pub is_due : ℕ → Entry → Bool
is_due now e = not (ltb now e.next)

abbrev pub is_due_job : ℕ → ℕ → Entry → Bool
is_due_job now j e = is_due now e && e.job == j

pub count_if-remove :
    (p : Entry → Bool) (h : Heap) (k : ℕ) (e : Entry)
    → Distinct h
    → lookup k h ≡ some e
    → count_if p (remove k h) + (if p e then 1 else 0) ≡ count_if p h
unfolding remove lookup
count_if-remove p [] k e d there = absurd (cc)
count_if-remove p ((i, x) ∷ h) k e d there =
    ground (arith, ==_iff k i, count_if-remove p h k e d.1, remove_absent k h)

pub count_if-le : (p : Entry → Bool) (h : Heap) → count_if p h ≤ length h
count_if-le p [] = omega arith
count_if-le p ((i, x) ∷ h) = ground (arith, count_if-le p h)

pub count-append : (j : ℕ) (is js : List ℕ) → count j (is ++ js) ≡ count j is + count j js
count-append j [] js = omega arith
count-append j (i ∷ is) js = ground (arith, count-append j is js)

pub count_if_none :
    (p : Entry → Bool) (h : Heap)
    → Distinct h
    → ((k : ℕ) (x : Entry) → lookup k h ≡ some x → p x ≡ false)
    → count_if p h ≡ 0
unfolding lookup
count_if_none p [] d fails = refl
count_if_none p ((i, x) ∷ h) d fails = ground (
  arith,
  fails i x (rw (beq_refl i) refl),
  count_if_none p h d.1 (λ k y there. fails k y (ground (arith, d.0, ==_iff i k, there))),
)
