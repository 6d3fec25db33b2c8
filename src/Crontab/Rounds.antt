-- ===== src/Crontab/Rounds.antt =====
-- A round of the loop of `runDueJobs` of pkg/cron/cron.go.
use mathlib.Core.Path.{subst}
use tickraft.Base.{
  ℕ, ◌≡◌, ◌<◌, ◌+◌, refl, Bool, true, false, List, Option, some, none, arith, inl, inr, Bool-cases,
  Option-cases, ◌⊎◌, ltb, ◌==◌, if◌then◌else◌, lookup, remove, nat_key, lookup-remove,
}
use tickraft.Crontab.{Entry, Heap, Crontab, top, set_timer, reschedule_timer, run_entry}
use tickraft.Crontab.Lookups.{Agrees, IsFirst, lookup-push}
use tickraft.Crontab.Counts.{count_if, count, is_due_job, count_if-remove}

-- What a run of the due jobs makes of an entry.
abbrev pub moved_on : ℕ → Option Entry → Option Entry
moved_on now none = none
moved_on now (some e) =
    if ltb now e.next
    then some e
    else if e.next_after now == 0
    then none
    else some (record e { next = e.next_after now })

-- The schedules of the entries give the zero time or a time still to come.
abbrev pub GoForward : ℕ → Heap → Type 0
GoForward now h =
    (k : ℕ) (e : Entry) → lookup k h ≡ some e → (e.next_after now ≡ 0) ⊎ (now < e.next_after now)

-- The timer does not change the heap.
pub reschedule_timer-heap :
    (root : Entry → Heap → Entry) (c : Crontab) (now : ℕ)
    → (reschedule_timer root c now).heap ≡ c.heap
unfolding reschedule_timer set_timer
reschedule_timer-heap root c now = elim (Bool-cases c.running) [
  | inr off ↦ rw off refl
  | inl running ↦ rw running (elim (Option-cases (top root c.heap)) [
    | inl empty ↦ rw empty refl
    | inr (e, first) ↦ rw first refl
  ])
]

-- After a run at `now`, a second one changes nothing.
pub moved_on_twice :
    (now : ℕ) (e : Entry)
    → (e.next_after now ≡ 0) ⊎ (now < e.next_after now)
    → moved_on now (moved_on now (some e)) ≡ moved_on now (some e)
moved_on_twice now e forward = elim (Bool-cases (ltb now e.next)) [
  | inl later ↦ rw later (rw later refl)
  | inr due ↦ rw due (elim (Bool-cases (e.next_after now == 0)) [
    | inl over ↦ rw over refl
    | inr again ↦
        let ahead : ltb now (e.next_after now) ≡ true = ground arith in rw again (rw ahead refl)
  ])
]

-- What a run of the due jobs has done: the jobs in `out` are those in `due` and those that were due, each
-- as often as it was due.
pub record Ran (now : ℕ) (c d : Crontab) (due out : List ℕ) : Type 0 where
  pub agrees : Agrees d
  pub moved : (k : ℕ) → lookup k d.heap ≡ moved_on now (lookup k c.heap)
  pub jobs : (j : ℕ) → count j out ≡ count j due + count_if (is_due_job now j) c.heap

module _ (root : Entry → Heap → Entry) (now : ℕ) where
  pub lookup-run_entry :
      (c : Crontab) (e : Entry) (k : ℕ)
      → ltb now e.next ≡ false
      → lookup k (run_entry root c now e).heap
        ≡ (if e.id == k then moved_on now (some e) else lookup k c.heap)
  unfolding run_entry
  lookup-run_entry c e k due = rw due (elim (Bool-cases (e.next_after now == 0)) [
    | inl over ↦ rw over (lookup-remove e.id k c.heap)
    | inr again ↦ rw again (
        ground (
          arith,
          lookup-push k (record e { next = e.next_after now }) (remove e.id c.heap),
          lookup-remove e.id k c.heap,
        ))
  ])

  -- For a test that no entry with a time to come passes.
  pub count_if-run_entry :
      (p : Entry → Bool) (c : Crontab) (e : Entry)
      → Agrees c
      → IsFirst c.heap e
      → (e.next_after now ≡ 0) ⊎ (now < e.next_after now)
      → ((x : Entry) → now < x.next → p x ≡ false)
      → count_if p (run_entry root c now e).heap + (if p e then 1 else 0) ≡ count_if p c.heap
  unfolding run_entry
  count_if-run_entry p c e a first forward later = elim (Bool-cases (e.next_after now == 0)) [
    | inl over ↦ rw over (count_if-remove p c.heap e.id e a.heap_distinct first.inside)
    | inr again ↦
        let ahead : now < e.next_after now = ground arith in
        let passed = later (record e { next = e.next_after now }) ahead in
        rw again
          (rw passed (omega (arith, count_if-remove p c.heap e.id e a.heap_distinct first.inside)))
  ]

  pub run_entry-GoForward :
      (c : Crontab) (e : Entry)
      → IsFirst c.heap e
      → ltb now e.next ≡ false
      → GoForward now c.heap
      → GoForward now (run_entry root c now e).heap
  run_entry-GoForward c e first due forward k x there =
      let from = lookup-run_entry c e k due in
      let own = forward e.id e first.inside in
      elim (Bool-cases (e.id == k)) [
        | inr other ↦ forward k x (let old = rw other at from in cc)
        | inl same ↦ elim (Bool-cases (e.next_after now == 0)) [
          | inl over ↦ let gone : none ≡ some x = ground arith in absurd (cc)
          | inr again ↦
              let kept : record e { next = e.next_after now } ≡ x = ground arith in
              subst (λ y. (y.next_after now ≡ 0) ⊎ (now < y.next_after now)) kept own
        ]
      ]
