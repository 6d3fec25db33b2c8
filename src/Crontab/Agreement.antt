-- ===== src/Crontab/Agreement.antt =====
-- The map and the heap of pkg/cron/cron.go keep the same entries under every call.
use tickraft.Base.{
  ℕ, zero, suc, ◌≡◌, refl, Bool, false, List, [], ◌∷◌, ◌++◌, some, none, arith, inl, inr, ◌⊎◌,
  Bool-cases, Option-cases, ◌==◌, if◌then◌else◌, lookup, remove, insert, nat_key, lookup-remove,
  lookup-insert, remove-Distinct, insert-Distinct, length, ltb, ok, failed,
}
use tickraft.Crontab.{
  Entry, Heap, Timer, Crontab, new_crontab, push, remove_found, remove_job, top, set_timer,
  reschedule_timer, put_entry, add, remove_entry, stop, due_entry, go_on, run_entry, due_loop,
  with_timer, run_due_jobs, Step, added, removed, fired, halted, Reachable, fresh, after,
}
use tickraft.Crontab.Lookups.{
  Agrees, IsRoot, IsFirst, top-IsFirst, lookup-push, push-Keyed, remove-Keyed, lookup-remove_job,
}

pub new-Agrees : Agrees new_crontab
unfolding lookup
new-Agrees = record {
  heap_distinct = tt;
  entries_distinct = tt;
  keyed = λ k e h. absurd (cc);
  same_jobs = λ k. refl;
}

-- The map and the heap stay, whatever the timer does.
pub same_entries :
    (c : Crontab) (t : Timer) (wakes runs : Bool)
    → Agrees c
    → Agrees (record c { timer = t; wake = wakes; running = runs })
same_entries c t wakes runs a = record {
  heap_distinct = a.heap_distinct;
  entries_distinct = a.entries_distinct;
  keyed = a.keyed;
  same_jobs = a.same_jobs;
}

pub remove_job-Agrees : (c : Crontab) (id : ℕ) → Agrees c → Agrees (remove_job c id)
unfolding remove_job remove_found
remove_job-Agrees c id a = elim (Option-cases (lookup id c.entries)) [
  | inl unknown ↦ rw unknown a
  | inr (j, known) ↦ rw known (record {
    heap_distinct = remove-Distinct id c.heap a.heap_distinct;
    entries_distinct = remove-Distinct id c.entries a.entries_distinct;
    keyed = remove-Keyed id c.heap a.keyed;
    same_jobs =
        λ k. ground (arith, lookup-remove id k c.heap, lookup-remove id k c.entries, a.same_jobs k);
  })
]

module _ (root : Entry → Heap → Entry) where
  pub reschedule_timer-Agrees :
      (c : Crontab) (now : ℕ) → Agrees c → Agrees (reschedule_timer root c now)
  unfolding reschedule_timer set_timer
  reschedule_timer-Agrees c now a = elim (Bool-cases c.running) [
    | inr off ↦ rw off (same_entries c _ _ _ a)
    | inl running ↦ rw running (elim (Option-cases (top root c.heap)) [
      | inl empty ↦ rw empty (same_entries c _ _ _ a)
      | inr (e, first) ↦ rw first (same_entries c _ _ _ a)
    ])
  ]

  placed-Agrees :
      (c : Crontab) (e : Entry)
      → lookup e.id c.heap ≡ none
      → Agrees c
      → Agrees (record c { entries = insert e.id e.job c.entries; heap = push e c.heap })
  placed-Agrees c e new a = record {
    heap_distinct = (new, a.heap_distinct);
    entries_distinct = insert-Distinct e.id e.job c.entries a.entries_distinct;
    keyed = push-Keyed e c.heap a.keyed;
    same_jobs = λ k.
        ground (arith, lookup-push k e c.heap, lookup-insert e.id k e.job c.entries, a.same_jobs k);
  }

  -- A table that agrees, with its timer set.
  abbrev pub Rescheduled : ℕ → Crontab → Type 0
  Rescheduled now d = (x : Crontab) × Agrees x × (reschedule_timer root x now ≡ d)

  add-Rescheduled :
      (c d : Crontab) (now id : ℕ) (next_after : ℕ → ℕ) (job : ℕ)
      → Agrees c
      → add root c now id next_after job ≡ ok d
      → Rescheduled now d
  unfolding add put_entry
  add-Rescheduled c d now id next_after job a h = elim (Bool-cases c.running) [
    | inr off ↦ let no : failed _ ≡ ok d = rw off at h in absurd (cc)
    | inl running ↦
        let done = rw running at h in
        let e : Entry = record {
          id = id;
          next_after = next_after;
          job = job;
          next = next_after now;
        } in
        let absent : lookup id (remove_job c id).heap ≡ none =
          ground (arith, (lookup-remove_job c id id a).0) in
        (_, placed-Agrees (remove_job c id) e absent (remove_job-Agrees c id a), cc)
  ]

  stop-Agrees : (c : Crontab) → Agrees c → Agrees (stop c)
  unfolding stop
  stop-Agrees c a = elim (Bool-cases c.running) [
    | inr off ↦ rw off (same_entries c _ _ _ a)
    | inl running ↦ rw running (same_entries c _ _ _ a)
  ]

  pub run_entry-Agrees :
      (c : Crontab) (now : ℕ) (e : Entry)
      → IsFirst c.heap e
      → Agrees c
      → Agrees (run_entry root c now e)
  unfolding run_entry
  run_entry-Agrees c now e first a = elim (Bool-cases (e.next_after now == 0)) [
    | inl over ↦ rw over (record {
      heap_distinct = remove-Distinct e.id c.heap a.heap_distinct;
      entries_distinct = remove-Distinct e.id c.entries a.entries_distinct;
      keyed = remove-Keyed e.id c.heap a.keyed;
      same_jobs = λ k.
          ground
            (arith, lookup-remove e.id k c.heap, lookup-remove e.id k c.entries, a.same_jobs k);
    })
    | inr again ↦ rw again (record {
      heap_distinct = (
        ground (arith, lookup-remove e.id e.id c.heap),
        remove-Distinct e.id c.heap a.heap_distinct,
      );
      entries_distinct = a.entries_distinct;
      keyed =
          push-Keyed (record e { next = e.next_after now }) (remove e.id c.heap)
            (remove-Keyed e.id c.heap a.keyed);
      same_jobs = λ k. ground (
        arith,
        lookup-push k (record e { next = e.next_after now }) (remove e.id c.heap),
        lookup-remove e.id k c.heap,
        a.same_jobs k,
        first.inside,
      );
    })
  ]

  pub due_entry-IsFirst :
      (first : IsRoot root) (c : Crontab) (now : ℕ) (e : Entry)
      → Agrees c
      → due_entry now (top root c.heap) ≡ some e
      → IsFirst c.heap e × (ltb now e.next ≡ false)
  unfolding due_entry
  due_entry-IsFirst first c now e a p = elim (Option-cases (top root c.heap)) [
    | inl empty ↦ let no : none ≡ some e = rw empty at p in absurd (cc)
    | inr (x, there) ↦
        let found : (if ltb now x.next then none else some x) ≡ some e = rw there at p in
        elim (Bool-cases (ltb now x.next)) [
          | inl later ↦ let no : none ≡ some e = rw later at found in absurd (cc)
          | inr due ↦
              let same : some x ≡ some e = rw due at found in
              let x_e : x ≡ e = cc in
              (top-IsFirst root first c.heap e a.heap_distinct a.keyed (cc), rw x_e at due)
        ]
  ]

  due_loop-Agrees :
      (first : IsRoot root) (n : ℕ) (c d : Crontab) (now : ℕ) (due out : List ℕ)
      → Agrees c
      → due_loop root n c now due ≡ some (d, out)
      → Agrees d
  unfolding due_loop go_on
  due_loop-Agrees first zero c d now due out a h = absurd (cc)
  due_loop-Agrees first (suc n) c d now due out a h =
      elim (Option-cases (due_entry now (top root c.heap))) [
        | inl over ↦
            let ends : some (c, due) ≡ some (d, out) = rw over at h in
            let same : c ≡ d = cc in rw same at a
        | inr (e, more) ↦
            let rest : due_loop root n (run_entry root c now e) now (due ++ e.job ∷ [])
                ≡ some (d, out) =
              rw more at h in
            let (is_first, late) = due_entry-IsFirst first c now e a more in
            due_loop-Agrees first n (run_entry root c now e) d now (due ++ e.job ∷ []) out
              (run_entry-Agrees c now e is_first a) rest
      ]

  run_due_jobs-Rescheduled :
      (first : IsRoot root) (c d : Crontab) (now : ℕ) (due : List ℕ)
      → Agrees c
      → run_due_jobs root c now ≡ some (d, due)
      → Rescheduled now d
  unfolding run_due_jobs with_timer
  run_due_jobs-Rescheduled first c d now due a h =
      elim (Option-cases (due_loop root (suc (length c.heap)) c now [])) [
        | inl out ↦ let no : none ≡ some (d, due) = rw out at h in absurd (cc)
        | inr ((x, jobs), done) ↦
            let ends : some (reschedule_timer root x now, jobs) ≡ some (d, due) = rw done at h in
            let same : reschedule_timer root x now ≡ d = cc in
            (x, due_loop-Agrees first (suc (length c.heap)) c x now [] jobs a done, same)
      ]

  pub step_ends :
      (first : IsRoot root) (now : ℕ) (c d : Crontab)
      → Agrees c
      → Step root now c d
      → Rescheduled now d ⊎ (stop c ≡ d)
  unfolding remove_entry
  step_ends first now c d a (added _ _ id next_after job h) =
      inl (add-Rescheduled c d now id next_after job a h)
  step_ends first now c _ a (removed _ id) = inl (remove_job c id, remove_job-Agrees c id a, refl)
  step_ends first now c d a (fired _ _ due h) = inl (run_due_jobs-Rescheduled first c d now due a h)
  step_ends first now c _ a (halted _) = inr refl

  pub step-Agrees :
      (first : IsRoot root) (now : ℕ) (c d : Crontab) → Agrees c → Step root now c d → Agrees d
  step-Agrees first now c d a step = elim (step_ends first now c d a step) [
    | inl (x, agrees, same) ↦ rw same at (reschedule_timer-Agrees x now agrees)
    | inr same ↦ rw same at (stop-Agrees c a)
  ]

  -- By any calls of `Add`, `Remove` and `Stop` and any runs of the jobs that are due, in any order and at
  -- any times that do not go back: no number is twice in the map or in the heap, each entry of the heap is
  -- under its own number, and the map has exactly the entries of the heap, with their jobs.
  pub Reachable-Agrees :
      (first : IsRoot root) (now : ℕ) (c : Crontab) → Reachable root now c → Agrees c
  Reachable-Agrees first now _ (fresh _) = new-Agrees
  Reachable-Agrees first now d (after t _ c _ before order step) =
      step-Agrees first now c d (Reachable-Agrees first t c before) step
