-- ===== src/Crontab/Calls.antt =====
-- What `Add` and `Remove` of pkg/cron/cron.go do to the entries, and what becomes of an entry whose
-- schedule has no next time.
use mathlib.Core.Path.{subst}
use tickraft.Base.{
  ℕ, ◌≡◌, ◌≤◌, ◌+◌, refl, sym, ◌∙◌, true, false, List, some, none, arith, inl, inr, Bool-cases, ◌⊎◌,
  ◌<◌, ◌==◌, if◌then◌else◌, lookup, insert, nat_key, beq_refl, ok, failed,
}
use tickraft.Crontab.{
  Entry, Heap, Crontab, push, remove_job, put_entry, add, already_stopped, run_due_jobs, added,
}
use tickraft.Crontab.Lookups.{Agrees, IsRoot, lookup-push, lookup-remove_job}
use tickraft.Crontab.Agreement.{step-Agrees}
use tickraft.Crontab.Due.{run_due_jobs-Ran}
use tickraft.Crontab.Rounds.{GoForward, reschedule_timer-heap}
use tickraft.Crontab.Counts.{count, count_if, is_due_job}

abbrev pub new_entry : ℕ → ℕ → (ℕ → ℕ) → ℕ → Entry
new_entry now id next_after job = record {
  id = id;
  next_after = next_after;
  job = job;
  next = next_after now;
}

abbrev placed : Crontab → Entry → Crontab
placed c e = record c { entries = insert e.id e.job c.entries; heap = push e c.heap }

module _ (root : Entry → Heap → Entry) where
  add_running :
      (c : Crontab) (now id : ℕ) (next_after : ℕ → ℕ) (job : ℕ)
      → c.running ≡ true
      → (d : Crontab) × (add root c now id next_after job ≡ ok d)
        × (d.heap ≡ push (new_entry now id next_after job) (remove_job c id).heap)
  unfolding add put_entry
  add_running c now id next_after job running =
      let d = put_entry root (remove_job c id) now (new_entry now id next_after job) in
      (
        d,
        rw running refl,
        reschedule_timer-heap root (placed (remove_job c id) (new_entry now id next_after job)) now,
      )

  -- When the map and the heap agree: on a table that runs, `Add` succeeds, and the heap has then the new
  -- entry under its number, in place of an older one, and the other entries as they were. On a table that
  -- has stopped, it fails with the error that says so.
  pub add_replaces :
      (c : Crontab) (now id : ℕ) (next_after : ℕ → ℕ) (job : ℕ)
      → Agrees c
      → (c.running ≡ true
          → (d : Crontab) × (add root c now id next_after job ≡ ok d)
            × ((k : ℕ)
                → lookup k d.heap
                  ≡ (if id == k then some (new_entry now id next_after job) else lookup k c.heap)))
        × (c.running ≡ false → add root c now id next_after job ≡ failed already_stopped)
  unfolding add
  add_replaces c now id next_after job a = (
    (λ running.
        let (d, done, heap) = add_running c now id next_after job running in
        (
          d,
          done,
          λ k. rw heap (
              ground (
                arith,
                lookup-push k (new_entry now id next_after job) (remove_job c id).heap,
                (lookup-remove_job c id k a).0,
              )),
        )),
    λ off. rw off refl,
  )

  -- An entry whose schedule has no next time is due at once: when `Add` takes it, the next run of the jobs
  -- that are due starts its job, and drops the entry, while the schedule still has no next time and the other
  -- schedules of the table give the zero time or a time still to come.
  pub add_zero_runs :
      (first : IsRoot root) (c : Crontab) (now t id : ℕ) (next_after : ℕ → ℕ) (job : ℕ)
      → Agrees c
      → GoForward t c.heap
      → c.running ≡ true
      → next_after now ≡ 0
      → next_after t ≡ 0
      → (d e : Crontab) × (due : List ℕ) × (add root c now id next_after job ≡ ok d)
        × (run_due_jobs root d t ≡ some (e, due))
        × (1 ≤ count job due)
        × (lookup id e.heap ≡ none)
  add_zero_runs first c now t id next_after job a forward running none_now none_then =
      let (d, done, heap) = add_running c now id next_after job running in
      let agrees = step-Agrees root first now c d a (added c d id next_after job done) in
      let x = new_entry now id next_after job in
      let forward_d : GoForward t d.heap = subst (GoForward t) (sym heap) (λ k y there.
        elim (Bool-cases (id == k)) [
          | inl same ↦
              let new : x ≡ y = ground (arith, lookup-push k x (remove_job c id).heap) in
              subst (λ z. (z.next_after t ≡ 0) ⊎ (t < z.next_after t)) new (inl none_then)
          | inr other ↦ forward k y (
              ground
                (arith, lookup-push k x (remove_job c id).heap, (lookup-remove_job c id k a).0))
        ]) in
      let (e, due, run, ran) = run_due_jobs-Ran root t first d agrees forward_d in
      let counted : count job due
          ≡ 0 + count_if (is_due_job t job) (push x (remove_job c id).heap) =
        subst (λ h. count job due ≡ 0 + count_if (is_due_job t job) h) heap (ran.jobs job) in
      let own : lookup id d.heap ≡ some x =
        rw heap (lookup-push id x (remove_job c id).heap ∙ rw (beq_refl id) refl) in
      (
        d,
        e,
        due,
        done,
        run,
        ground (arith, counted, none_now, beq_refl job),
        ran.moved id ∙ rw own (ground (arith, none_now, none_then)),
      )
