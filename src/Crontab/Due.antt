-- ===== src/Crontab/Due.antt =====
-- The loop of `runDueJobs` of pkg/cron/cron.go ends, and starts exactly the jobs that are due.
use tickraft.Base.{
  ℕ, zero, suc, ◌≡◌, ◌<◌, refl, ◌∙◌, true, false, List, [], ◌∷◌, ◌++◌, some, none, arith, inl, inr,
  Bool-cases, Option-cases, ltb, ◌==◌, if◌then◌else◌, lookup, nat_key, length,
}
use tickraft.Crontab.{
  Entry, Heap, Crontab, top, reschedule_timer, due_entry, go_on, run_entry, due_loop, with_timer,
  run_due_jobs,
}
use tickraft.Crontab.Lookups.{Agrees, IsRoot, IsFirst, top-none, top-IsFirst}
use tickraft.Crontab.Agreement.{due_entry-IsFirst, run_entry-Agrees, reschedule_timer-Agrees}
use tickraft.Crontab.Counts.{count_if, is_due, is_due_job, count_if-le, count-append, count_if_none}
use tickraft.Crontab.Rounds.{
  moved_on, GoForward, reschedule_timer-heap, moved_on_twice, Ran, lookup-run_entry,
  count_if-run_entry, run_entry-GoForward,
}

module _ (root : Entry → Heap → Entry) (now : ℕ) where
  -- A round, and what the rest of the loop does behind it.
  Ran-round :
      (c d : Crontab) (e : Entry) (due out : List ℕ)
      → Agrees c
      → IsFirst c.heap e
      → ltb now e.next ≡ false
      → GoForward now c.heap
      → Ran now (run_entry root c now e) d (due ++ e.job ∷ []) out
      → Ran now c d due out
  Ran-round c d e due out a first late forward ran = record {
    agrees = ran.agrees;
    moved = λ k. ran.moved k ∙ (elim (Bool-cases (e.id == k)) [
      | inr other ↦ let from = lookup-run_entry root now c e k late in rw (rw other at from) refl
      | inl same ↦
          let from : lookup k (run_entry root c now e).heap ≡ moved_on now (some e) =
            rw same at (lookup-run_entry root now c e k late) in
          let own : lookup k c.heap ≡ some e = ground (arith, first.inside) in
          rw from (rw own (moved_on_twice now e (forward e.id e first.inside)))
    ]);
    jobs = λ j. ground (
      arith,
      ran.jobs j,
      count-append j due (e.job ∷ []),
      count_if-run_entry root now (is_due_job now j) c e a first (forward e.id e first.inside)
          (λ x ahead. ground (arith, ahead)),
    );
  }

  all_later :
      (first : IsRoot root) (c : Crontab)
      → Agrees c
      → due_entry now (top root c.heap) ≡ none
      → (k : ℕ) (x : Entry) → lookup k c.heap ≡ some x
      → now < x.next
  unfolding due_entry
  all_later first c a none_due k x there = elim (Option-cases (top root c.heap)) [
    | inl empty ↦ let gone = top-none root c.heap k empty in absurd (cc)
    | inr (e, found) ↦
        let is_first = top-IsFirst root first c.heap e a.heap_distinct a.keyed found in
        let order = is_first.least k x there in
        let shut : (if ltb now e.next then none else some e) ≡ none = rw found at none_due in
        ground arith
  ]

  Ran-stop :
      (first : IsRoot root) (c : Crontab) (due : List ℕ)
      → Agrees c
      → due_entry now (top root c.heap) ≡ none
      → Ran now c c due due
  Ran-stop first c due a none_due =
      let later = all_later first c a none_due in
      record {
        agrees = a;
        moved = λ k. (elim (Option-cases (lookup k c.heap)) [
          | inl absent ↦ rw absent refl
          | inr (x, there) ↦
              let ahead : ltb now x.next ≡ true = ground (arith, later k x there) in
              rw there (rw ahead refl)
        ]);
        jobs = λ j. omega (
          arith,
          count_if_none (is_due_job now j) c.heap a.heap_distinct
              (λ k x there. ground (arith, later k x there)),
        );
      }

  due_loop-Ran :
      (first : IsRoot root) (n : ℕ) (c : Crontab) (due : List ℕ)
      → Agrees c
      → GoForward now c.heap
      → count_if (is_due now) c.heap < n
      → (d : Crontab) × (out : List ℕ) × (due_loop root n c now due ≡ some (d, out))
        × Ran now c d due out
  unfolding due_loop go_on
  due_loop-Ran first zero c due a forward enough = absurd (omega (arith, enough))
  due_loop-Ran first (suc n) c due a forward enough =
      elim (Option-cases (due_entry now (top root c.heap))) [
        | inl over ↦ (c, due, rw over refl, Ran-stop first c due a over)
        | inr (e, more) ↦
            let (is_first, late) = due_entry-IsFirst root first c now e a more in
            let fewer =
              count_if-run_entry root now (is_due now) c e a is_first
                (forward e.id e is_first.inside) (λ x ahead. ground (arith, ahead)) in
            let next =
              due_loop-Ran first n (run_entry root c now e) (due ++ e.job ∷ [])
                (run_entry-Agrees root c now e is_first a)
                (run_entry-GoForward root now c e is_first late forward) (ground (arith, fewer)) in
            (
              next.0,
              next.1,
              rw more next.2,
              Ran-round c next.0 e due next.1 a is_first late forward next.3,
            )
      ]

  -- For a table whose map and heap agree, when each schedule in it gives the zero time or a time still to
  -- come: the loop of `runDueJobs` ends. It has then found the job of each entry that was due, once for the
  -- entry, and no other. An entry that was due has its next time, or is gone when that is the zero time, the
  -- other entries are as they were, and the map and the heap agree.
  pub run_due_jobs-Ran :
      (first : IsRoot root) (c : Crontab)
      → Agrees c
      → GoForward now c.heap
      → (d : Crontab) × (due : List ℕ) × (run_due_jobs root c now ≡ some (d, due))
        × Ran now c d [] due
  unfolding run_due_jobs with_timer
  run_due_jobs-Ran first c a forward =
      let all =
        due_loop-Ran first (suc (length c.heap)) c [] a forward
          (omega (arith, count_if-le (is_due now) c.heap)) in
      (
        reschedule_timer root all.0 now,
        all.1,
        rw all.2 refl,
        record {
          agrees = reschedule_timer-Agrees root all.0 now all.3.agrees;
          moved = λ k. rw (reschedule_timer-heap root all.0 now) (all.3.moved k);
          jobs = all.3.jobs;
        },
      )
