-- ===== src/Crontab/Examples.antt =====
-- A table with one entry, and the first of a heap by a search.
use mathlib.Core.Path.{subst}
use tickraft.Base.{
  ℕ, ◌≡◌, ◌≤◌, ◌+◌, refl, sym, true, List, [], ◌∷◌, some, none, arith, inl, inr, ◌⊎◌, ltb, ◌==◌,
  ==_iff, if◌then◌else◌, lookup, insert, nat_key, beq_refl, Distinct, ok, Bool-cases,
}
use tickraft.Crontab.{
  Entry, Heap, armed, Crontab, new_crontab, remove_found, remove_job, top, set_timer,
  reschedule_timer, put_entry, add, run_due_jobs, added, Reachable, fresh, after,
}
use tickraft.Crontab.Lookups.{Agrees, IsRoot}
use tickraft.Crontab.Agreement.{Reachable-Agrees}
use tickraft.Crontab.Due.{run_due_jobs-Ran}
use tickraft.Crontab.Rounds.{GoForward, Ran}
use tickraft.Crontab.Counts.{count}
use tickraft.Crontab.Alarm.{InTime, Reachable-InTime}
use tickraft.Crontab.Calls.{new_entry, add_zero_runs}

abbrev earliest : Entry → Heap → Entry
earliest e [] = e
earliest e ((id, x) ∷ h) =
    let other = earliest x h in let same = earliest e h in if ltb x.next e.next then other else same

earliest_le : (e : Entry) (h : Heap) → (earliest e h).next ≤ e.next
earliest_le e [] = omega arith
earliest_le e ((id, x) ∷ h) = ground (arith, earliest_le x h, earliest_le e h)

earliest_least :
    (e : Entry) (h : Heap) (k : ℕ) (x : Entry) → lookup k h ≡ some x → (earliest e h).next ≤ x.next
unfolding lookup
earliest_least e [] k x there = absurd (cc)
earliest_least e ((id, y) ∷ h) k x there =
    ground (arith, earliest_least y h k x, earliest_least e h k x, earliest_le y h, earliest_le e h)

IsAmong : Entry → Entry → Heap → Type 0
IsAmong u e h = (u ≡ e) ⊎ ((k : ℕ) × (lookup k h ≡ some u))

among_tail :
    (id : ℕ) (x u : Entry) (h : Heap)
    → lookup id h ≡ none
    → (k : ℕ) × (lookup k h ≡ some u)
    → (k : ℕ) × (lookup k ((id, x) ∷ h) ≡ some u)
unfolding lookup
among_tail id x u h absent (k, there) = (k, ground (arith, ==_iff id k))

earliest-IsAmong : (e : Entry) (h : Heap) → Distinct h → IsAmong (earliest e h) e h
unfolding lookup IsAmong
earliest-IsAmong e [] d = inl refl
earliest-IsAmong e ((id, x) ∷ h) d = elim (Bool-cases (ltb x.next e.next)) [
  | inl earlier ↦ rw earlier (elim (earliest-IsAmong x h d.1) [
    | inl same ↦ inr (id, rw (beq_refl id) (rw same refl))
    | inr more ↦ inr (among_tail id x (earliest x h) h d.0 more)
  ])
  | inr not_earlier ↦ rw not_earlier (elim (earliest-IsAmong e h d.1) [
    | inl same ↦ inl same
    | inr more ↦ inr (among_tail id x (earliest e h) h d.0 more)
  ])
]

earliest-IsRoot : IsRoot earliest
unfolding lookup IsAmong
earliest-IsRoot id e h d keyed = record {
  inside = elim (earliest-IsAmong e h d.1) [
    | inl same ↦
        let own : lookup id ((id, e) ∷ h) ≡ some e = rw (beq_refl id) refl in
        subst (λ u. lookup u.id ((id, e) ∷ h) ≡ some u) (sym same)
          (subst (λ i. lookup i ((id, e) ∷ h) ≡ some e) (sym (keyed id e own)) own)
    | inr more ↦
        let (k, there) = among_tail id e (earliest e h) h d.0 more in
        subst (λ i. lookup i ((id, e) ∷ h) ≡ some (earliest e h))
          (sym (keyed k (earliest e h) there)) there
  ];
  least = λ k x there. ground (arith, earliest_le e h, earliest_least e h k x);
}

-- Each five seconds.
abbrev each_five : ℕ → ℕ
each_five t = t + 5

abbrev never : ℕ → ℕ
never t = 0

abbrev one_entry : Crontab
one_entry = record {
  entries = (1, 7) ∷ [];
  heap = (1, new_entry 10 1 each_five 7) ∷ [];
  timer = armed 15;
  wake = true;
  running = true;
}

one_entry_added : add earliest new_crontab 10 1 each_five 7 ≡ ok one_entry
unfolding add put_entry remove_job remove_found reschedule_timer set_timer top lookup insert
one_entry_added = refl

one_entry-Reachable : Reachable earliest 10 one_entry
one_entry-Reachable =
    after 10 10 new_crontab one_entry (fresh 10) (omega arith)
      (added new_crontab one_entry 1 each_five 7 one_entry_added)

Reachable-Agrees_example : Agrees one_entry
Reachable-Agrees_example =
    Reachable-Agrees earliest earliest-IsRoot 10 one_entry one_entry-Reachable

Reachable-InTime_example : InTime 10 one_entry
Reachable-InTime_example =
    Reachable-InTime earliest earliest-IsRoot 10 one_entry one_entry-Reachable

one_entry-GoForward : GoForward 20 one_entry.heap
unfolding lookup
one_entry-GoForward k e there = elim (Bool-cases (1 == k)) [
  | inl same ↦
      let own : some (new_entry 10 1 each_five 7) ≡ some e = rw same at there in
      let is_own : new_entry 10 1 each_five 7 ≡ e = cc in
      subst (λ x. (x.next_after 20 ≡ 0) ⊎ (21 ≤ x.next_after 20)) is_own (inr (omega arith))
  | inr other ↦ let gone : none ≡ some e = rw other at there in absurd (cc)
]

run_due_jobs-Ran_example :
    (d : Crontab) × (due : List ℕ) × (run_due_jobs earliest one_entry 20 ≡ some (d, due))
    × Ran 20 one_entry d [] due
run_due_jobs-Ran_example =
    run_due_jobs-Ran earliest 20 earliest-IsRoot one_entry Reachable-Agrees_example
      one_entry-GoForward

add_zero_runs_example :
    (d e : Crontab) × (due : List ℕ) × (add earliest one_entry 12 2 never 9 ≡ ok d)
    × (run_due_jobs earliest d 20 ≡ some (e, due))
    × (1 ≤ count 9 due)
    × (lookup 2 e.heap ≡ none)
add_zero_runs_example =
    add_zero_runs earliest earliest-IsRoot one_entry 12 20 2 never 9 Reachable-Agrees_example
      one_entry-GoForward refl refl refl
