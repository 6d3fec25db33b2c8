-- ===== src/Crontab/Alarm.antt =====
-- The timer of pkg/cron/cron.go rings in time for every entry.
use mathlib.Core.Path.{subst}
use tickraft.Base.{
  ℕ, ◌≡◌, ◌≤◌, refl, true, some, arith, inl, inr, Bool-cases, Option-cases, max, lookup, nat_key,
}
use tickraft.Crontab.{
  Entry, Heap, armed, Crontab, top, set_timer, reschedule_timer, stop, Reachable, fresh, after,
}
use tickraft.Crontab.Lookups.{Agrees, IsRoot, top-IsFirst, top-none}
use tickraft.Crontab.Agreement.{Reachable-Agrees, step_ends}

-- The timer is armed for a time that is not behind the entry's, unless that has come already.
abbrev pub InTime : ℕ → Crontab → Type 0
InTime now c =
    (k : ℕ) (e : Entry)
    → c.running ≡ true
    → lookup k c.heap ≡ some e
    → (t : ℕ) × (c.timer ≡ armed t) × (t ≤ max e.next now)

InTime-later : (t now : ℕ) (c : Crontab) → t ≤ now → InTime t c → InTime now c
InTime-later t now c order timely k e running there =
    let (at, is_armed, early) = timely k e running there in
    (at, is_armed, omega (arith, order, early))

module _ (root : Entry → Heap → Entry) (first : IsRoot root) where
  reschedule_timer-InTime :
      (c : Crontab) (now : ℕ) → Agrees c → InTime now (reschedule_timer root c now)
  unfolding reschedule_timer set_timer
  reschedule_timer-InTime c now a = elim (Bool-cases c.running) [
    | inr off ↦ rw off (λ k e running there. absurd (cc))
    | inl on ↦ rw on (elim (Option-cases (top root c.heap)) [
      | inl empty ↦
          rw empty (λ k e running there. let gone = top-none root c.heap k empty in absurd (cc))
      | inr (x, found) ↦ rw found (λ k e running there.
          let is_first = top-IsFirst root first c.heap x a.heap_distinct a.keyed found in
          (max x.next now, refl, omega (arith, is_first.least k e there)))
    ])
  ]

  stop-InTime : (c : Crontab) (now : ℕ) → InTime now c → InTime now (stop c)
  unfolding stop
  stop-InTime c now timely = elim (Bool-cases c.running) [
    | inr off ↦ rw off (λ k e running there. absurd (cc))
    | inl on ↦ rw on (λ k e running there. absurd (cc))
  ]

  -- By any calls of `Add`, `Remove` and `Stop` and any runs of the jobs that are due, at times that do not go
  -- back: while the table runs and has an entry, the timer is armed, and not for a time behind the next
  -- time of any entry, unless that time had come at the last call.
  pub Reachable-InTime : (now : ℕ) (c : Crontab) → Reachable root now c → InTime now c
  unfolding lookup
  Reachable-InTime now _ (fresh _) = λ k e running there. absurd (cc)
  Reachable-InTime now d (after t _ c _ before order step) =
      elim (step_ends root first now c d (Reachable-Agrees root first t c before) step) [
        | inl (x, agrees, same) ↦ subst (InTime now) same (reschedule_timer-InTime x now agrees)
        | inr same ↦
            subst (InTime now) same
              (stop-InTime c now (InTime-later t now c order (Reachable-InTime t c before)))
      ]
