-- ===== src/Crontab.antt =====
-- The table of cron entries: pkg/cron/cron.go. A time is a number, and the zero time is 0; the clock that
-- the code reads is an argument.
pub mod Lookups
pub mod Agreement
pub mod Counts
pub mod Rounds
pub mod Due
pub mod Alarm
pub mod Calls
mod Examples
use tickraft.Base.{
  ℕ, zero, suc, ◌≡◌, ◌≤◌, ◌+◌, Bool, true, false, not, List, [], ◌∷◌, ◌++◌, Option, some, none, ltb,
  ◌==◌, if◌then◌else◌, max, lookup, insert, remove, nat_key, length, Outcome, ok, failed,
}

-- `Schedule` is an interface with the one method `Next`; a job is its number.
pub record Entry : Type 0 where
  pub id : ℕ
  pub next_after : ℕ → ℕ
  pub job : ℕ
  pub next : ℕ

abbrev pub Heap : Type 0
Heap = List (ℕ × Entry)

-- `*time.Timer`: nil, stopped, or armed for a time.
pub data Timer : Type 0 where
  no_timer stopped : Timer
  armed : ℕ → Timer

pub data Error : Type 0 where
  already_stopped : Error

-- Of `entries`, the number of each entry and its job: the code reads no other field through the map. The
-- heap is the entries in it, by number, in no order: its first one is a parameter.
pub record Crontab : Type 0 where
  pub entries : List (ℕ × ℕ)
  pub heap : Heap
  pub timer : Timer
  pub wake : Bool
  pub running : Bool

abbrev pub new_crontab : Crontab
new_crontab = record { entries = []; heap = []; timer = no_timer; wake = false; running = true }

abbrev pub push : Entry → Heap → Heap
push e h = (e.id, e) ∷ h

unfoldable pub remove_found : Crontab → ℕ → Option ℕ → Crontab
remove_found c id none = c
remove_found c id (some j) = record c { entries = remove id c.entries; heap = remove id c.heap }

unfoldable pub remove_job : Crontab → ℕ → Crontab
unfolding remove_found
remove_job c id = remove_found c id (lookup id c.entries)

-- `Stop`, up to the wait for the workers.
unfoldable pub stop : Crontab → Crontab
stop c = if c.running then record c { running = false; timer = no_timer } else c

abbrev pub idle : Timer → Timer
idle no_timer = no_timer
idle stopped = stopped
idle (armed t) = stopped

-- The first entry, when its time has come.
unfoldable pub due_entry : ℕ → Option Entry → Option Entry
due_entry now none = none
due_entry now (some e) = if ltb now e.next then none else some e

unfoldable pub go_on :
    Option (Crontab × List ℕ)
    → (Entry → Option (Crontab × List ℕ))
    → Option Entry
    → Option (Crontab × List ℕ)
go_on stops rest none = stops
go_on stops rest (some e) = rest e

-- `root e h` is the first entry of the heap of `e` and `h`: by container/heap, one that no other is before.
module _ (root : Entry → Heap → Entry) where
  unfoldable pub top : Heap → Option Entry
  top [] = none
  top ((id, e) ∷ h) = some (root e h)

  -- The timer rings `max(time.Until(next), 0)` from now.
  unfoldable pub set_timer : Crontab → ℕ → Option Entry → Crontab
  set_timer c now none = record c { timer = idle c.timer }
  set_timer c now (some e) = record c { timer = armed (max e.next now); wake = true }

  unfoldable pub reschedule_timer : Crontab → ℕ → Crontab
  unfolding set_timer
  reschedule_timer c now = if c.running then set_timer c now (top c.heap) else c

  unfoldable pub put_entry : Crontab → ℕ → Entry → Crontab
  put_entry c now e =
      reschedule_timer (record c { entries = insert e.id e.job c.entries; heap = push e c.heap })
        now

  unfoldable pub add : Crontab → ℕ → ℕ → (ℕ → ℕ) → ℕ → Outcome Error Crontab
  add c now id next_after job =
      if c.running
      then ok (
          put_entry (remove_job c id) now
            (record { id = id; next_after = next_after; job = job; next = next_after now }))
      else failed already_stopped

  unfoldable pub remove_entry : Crontab → ℕ → ℕ → Crontab
  remove_entry c now id = reschedule_timer (remove_job c id) now

  -- One round of the loop of `runDueJobs`, for the first entry.
  unfoldable pub run_entry : Crontab → ℕ → Entry → Crontab
  run_entry c now e =
      let h = remove e.id c.heap in
      if e.next_after now == 0
      then record c { entries = remove e.id c.entries; heap = h }
      else record c { heap = push (record e { next = e.next_after now }) h }

  -- The loop, with the jobs found so far; `none` when the fuel does not last.
  unfoldable pub due_loop : ℕ → Crontab → ℕ → List ℕ → Option (Crontab × List ℕ)
  due_loop zero c now due = none
  due_loop (suc n) c now due =
      go_on (some (c, due)) (λ e. due_loop n (run_entry c now e) now (due ++ e.job ∷ []))
        (due_entry now (top c.heap))

  unfoldable pub with_timer : ℕ → Option (Crontab × List ℕ) → Option (Crontab × List ℕ)
  with_timer now none = none
  with_timer now (some (c, due)) = some (reschedule_timer c now, due)

  -- `runDueJobs`, up to the dispatch of the jobs that are due.
  unfoldable pub run_due_jobs : Crontab → ℕ → Option (Crontab × List ℕ)
  unfolding with_timer
  run_due_jobs c now = with_timer now (due_loop (suc (length c.heap)) c now [])

  -- The calls that hold the mutex, at a time of the clock.
  pub data Step (now : ℕ) : Crontab → Crontab → Type 0 where
    added :
        (c d : Crontab) (id : ℕ) (next_after : ℕ → ℕ) (job : ℕ)
        → add c now id next_after job ≡ ok d
        → Step now c d
    removed : (c : Crontab) (id : ℕ) → Step now c (remove_entry c now id)
    fired : (c d : Crontab) (due : List ℕ) → run_due_jobs c now ≡ some (d, due) → Step now c d
    halted : (c : Crontab) → Step now c (stop c)

  -- What a table becomes by calls, and the time of the last one.
  pub data Reachable : ℕ → Crontab → Type 0 where
    fresh : (now : ℕ) → Reachable now new_crontab
    after : (t now : ℕ) (c d : Crontab) → Reachable t c → t ≤ now → Step now c d → Reachable now d
