-- ===== src/Task/Executions/Sweeper.antt =====
-- The sweeper of the rows whose report does not come (pkg/task/sweeper.go), over Query and MarkTimeout of
-- pkg/task/store.go. `timeouts` has the seconds of the tasks that the engine knows; a query of a page and the
-- write of a row may fail.
use tickraft.Base.{
  ℕ, zero, suc, ◌+◌, ◌-◌, ◌*◌, Bool, ◌||◌, List, [], ◌∷◌, ◌++◌, Option, some, none, ltb, leb,
  if◌then◌else◌, max, length, select, ℤ, pos, negsuc, lookup, nat_key, Outcome, ok, failed, ◌>>=◌,
  false,
}
use tickraft.Pagination.{take, skip}
use tickraft.Task.Executions.{
  timeout, Execution, Executions, is_running, update_running, affects, announce, close_row,
}

abbrev pub sweep_min_timeout : ℕ
sweep_min_timeout = 30 * 1_000_000_000

abbrev pub sweep_grace : ℕ
sweep_grace = 300 * 1_000_000_000

abbrev pub sweep_page_size : ℕ
sweep_page_size = 100

-- `Timeout` of a task, and `taskTimeout`, which is 0 for a task that the engine does not know.
unfoldable pub timeout_of : Option ℤ → ℕ
timeout_of none = 0
timeout_of (some (negsuc n)) = 0
timeout_of (some (pos n)) = n * 1_000_000_000

unfoldable pub task_timeout : ℕ → List (ℕ × ℤ) → ℕ
task_timeout task timeouts = timeout_of (lookup task timeouts)

abbrev pub base_of : Option ℕ → ℕ → ℕ
base_of none started = started
base_of (some triggered) started = triggered

unfoldable pub sweep_base : Execution → ℕ
sweep_base r = base_of r.triggered_at r.started_at

unfoldable pub sweep_deadline : Execution → ℕ → ℕ
sweep_deadline r wait = sweep_base r + (max wait sweep_min_timeout + sweep_grace)

unfoldable pub is_overdue : ℕ → List (ℕ × ℤ) → Execution → Bool
is_overdue now timeouts r = ltb (sweep_deadline r (task_timeout r.task_id timeouts)) now

abbrev pub runs_still : Execution → Bool
runs_still r = is_running r.status

-- A page of `Query` for the running rows, with their number.
unfoldable pub query_running : ℕ → List Execution → List Execution × ℕ
query_running page rows =
    let found = select runs_still rows in
    (take sweep_page_size (skip ((page - 1) * sweep_page_size) found), length found)

pub data ScanError : Type 0 where
  query_failed scan_fuel : ScanError

unfoldable pub is_last_page : ℕ → List Execution → ℕ → Bool
is_last_page page rows total =
    ltb (length rows) sweep_page_size || leb total (page * sweep_page_size)

module _ (now : ℕ) (timeouts : List (ℕ × ℤ)) where
  -- The loop of `staleExecutions` from a page on, on fuel.
  unfoldable pub scan_pages :
      (ℕ → Bool) → ℕ → ℕ → List Execution → Outcome ScanError (List Execution)
  scan_pages query_fails zero page rows = failed scan_fuel
  scan_pages query_fails (suc f) page rows =
      let (found, total) = query_running page rows in
      let stale = select (is_overdue now timeouts) found in
      let rest = scan_pages query_fails f (page + 1) rows in
      if query_fails page
      then failed query_failed
      else if is_last_page page found total
      then ok stale
      else rest >>= λ more. ok (stale ++ more)

  abbrev pub or_nothing : Outcome ScanError (List Execution) → List Execution
  or_nothing (ok stale) = stale
  or_nothing (failed why) = []

  -- A page has a hundred rows, so that one round more than there are rows is enough.
  unfoldable pub stale_executions : (ℕ → Bool) → List Execution → List Execution
  stale_executions query_fails rows = or_nothing (scan_pages query_fails (length rows + 1) 1 rows)

  unfoldable pub mark_timeout : ℕ → Executions → Executions × Bool
  mark_timeout id g =
      (record g { rows = update_running id (close_row timeout now) g.rows }, affects id g.rows)

  -- `reap`, of a row that `MarkTimeout` can write or not.
  unfoldable pub reap : Bool → ℕ → Executions → Executions
  reap mark_fails id g =
      let (marked, reaped) = mark_timeout id g in
      if mark_fails then g else if reaped then announce id false marked else marked

  unfoldable pub reap_all : (ℕ → Bool) → List Execution → Executions → Executions
  reap_all mark_fails [] g = g
  reap_all mark_fails (r ∷ rs) g = reap_all mark_fails rs (reap (mark_fails r.id) r.id g)

  unfoldable pub sweep_once : (ℕ → Bool) → (ℕ → Bool) → Executions → Executions
  sweep_once query_fails mark_fails g = reap_all mark_fails (stale_executions query_fails g.rows) g
