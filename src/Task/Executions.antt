-- ===== src/Task/Executions.antt =====
-- The rows of executions that wait for a remote report: StartDispatch and FinishDispatch of
-- pkg/task/dispatch.go; in Reports pkg/task/report.go, and in Sweeper pkg/task/sweeper.go. The rows stand as the database orders them, by descending number. A
-- dispatch credential is a number of its own; outputs, error texts and durations are left out. `announced` has
-- each completion that was published, by its row, and whether its status is normal.
pub mod Reports
pub mod Sweeper
pub mod Rows
pub mod Outcomes
pub mod Scan
pub mod Sweep
mod Examples
use tickraft.Base.{
  ℕ, zero, suc, ◌+◌, ◌-◌, ◌*◌, Bool, true, false, not, ◌&&◌, ◌||◌, List, [], ◌∷◌, ◌++◌, Option,
  some, none, ltb, leb, ◌==◌, if◌then◌else◌, max, length, select, ℤ, pos, negsuc, lookup, nat_key,
  Outcome, ok, failed, ◌>>=◌,
}
use tickraft.Pagination.{take, skip}

pub data ExecutionStatus : Type 0 where
  success failure timeout running unknown : ExecutionStatus

pub record Execution : Type 0 where
  pub id : ℕ
  pub task_id : ℕ
  pub run_id : Option ℕ
  pub status : ExecutionStatus
  pub started_at : ℕ
  pub triggered_at : Option ℕ
  pub finished_at : Option ℕ

pub record Executions : Type 0 where
  pub rows : List Execution
  pub next_id : ℕ
  pub announced : List (ℕ × Bool)

abbrev pub no_executions : Executions
no_executions = record { rows = []; next_id = 1; announced = [] }

unfoldable pub is_running : ExecutionStatus → Bool
is_running success = false
is_running failure = false
is_running timeout = false
is_running running = true
is_running unknown = false

-- `WHERE id = ?`
unfoldable pub row_of : ℕ → List Execution → Option Execution
row_of id [] = none
row_of id (r ∷ rs) = if r.id == id then some r else row_of id rs

unfoldable pub update_row : ℕ → (Execution → Execution) → List Execution → List Execution
update_row id f [] = []
update_row id f (r ∷ rs) = (if r.id == id then f r else r) ∷ update_row id f rs

-- `WHERE id = ? AND status = 'running'`: the rows behind the update, and whether it affects one;
-- the number is the primary key.
unfoldable pub update_running : ℕ → (Execution → Execution) → List Execution → List Execution
update_running id f [] = []
update_running id f (r ∷ rs) =
    (if r.id == id && is_running r.status then f r else r) ∷ update_running id f rs

abbrev pub still_running : Option Execution → Bool
still_running none = false
still_running (some r) = is_running r.status

unfoldable pub affects : ℕ → List Execution → Bool
affects id rows = still_running (row_of id rows)

unfoldable pub insert_row : Execution → Executions → Executions
insert_row r g = record g { rows = r ∷ g.rows; next_id = g.next_id + 1 }

-- A completion is published.
unfoldable pub announce : ℕ → Bool → Executions → Executions
announce id normal g = record g { announced = (id, normal) ∷ g.announced }

-- `StartDispatch`
unfoldable pub start_dispatch : ℕ → ℕ → ℕ → ℕ → Executions → Executions
start_dispatch now task run triggered g =
    insert_row
      (record {
        id = g.next_id;
        task_id = task;
        run_id = some run;
        status = running;
        started_at = now;
        triggered_at = some triggered;
        finished_at = none;
      })
      g

pub data DispatchError : Type 0 where
  deadline_exceeded other_error : DispatchError

unfoldable pub status_of_error : DispatchError → ExecutionStatus
status_of_error deadline_exceeded = timeout
status_of_error other_error = failure

unfoldable pub close_row : ExecutionStatus → ℕ → Execution → Execution
close_row status now r = record r { status = status; finished_at = some now }

-- `FinishDispatch`, with whether a completion is to be published.
unfoldable pub finish_found :
    ℕ → ℕ → DispatchError → Option Execution → Executions → Executions × Bool
finish_found now id why none g = (g, true)
finish_found now id why (some r) g =
    (record g { rows = update_row id (close_row (status_of_error why) now) g.rows }, true)

unfoldable pub finish_dispatch : ℕ → ℕ → Option DispatchError → Executions → Executions × Bool
finish_dispatch now id none g = (g, false)
finish_dispatch now id (some why) g = finish_found now id why (row_of id g.rows) g

-- The runner's call of it; the status of a failed dispatch is never normal.
unfoldable pub finish_dispatched : ℕ → ℕ → Option DispatchError → Executions → Executions
finish_dispatched now id outcome g =
    let (closed, publish) = finish_dispatch now id outcome g in
    if publish then announce id false closed else closed
