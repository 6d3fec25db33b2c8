-- ===== src/Task/Executions/Reports.antt =====
-- The reports of remote executions, bound to the rows (pkg/task/report.go): bindTaskRef, ApplyTaskReport and
-- the handler of the consumer, whose binding and writing may have other writes between them.
use tickraft.Base.{
  ℕ, Bool, true, false, not, ◌&&◌, List, [], ◌∷◌, Option, some, none, ◌==◌, if◌then◌else◌, ℤ, pos,
  negsuc, nat_key, Outcome, ok, failed,
}
use tickraft.Task.Executions.{
  Execution, ExecutionStatus, Executions, affects, announce, failure, insert_row, is_running,
  row_of, running, success, timeout, update_running,
}

-- A report refers to a task by its number, or to a run by its credential.
pub data Ref : Type 0 where
  task_number credential : ℕ → Ref

pub data ReportStatus : Type 0 where
  says_running says_completed says_failed says_timeout says_other : ReportStatus

-- The test for a normal status in `publishCompleted`.
unfoldable pub is_completed : ReportStatus → Bool
is_completed says_running = false
is_completed says_completed = true
is_completed says_failed = false
is_completed says_timeout = false
is_completed says_other = false

-- A time of 0 or below is absent.
pub record Report : Type 0 where
  pub is_task_status : Bool
  pub ref : Ref
  pub status : ReportStatus
  pub started_at : ℤ
  pub finished_at : ℤ

pub data ReportError : Type 0 where
  unknown_ref unknown_status report_terminal reload_failed : ReportError

pub record ReportResult : Type 0 where
  pub task_id : ℕ
  pub exec_id : ℕ
  pub terminal : Bool

unfoldable pub report_exec_status : ReportStatus → Option ExecutionStatus
report_exec_status says_running = some running
report_exec_status says_completed = some success
report_exec_status says_failed = some failure
report_exec_status says_timeout = some timeout
report_exec_status says_other = none

-- A row that was found, or the task of a report that none was found for.
pub data Bound : Type 0 where
  bound_row : Execution → Bound
  external : ℕ → Bound

unfoldable pub latest_running : ℕ → List Execution → Option Execution
latest_running task [] = none
latest_running task (r ∷ rs) =
    if r.task_id == task && is_running r.status then some r else latest_running task rs

abbrev pub same_run : Option ℕ → ℕ → Bool
same_run none run = false
same_run (some r) run = r == run

unfoldable pub by_run_id : ℕ → List Execution → Option Execution
by_run_id run [] = none
by_run_id run (r ∷ rs) = if same_run r.run_id run then some r else by_run_id run rs

abbrev pub bound_or_external : ℕ → Option Execution → Bound
bound_or_external task none = external task
bound_or_external task (some r) = bound_row r

abbrev pub bound_or_unknown : Option Execution → Outcome ReportError Bound
bound_or_unknown none = failed unknown_ref
bound_or_unknown (some r) = ok (bound_row r)

unfoldable pub bind_task_ref : Ref → List Execution → Outcome ReportError Bound
bind_task_ref (task_number n) rows = ok (bound_or_external n (latest_running n rows))
bind_task_ref (credential c) rows = bound_or_unknown (by_run_id c rows)

-- A reported time, or the default when it is absent.
unfoldable pub time_or : ℤ → ℕ → ℕ
time_or (negsuc n) default = default
time_or (pos n) default = if n == 0 then default else n

-- The columns that a report writes.
unfoldable pub write_report : ℕ → ExecutionStatus → Report → Execution → Execution → Execution
write_report now status p bound r =
    let started = record r {
      status = status;
      started_at = time_or p.started_at bound.started_at;
    } in
    if is_running status
    then started
    else record started { finished_at = some (time_or p.finished_at now) }

unfoldable pub reload : Option Execution → ReportResult → Outcome ReportError ReportResult
reload none result = failed reload_failed
reload (some r) result = if is_running r.status then ok result else failed report_terminal

-- `ApplyTaskReport` behind the binding, for a status of the vocabulary: the guarded write, or the row of a
-- report from outside.
unfoldable pub apply_status :
    ℕ
    → Bound
    → ExecutionStatus
    → Report
    → Executions
    → Executions × Outcome ReportError ReportResult
apply_status now (bound_row r) status p g =
    let result : ReportResult = record {
      task_id = r.task_id;
      exec_id = r.id;
      terminal = not (is_running status);
    } in
    (
      record g { rows = update_running r.id (write_report now status p r) g.rows },
      if affects r.id g.rows then ok result else reload (row_of r.id g.rows) result,
    )
apply_status now (external task) status p g =
    let r : Execution = record {
      id = g.next_id;
      task_id = task;
      run_id = none;
      status = status;
      started_at = time_or p.started_at now;
      triggered_at = none;
      finished_at = if is_running status then none else some (time_or p.finished_at now);
    } in
    (
      insert_row r g,
      ok (record { task_id = task; exec_id = g.next_id; terminal = not (is_running status) }),
    )

unfoldable pub apply_known :
    ℕ
    → Bound
    → Option ExecutionStatus
    → Report
    → Executions
    → Executions × Outcome ReportError ReportResult
apply_known now b none p g = (g, failed unknown_status)
apply_known now b (some status) p g = apply_status now b status p g

abbrev pub is_open : Bound → Bool
is_open (bound_row r) = is_running r.status
is_open (external task) = true

unfoldable pub apply_bound :
    ℕ → Bound → Report → Executions → Executions × Outcome ReportError ReportResult
apply_bound now b p g =
    if is_open b
    then apply_known now b (report_exec_status p.status) p g
    else (g, failed report_terminal)

-- `handle` behind the binding: a report that closes a row is announced.
unfoldable pub announce_result :
    ReportStatus → Executions × Outcome ReportError ReportResult → Executions
announce_result status (g, failed why) = g
announce_result status (g, ok result) =
    if result.terminal then announce result.exec_id (is_completed status) g else g

unfoldable pub finish_report : ℕ → Bound → Report → Executions → Executions
finish_report now b p g = announce_result p.status (apply_bound now b p g)

unfoldable pub report_to : ℕ → Outcome ReportError Bound → Report → Executions → Executions
report_to now (failed why) p g = g
report_to now (ok b) p g = finish_report now b p g

unfoldable pub handle_report : ℕ → Report → Executions → Executions
handle_report now p g =
    if p.is_task_status then report_to now (bind_task_ref p.ref g.rows) p g else g
