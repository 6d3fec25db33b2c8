-- ===== src/Task/Executions/Outcomes.antt =====
-- An execution that waits for a report ends once, whoever closes it (pkg/task/report.go, sweeper.go,
-- dispatch.go): reports and the sweeper may have read the rows at any time before they write.
use tickraft.Base.{
  ℕ, ◌≡◌, refl, sym, Bool, true, false, not, List, [], ◌∷◌, Option, some, none, Option-cases, arith,
  Bool-cases, inl, inr, failed,
}
use tickraft.Task.Executions.{
  ExecutionStatus, success, failure, timeout, running, Execution, Executions, no_executions,
  is_running, row_of, still_running, update_running, affects, announce, start_dispatch,
  DispatchError, deadline_exceeded, other_error, status_of_error, close_row, finish_found,
  finish_dispatch, finish_dispatched, still_running,
}
use tickraft.Task.Executions.Reports.{
  ReportStatus, says_running, says_completed, says_failed, says_timeout, says_other, Report,
  ReportError, reload_failed, report_terminal, is_open, ReportResult, report_exec_status,
  is_completed, Bound, bound_row, external, write_report, reload, apply_status, apply_known,
  apply_bound, announce_result, finish_report,
}
use tickraft.Task.Executions.Sweeper.{reap, mark_timeout}
use tickraft.Task.Executions.Rows.{
  completion, IsAnnounced, Follows, same-Follows, guarded_moves, row_of-update_row,
  inserted-Follows, announced_new-Follows, running-completion, closed-Follows, open-Follows,
  missed-Follows,
}

-- What is written at one time. A report goes to a row or a task that it was bound to, and the sweeper to a
-- row that it has found, whenever that was.
pub data Write : Type 0 where
  dispatched : ℕ → ℕ → ℕ → ℕ → Write
  dispatch_ended : ℕ → ℕ → Option DispatchError → Write
  reported : ℕ → Bound → Report → Write
  swept : ℕ → Bool → ℕ → Write

unfoldable pub write : Executions → Write → Executions
write g (dispatched now task run triggered) = start_dispatch now task run triggered g
write g (dispatch_ended now id outcome) = finish_dispatched now id outcome g
write g (reported now b p) = finish_report now b p g
write g (swept now mark_fails id) = reap now [] mark_fails id g

unfoldable pub writes : Executions → List Write → Executions
writes g [] = g
writes g (w ∷ ws) = writes (write g w) ws

-- The report's words for a row that has ended.
report-completion :
    (s : ReportStatus) (status : ExecutionStatus)
    → report_exec_status s ≡ some status
    → is_running status ≡ false
    → completion status ≡ is_completed s ∷ []
unfolding report_exec_status is_completed is_running
report-completion says_running status h ended =
    let e : running ≡ status = cc in
    let runs : is_running status ≡ true = rw (sym e) refl in absurd (cc)
report-completion says_completed status h ended = let e : success ≡ status = cc in rw (sym e) refl
report-completion says_failed status h ended = let e : failure ≡ status = cc in rw (sym e) refl
report-completion says_timeout status h ended = let e : timeout ≡ status = cc in rw (sym e) refl
report-completion says_other status h ended = absurd (cc)

-- What `write_report` leaves of a row: its number, and the status of the report.
write_report-id :
    (now : ℕ) (status : ExecutionStatus) (p : Report) (bound r : Execution)
    → (write_report now status p bound r).id ≡ r.id
unfolding write_report
write_report-id now status p bound r = ground arith

write_report-status :
    (now : ℕ) (status : ExecutionStatus) (p : Report) (bound r : Execution)
    → (write_report now status p bound r).status ≡ status
unfolding write_report
write_report-status now status p bound r = ground arith

reload_ended :
    (o : Option Execution) (result : ReportResult)
    → still_running o ≡ false
    → (why : ReportError) × (reload o result ≡ failed why)
unfolding reload
reload_ended none result h = (reload_failed, refl)
reload_ended (some r) result h = (report_terminal, rw h refl)

-- The guarded write of a report, with what is announced behind it.
reported_row-Follows :
    (now : ℕ) (r : Execution) (status : ExecutionStatus) (p : Report) (g : Executions)
    → report_exec_status p.status ≡ some status
    → IsAnnounced g
    → Follows g (announce_result p.status (apply_status now (bound_row r) status p g))
unfolding apply_status announce_result affects
reported_row-Follows now r status p g known x =
    let f = write_report now status p r in
    let rows = update_running r.id f g.rows in
    let moves = guarded_moves r.id f g.rows (write_report-id now status p r) in
    elim (Bool-cases (affects r.id g.rows)) [
      | inl hit ↦ elim (Bool-cases (is_running status)) [
        | inl runs ↦ rw hit (
            rw runs (
              open-Follows r.id f g rows moves x (λ q live.
                rw (write_report-status now status p r q) (running-completion status runs))))
        | inr ended ↦ rw hit (
            rw ended (
              closed-Follows r.id f g rows moves x (is_completed p.status) hit (λ q.
                rw (write_report-status now status p r q)
                  (report-completion p.status status known ended))))
      ]
      | inr miss ↦
          let result : ReportResult = record {
            task_id = r.task_id;
            exec_id = r.id;
            terminal = not (is_running status);
          } in
          let (why, error) = reload_ended (row_of r.id g.rows) result miss in
          rw miss (rw error (missed-Follows r.id f g rows moves x miss))
    ]

reported_external-Follows :
    (now task : ℕ) (status : ExecutionStatus) (p : Report) (g : Executions)
    → report_exec_status p.status ≡ some status
    → IsAnnounced g
    → Follows g (announce_result p.status (apply_status now (external task) status p g))
unfolding apply_status announce_result
reported_external-Follows now task status p g known x = elim (Bool-cases (is_running status)) [
  | inl runs ↦ rw runs (inserted-Follows _ g refl (running-completion status runs) x)
  | inr ended ↦ rw ended (
      announced_new-Follows _ (is_completed p.status) g refl
        (report-completion p.status status known ended) x)
]

applied-Follows :
    (now : ℕ) (b : Bound) (o : Option ExecutionStatus) (p : Report) (g : Executions)
    → report_exec_status p.status ≡ o
    → IsAnnounced g
    → Follows g (announce_result p.status (apply_known now b o p g))
unfolding apply_known announce_result
applied-Follows now b none p g known x = same-Follows g x
applied-Follows now (bound_row r) (some status) p g known x =
    reported_row-Follows now r status p g known x
applied-Follows now (external task) (some status) p g known x =
    reported_external-Follows now task status p g known x

finish_report-Follows :
    (now : ℕ) (b : Bound) (p : Report) (g : Executions)
    → IsAnnounced g
    → Follows g (finish_report now b p g)
unfolding finish_report apply_bound announce_result
finish_report-Follows now b p g x = elim (Bool-cases (is_open b)) [
  | inl opened ↦ rw opened (applied-Follows now b (report_exec_status p.status) p g refl x)
  | inr ended ↦ rw ended (same-Follows g x)
]

close_row-completion :
    (why : DispatchError) (now : ℕ) (r : Execution)
    → completion (close_row (status_of_error why) now r).status ≡ false ∷ []
unfolding close_row status_of_error
close_row-completion deadline_exceeded now r = refl
close_row-completion other_error now r = refl

-- A dispatch that fails while the row is running.
finish_found-Follows :
    (now id : ℕ) (why : DispatchError) (o : Option Execution) (g : Executions)
    → row_of id g.rows ≡ o
    → still_running o ≡ true
    → IsAnnounced g
    → Follows g (announce id false (finish_found now id why o g).0)
unfolding finish_found close_row affects
finish_found-Follows now id why none g found live x = absurd (cc)
finish_found-Follows now id why (some r) g found live x =
    let hit : affects id g.rows ≡ true = rw found live in
    closed-Follows id (close_row (status_of_error why) now) g _
      (λ j. row_of-update_row id j _ g.rows (λ q. refl) hit) x false hit
      (close_row-completion why now)

reap-Follows :
    (now id : ℕ) (fails : Bool) (g : Executions)
    → IsAnnounced g
    → Follows g (reap now [] fails id g)
unfolding reap mark_timeout close_row
reap-Follows now id true g x = same-Follows g x
reap-Follows now id false g x =
    let moves = guarded_moves id (close_row timeout now) g.rows (λ r. refl) in
    elim (Bool-cases (affects id g.rows)) [
      | inl hit ↦ rw hit (closed-Follows id _ g _ moves x false hit (λ r. refl))
      | inr miss ↦ rw miss (missed-Follows id _ g _ moves x miss)
    ]

-- A dispatch fails while its row is running, and not behind a report or a sweep that has closed it.
abbrev pub InTime : Executions → Write → Type 0
InTime g (dispatched now task run triggered) = Unit
InTime g (dispatch_ended now id none) = Unit
InTime g (dispatch_ended now id (some why)) = still_running (row_of id g.rows) ≡ true
InTime g (reported now b p) = Unit
InTime g (swept now fails id) = Unit

unfoldable pub AllInTime : Executions → List Write → Type 0
AllInTime g [] = Unit
AllInTime g (w ∷ ws) = InTime g w × AllInTime (write g w) ws

write-Follows : (g : Executions) (w : Write) → InTime g w → IsAnnounced g → Follows g (write g w)
unfolding write start_dispatch finish_dispatched finish_dispatch finish_found
write-Follows g (dispatched now task run triggered) h x = inserted-Follows _ g refl refl x
write-Follows g (dispatch_ended now id none) h x = same-Follows g x
write-Follows g (dispatch_ended now id (some why)) h x = elim (Option-cases (row_of id g.rows)) [
  | inl nothing ↦ let live : false ≡ true = rw nothing at h in absurd (cc)
  | inr (r, found) ↦ rw found (finish_found-Follows now id why (some r) g found (rw found at h) x)
]
write-Follows g (reported now b p) h x = finish_report-Follows now b p g x
write-Follows g (swept now fails id) h x = reap-Follows now id fails g x

writes-Follows :
    (g : Executions) (ws : List Write) → AllInTime g ws → IsAnnounced g → Follows g (writes g ws)
unfolding writes AllInTime
writes-Follows g [] h x = same-Follows g x
writes-Follows g (w ∷ ws) h x =
    let first = write-Follows g w h.0 x in
    let rest = writes-Follows (write g w) ws h.1 first.sound in
    record {
      sound = rest.sound;
      kept = λ id r found ended. rest.kept id r (first.kept id r found ended) ended;
    }

no_executions-IsAnnounced : IsAnnounced no_executions
unfolding row_of
no_executions-IsAnnounced = record { fresh = λ id h. refl; once = λ id. refl }

-- Whatever dispatches, reports and sweeps write, in any order and to rows that they read at any time before,
-- where a dispatch fails only while its row is running: for a row that has ended one completion was
-- published, a normal one exactly when it is a success, and for a row that is running none. A row that has
-- ended stays as it is, whatever is written later.
pub writes-IsAnnounced :
    (ws later : List Write)
    → AllInTime no_executions ws
    → AllInTime (writes no_executions ws) later
    → IsAnnounced (writes no_executions ws)
      × Follows (writes no_executions ws) (writes (writes no_executions ws) later)
writes-IsAnnounced ws later h k =
    let x = (writes-Follows no_executions ws h no_executions-IsAnnounced).sound in
    (x, writes-Follows (writes no_executions ws) later k x)
