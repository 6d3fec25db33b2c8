-- ===== src/Task/Executions/Examples.antt =====
-- A run that is dispatched, reported and swept, and the theorems at it.
use tickraft.Base.{ℕ, ◌≡◌, refl, ◌*◌, true, false, List, [], ◌∷◌, map, some, none, ℤ, pos}
use tickraft.Task.Executions.{
  running, Execution, Executions, no_executions, is_running, row_of, update_running, affects,
  insert_row, announce, start_dispatch, deadline_exceeded, finish_found, finish_dispatch,
  finish_dispatched,
}
use tickraft.Task.Executions.Reports.{
  says_running, says_completed, Report, credential, report_exec_status, is_completed, bound_row,
  time_or, write_report, apply_status, apply_known, apply_bound, announce_result, finish_report,
}
use tickraft.Task.Executions.Rows.{IsAnnounced, Follows}
use tickraft.Task.Executions.Outcomes.{
  Write, dispatched, dispatch_ended, reported, swept as swept_row, write, writes, AllInTime,
  writes-IsAnnounced,
}
use tickraft.Task.Executions.Sweeper.{sweep_once}
use tickraft.Task.Executions.Sweep.{swept, NoneTwice, sweep_once-swept}

abbrev first_row : Execution
first_row = record {
  id = 1;
  task_id = 7;
  run_id = some 11;
  status = running;
  started_at = 5;
  triggered_at = some 4;
  finished_at = none;
}

abbrev done : Report
done = record {
  is_task_status = true;
  ref = credential 11;
  status = says_completed;
  started_at = pos 0;
  finished_at = pos 40;
}

-- A report that was bound while the row ran is written behind a sweep that had found the row, too.
abbrev race : List Write
race = dispatched 5 7 11 4 ∷ reported 50 (bound_row first_row) done ∷ swept_row 60 false 1 ∷ []

abbrev behind_it : List Write
behind_it =
    reported 70 (bound_row first_row) (record done { status = says_running })
    ∷ dispatch_ended 80 1 none
    ∷ []

race-AllInTime : AllInTime no_executions race
unfolding AllInTime
race-AllInTime = (tt, (tt, (tt, tt)))

behind_it-AllInTime : AllInTime (writes no_executions race) behind_it
unfolding AllInTime
behind_it-AllInTime = (tt, (tt, tt))

writes-IsAnnounced_example :
    IsAnnounced (writes no_executions race)
    × Follows (writes no_executions race) (writes (writes no_executions race) behind_it)
writes-IsAnnounced_example = writes-IsAnnounced race behind_it race-AllInTime behind_it-AllInTime

-- A dispatch that fails behind the report writes over the success, and is announced too.
late_failure :
    (writes no_executions (
      dispatched 5 7 11 4
      ∷ reported 50 (bound_row first_row) done
      ∷ dispatch_ended 80 1 (some deadline_exceeded)
      ∷ [])).announced
    ≡ (1, false) ∷ (1, true) ∷ []
unfolding writes write start_dispatch insert_row finish_report apply_bound apply_known apply_status
    announce_result announce report_exec_status is_completed is_running affects row_of
    update_running write_report time_or finish_dispatched finish_dispatch finish_found
late_failure = refl

abbrev late : ℕ
late = 1_000 * 1_000_000_000

abbrev sixty_seconds : List (ℕ × ℤ)
sixty_seconds = (7, pos 60) ∷ []

abbrev two_rows : Executions
two_rows = record {
  rows = record first_row { id = 2; triggered_at = some (900 * 1_000_000_000) } ∷ first_row ∷ [];
  next_id = 3;
  announced = [];
}

apart : NoneTwice late sixty_seconds two_rows.rows
apart = (refl, (refl, tt))

sweep_once-swept_example :
    (sweep_once late sixty_seconds (λ page. false) (λ id. false) two_rows).rows
    ≡ map (swept late sixty_seconds (λ id. false)) two_rows.rows
sweep_once-swept_example =
    sweep_once-swept late sixty_seconds (λ page. false) (λ id. false) two_rows apart (λ page. refl)
