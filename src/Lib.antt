-- ===== src/Lib.antt =====
-- Verification of tickraft, a job scheduler, uptime monitor and alerting tool in one Go binary. The
-- development models parts of the Go code under pkg/ and proves what they promise.
--
-- The parts. A cron expression (pkg/cron) says when a job runs, the table of cron entries starts it, a
-- restart counts the times that were missed (pkg/task), and the time wheel (pkg/timewheel) calls back
-- when that time comes; of several instances one owns each task (pkg/scheduler). Monitors probe their
-- targets; the public status page (pkg/status) joins the results of the probes to a few words. The
-- state manager (pkg/telemetry/state.go) arms an entry of the time wheel for each asset and reports
-- the assets that fall silent. Alerts pass guards and rules (pkg/prism) and leave through channels,
-- which a circuit breaker (pkg/circuitbreaker) guards, and calls that fail are retried (pkg/retry). An
-- LRU cache with expiry (pkg/cache) stands in front of the database, from which clients read pages
-- (pkg/pagination). The task engine (pkg/task) registers its tasks at the scheduler, whose engine
-- keeps a chain of entries of the time wheel for each, and publishes the slots that come due; a run
-- that is executed elsewhere is closed by a report or by the sweeper.
--
-- The files.
--   Base        numbers, lists, signed integers, maps as association lists, results with an error
--   Cron        pkg/cron/parser.go: Bits (the masks: allBits, fillRange, nextSetBit), Text (what the parser
--               uses of strings and strconv), Fields (parseField and what it calls), Spec
--               (parseSpecFields and what it calls), Parse (Parse, the descriptors, the time zone; of
--               pkg/cron/schedule.go Every, the fixed delay and matchesDay), Calendar (what Next uses of
--               package time), Next (specSchedule.Next)
--   Catchup     pkg/task/catchup.go: missedSlots and runCatchup
--   Task        pkg/task: Sleep (the sleep windows of catchup.go), Dispatch (the gates and the running
--               markers of engine.go, the triggers and completions of events.go, dependency.go), Executions (the
--               rows that wait for a remote report, of dispatch.go, report.go, sweeper.go and store.go)
--               and Lifecycle (Register, Update, Unschedule, Pause, Resume of engine.go, schedule.go), over
--               the engine of Scheduler
--   Crontab     pkg/cron/cron.go: Add, Remove, the run of the due jobs, the timer, Stop
--   TimeWheel   pkg/timewheel/wheel.go: AddAt, removeEntry, tick and cascade on the two wheels
--   Breaker     pkg/circuitbreaker/circuitbreaker.go: all methods
--   Cache       pkg/cache/lru.go: all methods, on the map and the linked list apart
--   Heartbeat   pkg/telemetry/state.go: all methods of the state manager, over TimeWheel
--   Prism       pkg/prism/dispatch.go: Dispatch, in Dispatch; pkg/prism/governance/dedup.go, in Dedup;
--               pkg/prism/remediation, in Remediation: claims, gates and the columns of a rule; the
--               events of pkg/prism/alert/event.go
--   Retry       pkg/retry/retry.go: the checks of New, Do and DoAsync
--   Scheduler   pkg/scheduler/shard.go: which instance owns a task; in Engine, the schedules and
--               the engine of pkg/scheduler/schedule.go and engine_impl.go, over TimeWheel
--   Pagination  pkg/pagination: the windows of paging.go, the cursors of cursor.go, and the queries and
--               next cursors of gorm.go
--   StatusPage  pkg/status/aggregate.go: RenderComponents and all that it calls
-- The module of a part holds its state as a record and one function for each method, with the source's
-- names in snake case; the modules below it hold what is proved, and Examples its tests.
--
-- How the code is read. A method that holds the mutex from its start to its end is one step; Remove of the
-- scheduler's engine, which releases it between the tables and the wheel, is two. The clock is an
-- argument, in nanoseconds. An int of Go is a native natural number where the code keeps it from being
-- negative, and a signed integer of Base otherwise; the sum in fillRange wraps at 2 ^ 63 as in Go.
-- An index out of range is the error index_out_of_range of the model.
--
-- Bounds and fuel. nextSetBit counts the zeros of a 64-bit mask with fuel 64, which is its width.
-- fillRange runs on fuel 256: a step is 1 at least and a range has at most 60 values. A sum wraps only
-- when the step is within 59 of 2 ^ 63, and then each two rounds bring the value down by 2 at least,
-- so that the loop ends within 70 rounds. The loop of Next runs on fuel 1000, which is the count in
-- the code itself, as is the 1000000 of the loop in missedSlots. The decimal digits of an asset's
-- number have fuel 19, which an int64 needs at most. The loop of runDueJobs runs on one more than the
-- entries of the heap: a round takes one entry that is due, and no schedule gives a time that is not
-- to come. A delay of the time wheel is rounded down to whole seconds exactly, which the floating
-- point of Duration.Seconds does for delays below some weeks. A client of the pages goes on for one
-- page more than there are rows at most, and so does the scan of the sweeper.
--
-- What is left out. Text is the bytes of ASCII: the case and the spaces of other letters are not
-- modelled. The time zone data and time.ParseDuration are parameters; the calendar of
-- specSchedule.Next is that of a zone at a fixed offset from UTC, at whole seconds, without the change
-- of the clock. Callbacks are numbers, and the pool that runs them, goroutines, tickers and the
-- recycling of entries are left out, as are logs. Of pkg/task the restoring at the start, the
-- payloads, the outputs and durations of executions, the services and the rest of the stores are left
-- out. The JSON and base64 of a cursor are parameters. Of pkg/cron/cron.go the workers are left out;
-- the rest of the telemetry, the rest of the alert pipeline, the stores and the API are not modelled.
pub mod Base
pub mod Breaker
pub mod Cache
pub mod Catchup
pub mod Cron
pub mod Crontab
pub mod Heartbeat
pub mod Pagination
pub mod Prism
pub mod Retry
pub mod Scheduler
pub mod StatusPage
pub mod Task
pub mod TimeWheel
