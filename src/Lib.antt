-- ===== src/Lib.antt =====
-- A model of vanth, a daemon that supervises long-running jobs and wakes agents when something
-- happens to them, and what holds of it. Its parts here are the jobs, their wake deliveries, human
-- decisions, schedules, and the durable tables of remote control. A decision's transitions emit
-- events, and each event enqueues its deliveries in the same transaction; the jobs that a schedule
-- starts emit events too.
--
-- Jobs, src/vanth/server.py and src/vanth/runner.py. A job is started at once or queued behind a
-- trigger and a pool. To launch it is to claim its row: the claim writes a fresh token, and from
-- then on every statement of that run names the token. The runner publishes its workload, and the
-- run ends, is stopped, or is taken for dead by a recovery, in whatever process. What several
-- processes do is a list of statements in some order. _claim_launch reads its row before the
-- transaction of its UPDATE: claim_found takes that row and the table at the UPDATE apart, and
-- claim_launch is the case of nothing in between. What others do between the statements of a stop is
-- a parameter. _abandon_launch_claim has three statements, and is one call with nothing in between;
-- its writes under a token are also calls of their own in the histories. The clocks of one call of a recovery are
-- one instant. Whether a process is alive, could be spawned or
-- could be terminated is a parameter, and so is what a readiness probe answers.
--
--   Job                    the tables, the statuses
--   Job/Claim              _claim_launch, _claim_due_restart, _transition_terminal, and the statements
--                          on a claim that was abandoned
--   Job/Runner             _publish_workload, the heartbeat
--   Job/Recovery           _abandon_launch_claim, _recover_stale_launch_claims, _recover_jobs,
--                          _reconcile_running_jobs
--   Job/Launch             the insert of start, _launch, _launch_queued_if_capacity
--   Job/Queue, /Dispatch   _dispatch_queued_jobs, _probe_ready, _probe_timed_out
--   Job/Pools              pool_configure, pool_get, pool_list, job_pause, job_resume
--   Job/Stop               _stop
--   Job/Restart            _watch_restart, _launch_due_restart
--   Job/Exclusive, /Fencing, /Handover, /Restored   the claims and their tokens
--   Job/Quota, /Gates      what is launched, and how much of it
--   Job/Budget, /Halted    restarts and stops
--   Job/Lifecycle          what a status can become: a machine of its own
--
-- The wake deliveries of src/vanth/server.py. Each event of a job owes a delivery to each wake
-- target of the job that wants it. A delivery is claimed under a lease by the daemon's dispatcher
-- or by a relay, sent, and completed; a lease that runs out can be claimed again. Operators can
-- mark, retry and drain deliveries by hand. The three tables are lists of rows, in the order in
-- which they were inserted, and every statement is a function of the lists: an UPDATE is `update`,
-- a SELECT `select` or `find`, a DELETE `delete`, a rowcount `count`, of Prelude/Rows. A method
-- takes the database, and returns its answer with the database after it; one that raises returns an
-- error value, and the database as it was.
--
--   Time                   now_iso, and the text order of the stored timestamps
--   Delivery               the tables, and the tests that the statements share
--   Delivery/Destination   canonicalize_wake_target, the identities that a relay matches
--   Delivery/Enqueue       _enqueue_deliveries_uncommitted
--   Delivery/Claim         _claim_delivery, and the lease lengths of src/vanth/codex_pipe.py
--   Delivery/Complete      _complete_delivery
--   Delivery/Relay         relay_register, relay_unregister, relay_ack, relay_release, relay_expire_stale
--   Delivery/Poll          relay_poll, _relay_due_deliveries
--   Delivery/Dispatch      _dispatch_due_deliveries, _dispatch_delivery
--   Delivery/Manual        mark_delivery, retry_delivery, clear_deliveries
--   Delivery/Unbind        drop_remote_wake_binding, _reconcile_invalid_wake_targets
--   Delivery/Ledger        the open rows of delivery_attempts against the claims that they record
--   Delivery/History       sequences of these calls
--
-- Human decisions of src/vanth/server.py. A job asks, and a person resolves or withdraws, or the
-- deadline passes. Every transition is one transaction with its event and the deliveries that the
-- event owes. `mutate` is a function that changes the tables, does nothing, or refuses.
--
--   Decision               the table, the payloads, the validation of actors and options
--   Decision/Emit          _emit_transactional
--   Decision/Requests      request_decision, resolve_decision, withdraw_decision, _expire_decisions
--   Decision/Steps         what one call can do to the tables
--   Decision/Lifecycle     the events of a decision against its row
--   Decision/Numbering     the numbers of a job's events
--   Decision/Listing       list_decisions
--   Decision/Options       what normalized options hold
--
-- Schedules, src/vanth/schedules.py: the parser of cron expressions, and the search for the next
-- fire time. A text is the list of its code points. `zone` is the conversion of a minute of UTC to
-- the local time of the schedule's timezone, which the timezone database gives. The search has one
-- unit of fuel for each minute up to its limit, the limit included, so it stops where the loop
-- does.
--
--   Prelude/Text           the methods of str that are called, and int
--   Schedule               the fields, their ranges, the errors
--   Schedule/Parse         _parse_field
--   Schedule/Cron          validate_cron, parse_cron, _matches
--   Schedule/Zone          _zone, validate_timezone
--   Schedule/Fire          next_cron_fire, next_cron_fires, compute_next_fire, validate_schedule_spec
--
-- Remote control. A remote keeps an outbox of changes, which its controllers read by cursor, and
-- the operations that it accepted; a restore of its database rotates the epochs that the cursors
-- carry. A controller keeps its requests, and shadows of the remote's jobs, which snapshots and
-- feed batches bring up to date.
--
--   Remote/Feed            FeedStore, src/vanth/remote/feed.py
--   Remote/Journal         RequestJournal, src/vanth/remote/journal.py
--   Remote/Store           the state machines, src/vanth/remote/store.py
--   Remote/Store/Remotes   RemoteStore: the table of remotes
--   Remote/Store/Requests  RemoteStore: requests and replay tombstones
--   Remote/Store/Shadows   RemoteStore: shadows
--   Remote/Store/Operations  RemoteOperationStore: operations, job origins, tombstones
--   Remote/Store/Restore   RemoteOperationStore: the epochs
--   Remote/Control         snapshots, src/vanth/remote/control.py
--   Remote/Control/Batches feed_sync, _advance_feed_cursor, _cursor_is_gapped
--   Remote/Control/Sync    _sync_snapshot
--
-- In the deliveries and the decisions, most methods hold one lock from the first statement to the
-- last, so calls follow one another, and a history is a list of calls. Two do not.
-- _dispatch_delivery holds none while its transport runs: what others do to the tables between its
-- claim and its completion is a parameter. relay_poll takes the lock for its registration, for each
-- query and for each claim: what others do before each of these is a parameter too. What a call draws from
-- outside (times, tokens, identifiers) is an argument; the theorems that need a fresh token or
-- identifier say so. An instant is a number of microseconds since 1970. Text that is only compared
-- is a string, and text that is cut a list of code points. Numbers that `validate_wake_targets` has
-- passed are natural numbers. The long poll is a list of rounds, each with its time and draws, so
-- it needs no fuel.
--
-- The size of an event's JSON text is tested by a parameter, `fits`. Not modelled: retention, which deletes
-- old rows, the cursors of remote events, the test of a wake target against the ids of the relay
-- clients, which is a parameter, the mirror of metric series, the retries on a locked database, the validation of the arguments of start, the
-- policies other than the restart policy, the JSON of remote frames and their submission over SSH,
-- the texts of messages, log files, the transports that carry a wake, process control, HTTP and the
-- command line.
pub mod Prelude
pub mod Time
pub mod Delivery
pub mod Schedule
pub mod Decision
pub mod Job
pub mod Remote
