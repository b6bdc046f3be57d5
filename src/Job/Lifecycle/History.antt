-- ===== src/Job/Lifecycle/History.antt =====
-- Histories of everything that writes a job's row: every job follows the life cycle.
use vanth.Prelude.{
  ℕ, ◌≡◌, refl, inl, inr, Bool, true, String, Option, none, some, List, [], ◌∷◌, arith, ◌==◌,
  Bool-cases,
}
use vanth.Prelude.Rows.{find, count}
use vanth.Prelude.Text.{ℤ}
use vanth.Job.{JobStatus, cancelled, Job, with_id}
use vanth.Job.Claim.{
  WorkerPid, claim_found, transition_terminal, prepare_launch, restore_pending_restart_after,
  clear_pending_restart_after,
}
use vanth.Job.Runner.{publish_workload, beat}
use vanth.Job.Recovery.{
  abandon_launch_claim, recover_stale_launch_claims, recover_jobs, reconcile_running_jobs,
}
use vanth.Job.Launch.{JobDb, NewJob, insert_job, launch}
use vanth.Job.Queue.{Daemon}
use vanth.Job.Dispatch.{still_queued, cancel_row, dispatch_queued_jobs}
use vanth.Job.Dispatch.Keeps.{dispatch-keeps}
use vanth.Job.Stop.{Point, stop}
use vanth.Job.Pools.{pausable, pause_row, set_paused}
use vanth.Job.Restart.{RestartPolicy, Tick, watch_restart}
use vanth.Job.Lifecycle.{
  leaves_queue, Reach, here, is_final, Reach-final, Follows, statement-Follows, quiet-Follows,
}
use vanth.Job.Lifecycle.Launching.{
  claim_launch-Follows, found-Follows, restore-Follows, launch-Follows, launch_queued-Follows,
  insert-Follows, publish-Follows, beat-Follows,
}
use vanth.Job.Lifecycle.Ending.{transition-Follows, clear-Follows, abandon-Follows}
use vanth.Job.Lifecycle.Recovering.{recover_stale-Follows, recover_jobs-Follows, reconcile-Follows}
use vanth.Job.Lifecycle.Stopping.{queued_of, stop-Follows}
use vanth.Job.Lifecycle.Restarting.{watch-Follows}

-- A call, each with what it draws.
pub data JobOp : Type 0 where
  starts : ℕ → NewJob → JobOp
  prepares : String → String → ℕ → JobOp
  claims : String → Option (Option ℕ) → Option (Option ℕ) → String → ℕ → Option Job → JobOp
  launches : String → String → ℕ → Option ℕ → JobOp
  publishes : String → Option String → ℕ → ℕ → ℕ × ℕ × ℕ → JobOp
  beats : String → Option String → ℕ → ℕ → ℕ → JobOp
  finishes :
      String → JobStatus → Option ℤ → Option String → WorkerPid → Bool → WorkerPid → ℕ → JobOp
  restores : String → Option String → Option JobStatus → ℕ → JobOp
  clears : String → Option String → ℕ → JobOp
  abandons : String → Option ℕ → ℕ → Option String → JobOp
  recovers : (ℕ → Bool) → (ℕ → Bool) → ℕ → (ℕ → ℕ) → JobOp
  reaps : (ℕ → Bool) → (ℕ → Bool) → (ℕ → ℕ) → JobOp
  reconciles : (ℕ → Bool) → (ℕ → Bool) → ℕ → (ℕ → ℕ) → JobOp
  dispatches : Daemon → List (String × ℕ) → JobOp
  stops : (ℕ → Bool) → Option ℕ → String → String → String → ℕ → ℕ → ℕ → JobOp
  pauses : Bool → String → ℕ → JobOp
  watches : RestartPolicy → Tick → String → JobStatus → JobOp

abbrev pub quiet : Point → List Job → List Job
quiet p jobs = jobs

abbrev pub job_op : JobOp → JobDb → JobDb
job_op (starts limit n) db = record db { jobs = (insert_job limit n db.jobs).1 }
job_op (prepares id token stamp) db = record db { jobs = (prepare_launch id token stamp db.jobs).1 }
job_op (claims id require updates token stamp read) db = record db {
  jobs = (claim_found id require updates token stamp read db.jobs).1;
}
job_op (launches id token stamp spawned) db = record db {
  jobs = (launch id token stamp spawned db.jobs).1;
}
job_op (publishes id token pid own stamps) db = record db {
  jobs = (publish_workload id token pid own stamps db.jobs).1;
}
job_op (beats id token pid at stamp) db = record db {
  jobs = (beat id token pid at stamp db.jobs).1;
}
job_op (finishes id status code token worker launching_only expected stamp) db = record db {
  jobs = (transition_terminal id status code token worker launching_only expected stamp db.jobs).1;
}
job_op (restores id token status stamp) db = record db {
  jobs = (restore_pending_restart_after id token status stamp db.jobs).1;
}
job_op (clears id token stamp) db = record db {
  jobs = clear_pending_restart_after id token stamp db.jobs;
}
job_op (abandons id expected stamp token) db = record db {
  jobs = (abandon_launch_claim id expected stamp token db.jobs).2;
}
job_op (recovers alive terminate cutoff stamps) db = record db {
  jobs = (recover_stale_launch_claims alive terminate cutoff stamps db.jobs).jobs;
}
job_op (reaps alive terminate stamps) db = record db {
  jobs = (recover_jobs alive terminate stamps db.jobs).jobs;
}
job_op (reconciles alive terminate cutoff stamps) db = record db {
  jobs = (reconcile_running_jobs alive terminate cutoff stamps db.jobs).jobs;
}
job_op (dispatches d m) db = (dispatch_queued_jobs d db m).db
job_op (stops terminate proc id actor reason stamp ended kill_after) db = record db {
  jobs = (stop quiet terminate proc id actor reason stamp ended kill_after db.jobs).1;
}
job_op (pauses now id stamp) db = record db { jobs = (set_paused now id stamp db.jobs).1 }
job_op (watches r t id status) db = record db { jobs = (watch_restart r t id status db.jobs).1 }

abbrev pub job_ops : List JobOp → JobDb → JobDb
job_ops [] db = db
job_ops (op ∷ ops) db = job_ops ops (job_op op db)

module _ (id : String) (s : JobStatus) where
  dispatch-Follows :
      (d : Daemon) (db : JobDb) (m : List (String × ℕ))
      → Follows id s db.jobs
      → Follows id s (dispatch_queued_jobs d db m).db.jobs
  dispatch-Follows d =
      dispatch-keeps d (Follows id s) (launch_queued-Follows id s d.max_running_jobs)
        λ job reason stamp jobs h.
          statement-Follows id s (still_queued d job) (cancel_row d reason stamp)
            (unfold cancel_row in λ j. refl)
            (unfold cancel_row in
              λ j p.
                leaves_queue {s = j.status} {t = cancelled} (queued_of j.status (ground (arith, p)))
                  refl)
            jobs h

  pause-Follows :
      (now : Bool) (job : String) (stamp : ℕ) (jobs : List Job)
      → Follows id s jobs
      → Follows id s (set_paused now job stamp jobs).1
  unfolding set_paused
  pause-Follows now job stamp jobs h = elim (Bool-cases (count (pausable job now) jobs == 0)) [
    | inl e ↦ rw e h
    | inr e ↦ rw e (
        quiet-Follows id s (pausable job now) (pause_row now stamp) (unfold pause_row in λ j. refl)
          (unfold pause_row in λ j. refl) jobs h)
  ]

  op-Follows : (op : JobOp) (db : JobDb) → Follows id s db.jobs → Follows id s (job_op op db).jobs
  unfolding prepare_launch
  op-Follows (starts limit n) db h = insert-Follows id s limit n db.jobs h
  op-Follows (prepares job token stamp) db h =
      claim_launch-Follows id s job none none token stamp db.jobs h
  op-Follows (claims job require updates token stamp read) db h =
      found-Follows id s job require updates token stamp read db.jobs h
  op-Follows (launches job token stamp spawned) db h =
      launch-Follows id s job token stamp spawned db.jobs h
  op-Follows (publishes job token pid own stamps) db h =
      publish-Follows id s job token pid own stamps db.jobs h
  op-Follows (beats job token pid at stamp) db h =
      beat-Follows id s job token pid at stamp db.jobs h
  op-Follows (finishes job status code token worker launching_only expected stamp) db h =
      transition-Follows id s job status code token worker launching_only expected stamp db.jobs h
  op-Follows (restores job token status stamp) db h =
      restore-Follows id s job token status stamp db.jobs h
  op-Follows (clears job token stamp) db h = clear-Follows id s job token stamp db.jobs h
  op-Follows (abandons job expected stamp token) db h =
      (abandon-Follows id s job expected stamp token db.jobs h).0
  op-Follows (recovers alive terminate cutoff stamps) db h =
      recover_stale-Follows id s alive terminate cutoff stamps db.jobs h
  op-Follows (reaps alive terminate stamps) db h =
      recover_jobs-Follows id s alive terminate stamps db.jobs h
  op-Follows (reconciles alive terminate cutoff stamps) db h =
      reconcile-Follows id s alive terminate cutoff stamps db.jobs h
  op-Follows (dispatches d m) db h = dispatch-Follows d db m h
  op-Follows (stops terminate proc job actor reason stamp ended kill_after) db h =
      stop-Follows id s quiet (λ p jobs k. k) terminate proc job actor reason stamp ended kill_after
        db.jobs h
  op-Follows (pauses now job stamp) db h = pause-Follows now job stamp db.jobs h
  op-Follows (watches r t job status) db h = watch-Follows id s r t job status db.jobs h

  ops-Follows :
      (ops : List JobOp) (db : JobDb) → Follows id s db.jobs → Follows id s (job_ops ops db).jobs
  ops-Follows [] db h = h
  ops-Follows (op ∷ ops) db h = ops-Follows ops (job_op op db) (op-Follows op db h)

-- Whatever starts, claims, launches, publications, ends, recoveries, dispatches, stops, pauses and
-- restarts there are, in whatever order: a job that is in the table stays in it, and its status is one
-- that the life cycle reaches from the status that it had.
pub job_ops-refines :
    (ops : List JobOp) (db : JobDb) (id : String) {j : Job}
    → find (with_id id) db.jobs ≡ some j
    → (k : Job) × (find (with_id id) (job_ops ops db).jobs ≡ some k) × Reach j.status k.status
job_ops-refines ops db id {j} h = ops-Follows id j.status ops db (j, h, here refl)

-- A job that completed, timed out or was cancelled keeps its status, whatever calls there are.
pub job_ops-final :
    (ops : List JobOp) (db : JobDb) (id : String) {j : Job}
    → find (with_id id) db.jobs ≡ some j
    → is_final j.status ≡ true
    → (k : Job) × (find (with_id id) (job_ops ops db).jobs ≡ some k) × (k.status ≡ j.status)
job_ops-final ops db id {j} h f =
    let (k, found, r) = job_ops-refines ops db id h in (k, found, Reach-final f r)
