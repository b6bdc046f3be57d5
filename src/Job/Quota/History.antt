-- ===== src/Job/Quota/History.antt =====
-- The quota of `VANTH_MAX_RUNNING_JOBS` over histories: what `start` and the dispatcher launch stays
-- under it.
use vanth.Prelude.{
  ℕ, ◌≤◌, ◌<◌, max, refl, Bool, true, false, String, Option, none, some, List, [], ◌∷◌, arith,
}
use vanth.Prelude.Rows.{find, count}
use vanth.Prelude.Keys.{Keyed}
use vanth.Prelude.Text.{ℤ}
use vanth.Job.{Job, JobStatus, failed, active, with_id}
use vanth.Job.Claim.{
  WorkerPid, finish_row, transition_terminal, restore_row, restore_pending_restart_after,
}
use vanth.Job.Launch.{JobDb, NewJob, insert_job}
use vanth.Job.Queue.{Daemon}
use vanth.Job.Dispatch.{still_queued, cancel_row, dispatch_queued_jobs}
use vanth.Job.Handover.{key}
use vanth.Job.Runner.{publish_row, publish_workload}
use vanth.Job.Recovery.{
  pending_of, target_of, legacy_row, abandon_write, abandon_restore, abandon_launch_claim,
}
use vanth.Job.Dispatch.Keeps.{dispatch-keeps}
use vanth.Job.Quota.{Inv, shrink-Inv, finish-Inv, launch_queued-Inv, insert-Inv}

dispatch-Inv :
    (d : Daemon) (bound : ℕ)
    → d.max_running_jobs ≤ bound
    → 0 < d.max_running_jobs
    → (db : JobDb) (m : List (String × ℕ)) → Inv bound db.jobs
    → Inv bound (dispatch_queued_jobs d db m).db.jobs
dispatch-Inv d bound below some_limit =
    dispatch-keeps d (Inv bound) (launch_queued-Inv bound d.max_running_jobs below some_limit)
      λ id reason stamp jobs i.
        shrink-Inv bound (still_queued d id) (cancel_row d reason stamp)
          (unfold cancel_row in λ x. refl) (unfold cancel_row in λ x p a. absurd (cc)) jobs i

-- What a manager with a quota does to the rows of jobs, but for the relaunch of a failed job.
pub data QuotaOp : Type 0 where
  starts : NewJob → QuotaOp
  dispatches : Daemon → List (String × ℕ) → QuotaOp
  publishes : String → Option String → ℕ → ℕ → ℕ × ℕ × ℕ → QuotaOp
  finishes :
      String → JobStatus → Option ℤ → Option String → WorkerPid → Bool → WorkerPid → ℕ → QuotaOp
  abandons : String → Option String → Option ℕ → ℕ → QuotaOp

abbrev pub with_quota : ℕ → Daemon → Daemon
with_quota limit d = record d { max_running_jobs = limit }

abbrev pub quota_op : ℕ → QuotaOp → JobDb → JobDb
quota_op limit (starts n) db = record db { jobs = (insert_job limit n db.jobs).1 }
quota_op limit (dispatches d m) db = (dispatch_queued_jobs (with_quota limit d) db m).db
quota_op limit (publishes id token pid own stamps) db = record db {
  jobs = (publish_workload id token pid own stamps db.jobs).1;
}
quota_op limit (finishes id status code token worker launching_only expected stamp) db = record db {
  jobs = (transition_terminal id status code token worker launching_only expected stamp db.jobs).1;
}
quota_op limit (abandons id token expected stamp) db = record db {
  jobs = (abandon_launch_claim id expected stamp token db.jobs).2;
}

abbrev pub quota_ops : ℕ → List QuotaOp → JobDb → JobDb
quota_ops limit [] db = db
quota_ops limit (op ∷ ops) db = quota_ops limit ops (quota_op limit op db)

module _ (limit bound : ℕ) (below : limit ≤ bound) (some_limit : 0 < limit) where
  publish-Inv :
      (id : String) (token : Option String) (pid own : ℕ) (stamps : ℕ × ℕ × ℕ) (jobs : List Job)
      → Inv bound jobs
      → Inv bound (publish_workload id token pid own stamps jobs).1
  unfolding publish_workload publish_row
  publish-Inv id none pid own stamps jobs i = shrink-Inv bound _ _ (λ j. refl) (λ j e a. a) jobs i
  publish-Inv id (some t) pid own stamps jobs i =
      shrink-Inv bound _ _ (λ j. refl) (λ j e a. ground (arith, e)) jobs i

  restore-Inv :
      (id : String) (token : Option String) (status : Option JobStatus) (stamp : ℕ)
      (jobs : List Job)
      → Inv bound jobs
      → Inv bound (restore_pending_restart_after id token status stamp jobs).1
  unfolding restore_pending_restart_after restore_row
  restore-Inv id token status stamp jobs i = shrink-Inv bound _ _ (λ j. refl) (λ j e a. a) jobs i

  write-Inv :
      (id : String) (token : Option String) (expected : Option ℕ) (stamp : ℕ) (pending : Option ℕ)
      (jobs : List Job)
      → Inv bound jobs
      → Inv bound (abandon_write id expected stamp token (target_of pending) jobs).1
  unfolding abandon_write transition_terminal finish_row legacy_row
  write-Inv id (some t) expected stamp none jobs i =
      shrink-Inv bound _ _ (λ j. refl) (λ j e a. absurd (cc)) jobs i
  write-Inv id (some t) expected stamp (some p) jobs i =
      shrink-Inv bound _ _ (λ j. refl) (λ j e a. absurd (cc)) jobs i
  write-Inv id none expected stamp none jobs i =
      shrink-Inv bound _ _ (λ j. refl) (λ j e a. absurd (cc)) jobs i
  write-Inv id none expected stamp (some p) jobs i =
      shrink-Inv bound _ _ (λ j. refl) (λ j e a. absurd (cc)) jobs i

  restored-Inv :
      (id : String) (token : Option String) (expected : Option ℕ) (stamp : ℕ) (pending : Option ℕ)
      (r : Bool × List Job)
      → Inv bound r.1
      → Inv bound (abandon_restore id expected stamp token pending r).2
  unfolding abandon_restore
  restored-Inv id token expected stamp (some t) (true, jobs) i =
      restore-Inv id token (some failed) stamp jobs i
  restored-Inv id token expected stamp (some t) (false, jobs) i = i
  restored-Inv id token expected stamp none (true, jobs) i = i
  restored-Inv id token expected stamp none (false, jobs) i = i

  op-Inv : (op : QuotaOp) (db : JobDb) → Inv bound db.jobs → Inv bound (quota_op limit op db).jobs
  unfolding abandon_launch_claim
  op-Inv (starts n) db i = insert-Inv bound limit below some_limit n db.jobs i
  op-Inv (dispatches d m) db i = dispatch-Inv (with_quota limit d) bound below some_limit db m i
  op-Inv (publishes id token pid own stamps) db i = publish-Inv id token pid own stamps db.jobs i
  op-Inv (finishes id status code token worker launching_only expected stamp) db i =
      finish-Inv bound id status code token worker launching_only expected stamp db.jobs i
  op-Inv (abandons id token expected stamp) db i =
      restored-Inv id token expected stamp (pending_of (find (with_id id) db.jobs)) _
        (write-Inv id token expected stamp (pending_of (find (with_id id) db.jobs)) db.jobs i)

  ops-Inv :
      (ops : List QuotaOp) (db : JobDb)
      → Inv bound db.jobs
      → Inv bound (quota_ops limit ops db).jobs
  ops-Inv [] db i = i
  ops-Inv (op ∷ ops) db i = ops-Inv ops (quota_op limit op db) (op-Inv op db i)

-- With a quota above 0, in a table that is keyed by the job: whatever jobs are started, queued,
-- dispatched, published, finished and taken for dead, in whatever order, no more jobs are running or
-- launching than the quota, or than were at the start where those were more. The relaunch of a failed
-- job, and the revert of a recovery, are not among these calls.
pub quota_ops-bounded :
    (limit : ℕ) (ops : List QuotaOp) (db : JobDb)
    → 0 < limit
    → Keyed key db.jobs
    → count active (quota_ops limit ops db).jobs ≤ max limit (count active db.jobs)
quota_ops-bounded limit ops db h k =
    (ops-Inv limit (max limit (count active db.jobs)) (omega arith) h ops db (k, omega arith)).1
