-- ===== src/Job/Fencing.antt =====
-- The statements of src/vanth/server.py and src/vanth/runner.py that a claim token guards.
use vanth.Prelude.{
  ℕ, ◌≡◌, refl, sym, subst, inl, inr, Bool, true, false, not, ◌&&◌, String, Option, none, some,
  List, [], ◌∷◌, arith, same_as, ◌==◌, Bool-cases,
}
use vanth.Prelude.Rows.{find, update}
use vanth.Prelude.Text.{ℤ, pos}
use vanth.Job.{JobStatus, failed, Job, is_terminal, is_launching, is_running, with_id}
use vanth.Job.Rows.{find-missed, not_owned}
use vanth.Job.Claim.{
  WorkerPid, unset, seen, finishable, finish_row, transition_terminal, restorable, restore_row,
  restore_pending_restart_after, clearable, clear_row, clear_pending_restart_after, revertible,
  revert_row, revert_abandoned_claim, status_guard, seen_by, is_set, rank,
}
use vanth.Job.Runner.{publishable, publish_row, publish_workload, beating, beat_row, beat}
use vanth.Job.Launch.{being_launched, worker_row, launch}
use vanth.Job.Stop.{seen_owner, requestable, request_row}
use vanth.Job.Recovery.{
  pending_of, target_of, won, abandon_write, abandon_restore, abandon_launch_claim,
}

-- What a run does with its token, and what others do about it.
pub data RunOp : Type 0 where
  publishes : String → ℕ → ℕ → ℕ × ℕ × ℕ → RunOp
  beats : String → ℕ → ℕ → ℕ → RunOp
  finishes : String → JobStatus → Option ℤ → Bool → WorkerPid → ℕ → RunOp
  restores : String → Option JobStatus → ℕ → RunOp
  clears : String → ℕ → RunOp
  reverts : String → JobStatus → ℕ → RunOp
  abandons : String → Option ℕ → ℕ → RunOp
  launches : String → ℕ → Option ℕ → RunOp
  requests : String → Job → ℕ → String → String → RunOp

module _ (token : String) where
  abbrev pub run_op : RunOp → List Job → List Job
  run_op (publishes id pid own stamps) jobs =
      (publish_workload id (some token) pid own stamps jobs).1
  run_op (beats id pid at stamp) jobs = (beat id (some token) pid at stamp jobs).1
  run_op (finishes id status code launching_only expected stamp) jobs =
      (transition_terminal id status code (some token) unset launching_only expected stamp jobs).1
  run_op (restores id status stamp) jobs =
      (restore_pending_restart_after id (some token) status stamp jobs).1
  run_op (clears id stamp) jobs = clear_pending_restart_after id (some token) stamp jobs
  run_op (reverts id target stamp) jobs =
      (revert_abandoned_claim id (some token) target stamp jobs).1
  run_op (abandons id expected stamp) jobs =
      (abandon_launch_claim id expected stamp (some token) jobs).2
  run_op (launches id stamp spawned) jobs = (launch id token stamp spawned jobs).1
  run_op (requests id row stamp actor reason) jobs =
      update (requestable id (record row { claim_token = some token }))
        (request_row stamp actor reason) jobs

  abbrev pub run_ops : List RunOp → List Job → List Job
  run_ops [] jobs = jobs
  run_ops (op ∷ ops) jobs = run_ops ops (run_op op jobs)

module _ (token job : String) (j : Job) (other : same_as j.claim_token token ≡ false) where
  abbrev Stays : List Job → Type 0
  Stays jobs = find (with_id job) jobs ≡ some j

  finish-Stays :
      (id : String) (status : JobStatus) (code : Option ℤ) (launching_only : Bool)
      (expected : WorkerPid) (stamp : ℕ) (jobs : List Job)
      → Stays jobs
      → Stays
          (transition_terminal id status code
            (some token)
            unset
            launching_only
            expected
            stamp
            jobs).1
  unfolding transition_terminal
  finish-Stays id status code launching_only expected stamp jobs h =
      elim (Bool-cases (is_terminal status)) [
        | inr e ↦ rw e h
        | inl e ↦ rw e (
            find-missed job (finishable id (some token) unset launching_only expected)
              (finish_row status code stamp) (unfold finish_row in λ x. refl) jobs
              (not_owned id token (status_guard launching_only j.status && seen_by expected j) j
                other)
              h)
      ]

  restore-Stays :
      (id : String) (status : Option JobStatus) (stamp : ℕ) (jobs : List Job)
      → Stays jobs
      → Stays (restore_pending_restart_after id (some token) status stamp jobs).1
  unfolding restore_pending_restart_after
  restore-Stays id status stamp jobs h =
      find-missed job (restorable id (some token) status) (restore_row stamp)
        (unfold restore_row in λ x. refl) jobs (ground arith) h

  won-jobs : (r : Option Bool × List Job) → (won r).1 ≡ r.1
  won-jobs (none, jobs) = refl
  won-jobs (some b, jobs) = refl

  written-Stays :
      (id : String) (expected : Option ℕ) (stamp : ℕ) (target : JobStatus) (jobs : List Job)
      → Stays jobs
      → Stays (abandon_write id expected stamp (some token) target jobs).1
  unfolding abandon_write
  written-Stays id expected stamp target jobs h =
      subst Stays
        (sym (
          won-jobs (
            transition_terminal id target none (some token) unset true (seen expected) stamp jobs)))
        (finish-Stays id target none true (seen expected) stamp jobs h)

  restored-Stays :
      (id : String) (expected : Option ℕ) (stamp : ℕ) (pending : Option ℕ) (r : Bool × List Job)
      → Stays r.1
      → Stays (abandon_restore id expected stamp (some token) pending r).2
  unfolding abandon_restore
  restored-Stays id expected stamp (some t) (true, jobs) h =
      restore-Stays id (some failed) stamp jobs h
  restored-Stays id expected stamp (some t) (false, jobs) h = h
  restored-Stays id expected stamp none (true, jobs) h = h
  restored-Stays id expected stamp none (false, jobs) h = h

  launch-Stays :
      (id : String) (stamp : ℕ) (spawned : Option ℕ) (jobs : List Job)
      → Stays jobs
      → Stays (launch id token stamp spawned jobs).1
  unfolding launch
  launch-Stays id stamp (some pid) jobs h =
      find-missed job (being_launched id token) (worker_row pid stamp)
        (unfold worker_row in λ x. refl) jobs (not_owned id token (is_launching j.status) j other) h
  launch-Stays id stamp none jobs h = restore-Stays id none stamp _ (
      find-missed job (being_launched id token) (finish_row failed (some (pos 1)) stamp)
        (unfold finish_row in λ x. refl) jobs (not_owned id token (is_launching j.status) j other)
        h)

  request-Stays :
      (id : String) (row : Job) (stamp : ℕ) (actor reason : String) (jobs : List Job)
      → Stays jobs
      → Stays (
          update
            (requestable id (record row { claim_token = some token }))
            (request_row stamp actor reason)
            jobs)
  unfolding requestable seen_owner
  request-Stays id row stamp actor reason jobs h =
      find-missed job (requestable id (record row { claim_token = some token }))
        (request_row stamp actor reason) (unfold request_row in λ x. refl) jobs
        (ground (arith, other)) h

  run_op-Stays : (op : RunOp) (jobs : List Job) → Stays jobs → Stays (run_op token op jobs)
  unfolding publish_workload beat clear_pending_restart_after revert_abandoned_claim
      abandon_launch_claim
  run_op-Stays (publishes id pid own stamps) jobs h =
      find-missed job (publishable id (some token)) (publish_row (some token) pid own stamps)
        (unfold publish_row in λ x. refl) jobs
        (not_owned id token (is_launching j.status && not (is_set j.stop_requested_at)) j other) h
  run_op-Stays (beats id pid at stamp) jobs h =
      find-missed job (beating id (some token) pid) (beat_row at stamp)
        (unfold beat_row in λ x. refl) jobs (not_owned id token (is_running j.status) j other) h
  run_op-Stays (finishes id status code launching_only expected stamp) jobs h =
      finish-Stays id status code launching_only expected stamp jobs h
  run_op-Stays (restores id status stamp) jobs h = restore-Stays id status stamp jobs h
  run_op-Stays (clears id stamp) jobs h =
      find-missed job (clearable id token) (clear_row stamp) (unfold clear_row in λ x. refl) jobs
        (not_owned id token (is_set j.policy.pending_restart_after) j other) h
  run_op-Stays (reverts id target stamp) jobs h =
      find-missed job (revertible id (some token) target) (revert_row (some token) stamp)
        (unfold revert_row in λ x. refl) jobs
        (not_owned id token (rank j.status == rank target) j other) h
  run_op-Stays (launches id stamp spawned) jobs h = launch-Stays id stamp spawned jobs h
  run_op-Stays (requests id row stamp actor reason) jobs h =
      request-Stays id row stamp actor reason jobs h
  run_op-Stays (abandons id expected stamp) jobs h =
      restored-Stays id expected stamp (pending_of (find (with_id id) jobs)) _
        (written-Stays id expected stamp (target_of (pending_of (find (with_id id) jobs))) jobs h)

-- Whatever publications, heartbeats, terminal transitions, restorations, clearings and reversions of a
-- restart, recoveries of the launch, writes of `_launch`, and stop requests are made with a claim token,
-- in whatever order: the row of a job that carries another token, or none, stays as it is. The
-- withdrawal of a stop request, which is guarded by the time of the request, is not among these.
pub run_ops-fenced :
    (token job : String) (ops : List RunOp) (jobs : List Job) {j : Job}
    → same_as j.claim_token token ≡ false
    → find (with_id job) jobs ≡ some j
    → find (with_id job) (run_ops token ops jobs) ≡ some j
run_ops-fenced token job [] jobs other h = h
run_ops-fenced token job (op ∷ ops) jobs {j} other h =
    run_ops-fenced token job ops (run_op token op jobs) other
      (run_op-Stays token job j other op jobs h)
