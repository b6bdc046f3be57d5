-- ===== src/Job/Recovery.antt =====
-- The recovery of dead launches and runs in src/vanth/server.py: `_abandon_launch_claim`,
-- `_recover_stale_launch_claims`, `_recover_jobs` and `_reconcile_running_jobs`. Whether a process is
-- alive, and whether it could be terminated, are parameters; the events are listed by job and kind. The
-- three statements of `_abandon_launch_claim` run with nothing of others in between.
use vanth.Prelude.{
  ℕ, suc, Bool, true, false, not, String, Option, none, some, List, [], ◌∷◌, ◌++◌, ◌==◌, ◌&&◌, ◌||◌,
  same, if◌then◌else◌,
}
use vanth.Prelude.Rows.{find, select, update, count}
use vanth.Time.{text_lt}
use vanth.Job.{
  JobStatus, failed, cancelled, orphaned, Job, is_launching, is_running, with_id, is_same,
}
use vanth.Job.Claim.{
  unset, seen, changed, is_set, no_token, transition_terminal, restore_pending_restart_after,
  revert_abandoned_claim,
}

-- pending = state.get("pending_restart_after")
abbrev pub pending_of : Option Job → Option ℕ
pending_of none = none
pending_of (some j) = j.policy.pending_restart_after

-- target = "failed" if pending else "orphaned"
abbrev pub target_of : Option ℕ → JobStatus
target_of none = orphaned
target_of (some t) = failed

-- WHERE job_id=? AND status='launching' AND claim_token IS NULL AND worker_pid IS ?
abbrev pub legacy : String → Option ℕ → Job → Bool
legacy id expected j =
    same j.job_id id && (is_launching j.status && (no_token j && is_same j.worker_pid expected))

unfoldable pub legacy_row : JobStatus → ℕ → ℕ → Job → Job
legacy_row target at stamp j = record j { status = target; ended_at = some at; updated_at = stamp }

abbrev pub won : Option Bool × List Job → Bool × List Job
won (none, jobs) = (false, jobs)
won (some b, jobs) = (b, jobs)

module _ (id : String) (expected : Option ℕ) (stamp : ℕ) where
  unfoldable pub abandon_write : Option String → JobStatus → List Job → Bool × List Job
  unfolding transition_terminal legacy_row
  abandon_write (some token) target jobs =
      won (transition_terminal id target none (some token) unset true (seen expected) stamp jobs)
  abandon_write none target jobs = (
    changed (count (legacy id expected) jobs),
    update (legacy id expected) (legacy_row target stamp stamp) jobs,
  )

  unfoldable pub abandon_restore :
      Option String → Option ℕ → Bool × List Job → Bool × JobStatus × List Job
  unfolding restore_pending_restart_after
  abandon_restore token (some t) (true, jobs) =
      (true, failed, (restore_pending_restart_after id token (some failed) stamp jobs).1)
  abandon_restore token pending (recovered, jobs) = (recovered, target_of pending, jobs)

  unfoldable pub abandon_launch_claim : Option String → List Job → Bool × JobStatus × List Job
  unfolding abandon_write abandon_restore
  abandon_launch_claim token jobs =
      let pending = pending_of (find (with_id id) jobs) in
      abandon_restore token pending (abandon_write token (target_of pending) jobs)

pub record Report : Type 0 where
  pub job_id : String
  pub kind : JobStatus

pub record Recovery : Type 0 where
  pub jobs : List Job
  pub emitted : List Report

module _ (alive terminate : ℕ → Bool) where
  -- `_pid_alive`
  unfoldable pub pid_alive : Option ℕ → Bool
  pid_alive none = false
  pid_alive (some pid) = not (pid == 0) && alive pid

  -- Whether the workload is gone: there is none, or it was terminated.
  unfoldable pub workload_gone : Option ℕ → Bool
  workload_gone none = true
  workload_gone (some pid) = pid == 0 || terminate pid

  unfoldable pub after_abandon : Job → ℕ → Bool × JobStatus × List Job → List Report → Recovery
  unfolding workload_gone revert_abandoned_claim
  after_abandon row stamp (false, target, jobs) out = record { jobs = jobs; emitted = out }
  after_abandon row stamp (true, target, jobs) out =
      if workload_gone row.pid
      then record {
        jobs = jobs;
        emitted = out ++ record { job_id = row.job_id; kind = target } ∷ [];
      }
      else record {
        jobs = (revert_abandoned_claim row.job_id row.claim_token target stamp jobs).1;
        emitted = out;
      }

  unfoldable pub recover_each : (ℕ → ℕ) → ℕ → List Job → Recovery → Recovery
  unfolding after_abandon abandon_launch_claim
  recover_each stamps n [] r = r
  recover_each stamps n (row ∷ rows) r = recover_each stamps (suc n) rows (
      after_abandon row (stamps n)
        (abandon_launch_claim row.job_id row.worker_pid (stamps n) row.claim_token r.jobs)
        r.emitted)

  -- The rows of the snapshot whose runner is not alive.
  unfoldable pub stale_claim : ℕ → Job → Bool
  unfolding pid_alive
  stale_claim cutoff j =
      (is_launching j.status && text_lt j.updated_at cutoff) && not (pid_alive j.worker_pid)

  unfoldable pub recover_stale_launch_claims : ℕ → (ℕ → ℕ) → List Job → Recovery
  unfolding recover_each stale_claim
  recover_stale_launch_claims cutoff stamps jobs =
      recover_each stamps 0 (select (stale_claim cutoff) jobs) record { jobs = jobs; emitted = [] }

  -- terminal = "cancelled" if row["stop_requested_at"] else "orphaned"
  abbrev pub end_of : Job → JobStatus
  end_of row = if is_set row.stop_requested_at then cancelled else orphaned

  unfoldable pub end_run : Job → ℕ → List Job → Bool × List Job
  unfolding transition_terminal
  end_run row stamp jobs = elim row.claim_token [
    | some token ↦
        won (
          transition_terminal row.job_id (end_of row) none (some token) unset false unset stamp
            jobs)
    | none ↦ won (
        transition_terminal row.job_id (end_of row) none none (seen row.worker_pid) false unset
          stamp jobs)
  ]

  -- The revalidation of a snapshot's row against the current one.
  unfoldable pub same_run : Job → Job → Bool
  same_run row current = elim row.claim_token [
    | some token ↦ elim current.claim_token [ some t ↦ same t token | none ↦ false ]
    | none ↦ is_same current.worker_pid row.worker_pid
  ]

  unfoldable pub reported : Job → List Report → Bool × List Job → Recovery
  reported row out (true, jobs) = record {
    jobs = jobs;
    emitted = out ++ record { job_id = row.job_id; kind = end_of row } ∷ [];
  }
  reported row out (false, jobs) = record { jobs = jobs; emitted = out }

  unfoldable pub reap_found : Job → ℕ → Option Job → Recovery → Recovery
  unfolding same_run workload_gone reported end_run
  reap_found row stamp none r = r
  reap_found row stamp (some current) r =
      if not (is_running current.status)
      then r
      else if not (same_run row current)
      then r
      else if not (workload_gone current.pid)
      then r
      else reported row r.emitted (end_run row stamp r.jobs)

  unfoldable pub reap_row : Job → ℕ → Recovery → Recovery
  unfolding reap_found pid_alive
  reap_row row stamp r =
      if pid_alive row.worker_pid
      then r
      else reap_found row stamp (find (with_id row.job_id) r.jobs) r

  unfoldable pub reap_each : (ℕ → ℕ) → ℕ → List Job → Recovery → Recovery
  unfolding reap_row
  reap_each stamps n [] r = r
  reap_each stamps n (row ∷ rows) r = reap_each stamps (suc n) rows (reap_row row (stamps n) r)

  -- runner_heartbeat_at IS NULL OR runner_heartbeat_at < ?
  abbrev pub silent : ℕ → Job → Bool
  silent cutoff j = elim j.runner_heartbeat_at [ none ↦ true | some t ↦ text_lt t cutoff ]

  unfoldable pub recover_jobs : (ℕ → ℕ) → List Job → Recovery
  unfolding reap_each
  recover_jobs stamps jobs =
      reap_each stamps 0 (select (λ j. is_running j.status) jobs)
        record { jobs = jobs; emitted = [] }

  unfoldable pub reconcile_running_jobs : ℕ → (ℕ → ℕ) → List Job → Recovery
  unfolding reap_each
  reconcile_running_jobs cutoff stamps jobs =
      reap_each stamps 0 (select (λ j. is_running j.status && silent cutoff j) jobs)
        record { jobs = jobs; emitted = [] }
