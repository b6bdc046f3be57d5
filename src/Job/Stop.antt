-- ===== src/Job/Stop.antt =====
-- `_stop` of src/vanth/server.py. `others` is what other processes do to the table between its reads
-- and its writes; `terminate` says whether a process could be terminated in time.
use vanth.Prelude.{
  ℕ, Bool, false, not, String, Option, none, some, List, ◌==◌, ◌&&◌, ◌||◌, same, same_as, ltb,
  if◌then◌else◌,
}
use vanth.Prelude.Rows.{find, update, count}
use vanth.Job.{JobStatus, cancelled, Job, is_queued, is_active, is_launching, with_id, is_same}
use vanth.Job.Claim.{unset, changed, is_set, no_token, transition_terminal}
use vanth.Job.Recovery.{won}

pub data Stopped : Type 0 where
  bad_timeout : Stopped
  unknown_job : Stopped
  queued_job_cancelled : Stopped
  left_queue : Option JobStatus → Stopped
  already : JobStatus → Stopped
  newer_launch : Stopped
  was_terminal : Stopped
  not_stopped : Stopped
  launch_stopped : Stopped
  job_stopped : Stopped
  failed_to_stop : Stopped

-- The points at which other processes run.
pub data Point : Type 0 where
  before_cancel : Point
  before_request : Point
  after_request : Point
  before_end : Point

-- int(pid) if pid else None
abbrev pub number : Option ℕ → Option ℕ
number none = none
number (some pid) = if pid == 0 then none else some pid

-- The WHERE of the stop request, by the identity that was seen.
unfoldable pub seen_owner : Option String → Option ℕ → Option ℕ → Job → Bool
seen_owner (some token) worker pid j = same_as j.claim_token token
seen_owner none (some worker) pid j = is_same j.worker_pid (some worker)
seen_owner none none (some pid) j = is_same j.pid (some pid)
seen_owner none none none j = not (is_set j.stop_requested_at)

unfoldable pub requestable : String → Job → Job → Bool
unfolding seen_owner
requestable id row j =
    (same j.job_id id && is_active j.status)
    && seen_owner row.claim_token (number row.worker_pid) (number row.pid) j

-- not _ownership_changed()
unfoldable pub still_owner : Option String → Option ℕ → Option ℕ → Job → Bool
still_owner (some token) worker pid j = same_as j.claim_token token
still_owner none (some worker) pid j = is_same j.worker_pid (some worker)
still_owner none none (some pid) j = is_same j.pid (some pid)
still_owner none none none j = no_token j && (not (is_set j.worker_pid) && not (is_set j.pid))

unfoldable pub request_row : ℕ → String → String → Job → Job
request_row stamp actor reason j = record j {
  stop_requested_at = some stamp;
  stop_actor = some actor;
  stop_reason = some reason;
}

-- job_id=? AND stop_requested_at=?
abbrev pub flagged : String → ℕ → Job → Bool
flagged id stamp j = same j.job_id id && is_same j.stop_requested_at (some stamp)

unfoldable pub unflag_row : Job → Job
unflag_row j = record j { stop_requested_at = none }

unfoldable pub cancel_queued_row : String → String → ℕ → ℕ → Job → Job
cancel_queued_row actor reason ended stamp j = record j {
  status = cancelled;
  stop_actor = some actor;
  stop_reason = some reason;
  ended_at = some ended;
  updated_at = stamp;
}

abbrev pub queued_at : String → Job → Bool
queued_at id j = same j.job_id id && is_queued j.status

-- `proc` is the runner that this process spawned, if it did.
module _ (others : Point → List Job → List Job) (terminate : ℕ → Bool) (proc : Option ℕ)
    (id actor reason : String) (stamp ended : ℕ) where
  -- pid and not self._terminate_pid(pid, ...)
  abbrev pub survives : Option ℕ → Bool
  survives none = false
  survives (some pid) = not (terminate pid)

  -- Which of the runner and the spawned process did not end.
  unfoldable pub leftover : Option ℕ → Bool
  leftover runner =
      survives (number runner) || (not (is_same proc (number runner)) && survives proc)

  unfoldable pub end_live : Job → Job → List Job → Stopped × List Job
  unfolding transition_terminal leftover
  end_live row current jobs =
      let (changed, jobs₁) =
        won (transition_terminal id cancelled none row.claim_token unset false unset ended jobs) in
      if not changed
      then (not_stopped, jobs₁)
      else if leftover current.worker_pid
      then (failed_to_stop, jobs₁)
      else (job_stopped, jobs₁)

  -- The row as it is read again where the runner was published in between.
  abbrev pub read_again : Job → Option Job → Job
  read_again current none = current
  read_again current (some j) = j

  unfoldable pub end_launch : Job → Job → List Job → Stopped × List Job
  unfolding transition_terminal
  end_launch row current jobs =
      let (changed, jobs₁) =
        won (transition_terminal id cancelled none row.claim_token unset false unset ended jobs) in
      if changed
      then (launch_stopped, jobs₁)
      else end_live row (read_again current (find (with_id id) jobs₁)) (others before_end jobs₁)

  unfoldable pub stop_owned : Job → Job → List Job → Stopped × List Job
  unfolding still_owner unflag_row
  stop_owned row current jobs =
      if not (still_owner row.claim_token (number row.worker_pid) (number row.pid) current)
      then (newer_launch, update (flagged id stamp) unflag_row jobs)
      else if survives (number current.pid)
      then (failed_to_stop, update (λ j. flagged id stamp j && is_active j.status) unflag_row jobs)
      else if is_launching current.status
      then end_launch row current jobs
      else end_live row current jobs

  unfoldable pub stop_requested : Job → Option Job → List Job → Stopped × List Job
  stop_requested row none jobs = (was_terminal, jobs)
  stop_requested row (some current) jobs =
      if not (is_active current.status) then (was_terminal, jobs) else stop_owned row current jobs

  unfoldable pub stop_again : Job → List Job → Stopped × List Job
  unfolding stop_requested
  stop_again row jobs = stop_requested row (find (with_id id) jobs) jobs

  unfoldable pub stop_live : Job → List Job → Stopped × List Job
  unfolding requestable request_row stop_again
  stop_live row jobs =
      if count (requestable id row) jobs == 0
      then (newer_launch, jobs)
      else stop_again row
          (others after_request (update (requestable id row) (request_row stamp actor reason) jobs))

  unfoldable pub stop_unqueued : Option Job → List Job → Stopped × List Job
  unfolding stop_live
  stop_unqueued none jobs = (left_queue none, jobs)
  stop_unqueued (some row) jobs =
      if not (is_active row.status)
      then (left_queue (some row.status), jobs)
      else stop_live row (others before_request jobs)

  unfoldable pub stop_queued : List Job → Stopped × List Job
  unfolding cancel_queued_row stop_unqueued
  stop_queued jobs =
      if not (count (queued_at id) jobs == 0)
      then (
        queued_job_cancelled,
        update (queued_at id) (cancel_queued_row actor reason ended ended) jobs,
      )
      else stop_unqueued (find (with_id id) jobs) jobs

  unfoldable pub stop_found : Option Job → List Job → Stopped × List Job
  unfolding stop_queued stop_live
  stop_found none jobs = (unknown_job, jobs)
  stop_found (some row) jobs =
      if is_queued row.status
      then stop_queued (others before_cancel jobs)
      else if not (is_active row.status)
      then (already row.status, jobs)
      else stop_live row (others before_request jobs)

  unfoldable pub stop : ℕ → List Job → Stopped × List Job
  unfolding stop_found
  stop kill_after_seconds jobs =
      if ltb 86400 kill_after_seconds
      then (bad_timeout, jobs)
      else stop_found (find (with_id id) jobs) jobs
