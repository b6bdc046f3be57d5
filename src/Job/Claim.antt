-- ===== src/Job/Claim.antt =====
-- The launch claims of src/vanth/server.py: `_claim_launch`, `_claim_due_restart`,
-- `_transition_terminal`, `_restore_pending_restart_after`, `_clear_pending_restart_after` and
-- `_revert_abandoned_claim`. Each UPDATE returns the rowcount's verdict and the new table.
use vanth.Prelude.{
  ℕ, Bool, true, false, not, String, Option, none, some, List, ◌==◌, ◌&&◌, same, same_as,
  if◌then◌else◌, ltb,
}
use vanth.Prelude.Rows.{find, update, count}
use vanth.Prelude.Text.{ℤ}
use vanth.Job.{
  JobStatus, launching, Job, PolicyState, is_terminal, is_active, is_runnable, is_launching,
  is_running, with_id, owned, is_same,
}

-- bool(changed)
abbrev pub changed : ℕ → Bool
changed n = ltb 0 n

-- `require_policy_state` and `policy_state_updates` of `_claim_launch`: the one key that a caller names
-- is `restart_after`.
abbrev pub required : Option (Option ℕ) → PolicyState → Bool
required none s = true
required (some deadline) s = is_same s.restart_after deadline

abbrev pub kept_deadline : Option ℕ → PolicyState → Option ℕ
kept_deadline none s = s.pending_restart_after
kept_deadline (some t) s = some t

unfoldable pub updated_state : Option (Option ℕ) → PolicyState → PolicyState
updated_state none s = s
updated_state (some value) s = record s {
  restart_after = value;
  pending_restart_after = kept_deadline s.restart_after s;
}

-- WHERE job_id=? AND status IN ('queued','failed','orphaned') AND policy_disabled=0
abbrev pub claimable : String → Job → Bool
claimable id j = same j.job_id id && (is_runnable j.status && not j.policy_disabled)

unfoldable pub claim_row : String → ℕ → PolicyState → Job → Job
claim_row token stamp state j = record j {
  status = launching;
  claim_token = some token;
  policy = state;
  updated_at = stamp;
  worker_pid = none;
  pid = none;
  runner_heartbeat_at = none;
}

module _ (id : String) (require updates : Option (Option ℕ)) (token : String) (stamp : ℕ) where
  unfoldable pub claim_write : PolicyState → List Job → Option String × List Job
  unfolding claim_row
  claim_write state jobs = (
    if count (claimable id) jobs == 1 then some token else none,
    update (claimable id) (claim_row token stamp state) jobs,
  )

  -- The row is read before the UPDATE's transaction: the arguments are that row, and the table at the
  -- UPDATE, to which other processes may have written in between.
  unfoldable pub claim_found : Option Job → List Job → Option String × List Job
  unfolding claim_write updated_state
  claim_found none jobs = (none, jobs)
  claim_found (some j) jobs =
      if not (is_runnable j.status)
      then (none, jobs)
      else if j.policy_disabled
      then (none, jobs)
      else if not (required require j.policy)
      then (none, jobs)
      else claim_write (updated_state updates j.policy) jobs

  -- The call with no write of another process between its SELECT and its UPDATE
  unfoldable pub claim_launch : List Job → Option String × List Job
  unfolding claim_found
  claim_launch jobs = claim_found (find (with_id id) jobs) jobs

-- The claim of `prepare_launch`; the spec file that it then writes is not modelled.
unfoldable pub prepare_launch : String → String → ℕ → List Job → Option String × List Job
unfolding claim_launch
prepare_launch id token stamp jobs = claim_launch id none none token stamp jobs

unfoldable pub claim_due_restart : String → ℕ → String → ℕ → List Job → Option String × List Job
unfolding claim_launch
claim_due_restart id deadline token stamp jobs =
    claim_launch id (some (some deadline)) (some none) token stamp jobs

-- An argument that defaults to `_UNSET`.
pub data WorkerPid : Type 0 where
  unset : WorkerPid
  seen : Option ℕ → WorkerPid

-- AND worker_pid IS ?
abbrev pub seen_by : WorkerPid → Job → Bool
seen_by unset j = true
seen_by (seen pid) j = is_same j.worker_pid pid

abbrev pub status_guard : Bool → JobStatus → Bool
status_guard true s = is_launching s
status_guard false s = is_active s

-- The three WHERE clauses of `_transition_terminal`.
abbrev pub finishable : String → Option String → WorkerPid → Bool → WorkerPid → Job → Bool
finishable id (some token) worker launching_only expected j =
    owned id token j && (status_guard launching_only j.status && seen_by expected j)
finishable id none worker launching_only expected j =
    same j.job_id id && (is_running j.status && seen_by worker j)

unfoldable pub finish_row : JobStatus → Option ℤ → ℕ → Job → Job
finish_row status code stamp j = record j {
  status = status;
  exit_code = code;
  ended_at = some stamp;
  updated_at = stamp;
  stop_requested_at = none;
}

-- `none` is the ValueError for a status that is not terminal.
module _ (id : String) (status : JobStatus) (code : Option ℤ) (token : Option String)
    (worker : WorkerPid) (launching_only : Bool) (expected : WorkerPid) (stamp : ℕ) where
  unfoldable pub transition_terminal : List Job → Option Bool × List Job
  unfolding finish_row
  transition_terminal jobs = if not (is_terminal status) then (none, jobs) else (
    some (changed (count (finishable id token worker launching_only expected) jobs)),
    update (finishable id token worker launching_only expected) (finish_row status code stamp) jobs,
  )

abbrev pub is_set : Option ℕ → Bool
is_set none = false
is_set (some t) = true

-- AND claim_token=?, where a token is given
abbrev pub token_is : Option String → Job → Bool
token_is none j = true
token_is (some token) j = same_as j.claim_token token

-- A status, compared by its text.
abbrev pub rank : JobStatus → ℕ
rank JobStatus.queued = 0
rank JobStatus.launching = 1
rank JobStatus.running = 2
rank JobStatus.completed = 3
rank JobStatus.failed = 4
rank JobStatus.timeout = 5
rank JobStatus.cancelled = 6
rank JobStatus.orphaned = 7

-- AND status=?, where a status is given
abbrev pub status_is : Option JobStatus → Job → Bool
status_is none j = true
status_is (some s) j = rank j.status == rank s

abbrev pub restorable : String → Option String → Option JobStatus → Job → Bool
restorable id token status j =
    same j.job_id id
    && (token_is token j && (status_is status j && is_set j.policy.pending_restart_after))

unfoldable pub restore_row : ℕ → Job → Job
restore_row stamp j = record j {
  policy = record j.policy {
    restart_after = j.policy.pending_restart_after;
    pending_restart_after = none;
  };
  updated_at = stamp;
}

unfoldable pub restore_pending_restart_after :
    String → Option String → Option JobStatus → ℕ → List Job → Bool × List Job
unfolding restore_row
restore_pending_restart_after id token status stamp jobs = (
  changed (count (restorable id token status) jobs),
  update (restorable id token status) (restore_row stamp) jobs,
)

abbrev pub clearable : String → String → Job → Bool
clearable id token j = owned id token j && is_set j.policy.pending_restart_after

unfoldable pub clear_row : ℕ → Job → Job
clear_row stamp j = record j {
  policy = record j.policy { pending_restart_after = none };
  updated_at = stamp;
}

unfoldable pub clear_pending_restart_after : String → Option String → ℕ → List Job → List Job
unfolding clear_row
clear_pending_restart_after id none stamp jobs = jobs
clear_pending_restart_after id (some token) stamp jobs =
    update (clearable id token) (clear_row stamp) jobs

abbrev pub no_token : Job → Bool
no_token j = elim j.claim_token [ none ↦ true | some t ↦ false ]

abbrev pub revertible : String → Option String → JobStatus → Job → Bool
revertible id (some token) target j = owned id token j && (rank j.status == rank target)
revertible id none target j = same j.job_id id && (no_token j && (rank j.status == rank target))

unfoldable pub revert_row : Option String → ℕ → Job → Job
revert_row (some token) stamp j = record j {
  status = launching;
  ended_at = none;
  policy = record j.policy { restart_after = none; pending_restart_after = j.policy.restart_after };
  updated_at = stamp;
}
revert_row none stamp j = record j { status = launching; ended_at = none; updated_at = stamp }

unfoldable pub revert_abandoned_claim :
    String → Option String → JobStatus → ℕ → List Job → Bool × List Job
unfolding revert_row
revert_abandoned_claim id token target stamp jobs = (
  changed (count (revertible id token target) jobs),
  update (revertible id token target) (revert_row token stamp) jobs,
)
