-- ===== src/Job.antt =====
-- Jobs of src/vanth/server.py: the columns of `jobs` and `pools` that supervision reads and writes.
pub mod Claim
pub mod Recovery
pub mod Runner
pub mod Rows
pub mod Fencing
pub mod Exclusive
pub mod Handover
pub mod Restored
pub mod Launch
pub mod Queue
pub mod Dispatch
pub mod Quota
pub mod Stop
pub mod Pools
pub mod Restart
pub mod Lifecycle
pub mod Budget
pub mod Halted
pub mod Gates
pub mod Tests
use vanth.Prelude.{
  ℕ, Bool, true, false, String, Option, none, some, List, same, same_as, ◌==◌, ◌&&◌, ◌||◌,
}
use vanth.Prelude.Text.{ℤ}

pub data JobStatus : Type 0 where
  queued : JobStatus
  launching : JobStatus
  running : JobStatus
  completed : JobStatus
  failed : JobStatus
  timeout : JobStatus
  cancelled : JobStatus
  orphaned : JobStatus

-- TERMINAL_STATUSES
abbrev pub is_terminal : JobStatus → Bool
is_terminal queued = false
is_terminal launching = false
is_terminal running = false
is_terminal _ = true

-- status IN ('running','launching')
abbrev pub is_active : JobStatus → Bool
is_active launching = true
is_active running = true
is_active _ = false

-- status IN ('queued','failed','orphaned')
abbrev pub is_runnable : JobStatus → Bool
is_runnable queued = true
is_runnable failed = true
is_runnable orphaned = true
is_runnable _ = false

abbrev pub is_queued : JobStatus → Bool
is_queued queued = true
is_queued _ = false

abbrev pub is_launching : JobStatus → Bool
is_launching launching = true
is_launching _ = false

abbrev pub is_running : JobStatus → Bool
is_running running = true
is_running _ = false

-- The keys of `policy_state_json` that the restart policy keeps. A key that is null is as one that is
-- absent; a deadline is an instant.
pub record PolicyState : Type 0 where
  pub restart_attempts : ℕ
  pub restart_after : Option ℕ
  pub pending_restart_after : Option ℕ
  pub gave_up : Bool
  pub last_restart_delay_seconds : ℕ

pub record Probe : Type 0 where
  pub kind : String
  pub timeout_seconds : Option ℕ
  pub interval_seconds : Option ℕ

pub record Gate : Type 0 where
  pub parent : String
  pub status : JobStatus

-- `trigger_json`: the status of a parent that a queued job waits for, a readiness probe, or both.
pub record Trigger : Type 0 where
  pub gate : Option Gate
  pub probe : Option Probe

-- A row of `jobs`. A claim token is NULL or "claim_" with hex digits, never the empty text.
pub record Job : Type 0 where
  pub job_id : String
  pub status : JobStatus
  pub claim_token : Option String
  pub worker_pid : Option ℕ
  pub pid : Option ℕ
  pub exit_code : Option ℤ
  pub policy : PolicyState
  pub policy_disabled : Bool
  pub paused : Bool
  pub pool : Option String
  pub priority : ℤ
  pub trigger : Option Trigger
  pub created_at : ℕ
  pub updated_at : ℕ
  pub started_at : Option ℕ
  pub ended_at : Option ℕ
  pub runner_heartbeat_at : Option ℕ
  pub stop_requested_at : Option ℕ
  pub stop_actor : Option String
  pub stop_reason : Option String

-- job_id=?
abbrev pub with_id : String → Job → Bool
with_id id j = same j.job_id id

abbrev pub active : Job → Bool
active j = is_active j.status

-- column IS ? on a number
abbrev pub is_same : Option ℕ → Option ℕ → Bool
is_same none none = true
is_same (some a) (some b) = a == b
is_same _ _ = false

-- job_id=? AND claim_token=?
abbrev pub owned : String → String → Job → Bool
owned id token j = same j.job_id id && same_as j.claim_token token
