-- ===== src/Job/Runner.antt =====
-- What a runner writes to its row in src/vanth/runner.py: `_publish_workload` and the heartbeat of
-- `_heartbeat_loop`.
use vanth.Prelude.{ℕ, Bool, not, String, Option, none, some, List, ◌&&◌, same}
use vanth.Prelude.Rows.{update, count}
use vanth.Job.{Job, running, is_launching, is_running, owned, is_same}
use vanth.Job.Claim.{changed, is_set}

-- The two WHERE clauses of `_publish_workload`.
abbrev pub publishable : String → Option String → Job → Bool
publishable id (some token) j =
    owned id token j && (is_launching j.status && not (is_set j.stop_requested_at))
publishable id none j =
    same j.job_id id && (is_running j.status && not (is_set j.stop_requested_at))

-- `stamps` are the instants of `started_at`, `runner_heartbeat_at` and `updated_at`.
unfoldable pub publish_row : Option String → ℕ → ℕ → ℕ × ℕ × ℕ → Job → Job
publish_row (some token) pid own_pid stamps j = record j {
  status = running;
  pid = some pid;
  worker_pid = some own_pid;
  started_at = some stamps.0;
  runner_heartbeat_at = some stamps.1;
  updated_at = stamps.2;
  exit_code = none;
  ended_at = none;
  policy = record j.policy { pending_restart_after = none };
}
publish_row none pid own_pid stamps j = record j {
  pid = some pid;
  runner_heartbeat_at = some stamps.1;
  updated_at = stamps.2;
}

unfoldable pub publish_workload :
    String → Option String → ℕ → ℕ → ℕ × ℕ × ℕ → List Job → Bool × List Job
unfolding publish_row
publish_workload id token pid own_pid stamps jobs = (
  changed (count (publishable id token) jobs),
  update (publishable id token) (publish_row token pid own_pid stamps) jobs,
)

-- The two WHERE clauses of `beat`.
abbrev pub beating : String → Option String → ℕ → Job → Bool
beating id (some token) pid j = owned id token j && is_running j.status
beating id none pid j = same j.job_id id && (is_running j.status && is_same j.pid (some pid))

unfoldable pub beat_row : ℕ → ℕ → Job → Job
beat_row at stamp j = record j { runner_heartbeat_at = some at; updated_at = stamp }

unfoldable pub beat : String → Option String → ℕ → ℕ → ℕ → List Job → Bool × List Job
unfolding beat_row
beat id token pid at stamp jobs = (
  changed (count (beating id token pid) jobs),
  update (beating id token pid) (beat_row at stamp) jobs,
)
