-- ===== src/Job/Restart.antt =====
-- The restart policy of src/vanth/server.py: `_policy_state`, `_save_policy_state`, `_watch_restart`
-- and `_launch_due_restart`. The launch of a claimed restart is `launch` of Job/Launch.
use vanth.Prelude.{
  ℕ, ◌+◌, ◌*◌, min, true, false, String, Option, none, some, List, [], ◌∷◌, ◌==◌, ltb, leb,
  if◌then◌else◌,
}
use vanth.Prelude.Rows.{find, update}
use vanth.Time.{seconds}
use vanth.Job.{JobStatus, completed, failed, Job, PolicyState, with_id}
use vanth.Job.Claim.{claim_due_restart}
use vanth.Job.Launch.{launch, no_policy_state}

-- `policy["restart"]`, validated
pub record RestartPolicy : Type 0 where
  pub max_retries : ℕ
  pub backoff_seconds : ℕ
  pub backoff_max_seconds : ℕ

pub data RestartEvent : Type 0 where
  gave_up : ℕ → RestartEvent
  restarted : ℕ → ℕ → RestartEvent

unfoldable pub state_found : Option Job → PolicyState
state_found none = no_policy_state
state_found (some j) = j.policy

unfoldable pub policy_state : String → List Job → PolicyState
unfolding state_found
policy_state id jobs = state_found (find (with_id id) jobs)

unfoldable pub save_row : PolicyState → ℕ → Job → Job
save_row state stamp j = record j { policy = state; updated_at = stamp }

unfoldable pub save_policy_state : String → PolicyState → ℕ → List Job → List Job
unfolding save_row
save_policy_state id state stamp jobs = update (with_id id) (save_row state stamp) jobs

-- min(base * (attempts + 1), cap) if cap else base * (attempts + 1)
unfoldable pub restart_delay : RestartPolicy → ℕ → ℕ
restart_delay r attempts =
    if r.backoff_max_seconds == 0
    then r.backoff_seconds * (attempts + 1)
    else min (r.backoff_seconds * (attempts + 1)) r.backoff_max_seconds

unfoldable pub budgeted : RestartPolicy → ℕ → PolicyState → PolicyState
unfolding restart_delay
budgeted r now s = record s {
  restart_attempts = s.restart_attempts + 1;
  gave_up = false;
  last_restart_delay_seconds = restart_delay r s.restart_attempts;
  restart_after = some (now + seconds (restart_delay r s.restart_attempts));
}

-- What one tick draws: the clock where the deadline is tested and where it is set, the claim's token,
-- and the runner that is spawned.
pub record Tick : Type 0 where
  pub now : ℕ
  pub set_at : ℕ
  pub token : String
  pub stamp : ℕ
  pub spawned : Option ℕ

module _ (r : RestartPolicy) (t : Tick) (id : String) where
  unfoldable pub launch_claimed : ℕ → ℕ → Option String × List Job → List RestartEvent × List Job
  unfolding launch
  launch_claimed attempt delay (none, jobs) = ([], jobs)
  launch_claimed attempt delay (some token, jobs) =
      (restarted attempt delay ∷ [], (launch id token t.stamp t.spawned jobs).1)

  unfoldable pub launch_due_restart : ℕ → ℕ → PolicyState → List Job → List RestartEvent × List Job
  unfolding claim_due_restart launch_claimed
  launch_due_restart attempt deadline state jobs =
      launch_claimed attempt state.last_restart_delay_seconds
        (claim_due_restart id deadline t.token t.stamp jobs)

  -- A fresh failure with budget left: the deadline is set, and where it is now the job is launched.
  unfoldable pub claim_budget : PolicyState → List Job → List RestartEvent × List Job
  unfolding budgeted save_policy_state launch_due_restart
  claim_budget s jobs =
      let s₁ = budgeted r t.set_at s in
      let jobs₁ = save_policy_state id s₁ t.stamp jobs in
      if restart_delay r s.restart_attempts == 0
      then launch_due_restart (s.restart_attempts + 1)
          (t.set_at + seconds (restart_delay r s.restart_attempts)) s₁ jobs₁
      else ([], jobs₁)

  unfoldable pub watch_failed : Option ℕ → PolicyState → List Job → List RestartEvent × List Job
  unfolding launch_due_restart claim_budget save_policy_state
  watch_failed (some deadline) s jobs =
      if ltb t.now deadline
      then ([], jobs)
      else launch_due_restart s.restart_attempts deadline s jobs
  watch_failed none s jobs =
      if leb r.max_retries s.restart_attempts
      then (if s.gave_up then ([], jobs) else (
        gave_up s.restart_attempts ∷ [],
        save_policy_state id (record s { gave_up = true }) t.stamp jobs,
      ))
      else claim_budget s jobs

  unfoldable pub watch_completed : PolicyState → List Job → List RestartEvent × List Job
  unfolding save_policy_state
  watch_completed s jobs = if s.restart_attempts == 0 then ([], jobs) else (
    [],
    save_policy_state id (record s { restart_attempts = 0; restart_after = none }) t.stamp jobs,
  )

  -- `status` is that of the row as the watch read it.
  unfoldable pub watch_restart : JobStatus → List Job → List RestartEvent × List Job
  unfolding policy_state watch_failed watch_completed
  watch_restart completed jobs = watch_completed (policy_state id jobs) jobs
  watch_restart failed jobs =
      watch_failed (policy_state id jobs).restart_after (policy_state id jobs) jobs
  watch_restart _ jobs = ([], jobs)
