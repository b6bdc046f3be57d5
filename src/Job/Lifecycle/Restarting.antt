-- ===== src/Job/Lifecycle/Restarting.antt =====
-- `_watch_restart` follows the life cycle.
use vanth.Prelude.{
  ℕ, refl, inl, inr, true, String, Option, none, some, List, ◌==◌, ltb, leb, Bool-cases,
}
use vanth.Job.{
  JobStatus, queued, launching, running, completed, failed, timeout, cancelled, orphaned, Job,
  PolicyState, with_id,
}
use vanth.Job.Claim.{claim_due_restart, claim_launch}
use vanth.Job.Restart.{
  RestartPolicy, Tick, policy_state, save_row, save_policy_state, budgeted, restart_delay,
  launch_claimed, launch_due_restart, claim_budget, watch_failed, watch_completed, watch_restart,
}
use vanth.Job.Lifecycle.{Follows, quiet-Follows}
use vanth.Job.Lifecycle.Launching.{claim_launch-Follows, launch-Follows}
use vanth.Prelude.{◌+◌}
use vanth.Time.{seconds}

module _ (id : String) (s : JobStatus) where
  save-Follows :
      (job : String) (state : PolicyState) (stamp : ℕ) (jobs : List Job)
      → Follows id s jobs
      → Follows id s (save_policy_state job state stamp jobs)
  unfolding save_policy_state
  save-Follows job state stamp jobs h =
      quiet-Follows id s (with_id job) (save_row state stamp) (unfold save_row in λ j. refl)
        (unfold save_row in λ j. refl) jobs h

  launched-Follows :
      (r : RestartPolicy) (t : Tick) (job : String) (attempt delay : ℕ)
      (c : Option String × List Job)
      → Follows id s c.1
      → Follows id s (launch_claimed r t job attempt delay c).1
  unfolding launch_claimed
  launched-Follows r t job attempt delay (none, jobs) h = h
  launched-Follows r t job attempt delay (some token, jobs) h =
      launch-Follows id s job token t.stamp t.spawned jobs h

  due-Follows :
      (r : RestartPolicy) (t : Tick) (job : String) (attempt deadline : ℕ) (state : PolicyState)
      (jobs : List Job)
      → Follows id s jobs
      → Follows id s (launch_due_restart r t job attempt deadline state jobs).1
  unfolding launch_due_restart claim_due_restart
  due-Follows r t job attempt deadline state jobs h =
      launched-Follows r t job attempt state.last_restart_delay_seconds
        (claim_launch job (some (some deadline)) (some none) t.token t.stamp jobs)
        (claim_launch-Follows id s job (some (some deadline)) (some none) t.token t.stamp jobs h)

  budget-Follows :
      (r : RestartPolicy) (t : Tick) (job : String) (state : PolicyState) (jobs : List Job)
      → Follows id s jobs
      → Follows id s (claim_budget r t job state jobs).1
  unfolding claim_budget
  budget-Follows r t job state jobs h =
      elim (Bool-cases (restart_delay r state.restart_attempts == 0)) [
        | inr e ↦ rw e (save-Follows job (budgeted r t.set_at state) t.stamp jobs h)
        | inl e ↦ rw e (
            due-Follows r t job (state.restart_attempts + 1)
              (t.set_at + seconds (restart_delay r state.restart_attempts))
              (budgeted r t.set_at state)
              (save_policy_state job (budgeted r t.set_at state) t.stamp jobs)
              (save-Follows job (budgeted r t.set_at state) t.stamp jobs h))
      ]

  failed-Follows :
      (r : RestartPolicy) (t : Tick) (job : String) (o : Option ℕ) (state : PolicyState)
      (jobs : List Job)
      → Follows id s jobs
      → Follows id s (watch_failed r t job o state jobs).1
  unfolding watch_failed
  failed-Follows r t job (some deadline) state jobs h = elim (Bool-cases (ltb t.now deadline)) [
    | inl e ↦ rw e h
    | inr e ↦ rw e (due-Follows r t job state.restart_attempts deadline state jobs h)
  ]
  failed-Follows r t job none state jobs h =
      elim (Bool-cases (leb r.max_retries state.restart_attempts)) [
        | inr e ↦ rw e (budget-Follows r t job state jobs h)
        | inl e ↦ rw e (elim (Bool-cases state.gave_up) [
          | inl k ↦ rw k h
          | inr k ↦ rw k (save-Follows job (record state { gave_up = true }) t.stamp jobs h)
        ])
      ]

  pub watch-Follows :
      (r : RestartPolicy) (t : Tick) (job : String) (status : JobStatus) (jobs : List Job)
      → Follows id s jobs
      → Follows id s (watch_restart r t job status jobs).1
  unfolding watch_restart watch_completed
  watch-Follows r t job completed jobs h =
      elim (Bool-cases ((policy_state job jobs).restart_attempts == 0)) [
        | inl e ↦ rw e h
        | inr e ↦ rw e (save-Follows job _ t.stamp jobs h)
      ]
  watch-Follows r t job failed jobs h = failed-Follows r t job _ (policy_state job jobs) jobs h
  watch-Follows r t job queued jobs h = h
  watch-Follows r t job launching jobs h = h
  watch-Follows r t job running jobs h = h
  watch-Follows r t job timeout jobs h = h
  watch-Follows r t job cancelled jobs h = h
  watch-Follows r t job orphaned jobs h = h
