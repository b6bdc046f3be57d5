-- ===== src/Job/Dispatch.antt =====
-- The pass of `_dispatch_queued_jobs` of src/vanth/server.py over the queued rows.
pub mod Keeps
use vanth.Prelude.{
  ℕ, Bool, true, false, not, String, some, List, [], ◌∷◌, ◌++◌, ◌==◌, ◌&&◌, same, if◌then◌else◌,
}
use vanth.Prelude.Rows.{select, update, count}
use vanth.Job.{cancelled, Job, is_queued, with_id}
use vanth.Job.Recovery.{Report}
use vanth.Job.Launch.{JobDb, has_room, launch_queued_if_capacity}
use vanth.Job.Queue.{
  by_priority, Probing, Daemon, without, Reason, not_ready, incompatible, no_parent, Verdict,
  launches, cancels, verdict,
}

module _ (d : Daemon) where
  -- The loop over the queued rows.
  unfoldable pub plan : List Job → Bool → List Job → Probing → List (Job × Verdict) × Probing
  unfolding verdict
  plan jobs room [] p = ([], p)
  plan jobs room (j ∷ js) p =
      let (v, p₁) = verdict d jobs room j p in
      let (vs, p₂) = plan jobs room js p₁ in ((j, v) ∷ vs, p₂)

  -- The second loop: the launches, in the order of the rows.
  unfoldable pub launch_row_of :
      Job × Verdict → JobDb × List (String × ℕ) → JobDb × List (String × ℕ)
  unfolding launch_queued_if_capacity without
  launch_row_of (j, launches) (db, m) =
      let (ok, db₁) =
        launch_queued_if_capacity d.max_running_jobs j.job_id j.pool (d.token j.job_id)
          (d.stamp j.job_id) (d.spawned j.job_id) db in
      (db₁, if ok then without j.job_id m else m)
  launch_row_of (j, v) (db, m) = (db, m)

  unfoldable pub launch_each :
      List (Job × Verdict) → JobDb × List (String × ℕ) → JobDb × List (String × ℕ)
  unfolding launch_row_of
  launch_each [] s = s
  launch_each (v ∷ vs) s = launch_each vs (launch_row_of v s)

  -- job_id=? AND status='queued'
  abbrev pub still_queued : String → Job → Bool
  still_queued id j = same j.job_id id && is_queued j.status

  unfoldable pub cancel_row : String → ℕ → Job → Job
  cancel_row reason stamp j = record j {
    status = cancelled;
    stop_actor = some "daemon";
    stop_reason = some reason;
    ended_at = some stamp;
    updated_at = stamp;
  }

  pub record Dispatched : Type 0 where
    pub db : JobDb
    pub last_attempt : List (String × ℕ)
    pub emitted : List Report

  unfoldable pub cancel_queued : Bool → Job → Reason → Dispatched → Dispatched
  unfolding cancel_row without
  cancel_queued pops j reason s =
      if count (still_queued j.job_id) s.db.jobs == 0 then s else record {
        db = record s.db {
          jobs =
              update (still_queued j.job_id) (cancel_row (d.message reason) (d.stamp j.job_id))
                s.db.jobs;
        };
        last_attempt = if pops then without j.job_id s.last_attempt else s.last_attempt;
        emitted = s.emitted ++ record { job_id = j.job_id; kind = cancelled } ∷ [];
      }

  -- The last three loops, each over the rows that are cancelled for its reason.
  unfoldable pub cancel_timed_out : List (Job × Verdict) → Dispatched → Dispatched
  unfolding cancel_queued
  cancel_timed_out [] s = s
  cancel_timed_out ((j, cancels (not_ready probe)) ∷ vs) s =
      cancel_timed_out vs (cancel_queued true j (not_ready probe) s)
  cancel_timed_out (v ∷ vs) s = cancel_timed_out vs s

  unfoldable pub cancel_incompatible : List (Job × Verdict) → Dispatched → Dispatched
  unfolding cancel_queued
  cancel_incompatible [] s = s
  cancel_incompatible ((j, cancels (incompatible g)) ∷ vs) s =
      cancel_incompatible vs (cancel_queued false j (incompatible g) s)
  cancel_incompatible (v ∷ vs) s = cancel_incompatible vs s

  unfoldable pub cancel_without_parent : List (Job × Verdict) → Dispatched → Dispatched
  unfolding cancel_queued
  cancel_without_parent [] s = s
  cancel_without_parent ((j, cancels (no_parent g)) ∷ vs) s =
      cancel_without_parent vs (cancel_queued false j (no_parent g) s)
  cancel_without_parent (v ∷ vs) s = cancel_without_parent vs s

  abbrev pub has_id : String → List Job → Bool
  has_id id jobs = not (count (with_id id) jobs == 0)

  unfoldable pub carry_out : List (Job × Verdict) → JobDb → List (String × ℕ) → Dispatched
  unfolding launch_each cancel_timed_out cancel_incompatible cancel_without_parent
  carry_out vs db m =
      let (db₁, m₁) = launch_each vs (db, m) in
      cancel_without_parent vs (
        cancel_incompatible vs
          (cancel_timed_out vs record { db = db₁; last_attempt = m₁; emitted = [] }))

  unfoldable pub dispatch_rows : List Job → JobDb → List (String × ℕ) → Dispatched
  unfolding plan carry_out
  dispatch_rows [] db m = record { db = db; last_attempt = m; emitted = [] }
  dispatch_rows (j ∷ js) db m =
      let (vs, p) =
        plan db.jobs (has_room d.max_running_jobs db.jobs) (j ∷ js)
          record { last_attempt = select (λ e. has_id e.0 (j ∷ js)) m; budget = d.probe_budget } in
      carry_out vs db p.last_attempt

  unfoldable pub dispatch_queued_jobs : JobDb → List (String × ℕ) → Dispatched
  unfolding dispatch_rows by_priority
  dispatch_queued_jobs db m =
      dispatch_rows (by_priority (select (λ j. is_queued j.status) db.jobs)) db m
