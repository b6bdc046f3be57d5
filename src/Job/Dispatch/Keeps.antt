-- ===== src/Job/Dispatch/Keeps.antt =====
-- What the launches and the cancellations of the dispatcher keep, its pass keeps.
use vanth.Prelude.{ℕ, inl, inr, Bool, true, false, String, Option, List, [], ◌∷◌, ◌==◌, Bool-cases}
use vanth.Prelude.Rows.{select, count}
use vanth.Job.{Job}
use vanth.Job.Launch.{JobDb}
use vanth.Job.Launch.{has_room}
use vanth.Job.{is_queued}
use vanth.Job.Queue.{
  by_priority, Daemon, Reason, not_ready, incompatible, no_parent, Verdict, waits, launches,
  cancels,
}
use vanth.Job.Dispatch.{
  launch_row_of, launch_each, still_queued, cancel_row, Dispatched, cancel_queued, cancel_timed_out,
  cancel_incompatible, cancel_without_parent, carry_out, dispatch_rows, dispatch_queued_jobs, plan,
  has_id,
}
use vanth.Prelude.Rows.{update}
use vanth.Job.Launch.{launch_queued_if_capacity}

-- `P` is kept by a launch from the queue, and by the cancellation of a queued job.
module _ (d : Daemon) (P : List Job → Type 0)
    (launched : (id : String) (pool : Option String) (token : String) (stamp : ℕ)
        (spawned : Option ℕ) (db : JobDb)
      → P db.jobs
      → P (launch_queued_if_capacity d.max_running_jobs id pool token stamp spawned db).1.jobs)
    (cancelled : (id reason : String) (stamp : ℕ) (jobs : List Job)
      → P jobs
      → P (update (still_queued d id) (cancel_row d reason stamp) jobs)) where
  launch_row-keeps :
      (v : Job × Verdict) (s : JobDb × List (String × ℕ))
      → P s.0.jobs
      → P (launch_row_of d v s).0.jobs
  unfolding launch_row_of
  launch_row-keeps (j, launches) (db, m) i =
      launched j.job_id j.pool (d.token j.job_id) (d.stamp j.job_id) (d.spawned j.job_id) db i
  launch_row-keeps (j, waits) (db, m) i = i
  launch_row-keeps (j, cancels r) (db, m) i = i

  launch_each-keeps :
      (vs : List (Job × Verdict)) (s : JobDb × List (String × ℕ))
      → P s.0.jobs
      → P (launch_each d vs s).0.jobs
  unfolding launch_each
  launch_each-keeps [] s i = i
  launch_each-keeps (v ∷ vs) s i = launch_each-keeps vs _ (launch_row-keeps v s i)

  cancel-keeps :
      (pops : Bool) (j : Job) (r : Reason) (s : Dispatched d)
      → P s.db.jobs
      → P (cancel_queued d pops j r s).db.jobs
  unfolding cancel_queued
  cancel-keeps pops j r s i = elim (Bool-cases (count (still_queued d j.job_id) s.db.jobs == 0)) [
    | inl e ↦ rw e i
    | inr e ↦ rw e (cancelled j.job_id (d.message r) (d.stamp j.job_id) s.db.jobs i)
  ]

  timed_out-keeps :
      (vs : List (Job × Verdict)) (s : Dispatched d)
      → P s.db.jobs
      → P (cancel_timed_out d vs s).db.jobs
  unfolding cancel_timed_out
  timed_out-keeps [] s i = i
  timed_out-keeps ((j, cancels (not_ready p)) ∷ vs) s i =
      timed_out-keeps vs _ (cancel-keeps true j (not_ready p) s i)
  timed_out-keeps ((j, cancels (incompatible g)) ∷ vs) s i = timed_out-keeps vs s i
  timed_out-keeps ((j, cancels (no_parent g)) ∷ vs) s i = timed_out-keeps vs s i
  timed_out-keeps ((j, waits) ∷ vs) s i = timed_out-keeps vs s i
  timed_out-keeps ((j, launches) ∷ vs) s i = timed_out-keeps vs s i

  incompatible-keeps :
      (vs : List (Job × Verdict)) (s : Dispatched d)
      → P s.db.jobs
      → P (cancel_incompatible d vs s).db.jobs
  unfolding cancel_incompatible
  incompatible-keeps [] s i = i
  incompatible-keeps ((j, cancels (not_ready p)) ∷ vs) s i = incompatible-keeps vs s i
  incompatible-keeps ((j, cancels (incompatible g)) ∷ vs) s i =
      incompatible-keeps vs _ (cancel-keeps false j (incompatible g) s i)
  incompatible-keeps ((j, cancels (no_parent g)) ∷ vs) s i = incompatible-keeps vs s i
  incompatible-keeps ((j, waits) ∷ vs) s i = incompatible-keeps vs s i
  incompatible-keeps ((j, launches) ∷ vs) s i = incompatible-keeps vs s i

  without_parent-keeps :
      (vs : List (Job × Verdict)) (s : Dispatched d)
      → P s.db.jobs
      → P (cancel_without_parent d vs s).db.jobs
  unfolding cancel_without_parent
  without_parent-keeps [] s i = i
  without_parent-keeps ((j, cancels (not_ready p)) ∷ vs) s i = without_parent-keeps vs s i
  without_parent-keeps ((j, cancels (incompatible g)) ∷ vs) s i = without_parent-keeps vs s i
  without_parent-keeps ((j, cancels (no_parent g)) ∷ vs) s i =
      without_parent-keeps vs _ (cancel-keeps false j (no_parent g) s i)
  without_parent-keeps ((j, waits) ∷ vs) s i = without_parent-keeps vs s i
  without_parent-keeps ((j, launches) ∷ vs) s i = without_parent-keeps vs s i

  carry_out-keeps :
      (vs : List (Job × Verdict)) (db : JobDb) (m : List (String × ℕ))
      → P db.jobs
      → P (carry_out d vs db m).db.jobs
  unfolding carry_out
  carry_out-keeps vs db m i =
      without_parent-keeps vs (cancel_incompatible d vs (cancel_timed_out d vs start)) (
        incompatible-keeps vs (cancel_timed_out d vs start)
          (timed_out-keeps vs start (launch_each-keeps vs (db, m) i)))
    where
      start : Dispatched d
      start = record {
        db = (launch_each d vs (db, m)).0;
        last_attempt = (launch_each d vs (db, m)).1;
        emitted = [];
      }

  rows-keeps :
      (js : List Job) (db : JobDb) (m : List (String × ℕ))
      → P db.jobs
      → P (dispatch_rows d js db m).db.jobs
  unfolding dispatch_rows
  rows-keeps [] db m i = i
  rows-keeps (j ∷ js) db m i =
      carry_out-keeps
        (plan d db.jobs (has_room d.max_running_jobs db.jobs) (j ∷ js) (record {
          last_attempt = select (λ e. has_id d e.0 (j ∷ js)) m;
          budget = d.probe_budget;
        })).0
        db _ i

  pub dispatch-keeps :
      (db : JobDb) (m : List (String × ℕ)) → P db.jobs → P (dispatch_queued_jobs d db m).db.jobs
  unfolding dispatch_queued_jobs
  dispatch-keeps db m i = rows-keeps (by_priority (select (λ j. is_queued j.status) db.jobs)) db m i
