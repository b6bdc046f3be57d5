-- ===== src/Job/Lifecycle/Launching.antt =====
-- The statements that launch a job follow its life cycle.
use vanth.Prelude.{
  ℕ, ◌≡◌, refl, inl, inr, Bool, true, false, not, ◌&&◌, String, Option, none, some, List, [], ◌∷◌,
  ◌++◌, arith, ◌==◌, leb, Bool-cases,
}
use vanth.Prelude.Rows.{find, count}
use vanth.Prelude.Text.{pos}
use vanth.Job.{
  JobStatus, queued, launching, running, completed, failed, timeout, cancelled, orphaned, Job,
  PolicyState, is_runnable, is_active, is_queued, is_launching, active, with_id,
}
use vanth.Job.Claim.{
  required, claimable, claim_row, claim_write, claim_found, claim_launch, finish_row, restorable,
  restore_row, restore_pending_restart_after,
}
use vanth.Job.Runner.{publishable, publish_row, publish_workload, beating, beat_row, beat}
use vanth.Job.Launch.{
  JobDb, NewJob, gated, new_row, insert_job, being_launched, worker_row, launch, launchable,
  launch_row, claim_queued, launched_after, launch_queued_if_capacity,
}
use vanth.Job.Lifecycle.{takes, comes_up, ends, Follows, statement-Follows, quiet-Follows}

active-of-launching : (t : JobStatus) → is_launching t ≡ true → t ≡ launching
active-of-launching launching h = refl
active-of-launching queued h = absurd (cc)
active-of-launching running h = absurd (cc)
active-of-launching completed h = absurd (cc)
active-of-launching failed h = absurd (cc)
active-of-launching timeout h = absurd (cc)
active-of-launching cancelled h = absurd (cc)
active-of-launching orphaned h = absurd (cc)

module _ (id : String) (s : JobStatus) where
  write-Follows :
      (job : String) (require updates : Option (Option ℕ)) (token : String) (stamp : ℕ)
      (state : PolicyState) (jobs : List Job)
      → Follows id s jobs
      → Follows id s (claim_write job require updates token stamp state jobs).1
  unfolding claim_write
  write-Follows job require updates token stamp state jobs h =
      statement-Follows id s (claimable job) (claim_row token stamp state)
        (unfold claim_row in λ j. refl)
        (unfold claim_row in λ j e. takes {s = j.status} {t = launching} (ground (arith, e)) refl)
        jobs h

  pub found-Follows :
      (job : String) (require updates : Option (Option ℕ)) (token : String) (stamp : ℕ)
      (o : Option Job) (jobs : List Job)
      → Follows id s jobs
      → Follows id s (claim_found job require updates token stamp o jobs).1
  unfolding claim_found
  found-Follows job require updates token stamp none jobs h = h
  found-Follows job require updates token stamp (some j) jobs h =
      elim (Bool-cases (is_runnable j.status)) [
        | inr e ↦ rw e h
        | inl e ↦ rw e (elim (Bool-cases j.policy_disabled) [
          | inl k ↦ rw k h
          | inr k ↦ rw k (elim (Bool-cases (required require j.policy)) [
            | inr m ↦ rw m h
            | inl m ↦ rw m (write-Follows job require updates token stamp _ jobs h)
          ])
        ])
      ]

  pub claim_launch-Follows :
      (job : String) (require updates : Option (Option ℕ)) (token : String) (stamp : ℕ)
      (jobs : List Job)
      → Follows id s jobs
      → Follows id s (claim_launch job require updates token stamp jobs).1
  unfolding claim_launch
  claim_launch-Follows job require updates token stamp jobs h =
      found-Follows job require updates token stamp (find (with_id job) jobs) jobs h

  pub restore-Follows :
      (job : String) (token : Option String) (status : Option JobStatus) (stamp : ℕ)
      (jobs : List Job)
      → Follows id s jobs
      → Follows id s (restore_pending_restart_after job token status stamp jobs).1
  unfolding restore_pending_restart_after
  restore-Follows job token status stamp jobs h =
      quiet-Follows id s (restorable job token status) (restore_row stamp)
        (unfold restore_row in λ j. refl) (unfold restore_row in λ j. refl) jobs h

  pub launch-Follows :
      (job token : String) (stamp : ℕ) (spawned : Option ℕ) (jobs : List Job)
      → Follows id s jobs
      → Follows id s (launch job token stamp spawned jobs).1
  unfolding launch
  launch-Follows job token stamp none jobs h = restore-Follows job (some token) none stamp _ (
      statement-Follows id s (being_launched job token) (finish_row failed (some (pos 1)) stamp)
        (unfold finish_row in λ j. refl)
        (unfold finish_row in λ j e. ends (launched-active j.status (ground (arith, e))) refl) jobs
        h)
    where
      launched-active : (t : JobStatus) → is_launching t ≡ true → is_active t ≡ true
      launched-active t e = rw (active-of-launching t e) refl
  launch-Follows job token stamp (some pid) jobs h =
      quiet-Follows id s (being_launched job token) (worker_row pid stamp)
        (unfold worker_row in λ j. refl) (unfold worker_row in λ j. refl) jobs h

  queued-Follows :
      (limit : ℕ) (job : String) (pool : Option String) (token : String) (stamp : ℕ) (db : JobDb)
      → Follows id s db.jobs
      → Follows id s (claim_queued limit job pool token stamp db).1.jobs
  unfolding claim_queued
  queued-Follows limit job pool token stamp db h =
      statement-Follows id s (launchable limit job pool db) (launch_row token stamp)
        (unfold launch_row in λ j. refl)
        (unfold launch_row launchable in
          λ j e. takes (queue-runnable j.status (ground (arith, e))) refl)
        db.jobs h
    where
      queue-runnable : (t : JobStatus) → is_queued t ≡ true → is_runnable t ≡ true
      queue-runnable queued e = refl
      queue-runnable launching e = absurd (cc)
      queue-runnable running e = absurd (cc)
      queue-runnable completed e = absurd (cc)
      queue-runnable failed e = refl
      queue-runnable timeout e = absurd (cc)
      queue-runnable cancelled e = absurd (cc)
      queue-runnable orphaned e = refl

  after-Follows :
      (job token : String) (stamp : ℕ) (spawned : Option ℕ) (r : Bool × JobDb)
      → Follows id s r.1.jobs
      → Follows id s (launched_after job token stamp spawned r).1.jobs
  unfolding launched_after
  after-Follows job token stamp spawned (false, db) h = h
  after-Follows job token stamp spawned (true, db) h =
      launch-Follows job token stamp spawned db.jobs h

  pub launch_queued-Follows :
      (limit : ℕ) (job : String) (pool : Option String) (token : String) (stamp : ℕ)
      (spawned : Option ℕ) (db : JobDb)
      → Follows id s db.jobs
      → Follows id s (launch_queued_if_capacity limit job pool token stamp spawned db).1.jobs
  unfolding launch_queued_if_capacity
  launch_queued-Follows limit job pool token stamp spawned db h =
      after-Follows job token stamp spawned _ (queued-Follows limit job pool token stamp db h)

  appended-found :
      (jobs more : List Job) (k : Job)
      → find (with_id id) jobs ≡ some k
      → find (with_id id) (jobs ++ more) ≡ some k
  unfolding find
  appended-found [] more k h = absurd (cc)
  appended-found (j ∷ jobs) more k h = ground (arith, h, appended-found jobs more k)

  pub insert-Follows :
      (limit : ℕ) (n : NewJob) (jobs : List Job)
      → Follows id s jobs
      → Follows id s (insert_job limit n jobs).1
  unfolding insert_job
  insert-Follows limit n jobs h = elim (Bool-cases refuses) [
    | inl e ↦ rw e h
    | inr e ↦ elim (Bool-cases (count (with_id n.job_id) jobs == 0)) [
      | inr k ↦ rw (e, k) h
      | inl k ↦ rw (e, k) (h.0, appended-found jobs (new_row n ∷ []) h.0 h.1, h.2)
    ]
  ]
    where
      refuses : Bool
      refuses = (not (limit == 0) && not (gated n.trigger n.pool)) && leb limit (count active jobs)

  pub publish-Follows :
      (job : String) (token : Option String) (pid own : ℕ) (stamps : ℕ × ℕ × ℕ) (jobs : List Job)
      → Follows id s jobs
      → Follows id s (publish_workload job token pid own stamps jobs).1
  unfolding publish_workload
  publish-Follows job (some token) pid own stamps jobs h =
      statement-Follows id s (publishable job (some token))
        (publish_row (some token) pid own stamps) (unfold publish_row in λ j. refl)
        (unfold publish_row in
          λ j e. comes_up (active-of-launching j.status (ground (arith, e))) refl)
        jobs h
  publish-Follows job none pid own stamps jobs h =
      quiet-Follows id s (publishable job none) (publish_row none pid own stamps)
        (unfold publish_row in λ j. refl) (unfold publish_row in λ j. refl) jobs h

  pub beat-Follows :
      (job : String) (token : Option String) (pid at stamp : ℕ) (jobs : List Job)
      → Follows id s jobs
      → Follows id s (beat job token pid at stamp jobs).1
  unfolding beat
  beat-Follows job token pid at stamp jobs h =
      quiet-Follows id s (beating job token pid) (beat_row at stamp) (unfold beat_row in λ j. refl)
        (unfold beat_row in λ j. refl) jobs h
