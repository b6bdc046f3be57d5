-- ===== src/Job/Quota.antt =====
-- The quota of `VANTH_MAX_RUNNING_JOBS`: a statement that launches a job keeps under it.
pub mod History
use vanth.Prelude.{
  ℕ, suc, ◌+◌, ◌≤◌, ◌<◌, max, ◌≡◌, refl, ap, subst, sym, ◌∙◌, inl, inr, Bool, true, false, not,
  ◌&&◌, ◌||◌, String, Option, none, some, List, [], ◌∷◌, ◌++◌, ltb, leb, arith, same, same_iff,
  ◌==◌, Bool-cases, Nat-cases, if◌then◌else◌,
}
use vanth.Prelude.Rows.{
  find, update, count, count-update-le, count-update-shrinks, count-append, count-never,
  update-none,
}
use vanth.Prelude.Keys.{Keyed, Keyed-update, Keyed-append, count-key, hits}
use vanth.Prelude.Text.{ℤ}
use vanth.Job.{
  Job, JobStatus, queued, launching, running, completed, failed, timeout, cancelled, orphaned,
  active, with_id, is_terminal, is_active,
}
use vanth.Job.Rows.{Renames}
use vanth.Job.Claim.{
  WorkerPid, finishable, finish_row, transition_terminal, restorable, restore_row,
  restore_pending_restart_after, changed,
}
use vanth.Job.Launch.{
  Pool, JobDb, NewJob, new_row, insert_job, gated, has_room, being_launched, worker_row, launch,
  launchable, launch_row, claim_queued, launched_after, launch_queued_if_capacity,
}
use vanth.Job.Queue.{
  Daemon, Reason, not_ready, incompatible, no_parent, Verdict, waits, launches, cancels,
}
use vanth.Job.Dispatch.{
  launch_row_of, launch_each, still_queued, cancel_row, Dispatched, cancel_queued, cancel_timed_out,
  cancel_incompatible, cancel_without_parent, dispatch_rows, dispatch_queued_jobs,
}
use vanth.Job.Handover.{key, OnlyJob}

-- Every row has a key of its own, and at most `bound` rows are running or launching.
abbrev pub Inv : ℕ → List Job → Type 0
Inv bound jobs = Keyed key jobs × (count active jobs ≤ bound)

-- In a keyed table a statement that names a job takes at most one row.
pub count-le-one :
    (id : String) (p : Job → Bool) (jobs : List Job)
    → OnlyJob id p
    → Keyed key jobs
    → count p jobs ≤ 1
count-le-one id p jobs only k =
    subst (λ n. n ≤ 1) (sym (count-key key id p only jobs k)) (at_most (find (with_id id) jobs))
  where
    at_most : (o : Option Job) → hits p o ≤ 1
    at_most none = omega arith
    at_most (some j) = ground arith

terminal-inactive :
    (s : JobStatus) → is_terminal s ≡ true → is_active s ≡ true → ◌≡◌ {A = Bool} true false
terminal-inactive queued t a = cc
terminal-inactive launching t a = cc
terminal-inactive running t a = cc
terminal-inactive completed t a = cc
terminal-inactive failed t a = cc
terminal-inactive timeout t a = cc
terminal-inactive cancelled t a = cc
terminal-inactive orphaned t a = cc

module _ (bound : ℕ) where
  pub shrink-Inv :
      (p : Job → Bool) (f : Job → Job)
      → Renames f
      → ((j : Job) → p j ≡ true → is_active (f j).status ≡ true → is_active j.status ≡ true)
      → (jobs : List Job) → Inv bound jobs
      → Inv bound (update p f jobs)
  shrink-Inv p f keeps less jobs i = (
    Keyed-update key p f keeps jobs i.0,
    omega (arith, count-update-shrinks active p f less jobs, i.1),
  )

  launch-Inv :
      (id token : String) (stamp : ℕ) (spawned : Option ℕ) (jobs : List Job)
      → Inv bound jobs
      → Inv bound (launch id token stamp spawned jobs).1
  unfolding launch restore_pending_restart_after restore_row finish_row worker_row
  launch-Inv id token stamp none jobs i =
      shrink-Inv _ _ (λ j. refl) (λ j e a. a) _
        (shrink-Inv _ _ (λ j. refl) (λ j e a. absurd (cc)) jobs i)
  launch-Inv id token stamp (some pid) jobs i = shrink-Inv _ _ (λ j. refl) (λ j e a. a) jobs i

  pub finish-Inv :
      (id : String) (status : JobStatus) (code : Option ℤ) (token : Option String)
      (worker : WorkerPid) (launching_only : Bool) (expected : WorkerPid) (stamp : ℕ)
      (jobs : List Job)
      → Inv bound jobs
      → Inv bound
          (transition_terminal id status code token worker launching_only expected stamp jobs).1
  unfolding transition_terminal finish_row
  finish-Inv id status code token worker launching_only expected stamp jobs i =
      elim (Bool-cases (is_terminal status)) [
        | inr e ↦ rw e i
        | inl e ↦ rw e (
            shrink-Inv _ _ (λ j. refl) (λ j p a. absurd (cc (terminal-inactive status e a))) jobs i)
      ]

  module _ (limit : ℕ) (below : limit ≤ bound) (some_limit : 0 < limit) where
    launchable-only :
        (id : String) (pool : Option String) (db : JobDb) → OnlyJob id (launchable limit id pool db)
    unfolding launchable
    launchable-only id pool db j h = (same_iff j.job_id id).0 (ground arith)

    claim-bound :
        (id : String) (pool : Option String) (token : String) (stamp : ℕ) (db : JobDb)
        → Inv bound db.jobs
        → count active (update (launchable limit id pool db) (launch_row token stamp) db.jobs)
          ≤ bound
    claim-bound id pool token stamp db i = elim (Bool-cases (has_room limit db.jobs)) [
      | inl room ↦ omega (
        arith,
        count-update-le active (launchable limit id pool db) (launch_row token stamp) db.jobs,
        count-le-one id (launchable limit id pool db) db.jobs (launchable-only id pool db) i.0,
        room-lt room,
      )
      | inr full ↦
          rw
            (update-none (launchable limit id pool db) (launch_row token stamp) db.jobs (
              count-never (launchable limit id pool db)
                (unfold launchable in λ j. ground (arith, full)) db.jobs))
            i.1
    ]
      where
        room-lt : has_room limit db.jobs ≡ true → count active db.jobs < limit
        room-lt h = ground arith

    claim-Inv :
        (id : String) (pool : Option String) (token : String) (stamp : ℕ) (db : JobDb)
        → Inv bound db.jobs
        → Inv bound (claim_queued limit id pool token stamp db).1.jobs
    unfolding claim_queued
    claim-Inv id pool token stamp db i = (
      Keyed-update key (launchable limit id pool db) (launch_row token stamp)
          (unfold launch_row in λ j. refl) db.jobs i.0,
      claim-bound id pool token stamp db i,
    )

    after-Inv :
        (id token : String) (stamp : ℕ) (spawned : Option ℕ) (r : Bool × JobDb)
        → Inv bound r.1.jobs
        → Inv bound (launched_after id token stamp spawned r).1.jobs
    unfolding launched_after
    after-Inv id token stamp spawned (false, db) i = i
    after-Inv id token stamp spawned (true, db) i = launch-Inv id token stamp spawned db.jobs i

    pub launch_queued-Inv :
        (id : String) (pool : Option String) (token : String) (stamp : ℕ) (spawned : Option ℕ)
        (db : JobDb)
        → Inv bound db.jobs
        → Inv bound (launch_queued_if_capacity limit id pool token stamp spawned db).1.jobs
    unfolding launch_queued_if_capacity
    launch_queued-Inv id pool token stamp spawned db i =
        after-Inv id token stamp spawned _ (claim-Inv id pool token stamp db i)

    new_row-active : (n : NewJob) → is_active (new_row n).status ≡ not (gated n.trigger n.pool)
    unfolding new_row
    new_row-active n = ground arith

    appended :
        (n : NewJob) (jobs : List Job)
        → count active (jobs ++ new_row n ∷ [])
          ≡ count active jobs + (if gated n.trigger n.pool then 0 else 1)
    unfolding count
    appended n jobs =
        count-append active jobs (new_row n ∷ [])
        ∙ ap (λ k. count active jobs + k) (rw (new_row-active n) (ground arith))

    pub insert-Inv :
        (n : NewJob) (jobs : List Job) → Inv bound jobs → Inv bound (insert_job limit n jobs).1
    unfolding insert_job
    insert-Inv n jobs i = elim (Bool-cases refuses) [
      | inl e ↦ rw e i
      | inr e ↦ elim (Bool-cases (count (with_id n.job_id) jobs == 0)) [
        | inr k ↦ rw (e, k) i
        | inl k ↦
            rw (e, k)
              (
                Keyed-append key jobs (new_row n) (unfold new_row in ground (arith, k)) i.0,
                rw (appended n jobs) (ground (arith, i.1, e)),
              )
      ]
    ]
      where
        refuses : Bool
        refuses =
            (not (limit == 0) && not (gated n.trigger n.pool)) && leb limit (count active jobs)
