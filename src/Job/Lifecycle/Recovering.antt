-- ===== src/Job/Lifecycle/Recovering.antt =====
-- The loops of recovery follow the life cycle.
use vanth.Prelude.{
  ℕ, suc, ◌≡◌, refl, inl, inr, Bool, true, false, ◌&&◌, String, Option, none, some, List, [], ◌∷◌,
  Bool-cases,
}
use vanth.Prelude.Rows.{find, select}
use vanth.Job.{JobStatus, Job, is_runnable, is_running, with_id}
use vanth.Job.Claim.{unset, seen}
use vanth.Job.Recovery.{
  Report, Recovery, abandon_launch_claim, workload_gone, after_abandon, recover_each,
  recover_stale_launch_claims, stale_claim, end_of, end_run, same_run, reported, reap_found,
  reap_row, reap_each, silent, recover_jobs, reconcile_running_jobs, pid_alive,
}
use vanth.Job.Lifecycle.{Follows}
use vanth.Job.Lifecycle.Ending.{won-Follows, abandon-Follows, revert-Follows}

module _ (id : String) (s : JobStatus) (alive terminate : ℕ → Bool) where
  after_abandon-Follows :
      (row : Job) (stamp : ℕ) (r : Bool × JobStatus × List Job) (out : List Report)
      → Follows id s r.2
      → is_runnable r.1 ≡ true
      → Follows id s (after_abandon alive terminate row stamp r out).jobs
  unfolding after_abandon
  after_abandon-Follows row stamp (false, target, jobs) out h t = h
  after_abandon-Follows row stamp (true, target, jobs) out h t =
      elim (Bool-cases (workload_gone alive terminate row.pid)) [
        | inl e ↦ rw e h
        | inr e ↦ rw e (revert-Follows id s row.job_id row.claim_token target stamp jobs t h)
      ]

  recover_each-Follows :
      (stamps : ℕ → ℕ) (n : ℕ) (rows : List Job) (r : Recovery)
      → Follows id s r.jobs
      → Follows id s (recover_each alive terminate stamps n rows r).jobs
  unfolding recover_each
  recover_each-Follows stamps n [] r h = h
  recover_each-Follows stamps n (row ∷ rows) r h =
      let (after, target) =
        abandon-Follows id s row.job_id row.worker_pid (stamps n) row.claim_token r.jobs h in
      recover_each-Follows stamps (suc n) rows _ (
        after_abandon-Follows row (stamps n)
          (abandon_launch_claim row.job_id row.worker_pid (stamps n) row.claim_token r.jobs)
          r.emitted after target)

  pub recover_stale-Follows :
      (cutoff : ℕ) (stamps : ℕ → ℕ) (jobs : List Job)
      → Follows id s jobs
      → Follows id s (recover_stale_launch_claims alive terminate cutoff stamps jobs).jobs
  unfolding recover_stale_launch_claims
  recover_stale-Follows cutoff stamps jobs h =
      recover_each-Follows stamps 0 (select (stale_claim alive terminate cutoff) jobs)
        (record { jobs = jobs; emitted = [] }) h

  end_by :
      (row : Job) (stamp : ℕ) (jobs : List Job) (token : Option String)
      → row.claim_token ≡ token
      → Follows id s jobs
      → Follows id s (end_run alive terminate row stamp jobs).1
  unfolding end_run
  end_by row stamp jobs (some t) e h = rw e (
      won-Follows id s row.job_id (end_of alive terminate row) (some t) unset false unset stamp jobs
        h)
  end_by row stamp jobs none e h = rw e (
      won-Follows id s row.job_id (end_of alive terminate row) none (seen row.worker_pid) false
        unset stamp jobs h)

  reported-Follows :
      (row : Job) (out : List Report) (r : Bool × List Job)
      → Follows id s r.1
      → Follows id s (reported alive terminate row out r).jobs
  unfolding reported
  reported-Follows row out (true, jobs) h = h
  reported-Follows row out (false, jobs) h = h

  reap_found-Follows :
      (row : Job) (stamp : ℕ) (o : Option Job) (r : Recovery)
      → Follows id s r.jobs
      → Follows id s (reap_found alive terminate row stamp o r).jobs
  unfolding reap_found
  reap_found-Follows row stamp none r h = h
  reap_found-Follows row stamp (some current) r h = elim (Bool-cases (is_running current.status)) [
    | inr e ↦ rw e h
    | inl e ↦ rw e (elim (Bool-cases (same_run alive terminate row current)) [
      | inr k ↦ rw k h
      | inl k ↦ rw k (elim (Bool-cases (workload_gone alive terminate current.pid)) [
        | inr m ↦ rw m h
        | inl m ↦
            rw m (reported-Follows row r.emitted _ (end_by row stamp r.jobs row.claim_token refl h))
      ])
    ])
  ]

  reap_row-Follows :
      (row : Job) (stamp : ℕ) (r : Recovery)
      → Follows id s r.jobs
      → Follows id s (reap_row alive terminate row stamp r).jobs
  unfolding reap_row
  reap_row-Follows row stamp r h = elim (Bool-cases (pid_alive alive terminate row.worker_pid)) [
    | inl e ↦ rw e h
    | inr e ↦ rw e (reap_found-Follows row stamp (find (with_id row.job_id) r.jobs) r h)
  ]

  reap_each-Follows :
      (stamps : ℕ → ℕ) (n : ℕ) (rows : List Job) (r : Recovery)
      → Follows id s r.jobs
      → Follows id s (reap_each alive terminate stamps n rows r).jobs
  unfolding reap_each
  reap_each-Follows stamps n [] r h = h
  reap_each-Follows stamps n (row ∷ rows) r h =
      reap_each-Follows stamps (suc n) rows (reap_row alive terminate row (stamps n) r)
        (reap_row-Follows row (stamps n) r h)

  pub recover_jobs-Follows :
      (stamps : ℕ → ℕ) (jobs : List Job)
      → Follows id s jobs
      → Follows id s (recover_jobs alive terminate stamps jobs).jobs
  unfolding recover_jobs
  recover_jobs-Follows stamps jobs h =
      reap_each-Follows stamps 0 (select (λ j. is_running j.status) jobs)
        (record { jobs = jobs; emitted = [] }) h

  pub reconcile-Follows :
      (cutoff : ℕ) (stamps : ℕ → ℕ) (jobs : List Job)
      → Follows id s jobs
      → Follows id s (reconcile_running_jobs alive terminate cutoff stamps jobs).jobs
  unfolding reconcile_running_jobs
  reconcile-Follows cutoff stamps jobs h =
      reap_each-Follows stamps 0
        (select (λ j. is_running j.status && silent alive terminate cutoff j) jobs)
        (record { jobs = jobs; emitted = [] }) h
