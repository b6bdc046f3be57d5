-- ===== src/Job/Handover.antt =====
-- A launch claim ends in one of two ways: its runner publishes the workload, or recovery takes the
-- claim for dead. A restart whose launch is taken for dead has its deadline back.
use vanth.Prelude.{
  ℕ, ◌≡◌, refl, ap, subst, ◌∙◌, ◌<◌, Nat-cases, inl, inr, Bool, true, false, String, Option, none,
  some, List, arith, same_iff, Bool-cases,
}
use vanth.Prelude.Rows.{find, update, count, update-none, count-update}
use vanth.Prelude.Keys.{Keyed, hits, touched, count-key, Keyed-update}
use vanth.Job.{JobStatus, failed, orphaned, Job, is_launching, with_id}
use vanth.Job.Rows.{Renames, find-statement}
use vanth.Job.Claim.{
  unset, seen, changed, finishable, finish_row, transition_terminal, restorable, restore_row,
  restore_pending_restart_after,
}
use vanth.Job.Runner.{publishable, publish_row, publish_workload}
use vanth.Job.Recovery.{
  pending_of, target_of, won, abandon_write, abandon_restore, abandon_launch_claim,
}

abbrev pub key : Job → String
key j = j.job_id

-- A statement that names a job, in a keyed table, takes that job's row or none.
abbrev pub OnlyJob : String → (Job → Bool) → Type 0
OnlyJob id p = (j : Job) → p j ≡ true → j.job_id ≡ id

finishable-only :
    (id token : String) (expected : Option ℕ)
    → OnlyJob id (finishable id (some token) unset true (seen expected))
finishable-only id token expected j h = (same_iff j.job_id id).0 (ground arith)

publishable-only : (id token : String) → OnlyJob id (publishable id (some token))
publishable-only id token j h = (same_iff j.job_id id).0 (ground arith)

-- In a keyed table, where a statement took a row, no statement that its result does not fit takes one.
taken-gone :
    (id : String) (p q : Job → Bool) (f : Job → Job)
    → OnlyJob id p
    → OnlyJob id q
    → Renames f
    → ((j : Job) → p j ≡ true → q (f j) ≡ false)
    → (jobs : List Job) → Keyed key jobs
    → 0 < count p jobs
    → count q (update p f jobs) ≡ 0
taken-gone id p q f only_p only_q keeps gone jobs k h =
    count-key key id q only_q (update p f jobs) (Keyed-update key p f keeps jobs k)
    ∙ ap (hits q) (find-statement id p f keeps jobs)
    ∙ by (find (with_id id) jobs) (subst (λ n. 0 < n) (count-key key id p only_p jobs k) h)
  where
    by : (o : Option Job) → 0 < hits p o → hits q (touched p f o) ≡ 0
    by none l = absurd (omega arith)
    by (some j) l = elim (Bool-cases (p j)) [
      | inl e ↦ rw (e, gone j e)
      | inr e ↦ absurd (omega (arith, rw e at l))
    ]

module _ (id token : String) (expected : Option ℕ) (stamp : ℕ) where
  abbrev guard : Job → Bool
  guard = finishable id (some token) unset true (seen expected)

  abbrev recovers : List Job → Bool × JobStatus × List Job
  recovers jobs = abandon_launch_claim id expected stamp (some token) jobs

  won_jobs : (r : Option Bool × List Job) → (won r).1 ≡ r.1
  won_jobs (none, jobs) = refl
  won_jobs (some b, jobs) = refl

  written :
      (pending : Option ℕ) (jobs : List Job)
      → abandon_write id expected stamp (some token) (target_of pending) jobs ≡ (
        changed (count guard jobs),
        update guard (finish_row (target_of pending) none stamp) jobs,
      )
  unfolding abandon_write transition_terminal
  written none jobs = refl
  written (some t) jobs = refl

  -- Where the guard takes no row, recovery does nothing.
  pub recovers_missed :
      (jobs : List Job)
      → count guard jobs ≡ 0
      → recovers jobs ≡ (false, target_of (pending_of (find (with_id id) jobs)), jobs)
  unfolding abandon_launch_claim
  recovers_missed jobs h =
      ap (abandon_restore id expected stamp (some token) pending) (written pending jobs ∙ lost)
      ∙ by pending
    where
      pending : Option ℕ
      pending = pending_of (find (with_id id) jobs)

      lost :
          ◌≡◌ {A = Bool × List Job}
            (
              changed (count guard jobs),
              update guard (finish_row (target_of pending) none stamp) jobs,
            )
            (false, jobs)
      lost = rw (h, update-none guard (finish_row (target_of pending) none stamp) jobs h)

      by :
          (o : Option ℕ)
          → abandon_restore id expected stamp (some token) o (false, jobs)
            ≡ (false, target_of o, jobs)
      by none = unfold abandon_restore in refl
      by (some t) = unfold abandon_restore in refl

  -- What recovery leaves where the guard took a row.
  pub recovers_taken :
      (jobs : List Job)
      → 0 < count guard jobs
      → recovers jobs
        ≡ abandon_restore id expected stamp (some token) (pending_of (find (with_id id) jobs)) (
          true,
          update guard
              (finish_row (target_of (pending_of (find (with_id id) jobs))) none stamp)
              jobs,
        )
  unfolding abandon_launch_claim
  recovers_taken jobs h =
      ap (abandon_restore id expected stamp (some token) pending) (written pending jobs ∙ took)
    where
      pending : Option ℕ
      pending = pending_of (find (with_id id) jobs)

      took :
          ◌≡◌ {A = Bool × List Job}
            (
              changed (count guard jobs),
              update guard (finish_row (target_of pending) none stamp) jobs,
            )
            (true, update guard (finish_row (target_of pending) none stamp) jobs)
      took =
          ap (λ b. (b, update guard (finish_row (target_of pending) none stamp) jobs))
            (ground arith)

  recovers-count : (jobs : List Job) → (recovers jobs).0 ≡ true → 0 < count guard jobs
  recovers-count jobs h = elim (Nat-cases (count guard jobs)) [
    | inr k ↦ k
    | inl e ↦ absurd (cc (rw (recovers_missed jobs e) at h))
  ]

  module _ (pid own : ℕ) (stamps : ℕ × ℕ × ℕ) where
    abbrev publishes : List Job → Bool × List Job
    publishes jobs = publish_workload id (some token) pid own stamps jobs

    published-gone :
        (jobs : List Job)
        → Keyed key jobs
        → (publishes jobs).0 ≡ true
        → count guard (publishes jobs).1 ≡ 0
    unfolding publish_workload publish_row
    published-gone jobs k h =
        taken-gone id (publishable id (some token)) guard (publish_row (some token) pid own stamps)
          (publishable-only id token) (finishable-only id token expected) (λ j. refl)
          (λ j e. ground arith) jobs k (ground arith)

    finished-gone :
        (status : JobStatus)
        → is_launching status ≡ false
        → (jobs : List Job) → Keyed key jobs
        → 0 < count guard jobs
        → count (publishable id (some token)) (update guard (finish_row status none stamp) jobs) ≡ 0
    unfolding finish_row
    finished-gone status over jobs k h =
        taken-gone id guard (publishable id (some token)) (finish_row status none stamp)
          (finishable-only id token expected) (publishable-only id token) (λ j. refl)
          (λ j e. ground arith) jobs k h

    restored-gone :
        (o : Option ℕ) (jobs : List Job)
        → Keyed key jobs
        → 0 < count guard jobs
        → count
            (publishable id (some token))
            (abandon_restore id expected stamp
              (some token)
              o
              (true, update guard (finish_row (target_of o) none stamp) jobs)).2
          ≡ 0
    unfolding abandon_restore restore_pending_restart_after restore_row
    restored-gone none jobs k h = finished-gone orphaned refl jobs k h
    restored-gone (some t) jobs k h =
        count-update (publishable id (some token)) (restorable id (some token) (some failed))
          (restore_row stamp) (λ j. refl) (update guard (finish_row failed none stamp) jobs)
        ∙ finished-gone failed refl jobs k h

    publish_none :
        (jobs : List Job)
        → count (publishable id (some token)) jobs ≡ 0
        → publishes jobs ≡ (false, jobs)
    unfolding publish_workload
    publish_none jobs h = rw (
      h,
      update-none (publishable id (some token)) (publish_row (some token) pid own stamps) jobs h,
    )

    -- Once a runner has published its workload, recovery of that claim, with whatever worker it had
    -- seen, reports nothing and leaves the table as it is, in a table that is keyed by the job.
    pub published-unrecovered :
        (jobs : List Job)
        → Keyed key jobs
        → (publishes jobs).0 ≡ true
        → ((recovers (publishes jobs).1).0 ≡ false)
          × ((recovers (publishes jobs).1).2 ≡ (publishes jobs).1)
    published-unrecovered jobs k h =
        let e = recovers_missed (publishes jobs).1 (published-gone jobs k h) in
        (ap (λ r. r.0) e, ap (λ r. r.2) e)

    -- Once recovery has taken a claim for dead, the runner of that claim cannot publish its workload,
    -- and to try leaves the table as it is, in a table that is keyed by the job.
    pub recovered-unpublished :
        (jobs : List Job)
        → Keyed key jobs
        → (recovers jobs).0 ≡ true
        → publishes (recovers jobs).2 ≡ (false, (recovers jobs).2)
    recovered-unpublished jobs k h =
        let l = recovers-count jobs h in
        publish_none (recovers jobs).2 (
          ap (λ (r : Bool × JobStatus × List Job). count (publishable id (some token)) r.2)
            (recovers_taken jobs l)
          ∙ restored-gone (pending_of (find (with_id id) jobs)) jobs k l)
