-- ===== src/Job/Lifecycle/Ending.antt =====
-- The statements that end a run, and the recovery of dead launches and runs, follow the life cycle.
use vanth.Prelude.{
  ℕ, ◌≡◌, refl, sym, ap, subst, ◌∙◌, inl, inr, Bool, true, false, ◌||◌, String, Option, none, some,
  List, arith, ◌==◌, Bool-cases,
}
use vanth.Prelude.Rows.{find}
use vanth.Prelude.Text.{ℤ}
use vanth.Job.{
  JobStatus, queued, launching, running, completed, failed, timeout, cancelled, orphaned, Job,
  is_runnable, is_active, is_running, is_terminal, with_id,
}
use vanth.Job.Claim.{
  WorkerPid, unset, seen, finishable, finish_row, transition_terminal, status_guard, rank,
  clearable, clear_row, clear_pending_restart_after, revertible, revert_row, revert_abandoned_claim,
}
use vanth.Job.Recovery.{
  pending_of, target_of, won, legacy, legacy_row, abandon_write, abandon_restore,
  abandon_launch_claim,
}
use vanth.Job.Lifecycle.{takes, ends, Follows, statement-Follows, quiet-Follows}
use vanth.Job.Lifecycle.Launching.{restore-Follows}

active_of_guard : (b : Bool) (t : JobStatus) → status_guard b t ≡ true → is_active t ≡ true
active_of_guard false t h = h
active_of_guard true launching h = refl
active_of_guard true queued h = absurd (cc)
active_of_guard true running h = absurd (cc)
active_of_guard true completed h = absurd (cc)
active_of_guard true failed h = absurd (cc)
active_of_guard true timeout h = absurd (cc)
active_of_guard true cancelled h = absurd (cc)
active_of_guard true orphaned h = absurd (cc)

active_of_running : (t : JobStatus) → is_running t ≡ true → is_active t ≡ true
active_of_running running h = refl
active_of_running launching h = refl
active_of_running queued h = absurd (cc)
active_of_running completed h = absurd (cc)
active_of_running failed h = absurd (cc)
active_of_running timeout h = absurd (cc)
active_of_running cancelled h = absurd (cc)
active_of_running orphaned h = absurd (cc)

finishable-active :
    (job : String) (token : Option String) (worker : WorkerPid) (launching_only : Bool)
    (expected : WorkerPid) (j : Job)
    → finishable job token worker launching_only expected j ≡ true
    → is_active j.status ≡ true
finishable-active job (some t) worker launching_only expected j h =
    active_of_guard launching_only j.status (ground arith)
finishable-active job none worker launching_only expected j h =
    active_of_running j.status (ground arith)

runnable_rank : ℕ → Bool
runnable_rank n = n == 0 || (n == 4 || n == 7)

rank-runnable : (t : JobStatus) → is_runnable t ≡ runnable_rank (rank t)
unfolding runnable_rank
rank-runnable queued = refl
rank-runnable launching = refl
rank-runnable running = refl
rank-runnable completed = refl
rank-runnable failed = refl
rank-runnable timeout = refl
rank-runnable cancelled = refl
rank-runnable orphaned = refl

same_rank-runnable :
    (t u : JobStatus) → is_runnable u ≡ true → (rank t == rank u) ≡ true → is_runnable t ≡ true
same_rank-runnable t u h e =
    let r : rank t ≡ rank u = ground arith in
    rank-runnable t ∙ ap runnable_rank r ∙ sym (rank-runnable u) ∙ h

target-terminal : (o : Option ℕ) → is_terminal (target_of o) ≡ true
target-terminal none = refl
target-terminal (some t) = refl

target-runnable : (o : Option ℕ) → is_runnable (target_of o) ≡ true
target-runnable none = refl
target-runnable (some t) = refl

won-jobs : (r : Option Bool × List Job) → (won r).1 ≡ r.1
won-jobs (none, jobs) = refl
won-jobs (some b, jobs) = refl

module _ (id : String) (s : JobStatus) where
  pub transition-Follows :
      (job : String) (status : JobStatus) (code : Option ℤ) (token : Option String)
      (worker : WorkerPid) (launching_only : Bool) (expected : WorkerPid) (stamp : ℕ)
      (jobs : List Job)
      → Follows id s jobs
      → Follows id s
          (transition_terminal job status code token worker launching_only expected stamp jobs).1
  unfolding transition_terminal
  transition-Follows job status code token worker launching_only expected stamp jobs h =
      elim (Bool-cases (is_terminal status)) [
        | inr e ↦ rw e h
        | inl e ↦ rw e (
            statement-Follows id s (finishable job token worker launching_only expected)
              (finish_row status code stamp) (unfold finish_row in λ j. refl)
              (unfold finish_row in
                λ j p.
                  ends {s = j.status} {t = status}
                    (finishable-active job token worker launching_only expected j p) e)
              jobs h)
      ]

  pub won-Follows :
      (job : String) (status : JobStatus) (token : Option String) (worker : WorkerPid)
      (launching_only : Bool) (expected : WorkerPid) (stamp : ℕ) (jobs : List Job)
      → Follows id s jobs
      → Follows id s
          (won
            (transition_terminal job status none token worker launching_only expected stamp jobs)).1
  won-Follows job status token worker launching_only expected stamp jobs h =
      subst (Follows id s) (sym (won-jobs _))
        (transition-Follows job status none token worker launching_only expected stamp jobs h)

  pub clear-Follows :
      (job : String) (token : Option String) (stamp : ℕ) (jobs : List Job)
      → Follows id s jobs
      → Follows id s (clear_pending_restart_after job token stamp jobs)
  unfolding clear_pending_restart_after
  clear-Follows job none stamp jobs h = h
  clear-Follows job (some t) stamp jobs h =
      quiet-Follows id s (clearable job t) (clear_row stamp) (unfold clear_row in λ j. refl)
        (unfold clear_row in λ j. refl) jobs h

  write-Follows :
      (job : String) (expected : Option ℕ) (stamp : ℕ) (token : Option String) (o : Option ℕ)
      (jobs : List Job)
      → Follows id s jobs
      → Follows id s (abandon_write job expected stamp token (target_of o) jobs).1
  unfolding abandon_write
  write-Follows job expected stamp (some t) o jobs h =
      won-Follows job (target_of o) (some t) unset true (seen expected) stamp jobs h
  write-Follows job expected stamp none o jobs h =
      statement-Follows id s (legacy job expected) (legacy_row (target_of o) stamp stamp)
        (unfold legacy_row in λ j. refl)
        (unfold legacy_row in
          λ j p.
            ends {s = j.status} {t = target_of o}
              (active_of_guard true j.status (ground (arith, p))) (target-terminal o))
        jobs h

  restored-Follows :
      (job : String) (expected : Option ℕ) (stamp : ℕ) (token : Option String) (o : Option ℕ)
      (r : Bool × List Job)
      → Follows id s r.1
      → Follows id s (abandon_restore job expected stamp token o r).2
        × (is_runnable (abandon_restore job expected stamp token o r).1 ≡ true)
  unfolding abandon_restore
  restored-Follows job expected stamp token (some t) (true, jobs) h =
      (restore-Follows id s job token (some failed) stamp jobs h, refl)
  restored-Follows job expected stamp token (some t) (false, jobs) h = (h, refl)
  restored-Follows job expected stamp token none (true, jobs) h = (h, refl)
  restored-Follows job expected stamp token none (false, jobs) h = (h, refl)

  pub abandon-Follows :
      (job : String) (expected : Option ℕ) (stamp : ℕ) (token : Option String) (jobs : List Job)
      → Follows id s jobs
      → Follows id s (abandon_launch_claim job expected stamp token jobs).2
        × (is_runnable (abandon_launch_claim job expected stamp token jobs).1 ≡ true)
  unfolding abandon_launch_claim
  abandon-Follows job expected stamp token jobs h =
      restored-Follows job expected stamp token (pending_of (find (with_id job) jobs)) _
        (write-Follows job expected stamp token (pending_of (find (with_id job) jobs)) jobs h)

  pub revert-Follows :
      (job : String) (token : Option String) (target : JobStatus) (stamp : ℕ) (jobs : List Job)
      → is_runnable target ≡ true
      → Follows id s jobs
      → Follows id s (revert_abandoned_claim job token target stamp jobs).1
  unfolding revert_abandoned_claim
  revert-Follows job (some t) target stamp jobs r h =
      statement-Follows id s (revertible job (some t) target) (revert_row (some t) stamp)
        (unfold revert_row in λ j. refl)
        (unfold revert_row in
          λ j p.
            takes {s = j.status} {t = launching}
              (same_rank-runnable j.status target r (ground (arith, p))) refl)
        jobs h
  revert-Follows job none target stamp jobs r h =
      statement-Follows id s (revertible job none target) (revert_row none stamp)
        (unfold revert_row in λ j. refl)
        (unfold revert_row in
          λ j p.
            takes {s = j.status} {t = launching}
              (same_rank-runnable j.status target r (ground (arith, p))) refl)
        jobs h
