-- ===== src/Job/Halted.antt =====
-- What a stop does: it cancels the launch that it saw, and no other.
use vanth.Prelude.{
  ℕ, ◌≤◌, ◌≡◌, refl, ap, ◌∙◌, inl, inr, Bool, true, false, String, Option, none, some, List, arith,
  same_iff, same_as, same_as_iff, ◌==◌, ltb, Bool-cases, pos-ne-zero, if◌then◌else◌,
}
use vanth.Prelude.Rows.{find, find-some, update, count}
use vanth.Prelude.Keys.{Keyed, count-key, count_pos}
use vanth.Job.{
  JobStatus, queued, launching, running, completed, failed, timeout, cancelled, orphaned, Job,
  is_queued, is_active, is_launching, with_id,
}
use vanth.Job.Rows.{find-hit}
use vanth.Job.Claim.{unset, finishable, finish_row}
use vanth.Job.Stop.{
  Stopped, newer_launch, launch_stopped, job_stopped, Point, number, seen_owner, requestable,
  request_row, still_owner, survives, leftover, end_live, end_launch, stop_owned, stop_requested,
  stop_again, stop_live, stop_found, stop,
}
use vanth.Job.Handover.{key, OnlyJob}

module _ (others : Point → List Job → List Job) (terminate : ℕ → Bool) (proc : Option ℕ)
    (id actor reason : String) (stamp ended : ℕ) where
  requestable-only : (row : Job) → OnlyJob id (requestable id row)
  unfolding requestable
  requestable-only row j h = (same_iff j.job_id id).0 (ground arith)

  -- Whatever other processes do: where the job has been launched anew since a stop read its row, under
  -- another token, the stop answers so and changes nothing.
  pub stop_live-newer :
      (row j : Job) (token : String) (jobs : List Job)
      → Keyed key jobs
      → find (with_id id) jobs ≡ some j
      → row.claim_token ≡ some token
      → same_as j.claim_token token ≡ false
      → stop_live others terminate proc id actor reason stamp ended row jobs ≡ (newer_launch, jobs)
  unfolding stop_live
  stop_live-newer row j token jobs keyed found seen other = rw nothing
    where
      taken : requestable id row j ≡ false
      taken = unfold requestable in rw (seen, seen_owner, other) (ground arith)

      nothing : (count (requestable id row) jobs == 0) ≡ true
      nothing =
          rw (count-key key id (requestable id row) (requestable-only row) jobs keyed, found, taken)
            refl

-- No other process writes meanwhile.
abbrev pub quiet_others : Point → List Job → List Job
quiet_others p jobs = jobs

-- The answer, by whether the runner had published.
abbrev pub answer : JobStatus → Stopped
answer status = if is_launching status then launch_stopped else job_stopped

module _ (terminate : ℕ → Bool) (ends : (pid : ℕ) → terminate pid ≡ true) (proc : Option ℕ)
    (id actor reason : String) (stamp ended : ℕ) where
  none_survives :
      (o : Option ℕ) → survives quiet_others terminate proc id actor reason stamp ended o ≡ false
  none_survives none = refl
  none_survives (some pid) = rw (ends pid) refl

  none_left :
      (o : Option ℕ) → leftover quiet_others terminate proc id actor reason stamp ended o ≡ false
  unfolding leftover
  none_left o = rw (none_survives (number o), none_survives proc) (ground arith)

  module _ (j : Job) (token : String) (jobs : List Job) (found : find (with_id id) jobs ≡ some j)
      (active : is_active j.status ≡ true) (owner : j.claim_token ≡ some token) where
    abbrev after : List Job
    after =
        update (finishable id (some token) unset false unset) (finish_row cancelled none ended) jobs

    took : ltb 0 (count (finishable id (some token) unset false unset) jobs) ≡ true
    took = ground (
      arith,
      count_pos (with_id id) (finishable id (some token) unset false unset) jobs found mine,
    )
      where
        mine : finishable id (some token) unset false unset j ≡ true
        mine =
            rw
              (find-some (with_id id) jobs found, (same_as_iff j.claim_token token).1 owner, active)
              refl

    ended_live :
        (row : Job)
        → row.claim_token ≡ some token
        → end_live quiet_others terminate proc id actor reason stamp ended row j jobs
          ≡ (job_stopped, after)
    unfolding end_live
    ended_live row e =
        rw (e, took, none_survives (number j.worker_pid), none_survives proc) (ground arith)

    ended_launch :
        (row : Job)
        → row.claim_token ≡ some token
        → end_launch quiet_others terminate proc id actor reason stamp ended row j jobs
          ≡ (launch_stopped, after)
    unfolding end_launch
    ended_launch row e = rw (e, took)

    owned-answer :
        (row : Job)
        → row.claim_token ≡ some token
        → stop_owned quiet_others terminate proc id actor reason stamp ended row j jobs
          ≡ (answer j.status, after)
    unfolding stop_owned
    owned-answer row e = elim (Bool-cases (is_launching j.status)) [
      | inl k ↦ open_branches ∙ rw k (ended_launch row e)
      | inr k ↦ open_branches ∙ rw k (ended_live row e)
    ]
      where
        mine : still_owner row.claim_token (number row.worker_pid) (number row.pid) j ≡ true
        mine = unfold still_owner in rw e ((same_as_iff j.claim_token token).1 owner)

        open_branches :
            stop_owned quiet_others terminate proc id actor reason stamp ended row j jobs ≡ (
              if is_launching j.status
              then end_launch quiet_others terminate proc id actor reason stamp ended row j jobs
              else end_live quiet_others terminate proc id actor reason stamp ended row j jobs)
        open_branches = rw (mine, none_survives (number j.pid))

active-not-queued : (s : JobStatus) → is_active s ≡ true → is_queued s ≡ false
active-not-queued queued h = absurd (cc)
active-not-queued launching h = refl
active-not-queued running h = refl
active-not-queued completed h = refl
active-not-queued failed h = refl
active-not-queued timeout h = refl
active-not-queued cancelled h = refl
active-not-queued orphaned h = refl

-- Where no other process writes meanwhile and every process can be terminated: the stop of a job that
-- is launching or running under a token answers that it was stopped, and leaves its row cancelled, ended
-- at the time of the stop with no exit code, with the actor and the reason of the stop, with no stop
-- requested, and else as it was.
pub stop-cancels :
    (terminate : ℕ → Bool) (proc : Option ℕ) (id actor reason token : String)
    (stamp ended kill_after : ℕ) (jobs : List Job) {j : Job}
    → ((pid : ℕ) → terminate pid ≡ true)
    → kill_after ≤ 86400
    → find (with_id id) jobs ≡ some j
    → is_active j.status ≡ true
    → j.claim_token ≡ some token
    → ((stop quiet_others terminate proc id actor reason stamp ended kill_after jobs).0
        ≡ answer j.status)
      × (find
            (with_id id)
            (stop quiet_others terminate proc id actor reason stamp ended kill_after jobs).1
          ≡ some (record j {
            status = cancelled;
            exit_code = none;
            ended_at = some ended;
            updated_at = ended;
            stop_requested_at = none;
            stop_actor = some actor;
            stop_reason = some reason;
          }))
stop-cancels terminate proc id actor reason token stamp ended kill_after jobs {j} ends in_time found
      active owner =
    (
      ap (λ (r : Stopped × List Job). r.0) whole,
      ap (λ (r : Stopped × List Job). find (with_id id) r.1) whole
          ∙ find-hit id (finishable id (some token) unset false unset)
              (finish_row cancelled none ended) (unfold finish_row in λ x. refl) requested mine
              there
          ∙ (unfold finish_row request_row in refl),
    )
  where
    requested : List Job
    requested = update (requestable id j) (request_row stamp actor reason) jobs

    wanted : requestable id j j ≡ true
    wanted =
        unfold requestable seen_owner in
        rw
          (
            find-some (with_id id) jobs found,
            active,
            owner,
            (same_as_iff (some token) token).1 refl,
          )
          refl

    there : find (with_id id) requested ≡ some (request_row stamp actor reason j)
    there =
        find-hit id (requestable id j) (request_row stamp actor reason)
          (unfold request_row in λ x. refl) jobs wanted found

    mine : finishable id (some token) unset false unset (request_row stamp actor reason j) ≡ true
    mine =
        unfold request_row in
        rw (find-some (with_id id) jobs found, (same_as_iff j.claim_token token).1 owner, active)
          refl

    some_requested : (count (requestable id j) jobs == 0) ≡ false
    some_requested =
        pos-ne-zero (count (requestable id j) jobs)
          (count_pos (with_id id) (requestable id j) jobs found wanted)

    short : ltb 86400 kill_after ≡ false
    short = ground arith

    again :
        stop_again quiet_others terminate proc id actor reason stamp ended j requested
        ≡ stop_owned quiet_others terminate proc id actor reason stamp ended j
            (request_row stamp actor reason j)
            requested
    again = unfold stop_again stop_requested in rw there (unfold request_row in rw active refl)

    live :
        stop_live quiet_others terminate proc id actor reason stamp ended j jobs
        ≡ stop_again quiet_others terminate proc id actor reason stamp ended j requested
    live = unfold stop_live in rw some_requested refl

    outer :
        stop quiet_others terminate proc id actor reason stamp ended kill_after jobs
        ≡ stop_live quiet_others terminate proc id actor reason stamp ended j jobs
    outer =
        unfold stop stop_found in rw (short, found, active-not-queued j.status active, active) refl

    whole : stop quiet_others terminate proc id actor reason stamp ended kill_after jobs ≡ (
      answer j.status,
      update
          (finishable id (some token) unset false unset)
          (finish_row cancelled none ended)
          requested,
    )
    whole =
        outer
        ∙ live
        ∙ again
        ∙ owned-answer terminate ends proc id actor reason stamp ended
            (request_row stamp actor reason j) token requested there (unfold request_row in active)
            (unfold request_row in owner) j owner
        ∙ (unfold request_row in refl)
