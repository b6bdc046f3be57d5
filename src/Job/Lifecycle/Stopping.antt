-- ===== src/Job/Lifecycle/Stopping.antt =====
-- `_stop` follows the life cycle, where what other processes do meanwhile follows it.
use vanth.Prelude.{
  ℕ, ◌≡◌, refl, inl, inr, Bool, true, false, ◌&&◌, ◌==◌, String, Option, none, some, List, arith,
  ltb, Bool-cases,
}
use vanth.Prelude.Rows.{find, update, count}
use vanth.Job.{
  JobStatus, queued, launching, running, completed, failed, timeout, cancelled, orphaned, Job,
  is_queued, is_active, is_launching, with_id,
}
use vanth.Job.Claim.{unset, transition_terminal}
use vanth.Job.Recovery.{won}
use vanth.Job.Stop.{
  Point, before_cancel, before_request, after_request, before_end, number, requestable, request_row,
  still_owner, flagged, unflag_row, cancel_queued_row, queued_at, survives, leftover, end_live,
  read_again, end_launch, stop_owned, stop_requested, stop_again, stop_live, stop_unqueued,
  stop_queued, stop_found, stop,
}
use vanth.Job.Lifecycle.{leaves_queue, Follows, statement-Follows, quiet-Follows}
use vanth.Job.Lifecycle.Ending.{won-Follows}

pub queued_of : (t : JobStatus) → is_queued t ≡ true → t ≡ queued
queued_of queued h = refl
queued_of launching h = absurd (cc)
queued_of running h = absurd (cc)
queued_of completed h = absurd (cc)
queued_of failed h = absurd (cc)
queued_of timeout h = absurd (cc)
queued_of cancelled h = absurd (cc)
queued_of orphaned h = absurd (cc)

module _ (id : String) (s : JobStatus) (others : Point → List Job → List Job)
    (meanwhile : (p : Point) (jobs : List Job) → Follows id s jobs → Follows id s (others p jobs))
    (terminate : ℕ → Bool) (proc : Option ℕ) (job actor reason : String) (stamp ended : ℕ) where
  ended_live :
      (row current : Job) (jobs : List Job)
      → Follows id s jobs
      → Follows id s
          (end_live others terminate proc job actor reason stamp ended row current jobs).1
  unfolding end_live
  ended_live row current jobs h = elim (Bool-cases r.0) [
    | inr e ↦ rw e after
    | inl e ↦
        rw e
          (elim (Bool-cases
            (leftover others terminate proc job actor reason stamp ended current.worker_pid)) [
              | inl k ↦ rw k after
              | inr k ↦ rw k after
            ])
  ]
    where
      r : Bool × List Job
      r = won (transition_terminal job cancelled none row.claim_token unset false unset ended jobs)

      after : Follows id s r.1
      after = won-Follows id s job cancelled row.claim_token unset false unset ended jobs h

  ended_launch :
      (row current : Job) (jobs : List Job)
      → Follows id s jobs
      → Follows id s
          (end_launch others terminate proc job actor reason stamp ended row current jobs).1
  unfolding end_launch
  ended_launch row current jobs h = elim (Bool-cases r.0) [
    | inl e ↦ rw e after
    | inr e ↦ rw e (
        ended_live row
          (read_again others terminate proc job actor reason stamp ended current
            (find (with_id job) r.1))
          (others before_end r.1) (meanwhile before_end r.1 after))
  ]
    where
      r : Bool × List Job
      r = won (transition_terminal job cancelled none row.claim_token unset false unset ended jobs)

      after : Follows id s r.1
      after = won-Follows id s job cancelled row.claim_token unset false unset ended jobs h

  owned-Follows :
      (row current : Job) (jobs : List Job)
      → Follows id s jobs
      → Follows id s
          (stop_owned others terminate proc job actor reason stamp ended row current jobs).1
  unfolding stop_owned
  owned-Follows row current jobs h =
      elim (Bool-cases
        (still_owner row.claim_token (number row.worker_pid) (number row.pid) current)) [
          | inr e ↦ rw e (
              quiet-Follows id s (flagged job stamp) unflag_row (unfold unflag_row in λ j. refl)
                (unfold unflag_row in λ j. refl) jobs h)
          | inl e ↦
              rw e
                (elim (Bool-cases (
                  survives others terminate proc job actor reason stamp ended
                    (number current.pid))) [
                      | inl k ↦ rw k (
                          quiet-Follows id s (λ j. flagged job stamp j && is_active j.status)
                            unflag_row (unfold unflag_row in λ j. refl)
                            (unfold unflag_row in λ j. refl) jobs h)
                      | inr k ↦ rw k (elim (Bool-cases (is_launching current.status)) [
                        | inl m ↦ rw m (ended_launch row current jobs h)
                        | inr m ↦ rw m (ended_live row current jobs h)
                      ])
                    ])
        ]

  requested-Follows :
      (row : Job) (o : Option Job) (jobs : List Job)
      → Follows id s jobs
      → Follows id s
          (stop_requested others terminate proc job actor reason stamp ended row o jobs).1
  unfolding stop_requested
  requested-Follows row none jobs h = h
  requested-Follows row (some current) jobs h = elim (Bool-cases (is_active current.status)) [
    | inr e ↦ rw e h
    | inl e ↦ rw e (owned-Follows row current jobs h)
  ]

  live-Follows :
      (row : Job) (jobs : List Job)
      → Follows id s jobs
      → Follows id s (stop_live others terminate proc job actor reason stamp ended row jobs).1
  unfolding stop_live stop_again
  live-Follows row jobs h = elim (Bool-cases (count (requestable job row) jobs == 0)) [
    | inl e ↦ rw e h
    | inr e ↦ rw e (
        requested-Follows row (find (with_id job) asked) asked (
          meanwhile after_request
            (update (requestable job row) (request_row stamp actor reason) jobs)
            (quiet-Follows id s (requestable job row) (request_row stamp actor reason)
              (unfold request_row in λ j. refl) (unfold request_row in λ j. refl) jobs h)))
  ]
    where
      asked : List Job
      asked =
          others after_request (update (requestable job row) (request_row stamp actor reason) jobs)

  unqueued-Follows :
      (o : Option Job) (jobs : List Job)
      → Follows id s jobs
      → Follows id s (stop_unqueued others terminate proc job actor reason stamp ended o jobs).1
  unfolding stop_unqueued
  unqueued-Follows none jobs h = h
  unqueued-Follows (some row) jobs h = elim (Bool-cases (is_active row.status)) [
    | inr e ↦ rw e h
    | inl e ↦ rw e (live-Follows row (others before_request jobs) (meanwhile before_request jobs h))
  ]

  queued-Follows :
      (jobs : List Job)
      → Follows id s jobs
      → Follows id s (stop_queued others terminate proc job actor reason stamp ended jobs).1
  unfolding stop_queued
  queued-Follows jobs h = elim (Bool-cases (count (queued_at job) jobs == 0)) [
    | inl e ↦ rw e (unqueued-Follows (find (with_id job) jobs) jobs h)
    | inr e ↦ rw e (
        statement-Follows id s (queued_at job) (cancel_queued_row actor reason ended ended)
          (unfold cancel_queued_row in λ j. refl)
          (unfold cancel_queued_row in
            λ j p.
              leaves_queue {s = j.status} {t = cancelled} (queued_of j.status (ground (arith, p)))
                refl)
          jobs h)
  ]

  found-Follows :
      (o : Option Job) (jobs : List Job)
      → Follows id s jobs
      → Follows id s (stop_found others terminate proc job actor reason stamp ended o jobs).1
  unfolding stop_found
  found-Follows none jobs h = h
  found-Follows (some row) jobs h = elim (Bool-cases (is_queued row.status)) [
    | inl e ↦ rw e (queued-Follows (others before_cancel jobs) (meanwhile before_cancel jobs h))
    | inr e ↦ rw e (elim (Bool-cases (is_active row.status)) [
      | inr k ↦ rw k h
      | inl k ↦
          rw k (live-Follows row (others before_request jobs) (meanwhile before_request jobs h))
    ])
  ]

  pub stop-Follows :
      (kill_after : ℕ) (jobs : List Job)
      → Follows id s jobs
      → Follows id s (stop others terminate proc job actor reason stamp ended kill_after jobs).1
  unfolding stop
  stop-Follows kill_after jobs h = elim (Bool-cases (ltb 86400 kill_after)) [
    | inl e ↦ rw e h
    | inr e ↦ rw e (found-Follows (find (with_id job) jobs) jobs h)
  ]
