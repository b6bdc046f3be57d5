-- ===== src/Delivery/Complete/Written.antt =====
-- What a completion by the claim's holder writes, column by column (src/vanth/server.py).
use vanth.Prelude.{
  ℕ, ◌+◌, ◌≡◌, refl, ap, ◌∙◌, inl, inr, Bool, true, false, ◌&&◌, String, Option, none, some, List,
  arith, same, same_as, ltb, if◌then◌else◌, Bool-cases,
}
use vanth.Prelude.Rows.{find, update}
use vanth.Prelude.Keys.{touched, find-update-key}
use vanth.Time.{seconds}
use vanth.Delivery.{
  Status, retrying, dispatching, Delivery, Attempt, Db, Result, ok, is_settled, by_id, open_of,
  or_else, clip_error,
}
use vanth.Delivery.Complete.{
  Clock, is_failed, is_delivered, will_retry, retry_delay, final_status, next_attempt,
  delivered_stamp, finish_row, finish_attempt, guard_row, guard_attempt, write_completion,
  complete_delivery,
}
use vanth.Delivery.Complete.Ownership.{complete_owned, client_fits, guard_row-key, guard_row_self}

-- A failure within the budget of attempts is tried again.
abbrev pub tried_again : Delivery → Status → Bool
tried_again d status = is_failed status && ltb d.attempts (or_else d.target.max_attempts 1)

module _ (clock : Clock) (d : Delivery) (status : Status) (error : Option (List ℕ)) where
  abbrev pub completed_row : Delivery
  completed_row = record d {
    status = if tried_again d status then retrying else status;
    delivered_at = if is_delivered status then some clock.delivered_at else d.delivered_at;
    last_error = clip_error error;
    next_attempt_at =
        if tried_again d status then some (clock.retry_from + seconds (retry_delay d)) else none;
    claim_token = none;
    claimed_at = none;
    lease_expires_at = none;
    claim_client_id = none;
  }

  abbrev pub ended_attempt : Attempt → Attempt
  ended_attempt a = record a {
    status = if tried_again d status then retrying else status;
    error = clip_error error;
    ended_at = some clock.stamp;
  }

  row_lem : finish_row clock d status error d ≡ completed_row
  unfolding finish_row delivered_stamp final_status next_attempt will_retry
  row_lem = elim (Bool-cases (tried_again d status)) [
    | inr last ↦ rw last refl
    | inl more ↦ rw (more, not_delivered status more) refl
  ]
    where
      not_delivered :
          (s : Status)
          → (is_failed s && ltb d.attempts (or_else d.target.max_attempts 1)) ≡ true
          → is_delivered s ≡ false
      not_delivered s h = ground arith

  attempt_lem : finish_attempt clock d status error ≡ ended_attempt
  unfolding finish_attempt final_status will_retry
  attempt_lem = refl

completed_at :
    (clock : Clock) (d : Delivery) (status : Status) (error : Option (List ℕ))
    (client : Option String) (db : Db) (j : String)
    → find (by_id j) (write_completion clock d status error client db).deliveries ≡ (
        if same d.delivery_id j
        then touched
            (guard_row clock d status error client)
            (finish_row clock d status error)
            (find (by_id d.delivery_id) db.deliveries)
        else find (by_id j) db.deliveries)
unfolding write_completion finish_row
completed_at clock d status error client db j =
    find-update-key (λ (x : Delivery). x.delivery_id) d.delivery_id j
      (guard_row clock d status error client) (finish_row clock d status error)
      (guard_row-key clock d status error client) (λ x. refl) db.deliveries

-- The completion of the claim's holder with a settled status: a failure within the budget is
-- `retrying` after its delay, any other status is final; a delivery is stamped with its time; the error
-- is kept, clipped; the claim and its lease are gone. That row is answered and stands in the table, the
-- rows of other deliveries are as they were, and the open attempts under the claim's token are ended
-- with the same status and error.
pub complete_delivery-written :
    (clock : Clock) (d : Delivery) (status : Status) (error : Option (List ℕ))
    (client : Option String) (db : Db) (token j : String)
    → find (by_id d.delivery_id) db.deliveries ≡ some d
    → d.status ≡ dispatching
    → d.claim_token ≡ some token
    → client_fits client d ≡ true
    → is_settled status ≡ true
    → ((complete_delivery clock d status error client db).0
        ≡ ok (completed_row clock d status error))
      × (find (by_id j) (complete_delivery clock d status error client db).1.deliveries ≡ (
          if same d.delivery_id j
          then some (completed_row clock d status error)
          else find (by_id j) db.deliveries))
      × ((complete_delivery clock d status error client db).1.attempts
          ≡ update
              (λ a. open_of d.delivery_id a && same_as a.claim_token token)
              (ended_attempt clock d status error)
              db.attempts)
      × ((complete_delivery clock d status error client db).1.subscriptions ≡ db.subscriptions)
complete_delivery-written clock d status error client db token j f s t c settled = (
  ap (λ (r : Result Delivery × Db). r.0) whole ∙ ap ok (row_lem clock d status error),
  ap (λ (r : Result Delivery × Db). find (by_id j) r.1.deliveries) whole ∙ at_key,
  ap (λ (r : Result Delivery × Db). r.1.attempts) whole ∙ attempts,
  ap (λ (r : Result Delivery × Db). r.1.subscriptions) whole ∙ (unfold write_completion in refl),
)
  where
    whole :
        complete_delivery clock d status error client db
        ≡ (ok (finish_row clock d status error d), write_completion clock d status error client db)
    whole = complete_owned clock d status error client db f s t c settled

    attempts :
        (write_completion clock d status error client db).attempts
        ≡ update
            (λ a. open_of d.delivery_id a && same_as a.claim_token token)
            (ended_attempt clock d status error)
            db.attempts
    attempts =
        unfold write_completion guard_attempt in rw (t, attempt_lem clock d status error) refl

    at_key : find (by_id j) (write_completion clock d status error client db).deliveries ≡ (
        if same d.delivery_id j
        then some (completed_row clock d status error)
        else find (by_id j) db.deliveries)
    at_key =
        completed_at clock d status error client db j
        ∙ rw (f, guard_row_self clock d status error client s t c, row_lem clock d status error)
            refl
