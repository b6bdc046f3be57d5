-- ===== src/Delivery/Complete.antt =====
-- `_complete_delivery` of src/vanth/server.py: the completion of a claimed delivery, by one guarded
-- UPDATE, with retry and backoff.
pub mod Ownership
pub mod Backoff
pub mod Written
use vanth.Prelude.{
  ℕ, ◌+◌, ◌-◌, ◌*◌, ◌^◌, min, ◌≡◌, Bool, true, false, ◌&&◌, String, Option, none, some, List, [],
  ◌∷◌, ltb, ◌==◌, same, same_as, if◌then◌else◌,
}
use vanth.Prelude.Rows.{find, update, count}
use vanth.Time.{seconds}
use vanth.Delivery.{
  Status, retrying, delivered, failed, Delivery, Attempt, Db, Error, invalid_status, not_claimed,
  unknown_delivery, Result, ok, err, is_settled, by_id, open_of, or_else, claimed_with, owned_by,
  clip_error,
}

-- The readings of the clock, in the order in which they are made.
pub record Clock : Type 0 where
  pub retry_from : ℕ
  pub delivered_at : ℕ
  pub stamp : ℕ

abbrev pub is_failed : Status → Bool
is_failed failed = true
is_failed _ = false

abbrev pub is_delivered : Status → Bool
is_delivered delivered = true
is_delivered _ = false

unfoldable pub will_retry : Delivery → Status → Bool
will_retry d status = is_failed status && ltb d.attempts (or_else d.target.max_attempts 1)

unfoldable pub retry_delay : Delivery → ℕ
retry_delay d = min (or_else d.target.retry_delay_seconds 5 * 3 ^ (d.attempts - 1)) 300

-- claim_token=? where the caller's token may be NULL
abbrev pub token_is : Option String → Attempt → Bool
token_is none a = false
token_is (some token) a = same_as a.claim_token token

module _ (clock : Clock) (d : Delivery) (status : Status) (error : Option (List ℕ)) where
  unfoldable pub final_status : Status
  unfolding will_retry
  final_status = if will_retry d status then retrying else status

  unfoldable pub next_attempt : Option ℕ
  unfolding will_retry
  next_attempt =
      if will_retry d status then some (clock.retry_from + seconds (retry_delay d)) else none

  -- COALESCE(?, delivered_at)
  unfoldable pub delivered_stamp : Option ℕ → Option ℕ
  unfolding final_status
  delivered_stamp old = if is_delivered final_status then some clock.delivered_at else old

  unfoldable pub finish_row : Delivery → Delivery
  unfolding delivered_stamp next_attempt
  finish_row r = record r {
    status = final_status;
    delivered_at = delivered_stamp r.delivered_at;
    last_error = clip_error error;
    next_attempt_at = next_attempt;
    claim_token = none;
    claimed_at = none;
    lease_expires_at = none;
    claim_client_id = none;
  }

  unfoldable pub finish_attempt : Attempt → Attempt
  unfolding final_status
  finish_attempt a = record a {
    status = final_status;
    error = clip_error error;
    ended_at = some clock.stamp;
  }

  -- The WHERE of the UPDATE: with the relay's client, or without.
  unfoldable pub guard_row : Option String → Delivery → Bool
  guard_row none r = claimed_with d.delivery_id d.claim_token r
  guard_row (some client) r =
      claimed_with d.delivery_id d.claim_token r && same_as r.claim_client_id client

  -- delivery_id=? AND claim_token=? AND ended_at IS NULL
  unfoldable pub guard_attempt : Attempt → Bool
  guard_attempt a = open_of d.delivery_id a && token_is d.claim_token a

  unfoldable pub write_completion : Option String → Db → Db
  unfolding finish_row finish_attempt guard_attempt
  write_completion client db = record db {
    deliveries = update (guard_row client) finish_row db.deliveries;
    attempts = update guard_attempt finish_attempt db.attempts;
  }

  unfoldable pub reload : Option Delivery → Result Delivery
  reload none = err unknown_delivery
  reload (some r) = ok r

  unfoldable pub answer : Option String → Bool → Db → Result Delivery × Db
  unfolding reload
  answer (some client) false db = (err not_claimed, db)
  answer client changed db = (reload (find (by_id d.delivery_id) db.deliveries), db)

  unfoldable pub complete_delivery : Option String → Db → Result Delivery × Db
  unfolding answer
  complete_delivery client db =
      if is_settled status
      then (if count (guard_row client) db.deliveries == 0
          then answer client false db
          else answer client true (write_completion client db))
      else (err invalid_status, db)
