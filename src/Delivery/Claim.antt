-- ===== src/Delivery/Claim.antt =====
-- `_claim_delivery` of src/vanth/server.py, and the lease lengths of src/vanth/codex_pipe.py.
pub mod Outcome
pub mod Taken
use vanth.Prelude.{
  ℕ, ◌+◌, max, ◌≡◌, Bool, true, false, ◌&&◌, ◌||◌, String, Option, none, some, List, [], ◌∷◌, ◌++◌,
  arith, ◌==◌, codes, if◌then◌else◌,
}
use vanth.Prelude.Rows.{find, update, count}
use vanth.Time.{seconds, elapsed}
use vanth.Delivery.{
  Status, dispatching, reclaimed, TargetType, codex_thread, codex_cli_thread, codex_desktop,
  opencode_thread, Delivery, Attempt, Db, is_dispatching, is_waiting, by_id, is_due, open_of,
  or_else,
}

-- What one claim draws from outside: two readings of the clock, and two fresh identifiers.
pub record Draw : Type 0 where
  pub now : ℕ
  pub leased_at : ℕ
  pub token : String
  pub attempt_id : String

unfoldable pub wake_sequence_budget : ℕ → ℕ
wake_sequence_budget timeout = max 1 timeout

unfoldable pub helper_hard_deadline : ℕ → ℕ
unfolding wake_sequence_budget
helper_hard_deadline timeout = wake_sequence_budget timeout + 1

-- A negative margin counts as 0 here: both are raised to 1.
unfoldable pub claim_lease_seconds : ℕ → ℕ → ℕ
unfolding helper_hard_deadline
claim_lease_seconds timeout margin = helper_hard_deadline timeout + max 1 margin

unfoldable pub default_timeout : TargetType → ℕ
default_timeout codex_thread = 300
default_timeout codex_cli_thread = 300
default_timeout codex_desktop = 300
default_timeout opencode_thread = 300
default_timeout _ = 30

unfoldable pub effective_timeout : Delivery → ℕ
unfolding default_timeout
effective_timeout d = or_else d.target.timeout_seconds (default_timeout d.target_type)

unfoldable pub lease_for : TargetType → ℕ → ℕ → ℕ
lease_for codex_desktop timeout margin = claim_lease_seconds timeout margin
lease_for _ timeout margin = timeout + max 1 margin

unfoldable pub lease_seconds : ℕ → Delivery → ℕ
unfolding lease_for claim_lease_seconds
lease_seconds margin d = lease_for d.target_type (effective_timeout d) margin

-- The guard of the UPDATE, once more on the row as it is then.
unfoldable pub claimable : String → ℕ → Delivery → Bool
claimable id now d =
    by_id id d
    && (is_waiting d.status || (is_dispatching d.status && elapsed d.lease_expires_at now))

module _ (margin : ℕ) (draw : Draw) (client : Option String) (id : String) where
  -- SET status='dispatching', attempts=?, claim_token=?, ... for the row that was read
  unfoldable pub stamp_claim : Delivery → Delivery → Delivery
  stamp_claim row d = record d {
    status = dispatching;
    attempts = row.attempts + 1;
    claim_token = some draw.token;
    claimed_at = some draw.now;
    lease_expires_at = some (draw.leased_at + seconds (lease_seconds margin row));
    claim_client_id = client;
  }

  unfoldable pub close_reclaimed : Attempt → Attempt
  close_reclaimed a = record a {
    status = reclaimed;
    ended_at = some draw.now;
    error = some (codes "delivery lease expired");
  }

  unfoldable pub new_attempt : Delivery → Attempt
  new_attempt row = record {
    attempt_id = draw.attempt_id;
    delivery_id = id;
    attempt = row.attempts + 1;
    claim_token = some draw.token;
    target_type = row.target_type;
    started_at = draw.now;
    ended_at = none;
    status = dispatching;
    error = none;
    reclaimed = is_dispatching row.status;
    created_at = draw.now;
  }

  unfoldable pub write_claim : Delivery → Db → Db
  unfolding stamp_claim close_reclaimed new_attempt
  write_claim row db = record db {
    deliveries = update (claimable id draw.now) (stamp_claim row) db.deliveries;
    attempts =
        (if is_dispatching row.status
          then update (open_of id) close_reclaimed db.attempts
          else db.attempts)
        ++ new_attempt row ∷ [];
  }

  unfoldable pub claim_row : Option Delivery → Db → Option Delivery × Db
  unfolding write_claim claimable
  claim_row none db = (none, db)
  claim_row (some row) db =
      if is_due draw.now row
      then (if count (claimable id draw.now) db.deliveries == 0
          then (none, db)
          else (find (by_id id) (write_claim row db).deliveries, write_claim row db))
      else (none, db)

  -- A rollback returns the database as it was.
  unfoldable pub claim_delivery : Db → Option Delivery × Db
  unfolding claim_row
  claim_delivery db = claim_row (find (by_id id) db.deliveries) db
