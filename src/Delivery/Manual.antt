-- ===== src/Delivery/Manual.antt =====
-- What an operator or an agent does to deliveries by hand, in src/vanth/server.py:
-- `mark_delivery`, `retry_delivery` and `clear_deliveries`.
use vanth.Prelude.{
  ℕ, ◌+◌, ◌-◌, Bool, true, false, not, ◌&&◌, ◌||◌, String, Option, none, some, List, [], ◌∷◌, ◌++◌,
  map, take, ◌==◌, same, same_as, codes, leb, if◌then◌else◌,
}
use vanth.Prelude.Rows.{find, select, update, count}
use vanth.Time.{seconds, text_lt}
use vanth.Delivery.{
  Status, pending, retrying, dispatching, delivered, failed, reclaimed, Delivery, Attempt, Db,
  invalid_status, unknown_delivery, invalid_limit, empty_job_id, Result, ok, err, is_waiting, by_id,
  is_null, clip_error,
}
use vanth.Delivery.Complete.{is_delivered}

-- {"pending", "retrying", "delivered", "failed"}
abbrev pub is_markable : Status → Bool
is_markable pending = true
is_markable retrying = true
is_markable delivered = true
is_markable failed = true
is_markable _ = false

reload : Option Delivery → Result Delivery
reload none = err unknown_delivery
reload (some r) = ok r

-- The readings of the clock, in the order in which they are made.
pub record MarkClock : Type 0 where
  pub delivered_at : ℕ
  pub started_at : ℕ
  pub ended_at : ℕ
  pub created_at : ℕ

module _ (clock : MarkClock) (attempt_id : String) (id : String) (status : Status)
    (error : Option (List ℕ)) where
  unfoldable pub marked : ℕ → Delivery → Delivery
  marked attempt d = record d {
    status = status;
    attempts = attempt;
    delivered_at = (if is_delivered status then some clock.delivered_at else d.delivered_at);
    last_error = clip_error error;
    next_attempt_at = none;
  }

  unfoldable pub marked_attempt : ℕ → Delivery → Attempt
  marked_attempt attempt d = record {
    attempt_id = attempt_id;
    delivery_id = d.delivery_id;
    attempt = attempt;
    claim_token = none;
    target_type = d.target_type;
    started_at = clock.started_at;
    ended_at = some clock.ended_at;
    status = status;
    error = clip_error error;
    reclaimed = false;
    created_at = clock.created_at;
  }

  unfoldable pub mark_row : Option Delivery → Db → Result Delivery × Db
  unfolding reload
  mark_row none db = (err unknown_delivery, db)
  mark_row (some d) db =
      let rows = update (by_id id) (marked (d.attempts + 1)) db.deliveries in
      (
        reload (find (by_id id) rows),
        record db {
          deliveries = rows;
          attempts = db.attempts ++ marked_attempt (d.attempts + 1) d ∷ [];
        },
      )

  unfoldable pub mark_delivery : Db → Result Delivery × Db
  unfolding mark_row
  mark_delivery db =
      if is_markable status
      then mark_row (find (by_id id) db.deliveries) db
      else (err invalid_status, db)

unfoldable pub retriable : String → Delivery → Bool
retriable id d = by_id id d && elim d.status [ failed ↦ true | retrying ↦ true | _ ↦ false ]

unfoldable pub requeued : Delivery → Delivery
requeued d = record d { status = retrying; next_attempt_at = none; last_error = none }

unfoldable pub retry_row : String → Option Delivery → Db → Result Delivery × Db
unfolding reload
retry_row id none db = (err unknown_delivery, db)
retry_row id (some d) db =
    let rows = update (retriable id) requeued db.deliveries in
    (reload (find (by_id id) rows), record db { deliveries = rows })

unfoldable pub retry_delivery : String → Db → Result Delivery × Db
unfolding retry_row
retry_delivery id db = retry_row id (find (by_id id) db.deliveries) db

-- The arguments of `clear_deliveries`. `source_terminal` is its EXISTS over `events` and `jobs`.
pub record Filter : Type 0 where
  pub job_id : Option String
  pub status : Option Status
  pub older_than_seconds : Option ℕ
  pub stale_only : Bool
  pub limit : ℕ
  pub dry_run : Bool

pub record Drained : Type 0 where
  pub matched : ℕ
  pub drained : ℕ
  pub dry_run : Bool
  pub ids : List String

abbrev pub status_eq : Status → Status → Bool
status_eq pending pending = true
status_eq retrying retrying = true
status_eq dispatching dispatching = true
status_eq delivered delivered = true
status_eq failed failed = true
status_eq reclaimed reclaimed = true
status_eq _ _ = false

-- {"pending", "retrying", "dispatching", "delivered", "failed"}, or no status
abbrev pub is_clearable : Option Status → Bool
is_clearable (some reclaimed) = false
is_clearable _ = true

abbrev job_matches : Option String → Delivery → Bool
job_matches none d = true
job_matches (some j) d = same d.job_id j

abbrev status_matches : Option Status → Delivery → Bool
status_matches none d = is_waiting d.status
status_matches (some s) d = status_eq d.status s

abbrev age_matches : ℕ → Option ℕ → Delivery → Bool
age_matches now none d = true
age_matches now (some age) d = text_lt d.created_at (now - seconds age)

-- delivery_id IN (...)
unfoldable pub one_of : List String → String → Bool
one_of [] id = false
one_of (i ∷ is) id = same i id || one_of is id

unfoldable pub drained_row : Delivery → Delivery
drained_row d = record d {
  status = failed;
  last_error = some (codes "drained via clear_deliveries");
  next_attempt_at = none;
  claim_token = none;
  claimed_at = none;
  lease_expires_at = none;
}

unfoldable pub drained_attempt : ℕ → Attempt → Attempt
drained_attempt ended a = record a {
  status = failed;
  ended_at = some ended;
  error = some (codes "drained via clear_deliveries");
}

-- `now` is read for the cutoff and `ended` for the attempts. An age that reaches back before 1970
-- ends there.
module _ (now ended : ℕ) (source_terminal : Delivery → Bool) (f : Filter) where
  unfoldable pub matches : Delivery → Bool
  matches d =
      job_matches f.job_id d
      && (status_matches f.status d
          && (age_matches now f.older_than_seconds d && (not f.stale_only || source_terminal d)))

  unfoldable pub write_drain : List String → Db → Db
  unfolding drained_row drained_attempt
  write_drain ids db = record db {
    deliveries = update (λ d. one_of ids d.delivery_id) drained_row db.deliveries;
    attempts =
        update (λ a. one_of ids a.delivery_id && is_null a.ended_at) (drained_attempt ended)
          db.attempts;
  }

  unfoldable pub drain_ids : Db → List String
  unfolding matches
  drain_ids db = map (λ d. d.delivery_id) (take f.limit (select matches db.deliveries))

  unfoldable pub drain : ℕ → Db → Drained × Db
  drain matched db =
      if f.dry_run || (matched == 0)
      then (record { matched = matched; drained = 0; dry_run = f.dry_run; ids = [] }, db)
      else (
        record {
          matched = matched;
          drained = count (λ d. one_of (drain_ids db) d.delivery_id) db.deliveries;
          dry_run = false;
          ids = take 25 (drain_ids db);
        },
        write_drain (drain_ids db) db,
      )

  unfoldable pub clear_deliveries : Db → Result Drained × Db
  clear_deliveries db =
      if not (leb 1 f.limit && leb f.limit 10000)
      then (err invalid_limit, db)
      else if not (is_clearable f.status)
      then (err invalid_status, db)
      else if same_as f.job_id ""
      then (err empty_job_id, db)
      else (let (report, after) = drain (count matches db.deliveries) db in (ok report, after))
