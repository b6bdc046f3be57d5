-- ===== src/Remote/Journal.antt =====
-- `RequestJournal` of src/vanth/remote/journal.py: the durable record of a controller's requests.
pub mod Kept
use vanth.Prelude.{
  ℕ, zero, suc, ◌-◌, Bool, true, false, not, ◌&&◌, String, Option, none, some, List, [], ◌∷◌, ◌++◌,
  same, ◌==◌, if◌then◌else◌,
}
use vanth.Prelude.Rows.{select, find, update, count, delete}
use vanth.Time.{seconds, text_le}

pub data EntryStatus : Type 0 where
  pending resolved : EntryStatus

-- What `record` reads of a request; `payload` is its JSON text.
pub record Request : Type 0 where
  pub request_id : String
  pub remote_id : String
  pub idempotency_key : String
  pub method : String
  pub payload : String
  pub digest : String
  pub expected_state_epoch : Option ℕ
  pub expected_instance_id : Option String

-- A row of `client_requests`.
pub record Entry : Type 0 where
  pub request : Request
  pub status : EntryStatus
  pub created_at : ℕ
  pub updated_at : ℕ

-- SQLite's `IntegrityError`, for UNIQUE(remote_id, idempotency_key)
pub data Outcome : Type 0 where
  done integrity_error : Outcome

abbrev pub is_resolved : EntryStatus → Bool
is_resolved resolved = true
is_resolved pending = false

-- request_id=?
abbrev pub with_request : String → Entry → Bool
with_request id e = same e.request.request_id id

unfoldable pub same_key : Request → Entry → Bool
same_key r e =
    same e.request.remote_id r.remote_id && same e.request.idempotency_key r.idempotency_key

-- `record`: ON CONFLICT(request_id) DO NOTHING is tried before the other constraint.
unfoldable pub record_request : ℕ → Request → List Entry → Outcome × List Entry
record_request stamp r rows =
    if not (count (with_request r.request_id) rows == 0)
    then (done, rows)
    else if count (same_key r) rows == 0
    then (
      done,
      rows ++ record { request = r; status = pending; created_at = stamp; updated_at = stamp } ∷ [],
    )
    else (integrity_error, rows)

unfoldable pub resolve_entry : ℕ → Entry → Entry
resolve_entry stamp e = record e { status = resolved; updated_at = stamp }

unfoldable pub mark_resolved : ℕ → String → List Entry → List Entry
unfolding resolve_entry
mark_resolved stamp id rows = update (with_request id) (resolve_entry stamp) rows

-- status='resolved' AND updated_at <= ?
unfoldable pub prunable : ℕ → Entry → Bool
prunable cutoff e = is_resolved e.status && text_le e.updated_at cutoff

-- An age of 0 or less prunes nothing. A cutoff before 1970 counts as 1970.
unfoldable pub prune_resolved : ℕ → ℕ → List Entry → ℕ × List Entry
unfolding prunable
prune_resolved now age rows =
    if age == 0
    then (0, rows)
    else (count (prunable (now - seconds age)) rows, delete (prunable (now - seconds age)) rows)

-- ORDER BY created_at ASC, ties in the table's order
unfoldable pub insert_by_creation : Entry → List Entry → List Entry
insert_by_creation e [] = e ∷ []
insert_by_creation e (x ∷ xs) =
    if text_le e.created_at x.created_at then e ∷ x ∷ xs else x ∷ insert_by_creation e xs

unfoldable pub by_creation : List Entry → List Entry
unfolding insert_by_creation
by_creation [] = []
by_creation (e ∷ es) = insert_by_creation e (by_creation es)

-- `if remote_id`: the empty text filters nothing
unfoldable pub of_remote : Option String → Entry → Bool
of_remote none e = true
of_remote (some remote) e = if same remote "" then true else same e.request.remote_id remote

unfoldable pub pending_entries : Option String → List Entry → List Entry
unfolding of_remote by_creation
pending_entries remote rows =
    by_creation (select (λ e. not (is_resolved e.status) && of_remote remote e) rows)

unfoldable pub get : String → List Entry → Option Entry
get id rows = find (with_request id) rows
