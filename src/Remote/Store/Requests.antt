-- ===== src/Remote/Store/Requests.antt =====
-- The requests and replay tombstones of `RemoteStore`, src/vanth/remote/store.py.
use vanth.Prelude.{
  ℕ, ◌-◌, Bool, ◌&&◌, ◌||◌, String, Option, none, some, List, [], ◌∷◌, ◌++◌, same, ◌==◌,
  if◌then◌else◌,
}
use vanth.Prelude.Rows.{find, update, count, delete}
use vanth.Time.{seconds, text_le}
use vanth.Remote.Store.{Reply, raised, returned, value_error, replay_mismatch, transition}
use vanth.Remote.Store.Remotes.{Remote, with_remote}

-- What a caller gives; `payload` is its JSON text.
pub record Submission : Type 0 where
  pub remote_id : String
  pub idempotency_key : String
  pub method : String
  pub payload : String
  pub digest : String
  pub expected_state_epoch : Option ℕ
  pub expected_instance_id : Option String

-- A row of `remote_requests`.
pub record Request : Type 0 where
  pub request_id : String
  pub submission : Submission
  pub status : String
  pub response : Option String
  pub error : Option String
  pub created_at : ℕ
  pub updated_at : ℕ

-- A row of `remote_replay_tombstones`.
pub record Tombstone : Type 0 where
  pub tombstone_id : String
  pub remote_id : String
  pub idempotency_key : String
  pub digest : String
  pub created_at : ℕ

-- remote_id=? AND idempotency_key=?
unfoldable pub with_key : String → String → Request → Bool
with_key remote key r = same r.submission.remote_id remote && same r.submission.idempotency_key key

-- request_id=?
abbrev pub with_id : String → Request → Bool
with_id id r = same r.request_id id

unfoldable pub new_request : ℕ → String → Submission → Request
new_request stamp id s = record {
  request_id = id;
  submission = s;
  status = "creating";
  response = none;
  error = none;
  created_at = stamp;
  updated_at = stamp;
}

-- `existing` of `record_request`: the row that it answers with, and the table that it leaves
unfoldable pub recorded :
    ℕ → String → Submission → Option Request → List Request → Reply Request × List Request
unfolding new_request
recorded stamp id s none rows =
    (returned (new_request stamp id s), rows ++ new_request stamp id s ∷ [])
recorded stamp id s (some old) rows =
    if same old.submission.digest s.digest
    then (returned old, rows)
    else (raised replay_mismatch, rows)

unfoldable pub record_request :
    ℕ → String → Submission → List Remote → List Request → Reply Request × List Request
unfolding recorded with_key
record_request stamp id s remotes rows =
    if count (with_remote s.remote_id) remotes == 0
    then (raised value_error, rows)
    else recorded stamp id s (find (with_key s.remote_id s.idempotency_key) rows) rows

unfoldable pub get_request_by_key : String → String → List Request → Option Request
unfolding with_key
get_request_by_key remote key rows = find (with_key remote key) rows

abbrev coalesce : Option String → Option String → Option String
coalesce none old = old
coalesce (some new) old = some new

unfoldable pub set_status : ℕ → String → Option String → Option String → Request → Request
set_status stamp status response error r = record r {
  status = status;
  response = coalesce response r.response;
  error = coalesce error r.error;
  updated_at = stamp;
}

-- The new row's status is the argument, not the state that `transition` gives.
unfoldable pub updated :
    ℕ
    → String
    → String
    → Option String
    → Option String
    → List Request
    → Reply String
    → Reply (List Request)
unfolding set_status
updated stamp id status response error rows (raised e) = raised e
updated stamp id status response error rows (returned next) =
    returned (update (with_id id) (set_status stamp status response error) rows)

unfoldable pub status_moved : String → Option Request → Reply String
status_moved status none = raised value_error
status_moved status (some r) = transition r.status status "request"

unfoldable pub update_request_status :
    ℕ → String → String → Option String → Option String → List Request → Reply (List Request)
unfolding updated status_moved
update_request_status stamp id status response error rows =
    updated stamp id status response error rows (status_moved status (find (with_id id) rows))

abbrev pub settled : String → Bool
settled status = same status "completed" || (same status "failed" || same status "lost")

-- status IN (...) AND updated_at <= ?
unfoldable pub prunable : ℕ → Request → Bool
prunable cutoff r = settled r.status && text_le r.updated_at cutoff

abbrev old_tombstone : ℕ → Tombstone → Bool
old_tombstone cutoff t = text_le t.created_at cutoff

-- An age of 0 or less prunes nothing. A cutoff before 1970 counts as 1970.
unfoldable pub prune_requests :
    ℕ → ℕ → List Request → List Tombstone → (ℕ × ℕ) × List Request × List Tombstone
unfolding prunable
prune_requests now age rows tombs = if age == 0 then ((0, 0), rows, tombs) else (
  (count (prunable (now - seconds age)) rows, count (old_tombstone (now - seconds age)) tombs),
  delete (prunable (now - seconds age)) rows,
  delete (old_tombstone (now - seconds age)) tombs,
)

unfoldable pub tomb_of : String → String → Tombstone → Bool
tomb_of remote key t = same t.remote_id remote && same t.idempotency_key key

tombstoned : Tombstone → Option Tombstone → List Tombstone → Tombstone × List Tombstone
tombstoned t none tombs = (t, tombs ++ t ∷ [])
tombstoned t (some old) tombs = (old, tombs)

unfoldable pub record_replay_tombstone :
    ℕ → String → String → String → String → List Tombstone → Tombstone × List Tombstone
unfolding tombstoned tomb_of
record_replay_tombstone stamp id remote key digest tombs =
    tombstoned
      (record {
        tombstone_id = id;
        remote_id = remote;
        idempotency_key = key;
        digest = digest;
        created_at = stamp;
      })
      (find (tomb_of remote key) tombs) tombs

unfoldable pub get_replay_tombstone : String → String → List Tombstone → Option Tombstone
unfolding tomb_of
get_replay_tombstone remote key tombs = find (tomb_of remote key) tombs
