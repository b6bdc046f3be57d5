-- ===== src/Remote/Store/Operations.antt =====
-- `RemoteOperationStore` of src/vanth/remote/store.py: what a remote keeps of accepted operations.
use vanth.Prelude.{
  ℕ, Bool, ◌||◌, String, Option, none, some, List, [], ◌∷◌, ◌++◌, same, if◌then◌else◌,
}
use vanth.Prelude.Rows.{find, update, delete}
use vanth.Remote.Store.{Reply, raised, returned, value_error, replay_mismatch, transition}

-- A row of `remote_operations`; `payload` is its JSON text.
pub record Operation : Type 0 where
  pub op_id : String
  pub idempotency_key : String
  pub method : String
  pub payload : String
  pub digest : String
  pub status : String
  pub created_at : ℕ
  pub updated_at : ℕ

-- A row of `remote_job_origins`.
pub record Origin : Type 0 where
  pub op_id : String
  pub remote_job_id : String
  pub origin : String
  pub launch_intent : String
  pub created_at : ℕ

-- A row of `remote_replay_tombstones` on the remote.
pub record Tombstone : Type 0 where
  pub tombstone_id : String
  pub idempotency_key : String
  pub digest : String
  pub created_at : ℕ

-- idempotency_key=?
abbrev pub with_key : String → Operation → Bool
with_key key o = same o.idempotency_key key

-- op_id=?
abbrev pub with_op : String → Operation → Bool
with_op id o = same o.op_id id

unfoldable pub new_operation : ℕ → String → String → String → String → String → Operation
new_operation stamp id key method payload digest = record {
  op_id = id;
  idempotency_key = key;
  method = method;
  payload = payload;
  digest = digest;
  status = "accepted";
  created_at = stamp;
  updated_at = stamp;
}

accepted : Operation → Option Operation → List Operation → Reply Operation × List Operation
accepted new none rows = (returned new, rows ++ new ∷ [])
accepted new (some old) rows =
    if same old.digest new.digest then (returned old, rows) else (raised replay_mismatch, rows)

unfoldable pub record_operation :
    ℕ
    → String
    → String
    → String
    → String
    → String
    → List Operation
    → Reply Operation × List Operation
unfolding accepted new_operation
record_operation stamp id key method payload digest rows =
    accepted (new_operation stamp id key method payload digest) (find (with_key key) rows) rows

unfoldable pub get_operation : String → List Operation → Option Operation
get_operation key rows = find (with_key key) rows

or_old : Option String → String → String
or_old none old = old
or_old (some new) old = new

updated :
    ℕ → String → String → Option String → List Operation → Reply String → Reply (List Operation)
unfolding or_old
updated stamp id status payload rows (raised e) = raised e
updated stamp id status payload rows (returned next) = returned (
    update (with_op id)
      (λ o. record o { status = status; payload = or_old payload o.payload; updated_at = stamp })
      rows)

moved : String → Option Operation → Reply String
moved status none = raised value_error
moved status (some o) = transition o.status status "operation"

unfoldable pub update_operation_status :
    ℕ → String → String → Option String → List Operation → Reply (List Operation)
unfolding updated moved
update_operation_status stamp id status payload rows =
    updated stamp id status payload rows (moved status (find (with_op id) rows))

-- op_id=?
abbrev pub origin_op : Origin → String
origin_op r = r.op_id

-- remote_job_id=?
abbrev pub origin_job : Origin → String
origin_job r = r.remote_job_id

-- The rows that INSERT OR REPLACE deletes: PRIMARY KEY(op_id), UNIQUE(remote_job_id)
unfoldable pub conflicting : String → String → Origin → Bool
conflicting op job r = same r.op_id op || same r.remote_job_id job

unfoldable pub record_queued_job : ℕ → String → String → String → List Origin → List Origin
unfolding conflicting
record_queued_job stamp op job origin rows =
    delete (conflicting op job) rows
    ++ record {
      op_id = op;
      remote_job_id = job;
      origin = origin;
      launch_intent = "queued";
      created_at = stamp;
    }
      ∷ []

unfoldable pub get_remote_job_origin : String → List Origin → Option Origin
get_remote_job_origin job rows = find (λ r. same r.remote_job_id job) rows

abbrev pub op_of : Option Origin → Option String
op_of none = none
op_of (some r) = some r.op_id

abbrev pub job_of : Option Origin → Option String
job_of none = none
job_of (some r) = some r.remote_job_id

unfoldable pub get_remote_job_origin_op : String → List Origin → Option String
get_remote_job_origin_op op rows = job_of (find (λ r. same r.op_id op) rows)

unfoldable pub get_remote_operation_by_job : String → List Origin → Option String
get_remote_operation_by_job job rows = op_of (find (λ r. same r.remote_job_id job) rows)

tombstoned : Tombstone → Option Tombstone → List Tombstone → Tombstone × List Tombstone
tombstoned new none tombs = (new, tombs ++ new ∷ [])
tombstoned new (some old) tombs = (old, tombs)

unfoldable pub record_replay_tombstone :
    ℕ → String → String → String → List Tombstone → Tombstone × List Tombstone
unfolding tombstoned
record_replay_tombstone stamp id key digest tombs =
    tombstoned
      (record { tombstone_id = id; idempotency_key = key; digest = digest; created_at = stamp })
      (find (λ t. same t.idempotency_key key) tombs) tombs

unfoldable pub get_replay_tombstone : String → List Tombstone → Option Tombstone
get_replay_tombstone key tombs = find (λ t. same t.idempotency_key key) tombs
