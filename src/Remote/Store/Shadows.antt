-- ===== src/Remote/Store/Shadows.antt =====
-- The shadows of `RemoteStore`, src/vanth/remote/store.py: what a controller keeps of remote jobs.
use vanth.Prelude.{
  ℕ, Bool, true, false, not, ◌&&◌, String, Option, none, some, List, [], ◌∷◌, ◌++◌, same, ltb, ◌==◌,
  if◌then◌else◌,
}
use vanth.Prelude.Rows.{select, find, update, count}
use vanth.Time.{text_le}
use vanth.Remote.Store.{Reply, raised, returned}
use vanth.Remote.Store.Remotes.{Remote, get_remote}

-- A row of `remote_shadows`; `payload` is its JSON text.
pub record Shadow : Type 0 where
  pub shadow_id : String
  pub remote_id : String
  pub remote_job_id : String
  pub status : String
  pub payload : Option String
  pub state_epoch : ℕ
  pub suppressed_at : Option ℕ
  pub superseded_at : Option ℕ
  pub created_at : ℕ
  pub updated_at : ℕ

abbrev pub is_set : Option ℕ → Bool
is_set none = false
is_set (some t) = true

-- remote_id=? AND remote_job_id=?
unfoldable pub of_job : String → String → Shadow → Bool
of_job remote job r = same r.remote_id remote && same r.remote_job_id job

-- shadow_id=?
abbrev pub with_shadow : String → Shadow → Bool
with_shadow id r = same r.shadow_id id

-- What a caller of `upsert_shadow` gives. The epoch is a parameter of each page or batch.
pub record Report : Type 0 where
  pub remote_id : String
  pub remote_job_id : String
  pub status : String
  pub payload : Option String

unfoldable pub report_to : ℕ → ℕ → Report → Shadow → Shadow
report_to stamp epoch j r = record r {
  status = j.status;
  payload = j.payload;
  state_epoch = epoch;
  updated_at = stamp;
}

unfoldable pub new_shadow : ℕ → String → ℕ → Report → Shadow
new_shadow stamp id epoch j = record {
  shadow_id = id;
  remote_id = j.remote_id;
  remote_job_id = j.remote_job_id;
  status = j.status;
  payload = j.payload;
  state_epoch = epoch;
  suppressed_at = none;
  superseded_at = none;
  created_at = stamp;
  updated_at = stamp;
}

-- `existing` of `upsert_shadow`, and what it does with it
unfoldable pub upsert_at :
    ℕ → String → ℕ → Report → Option Shadow → List Shadow → Option Shadow × List Shadow
unfolding report_to new_shadow of_job
upsert_at stamp id epoch j none rows =
    let next = rows ++ new_shadow stamp id epoch j ∷ [] in
    (find (of_job j.remote_id j.remote_job_id) next, next)
upsert_at stamp id epoch j (some old) rows =
    let next = update (with_shadow old.shadow_id) (report_to stamp epoch j) rows in
    if is_set old.suppressed_at
    then (none, rows)
    else if ltb epoch old.state_epoch
    then (none, rows)
    else (find (with_shadow old.shadow_id) next, next)

-- `upsert_shadow`; the identifier is the one that `secrets` gives to a new row.
unfoldable pub upsert_shadow : ℕ → String → ℕ → Report → List Shadow → Option Shadow × List Shadow
unfolding upsert_at of_job
upsert_shadow stamp id epoch j rows =
    upsert_at stamp id epoch j (find (of_job j.remote_id j.remote_job_id) rows) rows

unfoldable pub submitted : ℕ → String → Report → Option Shadow → List Shadow → List Shadow
unfolding new_shadow
submitted stamp id j none rows = rows ++ new_shadow stamp id 1 j ∷ []
submitted stamp id j (some old) rows = rows

-- `record_submitting_shadow`, for the payload that it makes of the request
unfoldable pub record_submitting_shadow :
    ℕ → String → String → String → String → List Shadow → List Shadow
unfolding submitted of_job
record_submitting_shadow stamp id remote request payload rows =
    submitted stamp id
      (record {
        remote_id = remote;
        remote_job_id = request;
        status = "submitting";
        payload = some payload;
      })
      (find (of_job remote request) rows) rows

unfoldable pub suppress : ℕ → Shadow → Shadow
suppress stamp r = record r { suppressed_at = some stamp; updated_at = stamp }

unfoldable pub suppress_shadow : ℕ → String → String → List Shadow → List Shadow
unfolding suppress of_job
suppress_shadow stamp remote job rows = update (of_job remote job) (suppress stamp) rows

-- remote_id=? AND state_epoch<? AND superseded_at IS NULL
unfoldable pub outdated : String → ℕ → Shadow → Bool
outdated remote epoch r =
    same r.remote_id remote && (ltb r.state_epoch epoch && not (is_set r.superseded_at))

unfoldable pub supersede : ℕ → Shadow → Shadow
supersede stamp r = record r { superseded_at = some stamp; updated_at = stamp }

unfoldable pub supersede_old_epochs : ℕ → String → ℕ → List Shadow → ℕ × List Shadow
unfolding outdated supersede
supersede_old_epochs stamp remote epoch rows =
    (count (outdated remote epoch) rows, update (outdated remote epoch) (supersede stamp) rows)

-- remote_id=? AND suppressed_at IS NULL AND superseded_at IS NULL AND state_epoch=?
unfoldable pub listed : String → ℕ → Shadow → Bool
listed remote epoch r =
    same r.remote_id remote
    && (not (is_set r.suppressed_at) && (not (is_set r.superseded_at) && (r.state_epoch == epoch)))

-- ORDER BY created_at ASC, ties in the table's order
unfoldable pub insert_by_creation : Shadow → List Shadow → List Shadow
insert_by_creation r [] = r ∷ []
insert_by_creation r (x ∷ xs) =
    if text_le r.created_at x.created_at then r ∷ x ∷ xs else x ∷ insert_by_creation r xs

unfoldable pub by_creation : List Shadow → List Shadow
unfolding insert_by_creation
by_creation [] = []
by_creation (r ∷ rs) = insert_by_creation r (by_creation rs)

unfoldable pub live_shadows : String → List Shadow → Remote → List Shadow
unfolding by_creation listed
live_shadows remote rows at = by_creation (select (listed remote at.state_epoch) rows)

unfoldable pub listing : String → List Shadow → Reply Remote → Reply (List Shadow)
unfolding live_shadows
listing remote rows (raised e) = raised e
listing remote rows (returned at) = returned (live_shadows remote rows at)

unfoldable pub current_shadows : String → List Remote → List Shadow → Reply (List Shadow)
unfolding listing
current_shadows remote remotes rows = listing remote rows (get_remote remote remotes)

-- ... AND suppressed_at IS NULL
unfoldable pub not_forgotten : String → String → Shadow → Bool
unfolding of_job
not_forgotten remote job r = of_job remote job r && not (is_set r.suppressed_at)

unfoldable pub get_shadow : String → String → List Shadow → Option Shadow
unfolding not_forgotten
get_shadow remote job rows = find (not_forgotten remote job) rows
