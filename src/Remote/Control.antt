-- ===== src/Remote/Control.antt =====
-- src/vanth/remote/control.py: how a controller applies the snapshots and feed batches of a remote.
pub mod Batches
pub mod Live
pub mod Once
pub mod Sync
pub mod Tests
use vanth.Prelude.{
  ℕ, zero, suc, ◌+◌, Bool, true, false, not, ◌&&◌, ◌||◌, String, Option, none, some, List, [], ◌∷◌,
  same, ltb, leb, ◌==◌, if◌then◌else◌,
}
use vanth.Remote.Store.{Reply, raised, returned, StoreError, value_error}
use vanth.Remote.Store.Remotes.{
  Cursor, Remote, get_remote, set_snapshot_cursor, set_feed_cursor, get_feed_cursor,
  raise_state_epoch,
}
use vanth.Remote.Store.Shadows.{
  Shadow, Report, upsert_shadow, suppress_shadow, supersede_old_epochs, current_shadows,
}

-- The tables of `RemoteStore` that are written here.
pub record Controller : Type 0 where
  pub remotes : List Remote
  pub shadows : List Shadow

-- A job of a snapshot page, or of a `job.upsert`; `fresh` is the identifier for a new row.
pub record JobView : Type 0 where
  pub job_id : String
  pub status : String
  pub payload : String
  pub fresh : String

unfoldable pub report : String → JobView → Report
report remote v = record {
  remote_id = remote;
  remote_job_id = v.job_id;
  status = v.status;
  payload = some v.payload;
}

abbrev pub one_if : {A : Type 0} → Option A → ℕ
one_if none = 0
one_if (some a) = 1

-- for job in jobs: upsert_shadow
unfoldable pub upsert_all : ℕ → String → ℕ → List JobView → List Shadow → ℕ × List Shadow
unfolding report
upsert_all stamp remote epoch [] rows = (0, rows)
upsert_all stamp remote epoch (v ∷ vs) rows =
    let now = upsert_shadow stamp v.fresh epoch (report remote v) rows in
    let rest = upsert_all stamp remote epoch vs now.1 in (one_if now.0 + rest.0, rest.1)

-- job_id in seen_ids
unfoldable pub seen : String → List JobView → Bool
seen job [] = false
seen job (v ∷ vs) = same v.job_id job || seen job vs

-- for shadow in current_shadows: suppress it where its job is not in seen_ids
unfoldable pub suppress_unseen :
    ℕ → String → List JobView → List Shadow → List Shadow → ℕ × List Shadow
suppress_unseen stamp remote jobs [] rows = (0, rows)
suppress_unseen stamp remote jobs (r ∷ rs) rows =
    let rest = suppress_unseen stamp remote jobs rs (
      if seen r.remote_job_id jobs
      then rows
      else suppress_shadow stamp remote r.remote_job_id rows) in
    ((if seen r.remote_job_id jobs then 0 else 1) + rest.0, rest.1)

unfoldable pub reconciled :
    ℕ → String → List JobView → String → Controller → Reply (List Shadow) → Reply (ℕ × Controller)
unfolding suppress_unseen
reconciled stamp remote jobs cursor c (raised e) = raised e
reconciled stamp remote jobs cursor c (returned live) =
    let next = suppress_unseen stamp remote jobs live c.shadows in
    returned (
      next.0,
      record { remotes = set_snapshot_cursor stamp remote cursor c.remotes; shadows = next.1 },
    )

-- `_finalize_snapshot_locked`; `cursor` is the JSON text of the cursor with its epoch.
unfoldable pub finalize_snapshot_locked :
    ℕ → String → List JobView → String → Controller → Reply (ℕ × Controller)
unfolding reconciled
finalize_snapshot_locked stamp remote jobs cursor c =
    reconciled stamp remote jobs cursor c (current_shadows remote c.remotes c.shadows)

pub record Totals : Type 0 where
  pub applied : ℕ
  pub deleted : ℕ
  pub superseded : ℕ

unfoldable pub applied_page : ℕ → String → ℕ → List JobView → Controller → (ℕ × ℕ) × Controller
unfolding upsert_all
applied_page stamp remote epoch jobs c =
    let page = upsert_all stamp remote epoch jobs c.shadows in
    let old = supersede_old_epochs stamp remote epoch page.1 in
    ((page.0, old.0), record c { shadows = old.1 })

unfoldable pub epoch_raised : ℕ → String → ℕ → Controller → Controller
epoch_raised stamp remote epoch c = record c {
  remotes = raise_state_epoch stamp remote epoch c.remotes;
}

unfoldable pub finished :
    ℕ → String → ℕ → ℕ × ℕ → Reply (ℕ × Controller) → Reply (Totals × Controller)
unfolding epoch_raised
finished stamp remote epoch counts (raised e) = raised e
finished stamp remote epoch counts (returned (deleted, c)) = returned (
  record { applied = counts.0; deleted = deleted; superseded = counts.1 },
  epoch_raised stamp remote epoch c,
)

-- `apply_snapshot`: an error rolls everything back.
unfoldable pub apply_snapshot :
    ℕ → String → ℕ → List JobView → String → Bool → Controller → Reply (Totals × Controller)
unfolding finished applied_page
apply_snapshot stamp remote epoch jobs cursor final_page c =
    let page = applied_page stamp remote epoch jobs c in
    finished stamp remote epoch page.0 (
      if final_page
      then finalize_snapshot_locked stamp remote jobs cursor page.1
      else returned (0, page.1))

published_last : ℕ → String → ℕ → Reply (ℕ × Controller) → Reply (ℕ × Controller)
unfolding epoch_raised
published_last stamp remote epoch (raised e) = raised e
published_last stamp remote epoch (returned (deleted, c)) =
    returned (deleted, epoch_raised stamp remote epoch c)

-- `finalize_snapshot`
unfoldable pub finalize_snapshot :
    ℕ → String → ℕ → List JobView → String → Controller → Reply (ℕ × Controller)
unfolding published_last
finalize_snapshot stamp remote epoch jobs cursor c =
    published_last stamp remote epoch (finalize_snapshot_locked stamp remote jobs cursor c)
