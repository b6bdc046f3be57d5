-- ===== src/Remote/Control/Batches.antt =====
-- The change feed in src/vanth/remote/control.py: batches, and the cursor that they advance.
use vanth.Prelude.{
  ℕ, ◌+◌, Bool, true, false, not, ◌&&◌, String, Option, none, some, List, [], ◌∷◌, ltb, leb, ◌==◌,
  if◌then◌else◌,
}
use vanth.Remote.Store.{Reply, raised, returned, invalid_request}
use vanth.Remote.Store.Remotes.{Cursor, Remote, set_feed_cursor, get_feed_cursor}
use vanth.Remote.Store.Shadows.{Shadow, upsert_shadow, suppress_shadow}
use vanth.Remote.Control.{Controller, JobView, report, one_if, epoch_raised}

-- (state_epoch, feed_epoch) of the two are equal
unfoldable pub same_timeline : Cursor → Cursor → Bool
same_timeline a b = (a.state_epoch == b.state_epoch) && (a.feed_epoch == b.feed_epoch)

unfoldable pub ahead : Cursor → Option Cursor → Bool
unfolding same_timeline
ahead incoming none = false
ahead incoming (some stored) = same_timeline stored incoming && ltb incoming.seq stored.seq

-- `_advance_feed_cursor`
unfoldable pub advance_feed_cursor : ℕ → String → Cursor → List Remote → List Remote
unfolding ahead
advance_feed_cursor stamp remote incoming rows =
    if ahead incoming (get_feed_cursor remote rows)
    then rows
    else set_feed_cursor stamp remote (some incoming) rows

-- `_cursor_is_gapped`, for a response that has both epochs; `oldest` is its `oldest_seq`.
unfoldable pub cursor_is_gapped : Option Cursor → Cursor → Option ℕ → Bool
unfolding same_timeline
cursor_is_gapped none at oldest = false
cursor_is_gapped (some c) at none = not (same_timeline c at)
cursor_is_gapped (some c) at (some oldest) =
    if same_timeline c at then ltb (c.seq + 1) oldest else true

pub data Change : Type 0 where
  job_upsert : JobView → Change
  job_tombstone : (job_id : String) → Change
  unknown_change : Change

-- A response to `job.feed`: its epochs with the sequence number of its cursor, and its changes.
pub record Batch : Type 0 where
  pub at : Cursor
  pub changes : List Change

pub data SkipReason : Type 0 where
  timeline_mismatch cursor_changed fully_superseded : SkipReason

unfoldable pub flown : Cursor → Option Cursor → Bool
unfolding same_timeline
flown stored none = false
flown stored (some asked) = not (same_timeline stored asked)

-- `reject_reason`, from the durable cursor, the cursor that was asked with, and the response
unfoldable pub reject_reason : Option Cursor → Option Cursor → Cursor → Option SkipReason
unfolding same_timeline flown
reject_reason none asked at = none
reject_reason (some stored) asked at =
    if not (same_timeline stored at)
    then some timeline_mismatch
    else if flown stored asked
    then some cursor_changed
    else if leb at.seq stored.seq && ltb 0 at.seq
    then some fully_superseded
    else none

pub record Counts : Type 0 where
  pub applied : ℕ
  pub suppressed : ℕ

unfoldable pub counted : ℕ → ℕ → Reply (Counts × List Shadow) → Reply (Counts × List Shadow)
counted a s (raised e) = raised e
counted a s (returned (n, rows)) =
    returned (record { applied = a + n.applied; suppressed = s + n.suppressed }, rows)

-- for change in changes
unfoldable pub apply_changes :
    ℕ → String → ℕ → List Change → List Shadow → Reply (Counts × List Shadow)
unfolding counted
apply_changes stamp remote epoch [] rows = returned (record { applied = 0; suppressed = 0 }, rows)
apply_changes stamp remote epoch (job_upsert v ∷ cs) rows =
    let now = upsert_shadow stamp v.fresh epoch (report remote v) rows in
    counted (one_if now.0) 0 (apply_changes stamp remote epoch cs now.1)
apply_changes stamp remote epoch (job_tombstone job ∷ cs) rows =
    counted 0 1 (apply_changes stamp remote epoch cs (suppress_shadow stamp remote job rows))
apply_changes stamp remote epoch (unknown_change ∷ cs) rows = raised invalid_request

-- What `feed_sync` answers of a batch, with the cursor that is durable afterwards. (Where there is
-- none it answers with the response's.)
pub data Fed : Type 0 where
  stale_batch_skipped : SkipReason → Option Cursor → Fed
  fed : Counts → Option Cursor → Fed

unfoldable pub published :
    ℕ → String → Cursor → List Remote → Reply (Counts × List Shadow) → Reply (Fed × Controller)
unfolding advance_feed_cursor
published stamp remote at remotes (raised e) = raised e
published stamp remote at remotes (returned (n, rows)) =
    let next =
      epoch_raised stamp remote at.state_epoch
        (record { remotes = advance_feed_cursor stamp remote at remotes; shadows = rows }) in
    returned (fed n (get_feed_cursor remote next.remotes), next)

unfoldable pub unless_stale :
    ℕ → String → Batch → Controller → Option SkipReason → Reply (Fed × Controller)
unfolding published
unless_stale stamp remote b c (some reason) =
    returned (stale_batch_skipped reason (get_feed_cursor remote c.remotes), c)
unless_stale stamp remote b c none =
    published stamp remote b.at c.remotes
      (apply_changes stamp remote b.at.state_epoch b.changes c.shadows)

-- The transaction of `feed_sync`: an unknown change rolls everything back.
unfoldable pub apply_batch :
    ℕ → String → Option Cursor → Batch → Controller → Reply (Fed × Controller)
unfolding unless_stale reject_reason
apply_batch stamp remote asked b c =
    unless_stale stamp remote b c (reject_reason (get_feed_cursor remote c.remotes) asked b.at)
