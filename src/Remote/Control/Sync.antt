-- ===== src/Remote/Control/Sync.antt =====
-- `_sync_snapshot` of src/vanth/remote/control.py: the pages of a snapshot, and their publication.
use vanth.Prelude.{
  ℕ, Bool, true, false, not, ◌&&◌, String, Option, none, some, List, [], ◌∷◌, ◌++◌, same, ◌==◌,
  if◌then◌else◌,
}
use vanth.Remote.Store.{Reply, raised, returned, invalid_request}
use vanth.Remote.Store.Remotes.{Cursor, Remote, get_remote, get_feed_cursor}
use vanth.Remote.Control.{
  Controller, JobView, Totals, applied_page, finalize_snapshot_locked, epoch_raised,
}
use vanth.Remote.Control.Batches.{same_timeline, advance_feed_cursor}

-- What every page of one snapshot carries alike.
pub record Identity : Type 0 where
  pub high_water : ℕ
  pub boundary : Cursor
  pub snapshot_id : String

-- A page that is well formed.
pub record SnapshotPage : Type 0 where
  pub identity : Identity
  pub jobs : List JobView
  pub has_more : Bool

unfoldable pub same_cursor : Cursor → Cursor → Bool
unfolding same_timeline
same_cursor a b = same_timeline a b && (a.seq == b.seq)

unfoldable pub same_identity : Identity → Identity → Bool
unfolding same_cursor
same_identity a b =
    (a.high_water == b.high_water)
    && (same_cursor a.boundary b.boundary && same a.snapshot_id b.snapshot_id)

-- The loop: the jobs of the pages that the remote answers with, in order. A page that is lost or
-- malformed is `none`, and so is one after the end of the list.
unfoldable pub more_pages : Identity → List (Option SnapshotPage) → Reply (List JobView)
more_pages id [] = raised invalid_request
more_pages id (none ∷ ps) = raised invalid_request
more_pages id (some p ∷ ps) =
    let rest = more_pages id ps in
    if not (same_identity id p.identity)
    then raised invalid_request
    else if not p.has_more
    then returned p.jobs
    else elim rest [ raised e ↦ raised e | returned jobs ↦ returned (p.jobs ++ jobs) ]

unfoldable pub fetch : List (Option SnapshotPage) → Reply (Identity × List JobView)
unfolding more_pages
fetch [] = raised invalid_request
fetch (none ∷ ps) = raised invalid_request
fetch (some p ∷ ps) = elim (more_pages p.identity (some p ∷ ps)) [
  | raised e ↦ raised e
  | returned jobs ↦ returned (p.identity, jobs)
]

unfoldable pub same_progress : Option Cursor → Option Cursor → Bool
unfolding same_cursor
same_progress none none = true
same_progress (some a) (some b) = same_cursor a b
same_progress none (some b) = false
same_progress (some a) none = false

finalized : ℕ → String → Cursor → ℕ × ℕ → Reply (ℕ × Controller) → Reply (Totals × Controller)
unfolding epoch_raised advance_feed_cursor
finalized stamp remote at counts (raised e) = raised e
finalized stamp remote at counts (returned (deleted, c)) = returned (
  record { applied = counts.0; deleted = deleted; superseded = counts.1 },
  epoch_raised stamp remote at.state_epoch
      (record c { remotes = advance_feed_cursor stamp remote at c.remotes }),
)

unless_raced :
    ℕ
    → String
    → Option Cursor × ℕ
    → Cursor
    → List JobView
    → String
    → Controller
    → Reply Remote
    → Reply (Totals × Controller)
unfolding finalized same_progress applied_page
unless_raced stamp remote baseline at jobs cursor c (raised e) = raised e
unless_raced stamp remote baseline at jobs cursor c (returned now) =
    let page = applied_page stamp remote at.state_epoch jobs c in
    if same_progress (get_feed_cursor remote c.remotes) baseline.0
      && (now.state_epoch == baseline.1)
    then finalized stamp remote at page.0 (finalize_snapshot_locked stamp remote jobs cursor page.1)
    else raised invalid_request

-- The publishing transaction, for the progress that was read before the pages were fetched.
unfoldable pub publish :
    ℕ
    → String
    → Option Cursor × ℕ
    → Cursor
    → List JobView
    → String
    → Controller
    → Reply (Totals × Controller)
unfolding unless_raced
publish stamp remote baseline at jobs cursor c =
    unless_raced stamp remote baseline at jobs cursor c (get_remote remote c.remotes)
