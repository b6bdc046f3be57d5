-- ===== src/Remote/Control/Tests.antt =====
-- A concrete controller, and the theorems of this folder at work on it.
use vanth.Prelude.{ℕ, ◌≡◌, refl, true, false, none, some, List, [], ◌∷◌, String, arith, All, ◌==◌}
use vanth.Prelude.Tests.{same}
use vanth.Prelude.Rows.{find, update, count}
use vanth.Remote.Store.{returned}
use vanth.Remote.Store.Remotes.{
  Cursor, with_remote, get_remote, get_feed_cursor, set_feed_cursor, raise_state_epoch,
}
use vanth.Remote.Store.Shadows.{Shadow, of_job, suppress_shadow, suppress, current_shadows}
use vanth.Remote.Store.Tests.Shadows.{box, shadow}
use vanth.Remote.Control.{Controller, JobView, epoch_raised, seen, Totals, apply_snapshot}
use vanth.Remote.Control.Batches.{
  same_timeline, ahead, advance_feed_cursor, job_upsert, job_tombstone, Batch, SkipReason, flown,
  reject_reason, counted, apply_changes, stale_batch_skipped, fed, published, unless_stale,
  apply_batch,
}
use vanth.Remote.Control.Once.{run, fed-once}
use vanth.Remote.Control.Live.{apply_snapshot-live}

abbrev view : String → JobView
view job = record { job_id = job; status = "running"; payload = "{}"; fresh = "s9" }

abbrev controller : Controller
controller = record { remotes = box ∷ []; shadows = shadow "s1" "j1" 2 ∷ shadow "s2" "j2" 2 ∷ [] }

apply_snapshot-live_example :
    (t : Totals) × (next : Controller) × (shown : List Shadow) × (apply_snapshot 10 "box" 2
        (view "j1" ∷ view "j3" ∷ [])
        "{}"
        true
        controller
      ≡ returned (t, next))
    × (current_shadows "box" next.remotes next.shadows ≡ returned shown)
    × All (λ r. seen r.remote_job_id (view "j1" ∷ view "j3" ∷ []) ≡ true) shown
unfolding get_remote find same
apply_snapshot-live_example =
    apply_snapshot-live 10 "box" 2 (view "j1" ∷ view "j3" ∷ []) "{}" controller box refl refl

abbrev at : ℕ → Cursor
at n = record { state_epoch = 2; feed_epoch = 1; seq = n }

abbrev batch : Batch
batch = record { at = at 4; changes = job_tombstone "j2" ∷ [] }

abbrev later : Batch
later = record { at = at 9; changes = job_upsert (view "j3") ∷ [] }

abbrev fed_state : Controller
fed_state = record {
  remotes = record box { feed_cursor = some (at 4); updated_at = 10 } ∷ [];
  shadows =
      shadow "s1" "j1" 2
      ∷ record (shadow "s2" "j2" 2) { suppressed_at = some 10; updated_at = 10 }
      ∷ [];
}

box_known : (count (with_remote "box") (box ∷ []) == 0) ≡ false
unfolding count same
box_known = refl

batch_fed :
    apply_batch 10 "box" none batch controller
    ≡ returned (fed (record { applied = 0; suppressed = 1 }) (some (at 4)), fed_state)
unfolding apply_batch unless_stale published reject_reason flown apply_changes counted
    advance_feed_cursor ahead same_timeline get_feed_cursor set_feed_cursor epoch_raised
    raise_state_epoch suppress_shadow suppress of_job find update same
batch_fed = refl

fed-once_example :
    (reason : SkipReason) × (apply_batch 30 "box"
        (some (at 0))
        batch
        (run "box" ((20, some (at 4), later) ∷ []) fed_state)
      ≡ returned (
        stale_batch_skipped reason
            (get_feed_cursor "box" (run "box" ((20, some (at 4), later) ∷ []) fed_state).remotes),
        run "box" ((20, some (at 4), later) ∷ []) fed_state,
      ))
fed-once_example =
    fed-once "box" 10 30 none (some (at 0)) batch controller fed_state
      (record { applied = 0; suppressed = 1 }) (some (at 4)) ((20, some (at 4), later) ∷ [])
      box_known (omega arith) batch_fed
