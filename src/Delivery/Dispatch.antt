-- ===== src/Delivery/Dispatch.antt =====
-- The daemon's dispatcher in src/vanth/server.py: `_dispatch_due_deliveries` and `_dispatch_delivery`.
pub mod Settles
pub mod Capacity
pub mod Tests
use vanth.Prelude.{
  ℕ, zero, suc, ◌+◌, ◌-◌, Bool, true, false, not, ◌&&◌, ◌||◌, String, Option, none, some, List, [],
  ◌∷◌, leb, if◌then◌else◌,
}
use vanth.Prelude.Rows.{select}
use vanth.Time.{elapsed, unset_or_elapsed}
use vanth.Delivery.{
  Status, delivered, failed, Target, TargetType, local_command, codex_cli_thread, codex_thread,
  codex_desktop, opencode_thread, webhook, Delivery, Db, Error, Result, ok, err, is_waiting,
  is_dispatching,
}
use vanth.Delivery.Claim.{Draw, claim_delivery}
use vanth.Delivery.Complete.{Clock, complete_delivery}

-- The transport that a delivery is sent by.
pub data Route : Type 0 where
  by_webhook by_codex by_opencode by_command : Route

-- What a transport answers: `permanent` is a session that another writer owns, or that is unknown.
pub data Sent : Type 0 where
  accepted : Sent
  rejected : (error : List ℕ) → Sent
  permanent : (error : List ℕ) → Sent

abbrev pub is_false : Option Bool → Bool
is_false (some false) = true
is_false _ = false

abbrev pub thread_route : Route → Target → Option Route
thread_route r t = if is_false t.auto_dispatch then none else some r

without_command : TargetType → Target → Option Route
without_command webhook t = some by_webhook
without_command codex_thread t = thread_route by_codex t
without_command codex_cli_thread t = thread_route by_codex t
without_command opencode_thread t = if not t.attach then none else thread_route by_opencode t
without_command _ t = none

-- Where a delivery is sent, if the daemon sends it at all. Desktop wakes are a relay's.
unfoldable pub route : Target → Option Route
unfolding without_command
route t = elim t.kind [
  | codex_desktop ↦ none
  | k ↦ if t.command then some by_command else without_command k t
]

-- {..., "max_attempts": 1}
unfoldable pub once_only : Delivery → Delivery
once_only d = record d { target = record d.target { max_attempts = some 1 } }

-- `send` is the transport, and `text` is `str` of an exception.
module _ (margin : ℕ) (send : Route → Delivery → Sent) (text : Error → List ℕ) where
  -- A completion that raises is caught with the transport's errors.
  unfoldable pub caught : Clock → Delivery → Result Delivery × Db → Db
  caught clock d (ok r, db) = db
  caught clock d (err e, db) = (complete_delivery clock d failed (some (text e)) none db).1

  unfoldable pub finish : Clock → Clock → Route → Sent → Delivery → Db → Db
  unfolding caught once_only
  finish clock later r accepted d db =
      caught later d (complete_delivery clock d delivered none none db)
  finish clock later r (rejected e) d db = (complete_delivery clock d failed (some e) none db).1
  finish clock later by_codex (permanent e) d db =
      (complete_delivery clock (once_only d) failed (some e) none db).1
  finish clock later by_opencode (permanent e) d db =
      (complete_delivery clock (once_only d) failed (some e) none db).1
  finish clock later _ (permanent e) d db = (complete_delivery clock d failed (some e) none db).1

  -- `others` is what other calls do to the tables while the transport runs: no lock is held then.
  module _ (others : Db → Db) where
    unfoldable pub send_claimed : Clock → Clock → Route → Option Delivery × Db → Db
    unfolding finish
    send_claimed clock later r (none, db) = db
    send_claimed clock later r (some d, db) = finish clock later r (send r d) d (others db)

    unfoldable pub dispatch_by : Draw → Clock → Clock → Delivery → Option Route → Db → Db
    unfolding send_claimed
    dispatch_by draw clock later d none db = db
    dispatch_by draw clock later d (some r) db =
        send_claimed clock later r (claim_delivery margin draw none d.delivery_id db)

    unfoldable pub dispatch_delivery : Draw → Clock → Clock → Delivery → Db → Db
    unfolding dispatch_by
    dispatch_delivery draw clock later d db = dispatch_by draw clock later d (route d.target) db

-- The WHERE of the query, which reads the clock twice.
unfoldable pub overdue : ℕ → ℕ → Delivery → Bool
overdue now again d =
    (is_waiting d.status && unset_or_elapsed d.next_attempt_at now)
    || (is_dispatching d.status && elapsed d.lease_expires_at again)

abbrev is_desktop : TargetType → Bool
is_desktop codex_desktop = true
is_desktop _ = false

-- The rows for which a thread is wanted.
unfoldable pub dispatchable : Delivery → Bool
dispatchable d = not (is_false d.target.auto_dispatch) && not (is_desktop d.target_type)

-- `freed` says how many threads end before each row, and `starts` whether a thread can be started.
module _ (max_concurrency : ℕ) (freed : ℕ → ℕ) (starts : Delivery → Bool) where
  -- The deliveries handed to threads, and the number of threads in flight after the loop.
  unfoldable pub dispatch_rows : ℕ → ℕ → List Delivery → List Delivery × ℕ
  unfolding dispatchable
  dispatch_rows n in_flight [] = ([], in_flight)
  dispatch_rows n in_flight (d ∷ ds) =
      let running = in_flight - freed n in
      let with_one = dispatch_rows (suc n) (running + 1) ds in
      let as_before = dispatch_rows (suc n) running ds in
      if dispatchable d && (not (leb max_concurrency running) && starts d)
      then (d ∷ with_one.0, with_one.1)
      else as_before

  unfoldable pub dispatch_due_deliveries : ℕ → ℕ → ℕ → Db → List Delivery × ℕ
  unfolding dispatch_rows overdue
  dispatch_due_deliveries now again in_flight db =
      dispatch_rows 0 in_flight (select (overdue now again) db.deliveries)
