-- ===== src/Delivery/History.antt =====
-- Histories of the delivery queue of src/vanth/server.py: sequences of calls by the daemon, the
-- relays and the operators, in any order.
pub mod Ledgers
pub mod Settled
use vanth.Prelude.{ℕ, String, Bool, true, false, Option, List, [], ◌∷◌}
use vanth.Delivery.{Status, Target, TargetType, Delivery, Db}
use vanth.Delivery.Enqueue.{Event, WakeTarget, enqueue_deliveries}
use vanth.Delivery.Claim.{Draw, claim_delivery}
use vanth.Delivery.Complete.{Clock, complete_delivery}
use vanth.Delivery.Relay.{
  relay_ack, relay_release, relay_register, relay_unregister, relay_expire_stale,
}
use vanth.Delivery.Unbind.{drop_remote_wake_binding, reconcile_invalid_wake_targets}
use vanth.Delivery.Manual.{MarkClock, Filter, mark_delivery, retry_delivery, clear_deliveries}

-- One call, with its arguments and what it draws from outside. `completes` carries the caller's own
-- copy of the delivery, which may be out of date. `enqueues`, `drops` and `reconciles` carry the rows
-- of `wake_targets` at their time.
pub data Op : Type 0 where
  enqueues : (ids : ℕ → String) (times : ℕ → ℕ) → Event → List WakeTarget → Op
  claims : (margin : ℕ) → Draw → (client : Option String) (id : String) → Op
  completes : Clock → Delivery → Status → Option (List ℕ) → (client : Option String) → Op
  acks : (client id : String) → Clock → Status → Option (List ℕ) → (token : Option String) → Op
  releases : (client id : String) (token : Option String) → Op
  registers : (client : String) (now : ℕ) → TargetType → List Target → Op
  unregisters : (client : String) → Op
  expires : (now age : ℕ) → Op
  retries : (id : String) → Op
  clears : (now ended : ℕ) (source_terminal : Delivery → Bool) → Filter → Op
  drops : (binding : String) (reason : List ℕ) → List WakeTarget → Op
  reconciles : (invalid : WakeTarget → Option (List ℕ)) → List WakeTarget → Op
  marks : MarkClock → (attempt_id id : String) → Status → Option (List ℕ) → Op

unfoldable pub step : Op → Db → Db
step (enqueues ids times e targets) db = enqueue_deliveries ids times e targets db
step (claims margin draw client id) db = (claim_delivery margin draw client id db).1
step (completes clock d status error client) db =
    (complete_delivery clock d status error client db).1
step (acks client id clock status error token) db =
    (relay_ack client id clock status error token db).1
step (releases client id token) db = (relay_release client id token db).1
step (registers client now kind destinations) db =
    (relay_register client now kind destinations db).1
step (unregisters client) db = relay_unregister client db
step (expires now age) db = (relay_expire_stale now age db).1
step (retries id) db = (retry_delivery id db).1
step (clears now ended source f) db = (clear_deliveries now ended source f db).1
step (drops binding reason targets) db = (drop_remote_wake_binding binding reason targets db).2
step (reconciles invalid targets) db = (reconcile_invalid_wake_targets invalid targets db).1
step (marks clock attempt_id id status error) db =
    (mark_delivery clock attempt_id id status error db).1

unfoldable pub run : List Op → Db → Db
run [] db = db
run (op ∷ ops) db = run ops (step op db)

-- Everything but `mark_delivery` and the two calls that remove wake targets.
abbrev pub keeps_ledger : Op → Bool
keeps_ledger (drops binding reason targets) = false
keeps_ledger (reconciles invalid targets) = false
keeps_ledger (marks clock attempt_id id status error) = false
keeps_ledger _ = true

-- What the daemon and the relays do of themselves.
abbrev pub is_automatic : Op → Bool
is_automatic (retries id) = false
is_automatic (clears now ended source f) = false
is_automatic (marks clock attempt_id id status error) = false
is_automatic _ = true

abbrev pub empty : Db
empty = record { deliveries = []; attempts = []; subscriptions = [] }
