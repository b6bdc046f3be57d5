-- ===== src/Delivery/Enqueue.antt =====
-- `_enqueue_deliveries_uncommitted` of src/vanth/server.py: the deliveries that an event owes to the
-- wake targets of its job.
pub mod Once
use vanth.Prelude.{
  ℕ, zero, suc, ◌+◌, ◌≡◌, Bool, true, false, not, ◌&&◌, ◌||◌, String, Option, none, some, List, [],
  ◌∷◌, ◌++◌, same, ◌==◌, if◌then◌else◌,
}
use vanth.Prelude.Rows.{select, count}
use vanth.Delivery.{pending, Target, TargetType, Delivery, Db, by_id}
use vanth.Delivery.Destination.{canonicalize_wake_target, member}

-- A row of `wake_targets`; `config` is its `config_json` with the row's type.
pub record WakeTarget : Type 0 where
  pub target_id : String
  pub job_id : String
  pub kind : TargetType
  pub events : List String
  pub config : Target

-- What the statement reads of an event.
pub record Event : Type 0 where
  pub event_id : String
  pub job_id : String
  pub kind : String

-- not (events and event["type"] not in events)
unfoldable pub wants : Event → WakeTarget → Bool
wants e t = elim t.events [ [] ↦ true | x ∷ xs ↦ member e.kind (x ∷ xs) ]

module _ (id : String) (created : ℕ) (e : Event) (t : WakeTarget) where
  unfoldable pub owed : Delivery
  owed = record {
    delivery_id = id;
    event_id = e.event_id;
    target_id = t.target_id;
    job_id = e.job_id;
    target_type = t.kind;
    status = pending;
    attempts = 0;
    target = canonicalize_wake_target t.config;
    created_at = created;
    next_attempt_at = none;
    delivered_at = none;
    last_error = none;
    claim_token = none;
    claimed_at = none;
    lease_expires_at = none;
    claim_client_id = none;
  }

-- UNIQUE(event_id, target_id)
unfoldable pub for_pair : String → String → Delivery → Bool
for_pair event target d = same d.event_id event && same d.target_id target

-- INSERT OR IGNORE
unfoldable pub insert_or_ignore : Delivery → List Delivery → List Delivery
insert_or_ignore d rows =
    if (count (by_id d.delivery_id) rows == 0)
      && (count (for_pair d.event_id d.target_id) rows == 0)
    then rows ++ d ∷ []
    else rows

-- The loop over the targets. Each insert draws an identifier and a time.
unfoldable pub enqueue_for :
    (ℕ → String) → (ℕ → ℕ) → ℕ → Event → List WakeTarget → List Delivery → List Delivery
unfolding insert_or_ignore owed
enqueue_for ids times n e [] rows = rows
enqueue_for ids times n e (t ∷ ts) rows =
    enqueue_for ids times (suc n) e ts
      (if wants e t then insert_or_ignore (owed (ids n) (times n) e t) rows else rows)

unfoldable pub enqueue_deliveries : (ℕ → String) → (ℕ → ℕ) → Event → List WakeTarget → Db → Db
enqueue_deliveries ids times e targets db = record db {
  deliveries =
      enqueue_for ids times 0 e (select (λ t. same t.job_id e.job_id) targets) db.deliveries;
}
