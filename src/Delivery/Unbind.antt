-- ===== src/Delivery/Unbind.antt =====
-- The wake targets that src/vanth/server.py removes of itself, and what becomes of the deliveries
-- owed to them: `drop_remote_wake_binding` and `_reconcile_invalid_wake_targets`.
use vanth.Prelude.{
  ℕ, Bool, true, false, ◌&&◌, String, Option, none, some, List, [], ◌∷◌, same, ◌==◌, if◌then◌else◌,
}
use vanth.Prelude.Rows.{update, delete, count}
use vanth.Delivery.{Status, pending, dispatching, failed, Delivery, Db}
use vanth.Delivery.Enqueue.{WakeTarget}

-- status IN ('pending','dispatching')
abbrev pub is_owed : Status → Bool
is_owed pending = true
is_owed dispatching = true
is_owed _ = false

-- The UPDATE writes the message as it is, and keeps `claim_client_id`.
unfoldable pub fail_row : List ℕ → Delivery → Delivery
fail_row message d = record d {
  status = failed;
  last_error = some message;
  next_attempt_at = none;
  claim_token = none;
  claimed_at = none;
  lease_expires_at = none;
}

unfoldable pub owed_by_job : String → Delivery → Bool
owed_by_job binding d = same d.job_id binding && is_owed d.status

unfoldable pub owed_to_target : String → Delivery → Bool
owed_to_target target d = same d.target_id target && is_owed d.status

-- `binding` is the id that `_remote_binding_id` makes of the remote and its job.
unfoldable pub drop_remote_wake_binding :
    (binding : String) (reason : List ℕ) → List WakeTarget → Db → Bool × List WakeTarget × Db
drop_remote_wake_binding binding reason targets db =
    if count (λ t. same t.job_id binding) targets == 0 then (false, targets, db) else (
      true,
      delete (λ t. same t.job_id binding) targets,
      record db { deliveries = update (owed_by_job binding) (fail_row reason) db.deliveries },
    )

-- The round of a target, which does something when there is a message for it.
unfoldable pub reject_target :
    String → Option (List ℕ) → List WakeTarget × Db → List WakeTarget × Db
reject_target id none s = s
reject_target id (some message) s = (
  delete (λ t. same t.target_id id) s.0,
  record s.1 { deliveries = update (owed_to_target id) (fail_row message) s.1.deliveries },
)

-- The loop over the targets that were read at first. `invalid` gives the message of a target whose
-- destination is the id of a relay client.
unfoldable pub reject_all :
    (WakeTarget → Option (List ℕ)) → List WakeTarget → List WakeTarget × Db → List WakeTarget × Db
reject_all invalid [] s = s
reject_all invalid (t ∷ ts) s = reject_all invalid ts (reject_target t.target_id (invalid t) s)

unfoldable pub reconcile_invalid_wake_targets :
    (WakeTarget → Option (List ℕ)) → List WakeTarget → Db → List WakeTarget × Db
reconcile_invalid_wake_targets invalid targets db = reject_all invalid targets (targets, db)
