-- ===== src/Delivery/History/Ledgers.antt =====
-- The ledger of attempts after any history.
use vanth.Prelude.{
  ℕ, suc, ◌≡◌, refl, sym, ◌∙◌, inl, inr, Bool, true, false, ◌&&◌, String, List, [], ◌∷◌, ◌++◌,
  arith, same, if◌then◌else◌, Bool-cases, and_true, All, ◌==◌,
}
use vanth.Prelude.Rows.{find, select, count}
use vanth.Prelude.Keys.{Keyed, Keyed-append}
use vanth.Delivery.{Db, Delivery, TargetType, Target, by_id, is_dispatching}
use vanth.Delivery.Enqueue.{
  Event, WakeTarget, wants, owed, insert_or_ignore, for_pair, enqueue_for, enqueue_deliveries,
}
use vanth.Delivery.Relay.{relay_register, relay_unregister, relay_expire_stale, is_relay_type}
use vanth.Delivery.Ledger.{open_tokens, held_tokens, IsLedger, key}
use vanth.Delivery.Ledger.Claiming.{claim_delivery-IsLedger}
use vanth.Delivery.Ledger.Completing.{complete_delivery-IsLedger}
use vanth.Delivery.Ledger.Relaying.{relay_ack-IsLedger, relay_release-IsLedger}
use vanth.Delivery.Ledger.Manual.{retry_delivery-IsLedger, clear_deliveries-IsLedger}
use vanth.Delivery.History.{
  Op, enqueues, claims, completes, acks, releases, registers, unregisters, expires, retries, clears,
  drops, reconciles, marks, step, run, keeps_ledger, empty,
}

append-held :
    (d : Delivery)
    → is_dispatching d.status ≡ false
    → (rows : List Delivery) (j : String)
    → held_tokens (find (by_id j) (rows ++ d ∷ [])) ≡ held_tokens (find (by_id j) rows)
unfolding find
append-held d idle [] j = ground arith
append-held d idle (r ∷ rows) j = ground (arith, append-held d idle rows j)

zero_test : (n : ℕ) → (n == 0) ≡ true → n ≡ 0
zero_test n h = ground arith

-- Inserting a row that is not being dispatched changes nothing that a key holds.
module _ (d : Delivery) (idle : is_dispatching d.status ≡ false) (rows : List Delivery) where
  insert-held :
      (j : String)
      → held_tokens (find (by_id j) (insert_or_ignore d rows)) ≡ held_tokens (find (by_id j) rows)
  unfolding insert_or_ignore
  insert-held j = elim (Bool-cases free) [ inl e ↦ rw e (append-held d idle rows j) | inr e ↦ rw e ]
    where
      free : Bool
      free =
          (count (by_id d.delivery_id) rows == 0)
          && (count (for_pair d.event_id d.target_id) rows == 0)

  insert-keys : Keyed key rows → Keyed key (insert_or_ignore d rows)
  unfolding insert_or_ignore
  insert-keys k = elim (Bool-cases free) [
    | inl e ↦ rw e (
        Keyed-append key rows d (zero_test (count (by_id d.delivery_id) rows) (and_true _ _ e).0) k)
    | inr e ↦ rw e k
  ]
    where
      free : Bool
      free =
          (count (by_id d.delivery_id) rows == 0)
          && (count (for_pair d.event_id d.target_id) rows == 0)

enqueue_for-held :
    (ids : ℕ → String) (times : ℕ → ℕ) (n : ℕ) (e : Event) (ts : List WakeTarget)
    (rows : List Delivery) (j : String)
    → held_tokens (find (by_id j) (enqueue_for ids times n e ts rows))
      ≡ held_tokens (find (by_id j) rows)
unfolding enqueue_for
enqueue_for-held ids times n e [] rows j = refl
enqueue_for-held ids times n e (t ∷ ts) rows j =
    enqueue_for-held ids times (suc n) e ts
      (if wants e t then insert_or_ignore (owed (ids n) (times n) e t) rows else rows) j
    ∙ (elim (Bool-cases (wants e t)) [
      | inl w ↦ rw w (insert-held (owed (ids n) (times n) e t) (idle n t) rows j)
      | inr w ↦ rw w
    ])
  where
    idle : (k : ℕ) (x : WakeTarget) → is_dispatching (owed (ids k) (times k) e x).status ≡ false
    idle k x = refl

enqueue_for-keys :
    (ids : ℕ → String) (times : ℕ → ℕ) (n : ℕ) (e : Event) (ts : List WakeTarget)
    (rows : List Delivery)
    → Keyed key rows
    → Keyed key (enqueue_for ids times n e ts rows)
unfolding enqueue_for
enqueue_for-keys ids times n e [] rows k = k
enqueue_for-keys ids times n e (t ∷ ts) rows k =
    enqueue_for-keys ids times (suc n) e ts _ (elim (Bool-cases (wants e t)) [
      | inl w ↦ rw w (insert-keys (owed (ids n) (times n) e t) refl rows k)
      | inr w ↦ rw w k
    ])

enqueue_deliveries-IsLedger :
    (ids : ℕ → String) (times : ℕ → ℕ) (e : Event) (targets : List WakeTarget) (db : Db)
    → IsLedger db
    → IsLedger (enqueue_deliveries ids times e targets db)
unfolding enqueue_deliveries
enqueue_deliveries-IsLedger ids times e targets db v = record {
  keys = enqueue_for-keys ids times 0 e (mine targets) db.deliveries v.keys;
  tokens = λ j. v.tokens j ∙ sym (enqueue_for-held ids times 0 e (mine targets) db.deliveries j);
}
  where
    mine : List WakeTarget → List WakeTarget
    mine = select (λ t. same t.job_id e.job_id)

register-IsLedger :
    (client : String) (now : ℕ) (kind : TargetType) (destinations : List Target) (db : Db)
    → IsLedger db
    → IsLedger (relay_register client now kind destinations db).1
unfolding relay_register
register-IsLedger client now kind destinations db v = elim (Bool-cases (same client "")) [
  | inl e ↦ rw e v
  | inr e ↦ rw e (elim (Bool-cases (is_relay_type kind)) [
    | inl k ↦ rw k (record { keys = v.keys; tokens = v.tokens })
    | inr k ↦ rw k v
  ])
]

step-IsLedger : (op : Op) (db : Db) → keeps_ledger op ≡ true → IsLedger db → IsLedger (step op db)
unfolding step relay_unregister relay_expire_stale
step-IsLedger (enqueues ids times e targets) db h v =
    enqueue_deliveries-IsLedger ids times e targets db v
step-IsLedger (claims margin draw client id) db h v =
    claim_delivery-IsLedger margin draw client id db v
step-IsLedger (completes clock d status error client) db h v =
    complete_delivery-IsLedger clock d status error client db v
step-IsLedger (acks client id clock status error token) db h v =
    relay_ack-IsLedger client id clock status error token db v
step-IsLedger (releases client id token) db h v = relay_release-IsLedger client id token db v
step-IsLedger (registers client now kind destinations) db h v =
    register-IsLedger client now kind destinations db v
step-IsLedger (unregisters client) db h v = record { keys = v.keys; tokens = v.tokens }
step-IsLedger (expires now age) db h v = record { keys = v.keys; tokens = v.tokens }
step-IsLedger (retries id) db h v = retry_delivery-IsLedger id db v
step-IsLedger (clears now ended source f) db h v = clear_deliveries-IsLedger now ended source f db v
step-IsLedger (drops binding reason targets) db h v = cc
step-IsLedger (reconciles invalid targets) db h v = cc
step-IsLedger (marks clock attempt_id id status error) db h v = cc

-- From any database whose ledger holds, after any sequence of enqueues, claims, completions, relay
-- acknowledgements, releases, registrations, unregistrations and expiries, and retries and drains by
-- hand: no two rows share an id, and a delivery has exactly one open attempt, under its token, while it
-- is being dispatched, and none otherwise. The other writers of deliveries are not in the sequence:
-- `mark_delivery`, `drop_remote_wake_binding` and `_reconcile_invalid_wake_targets`, which leave the
-- attempt of a delivery in dispatch open, and the deletions of retention.
pub run-IsLedger :
    (ops : List Op) (db : Db)
    → All (λ op. keeps_ledger op ≡ true) ops
    → IsLedger db
    → IsLedger (run ops db)
unfolding run
run-IsLedger [] db a v = v
run-IsLedger (op ∷ ops) db a v = run-IsLedger ops (step op db) a.1 (step-IsLedger op db a.0 v)

pub empty-IsLedger : IsLedger empty
unfolding find open_tokens
empty-IsLedger = record { keys = tt; tokens = λ id. refl }
