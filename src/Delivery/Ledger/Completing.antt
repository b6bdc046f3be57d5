-- ===== src/Delivery/Ledger/Completing.antt =====
-- The ledger of attempts under `_complete_delivery`, `relay_ack` and `relay_release` of
-- src/vanth/server.py.
use vanth.Prelude.{
  ℕ, ◌≡◌, refl, ap, ◌∙◌, inl, inr, Bool, true, false, ◌&&◌, String, Option, none, some, List, arith,
  same, if◌then◌else◌, Bool-cases, Option-cases, ◌==◌,
}
use vanth.Prelude.Rows.{find, update, count}
use vanth.Prelude.Keys.{count-key}
use vanth.Delivery.{Status, Attempt, Delivery, Db, is_dispatching, is_settled, by_id, open_of}
use vanth.Delivery.Complete.{
  Clock, token_is, final_status, finish_row, finish_attempt, guard_row, guard_attempt,
  write_completion, complete_delivery, answer,
}
use vanth.Delivery.Complete.Ownership.{guard_row-key, guard_row-claimed, claimed_with-ClaimedBy}
use vanth.Delivery.Ledger.{open_tokens, drop_token, open_tokens-close_token, IsLedger, key}
use vanth.Delivery.Ledger.Freeing.{free-IsLedger}

-- In a keyed table a test that takes some row takes the row that its key finds.
pub taken :
    (id : String) (p : Delivery → Bool)
    → ((r : Delivery) → p r ≡ true → r.delivery_id ≡ id)
    → (db : Db) → IsLedger db
    → (count p db.deliveries == 0) ≡ false
    → (r : Delivery) × (find (by_id id) db.deliveries ≡ some r) × (p r ≡ true)
taken id p only db v n = elim (Option-cases (find (by_id id) db.deliveries)) [
  | inl absent ↦ absurd (cc (count-key key id p only db.deliveries v.keys, absent, n))
  | inr (r, found) ↦ elim (Bool-cases (p r)) [
    | inl e ↦ (r, found, e)
    | inr e ↦ absurd (cc (count-key key id p only db.deliveries v.keys, found, e, n))
  ]
]

module _ (clock : Clock) (d : Delivery) (status : Status) (error : Option (List ℕ)) where
  settled-not_dispatching :
      is_settled status ≡ true → is_dispatching (final_status clock d status error) ≡ false
  unfolding final_status
  settled-not_dispatching h = ground arith

  keeps_id : (x : Delivery) → (finish_row clock d status error x).delivery_id ≡ x.delivery_id
  unfolding finish_row
  keeps_id x = refl

  frees :
      (x : Delivery)
      → is_settled status ≡ true
      → is_dispatching (finish_row clock d status error x).status ≡ false
  unfolding finish_row
  frees x h = settled-not_dispatching h

  rows :
      (client : Option String) (db : Db)
      → (write_completion clock d status error client db).deliveries
        ≡ update
            (guard_row clock d status error client)
            (finish_row clock d status error)
            db.deliveries
  unfolding write_completion
  rows client db = refl

  ends : (i : String) (a : Attempt) → open_of i (finish_attempt clock d status error a) ≡ false
  unfolding finish_attempt open_of
  ends i a = ground arith

  dropped :
      (t : String)
      → d.claim_token ≡ some t
      → (client : Option String) (db : Db) (j : String)
      → open_tokens j (write_completion clock d status error client db).attempts ≡ (
          if same d.delivery_id j
          then drop_token t (open_tokens j db.attempts)
          else open_tokens j db.attempts)
  unfolding write_completion guard_attempt
  dropped t e client db j =
      ap
        (λ o. open_tokens j (
          update (λ a. open_of d.delivery_id a && token_is o a)
            (finish_attempt clock d status error) db.attempts))
        e
      ∙ open_tokens-close_token (finish_attempt clock d status error) ends d.delivery_id j t
          db.attempts

  write_completion-IsLedger :
      (client : Option String) (db : Db)
      → IsLedger db
      → is_settled status ≡ true
      → (count (guard_row clock d status error client) db.deliveries == 0) ≡ false
      → IsLedger (write_completion clock d status error client db)
  write_completion-IsLedger client db v s n =
      let only = guard_row-key clock d status error client in
      let (r, found, hit) =
        taken d.delivery_id (guard_row clock d status error client) only db v n in
      let c =
        claimed_with-ClaimedBy d.delivery_id d.claim_token r
          (guard_row-claimed clock d status error client r hit) in
      free-IsLedger db (write_completion clock d status error client db) d.delivery_id c.named r
        (guard_row clock d status error client) (finish_row clock d status error) v found
        c.in_flight c.held only keeps_id hit (frees r s) (rows client db)
        (λ j. dropped c.named c.given client db j)

  -- A completion keeps the ledger, whoever asks for it.
  pub complete_delivery-IsLedger :
      (client : Option String) (db : Db)
      → IsLedger db
      → IsLedger (complete_delivery clock d status error client db).1
  unfolding complete_delivery
  complete_delivery-IsLedger client db v = elim (Bool-cases (is_settled status)) [
    | inr bad ↦ rw bad v
    | inl good ↦
        elim (Bool-cases (count (guard_row clock d status error client) db.deliveries == 0)) [
          | inl none_owned ↦ rw (good, none_owned) (answer-IsLedger client false db v)
          | inr owned ↦
              rw (good, owned)
                (answer-IsLedger client true _ (write_completion-IsLedger client db v good owned))
        ]
  ]
    where
      answer-IsLedger :
          (k : Option String) (b : Bool) (x : Db)
          → IsLedger x
          → IsLedger (answer clock d status error k b x).1
      answer-IsLedger none b x w = w
      answer-IsLedger (some c) false x w = w
      answer-IsLedger (some c) true x w = w
