-- ===== src/Delivery/Ledger/Relaying.antt =====
-- The ledger of attempts under `relay_ack` and `relay_release` of src/vanth/server.py.
use vanth.Prelude.{
  ℕ, ◌≡◌, refl, sym, ◌∙◌, inl, inr, true, false, String, Option, none, some, List, arith, same,
  if◌then◌else◌, Bool-cases, and_true, ◌==◌,
}
use vanth.Prelude.Rows.{find, update, count}
use vanth.Delivery.{Status, Delivery, Db, is_dispatching, is_settled, claimed_with, owned_by}
use vanth.Delivery.Complete.{Clock}
use vanth.Delivery.Complete.Ownership.{ClaimedBy, claimed_with-ClaimedBy}
use vanth.Delivery.Relay.{
  present, ack_row, ack_token, relay_ack, released, write_release, release_token, relay_release,
}
use vanth.Delivery.Ledger.{open_tokens, drop_token, open_tokens-delete_token, IsLedger}
use vanth.Delivery.Ledger.Completing.{taken, complete_delivery-IsLedger}
use vanth.Delivery.Ledger.Freeing.{free-IsLedger}

module _ (client id : String) where
  ack_row-IsLedger :
      (clock : Clock) (status : Status) (error : Option (List ℕ)) (o : Option Delivery) (db : Db)
      → IsLedger db
      → IsLedger (ack_row client id clock status error o db).1
  unfolding ack_row
  ack_row-IsLedger clock status error none db v = v
  ack_row-IsLedger clock status error (some d) db v =
      ground (arith, complete_delivery-IsLedger clock d status error (some client) db v)

  pub relay_ack-IsLedger :
      (clock : Clock) (status : Status) (error : Option (List ℕ)) (token : Option String) (db : Db)
      → IsLedger db
      → IsLedger (relay_ack client id clock status error token db).1
  unfolding relay_ack ack_token
  relay_ack-IsLedger clock status error token db v = elim (Bool-cases (is_settled status)) [
    | inr bad ↦ rw bad v
    | inl good ↦ rw good (by_token (present token))
  ]
    where
      by_token : (o : Option String) → IsLedger (ack_token client id clock status error o db).1
      by_token none = v
      by_token (some t) =
          ack_row-IsLedger clock status error (find (owned_by id t client) db.deliveries) db v

  owned_by-ClaimedBy :
      (t : String) (r : Delivery) → owned_by id t client r ≡ true → ClaimedBy id (some t) r
  unfolding owned_by
  owned_by-ClaimedBy t r h =
      claimed_with-ClaimedBy id (some t) r (and_true (claimed_with id (some t) r) _ h).0

  frees : (x : Delivery) → is_dispatching (released client id x).status ≡ false
  unfolding released
  frees x = refl

  rows :
      (t : String) (db : Db)
      → (write_release client id t db).deliveries
        ≡ update (owned_by id t client) (released client id) db.deliveries
  unfolding write_release
  rows t db = refl

  keeps_id : (x : Delivery) → (released client id x).delivery_id ≡ x.delivery_id
  unfolding released
  keeps_id x = refl

  dropped :
      (t : String) (db : Db) (j : String)
      → open_tokens j (write_release client id t db).attempts ≡ (
          if same id j then drop_token t (open_tokens j db.attempts) else open_tokens j db.attempts)
  unfolding write_release
  dropped t db j = open_tokens-delete_token id j t db.attempts

  release_token-IsLedger :
      (o : Option String) (db : Db) → IsLedger db → IsLedger (release_token client id o db).1
  unfolding release_token
  release_token-IsLedger none db v = v
  release_token-IsLedger (some t) db v =
      elim (Bool-cases (count (owned_by id t client) db.deliveries == 0)) [
        | inl none_owned ↦ rw none_owned v
        | inr owned ↦
            let only : (x : Delivery) → owned_by id t client x ≡ true → x.delivery_id ≡ id =
              λ x h. (owned_by-ClaimedBy t x h).same_id in
            let (r, found, hit) = taken id (owned_by id t client) only db v owned in
            let c = owned_by-ClaimedBy t r hit in
            rw owned (
              free-IsLedger db (write_release client id t db) id t r (owned_by id t client)
                (released client id) v found c.in_flight (c.held ∙ sym c.given) only keeps_id hit
                (frees r) (rows t db) (dropped t db))
      ]

  pub relay_release-IsLedger :
      (token : Option String) (db : Db)
      → IsLedger db
      → IsLedger (relay_release client id token db).1
  unfolding relay_release
  relay_release-IsLedger token db v = release_token-IsLedger (present token) db v
