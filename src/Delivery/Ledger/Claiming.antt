-- ===== src/Delivery/Ledger/Claiming.antt =====
-- The ledger of attempts under `_claim_delivery` of src/vanth/server.py.
use vanth.Prelude.{
  ℕ, ◌≡◌, refl, sym, ap, subst, ◌∙◌, inl, inr, Bool, true, false, String, Option, none, some, [],
  ◌∷◌, ◌++◌, arith, same, same_iff, if◌then◌else◌, Bool-cases, and_true,
}
use mathlib.Core.Path.{ap₂}
use mathlib.Core.List.{append-nil}
use vanth.Prelude.Rows.{find, update, find-some}
use vanth.Prelude.Keys.{touched, Keyed-update, find-update-key}
use vanth.Delivery.{Attempt, Delivery, Db, is_dispatching, by_id, is_due, open_of}
use vanth.Delivery.Claim.{
  Draw, claimable, stamp_claim, close_reclaimed, new_attempt, write_claim, claim_delivery,
}
use vanth.Delivery.Claim.Outcome.{claim_outcome, claim_delivery-eq-outcome, due-claimable}
use vanth.Delivery.Complete.Ownership.{HasKeys}
use vanth.Delivery.Ledger.{
  open_tokens, held_tokens, IsLedger, key, open_tokens-append, open_tokens-close,
}

module _ (margin : ℕ) (draw : Draw) (client : Option String) (id : String) where
  claimable-key : (r : Delivery) → claimable id draw.now r ≡ true → r.delivery_id ≡ id
  unfolding claimable
  claimable-key r h = (same_iff r.delivery_id id).0 (and_true (by_id id r) _ h).0

  reclaimed-closed :
      (i : String) (a : Attempt) → open_of i (close_reclaimed margin draw client id a) ≡ false
  unfolding open_of close_reclaimed
  reclaimed-closed i a = ground arith

  stamped_tokens :
      (row : Delivery)
      → some draw.token ∷ [] ≡ held_tokens (some (stamp_claim margin draw client id row row))
  unfolding stamp_claim
  stamped_tokens row = refl

  claim_keys :
      (row : Delivery) (db : Db) → HasKeys db → HasKeys (write_claim margin draw client id row db)
  unfolding write_claim
  claim_keys row db k =
      Keyed-update key (claimable id draw.now) (stamp_claim margin draw client id row) (λ r. refl)
        db.deliveries k

  module _ (db : Db) (row : Delivery) (v : IsLedger db)
      (found : find (by_id id) db.deliveries ≡ some row) (due : is_due draw.now row ≡ true) where
    abbrev after : Db
    after = write_claim margin draw client id row db

    find_after :
        (j : String)
        → find (by_id j) after.deliveries ≡ (
            if same id j
            then some (stamp_claim margin draw client id row row)
            else find (by_id j) db.deliveries)
    unfolding write_claim
    find_after j =
        find-update-key key id j (claimable id draw.now) (stamp_claim margin draw client id row)
          claimable-key (λ r. refl) db.deliveries
        ∙ ap
            (λ o.
              if same id j
              then touched (claimable id draw.now) (stamp_claim margin draw client id row) o
              else find (by_id j) db.deliveries)
            found
        ∙ rw
            (due-claimable margin draw client id row (find-some (by_id id) db.deliveries found) due)

    none_open : is_dispatching row.status ≡ false → open_tokens id db.attempts ≡ []
    none_open e = v.tokens id ∙ rw (found, e)

    open_new :
        (j : String)
        → open_tokens j (new_attempt margin draw client id row ∷ [])
          ≡ (if same id j then some draw.token ∷ [] else [])
    unfolding new_attempt open_tokens open_of
    open_new j = ground arith

    closed_first :
        (j : String)
        → open_tokens j (
            if is_dispatching row.status
            then update (open_of id) (close_reclaimed margin draw client id) db.attempts
            else db.attempts)
          ≡ (if same id j then [] else open_tokens j db.attempts)
    closed_first j = elim (Bool-cases (is_dispatching row.status)) [
      | inl e ↦
          rw e (open_tokens-close (close_reclaimed margin draw client id) ends id j db.attempts)
      | inr e ↦ rw e (elim (Bool-cases (same id j)) [
        | inl same_id ↦
            rw same_id (
              subst (λ i. open_tokens i db.attempts ≡ []) ((same_iff id j).0 same_id) (none_open e))
        | inr differ ↦ rw differ
      ])
    ]
      where
        ends :
            (i : String) (a : Attempt) → open_of i (close_reclaimed margin draw client id a) ≡ false
        ends i a = reclaimed-closed i a

    tokens_after :
        (j : String)
        → open_tokens j after.attempts
          ≡ (if same id j then some draw.token ∷ [] else open_tokens j db.attempts)
    unfolding write_claim
    tokens_after j =
        open_tokens-append j _ (new_attempt margin draw client id row ∷ [])
        ∙ ap₂ ◌++◌ (closed_first j) (open_new j)
        ∙ join (same id j)
      where
        join :
            (b : Bool)
            → ((if b then [] else open_tokens j db.attempts)
                ++ (if b then some draw.token ∷ [] else []))
              ≡ (if b then some draw.token ∷ [] else open_tokens j db.attempts)
        join true = refl
        join false = append-nil (open_tokens j db.attempts)

    write_claim-IsLedger : IsLedger after
    write_claim-IsLedger = record {
      keys = keys_after;
      tokens = λ j. tokens_after j ∙ split j (same id j) ∙ ap held_tokens (sym (find_after j));
    }
      where
        keys_after : HasKeys after
        keys_after = claim_keys row db v.keys

        split :
            (j : String) (b : Bool)
            → (if b then some draw.token ∷ [] else open_tokens j db.attempts)
              ≡ held_tokens (
                  if b
                  then some (stamp_claim margin draw client id row row)
                  else find (by_id j) db.deliveries)
        split j true = stamped_tokens row
        split j false = v.tokens j

  claim_outcome-IsLedger :
      (db : Db) (o : Option Delivery)
      → find (by_id id) db.deliveries ≡ o
      → IsLedger db
      → IsLedger (claim_outcome margin draw client id o db).1
  claim_outcome-IsLedger db none f v = v
  claim_outcome-IsLedger db (some row) f v = elim (Bool-cases (is_due draw.now row)) [
    | inl due ↦ rw due (write_claim-IsLedger db row v f due)
    | inr late ↦ rw late v
  ]

  -- A claim keeps the ledger: it ends the attempt that it takes over, and opens its own.
  pub claim_delivery-IsLedger :
      (db : Db) → IsLedger db → IsLedger (claim_delivery margin draw client id db).1
  claim_delivery-IsLedger db v =
      rw (claim_delivery-eq-outcome margin draw client id db)
        (claim_outcome-IsLedger db (find (by_id id) db.deliveries) refl v)
