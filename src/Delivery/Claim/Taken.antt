-- ===== src/Delivery/Claim/Taken.antt =====
-- What a claim writes, column by column (src/vanth/server.py).
use vanth.Prelude.{
  ℕ, ◌+◌, ◌≡◌, ◌⊎◌, refl, ap, ◌∙◌, inl, inr, true, false, String, Option, none, some, List, [], ◌∷◌,
  ◌++◌, arith, codes, same, same_iff, if◌then◌else◌, Bool-cases, Option-cases,
}
use vanth.Prelude.Rows.{find, find-some, update}
use vanth.Prelude.Keys.{touched, find-update-key}
use vanth.Time.{seconds}
use vanth.Delivery.{
  dispatching, reclaimed, Delivery, Attempt, Db, is_dispatching, by_id, is_due, open_of,
}
use vanth.Delivery.Claim.{
  Draw, lease_seconds, claimable, stamp_claim, close_reclaimed, new_attempt, write_claim,
  claim_delivery,
}
use vanth.Delivery.Claim.Outcome.{claim_outcome, claim_delivery-eq-outcome, due-claimable}

module _ (margin : ℕ) (draw : Draw) (client : Option String) (id : String) where
  abbrev pub taken_row : Delivery → Delivery
  taken_row row = record row {
    status = dispatching;
    attempts = row.attempts + 1;
    claim_token = some draw.token;
    claimed_at = some draw.now;
    lease_expires_at = some (draw.leased_at + seconds (lease_seconds margin row));
    claim_client_id = client;
  }

  -- A claim that takes over an expired one ends the attempts that it left open.
  abbrev pub taken_attempts : Delivery → List Attempt → List Attempt
  taken_attempts row attempts =
      (if is_dispatching row.status
        then update (open_of id)
            (λ a. record a {
              status = reclaimed;
              ended_at = some draw.now;
              error = some (codes "delivery lease expired");
            })
            attempts
        else attempts)
      ++ record {
        attempt_id = draw.attempt_id;
        delivery_id = id;
        attempt = row.attempts + 1;
        claim_token = some draw.token;
        target_type = row.target_type;
        started_at = draw.now;
        ended_at = none;
        status = dispatching;
        error = none;
        reclaimed = is_dispatching row.status;
        created_at = draw.now;
      }
        ∷ []

  claimable-key : (r : Delivery) → claimable id draw.now r ≡ true → r.delivery_id ≡ id
  unfolding claimable
  claimable-key r h = (same_iff r.delivery_id id).0 (ground arith)

  stamp_lem : (row : Delivery) → stamp_claim margin draw client id row row ≡ taken_row row
  unfolding stamp_claim
  stamp_lem row = refl

  attempts_lem :
      (row : Delivery) (db : Db)
      → (write_claim margin draw client id row db).attempts ≡ taken_attempts row db.attempts
  unfolding write_claim close_reclaimed new_attempt
  attempts_lem row db = refl

  stamped_at :
      (row : Delivery) (db : Db) (j : String)
      → find (by_id j) (write_claim margin draw client id row db).deliveries ≡ (
          if same id j
          then touched
              (claimable id draw.now)
              (stamp_claim margin draw client id row)
              (find (by_id id) db.deliveries)
          else find (by_id j) db.deliveries)
  unfolding write_claim stamp_claim
  stamped_at row db j =
      find-update-key (λ (x : Delivery). x.delivery_id) id j (claimable id draw.now)
        (stamp_claim margin draw client id row) claimable-key (λ x. refl) db.deliveries

  kept_subscriptions :
      (row : Delivery) (db : Db)
      → (write_claim margin draw client id row db).subscriptions ≡ db.subscriptions
  unfolding write_claim
  kept_subscriptions row db = refl

  due_outcome :
      (row : Delivery) (db : Db)
      → find (by_id id) db.deliveries ≡ some row
      → is_due draw.now row ≡ true
      → claim_delivery margin draw client id db ≡ (
        some (stamp_claim margin draw client id row row),
        write_claim margin draw client id row db,
      )
  due_outcome row db found due =
      claim_delivery-eq-outcome margin draw client id db
      ∙ ap (λ o. claim_outcome margin draw client id o db) found
      ∙ rw due refl

-- A claim of an unknown delivery, or of one that is not due, answers none and changes nothing. A claim
-- of one that is due answers and stores its row as dispatching, with one attempt more, the fresh token,
-- the client, and a lease from the reading of the clock; it adds an open attempt under that token,
-- after ending those of an expired claim that it takes over; the rows of other deliveries stay.
pub claim_delivery-taken :
    (margin : ℕ) (draw : Draw) (client : Option String) (id j : String) (db : Db)
    → ((find (by_id id) db.deliveries ≡ none)
        × (claim_delivery margin draw client id db ≡ (none, db)))
      ⊎ ((row : Delivery) × (find (by_id id) db.deliveries ≡ some row)
          × (((is_due draw.now row ≡ false)
                × (claim_delivery margin draw client id db ≡ (none, db)))
              ⊎ ((is_due draw.now row ≡ true)
                  × ((claim_delivery margin draw client id db).0
                      ≡ some (taken_row margin draw client id row))
                  × (find (by_id j) (claim_delivery margin draw client id db).1.deliveries ≡ (
                      if same id j
                      then some (taken_row margin draw client id row)
                      else find (by_id j) db.deliveries))
                  × ((claim_delivery margin draw client id db).1.attempts
                      ≡ taken_attempts margin draw client id row db.attempts)
                  × ((claim_delivery margin draw client id db).1.subscriptions
                      ≡ db.subscriptions))))
claim_delivery-taken margin draw client id j db =
    elim (Option-cases (find (by_id id) db.deliveries)) [
      | inl absent ↦ inl (
        absent,
        claim_delivery-eq-outcome margin draw client id db
            ∙ ap (λ o. claim_outcome margin draw client id o db) absent,
      )
      | inr (row, found) ↦ inr (
        row,
        found,
        elim (Bool-cases (is_due draw.now row)) [
          | inr late ↦ inl (
            late,
            claim_delivery-eq-outcome margin draw client id db
                ∙ ap (λ o. claim_outcome margin draw client id o db) found
                ∙ rw late refl,
          )
          | inl due ↦
              let whole = due_outcome margin draw client id row db found due in
              let c =
                due-claimable margin draw client id row (find-some (by_id id) db.deliveries found)
                  due in
              inr (
                due,
                ap (λ (r : Option Delivery × Db). r.0) whole
                    ∙ ap some (stamp_lem margin draw client id row),
                ap (λ (r : Option Delivery × Db). find (by_id j) r.1.deliveries) whole
                    ∙ stamped_at margin draw client id row db j
                    ∙ rw (found, c, stamp_lem margin draw client id row) refl,
                ap (λ (r : Option Delivery × Db). r.1.attempts) whole
                    ∙ attempts_lem margin draw client id row db,
                ap (λ (r : Option Delivery × Db). r.1.subscriptions) whole
                    ∙ kept_subscriptions margin draw client id row db,
              )
        ],
      )
    ]
