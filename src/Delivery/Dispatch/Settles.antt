-- ===== src/Delivery/Dispatch/Settles.antt =====
-- What a dispatch leaves: an answer of the transport, or nothing at all.
use vanth.Prelude.{
  ℕ, ◌+◌, ◌≤◌, same_iff, pos-ne-zero, ◌≡◌, refl, sym, ap, subst, ◌∙◌, Bool, true, false, String,
  Option, none, some, List, arith, ltb, if◌then◌else◌,
}
use vanth.Prelude.Rows.{find, find-some}
use vanth.Prelude.Keys.{count_pos, touched, find-update-touched}
use vanth.Delivery.{
  Status, retrying, delivered, failed, dispatching, Delivery, Db, Error, Result, ok, err, by_id,
  is_due, is_settled, or_else,
}
use vanth.Delivery.Claim.{Draw, stamp_claim, write_claim, claim_delivery}
use vanth.Delivery.Claim.Outcome.{claim_outcome, claim_delivery-eq-outcome}
use vanth.Delivery.Complete.{
  Clock, finish_row, final_status, will_retry, guard_row, write_completion, complete_delivery,
  answer,
}
use vanth.Delivery.Complete.Ownership.{guard_row_self, complete_owned, find-write_completion}
use vanth.Delivery.Dispatch.{
  Route, by_webhook, by_codex, by_opencode, by_command, Sent, accepted, rejected, permanent, route,
  once_only, caught, finish, dispatch_by, dispatch_delivery,
}

-- Whether a transport's answer rules out another attempt.
abbrev pub is_final : Sent → Route → Bool
is_final accepted r = false
is_final (rejected e) r = false
is_final (permanent e) by_codex = true
is_final (permanent e) by_opencode = true
is_final (permanent e) by_webhook = false
is_final (permanent e) by_command = false

-- How a row with so many attempts, of a budget, stands after the answer.
abbrev pub settled_as : Sent → Route → ℕ → Option ℕ → Status
settled_as accepted r attempts budget = delivered
settled_as s r attempts budget =
    if is_final s r then failed else if ltb attempts (or_else budget 1) then retrying else failed

-- The row is no longer in flight.
abbrev pub Settled : Status → ℕ → Delivery → Type 0
Settled status attempts r = (r.status ≡ status) × (r.claim_token ≡ none) × (r.attempts ≡ attempts)

module _ (d : Delivery) (db : Db) {token : String}
    (found : find (by_id d.delivery_id) db.deliveries ≡ some d) (flying : d.status ≡ dispatching)
    (held : d.claim_token ≡ some token) where
  abbrev Leaves : Status → Db → Type 0
  Leaves status after =
      (r : Delivery) × (find (by_id d.delivery_id) after.deliveries ≡ some r)
      × Settled status d.attempts r

  completed :
      (clock : Clock) (status : Status) (error : Option (List ℕ))
      → is_settled status ≡ true
      → Leaves
          (final_status clock d status error)
          (complete_delivery clock d status error none db).1
  unfolding finish_row
  completed clock status error s = (
    finish_row clock d status error d,
    ap (λ (p : Result Delivery × Db). find (by_id d.delivery_id) p.1.deliveries)
          (complete_owned clock d status error none db found flying held refl s)
        ∙ find-write_completion clock d status error none db found flying held refl,
    (refl, refl, refl),
  )

  -- The completion that allows no further attempt.
  guarded :
      (clock : Clock) (error : Option (List ℕ))
      → guard_row clock (once_only d) failed error none d ≡ true
  guarded clock error =
      unfold guard_row once_only in guard_row_self clock d failed error none flying held refl

  written_once :
      (clock : Clock) (error : Option (List ℕ))
      → (complete_delivery clock (once_only d) failed error none db).1
        ≡ write_completion clock (once_only d) failed error none db
  unfolding complete_delivery answer
  written_once clock error = rw (
      pos-ne-zero _ (
        count_pos (by_id d.delivery_id) (guard_row clock (once_only d) failed error none)
          db.deliveries found (guarded clock error)))

  completed_once :
      (clock : Clock) (error : Option (List ℕ))
      → 1 ≤ d.attempts
      → Leaves failed (complete_delivery clock (once_only d) failed error none db).1
  unfolding finish_row
  completed_once clock error tried = (
    finish_row clock (once_only d) failed error d,
    ap (λ (x : Db). find (by_id d.delivery_id) x.deliveries) (written_once clock error) ∙ in_table,
    (spent, refl, refl),
  )
    where
      in_table :
          find
            (by_id d.delivery_id)
            (write_completion clock (once_only d) failed error none db).deliveries
          ≡ some (finish_row clock (once_only d) failed error d)
      in_table =
          unfold write_completion finish_row in
          find-update-touched (by_id d.delivery_id)
            (guard_row clock (once_only d) failed error none)
            (finish_row clock (once_only d) failed error) (λ r. refl) db.deliveries
          ∙ ap
              (touched (guard_row clock (once_only d) failed error none)
                (finish_row clock (once_only d) failed error))
              found
          ∙ rw (guarded clock error)

      spent : (finish_row clock (once_only d) failed error d).status ≡ failed
      spent = unfold finish_row final_status will_retry once_only in ground (arith, tried)

  caught-ok :
      (margin : ℕ) (send : Route → Delivery → Sent) (text : Error → List ℕ) (later : Clock)
      (p : Result Delivery × Db) {r : Delivery}
      → p.0 ≡ ok r
      → caught margin send text later d p ≡ p.1
  unfolding caught
  caught-ok margin send text later (ok x, after) h = refl
  caught-ok margin send text later (err e, after) h = absurd (cc)

  finished :
      (margin : ℕ) (send : Route → Delivery → Sent) (text : Error → List ℕ) (clock later : Clock)
      (r : Route) (s : Sent)
      → 1 ≤ d.attempts
      → Leaves
          (settled_as s r d.attempts d.target.max_attempts)
          (finish margin send text clock later r s d db)
  unfolding finish final_status will_retry
  finished margin send text clock later r accepted tried =
      subst (Leaves delivered)
        (sym (
          caught-ok margin send text later (complete_delivery clock d delivered none none db) (
            ap (λ (p : Result Delivery × Db). p.0)
              (complete_owned clock d delivered none none db found flying held refl refl))))
        (completed clock delivered none refl)
  finished margin send text clock later r (rejected e) tried = completed clock failed (some e) refl
  finished margin send text clock later by_codex (permanent e) tried =
      completed_once clock (some e) tried
  finished margin send text clock later by_opencode (permanent e) tried =
      completed_once clock (some e) tried
  finished margin send text clock later by_webhook (permanent e) tried =
      completed clock failed (some e) refl
  finished margin send text clock later by_command (permanent e) tried =
      completed clock failed (some e) refl

-- The same, under the identifier that found the row.
finished_at :
    (margin : ℕ) (send : Route → Delivery → Sent) (text : Error → List ℕ) (clock later : Clock)
    (r : Route) (s : Sent) (d : Delivery) (db : Db) (id : String) {token : String}
    → find (by_id id) db.deliveries ≡ some d
    → d.status ≡ dispatching
    → d.claim_token ≡ some token
    → 1 ≤ d.attempts
    → (after : Delivery) × (find
          (by_id id)
          (finish margin send text clock later r s d db).deliveries
        ≡ some after)
      × Settled (settled_as s r d.attempts d.target.max_attempts) d.attempts after
finished_at margin send text clock later r s d db id found flying held tried =
    let at : d.delivery_id ≡ id =
      (same_iff d.delivery_id id).0 (find-some (by_id id) db.deliveries found) in
    let (after, there, settled) =
      finished d db (ap (λ i. find (by_id i) db.deliveries) at ∙ found) flying held margin send text
        clock later r s tried in
    (
      after,
      ap (λ i. find (by_id i) (finish margin send text clock later r s d db).deliveries) (sym at)
          ∙ there,
      settled,
    )

-- A delivery that is due, and that its target has the daemon send, is claimed; where its row is still as
-- that claim left it when the transport answers, whatever else other calls did meanwhile, it is
-- delivered, retrying or failed as the transport answered, and no longer in flight. An answer that rules out another attempt
-- fails it whatever its budget of attempts. The attempt is counted, and the claim is gone.
pub dispatch_delivery-settles :
    (margin : ℕ) (send : Route → Delivery → Sent) (text : Error → List ℕ) (others : Db → Db)
    (draw : Draw) (clock later : Clock) (d row : Delivery) (db : Db) {r : Route}
    → find (by_id d.delivery_id) db.deliveries ≡ some row
    → is_due draw.now row ≡ true
    → route d.target ≡ some r
    → find
        (by_id d.delivery_id)
        (others (claim_delivery margin draw none d.delivery_id db).1).deliveries
      ≡ some (stamp_claim margin draw none d.delivery_id row row)
    → (after : Delivery) × (find
          (by_id d.delivery_id)
          (dispatch_delivery margin send text others draw clock later d db).deliveries
        ≡ some after)
      × Settled
          (settled_as
            (send r (stamp_claim margin draw none d.delivery_id row row))
            r
            (row.attempts + 1)
            row.target.max_attempts)
          (row.attempts + 1)
          after
unfolding dispatch_delivery dispatch_by
dispatch_delivery-settles margin send text others draw clock later d row db {r} found due routed
      kept =
    rw (routed, claimed)
      (unfold stamp_claim in
        finished_at margin send text clock later r (send r taken) taken
          (others (write_claim margin draw none d.delivery_id row db)) d.delivery_id there refl refl
          (omega arith))
  where
    taken : Delivery
    taken = stamp_claim margin draw none d.delivery_id row row

    claimed :
        claim_delivery margin draw none d.delivery_id db
        ≡ (some taken, write_claim margin draw none d.delivery_id row db)
    claimed =
        claim_delivery-eq-outcome margin draw none d.delivery_id db
        ∙ ap (λ o. claim_outcome margin draw none d.delivery_id o db) found
        ∙ rw due refl

    there :
        find
          (by_id d.delivery_id)
          (others (write_claim margin draw none d.delivery_id row db)).deliveries
        ≡ some taken
    there =
        sym (
          ap (λ (p : Option Delivery × Db). find (by_id d.delivery_id) (others p.1).deliveries)
            claimed)
        ∙ kept
