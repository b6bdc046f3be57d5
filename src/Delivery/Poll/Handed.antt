-- ===== src/Delivery/Poll/Handed.antt =====
-- What a poll hands to a relay.
use vanth.Prelude.{
  ℕ, suc, ◌≤◌, ◌≡◌, refl, ap, subst, inl, inr, String, Option, none, some, List, [], ◌∷◌, arith,
  All, length, length-take-le, take, same, Bool-cases,
}
use vanth.Prelude.Rows.{find, select}
use vanth.Delivery.{dispatching, TargetType, Delivery, Subscription, Db, Result, ok}
use vanth.Delivery.Claim.{Draw, stamp_claim, claim_delivery}
use vanth.Delivery.Claim.Outcome.{claim_delivery-Claimed, Claimed-status}
use vanth.Delivery.Relay.{is_relay_type}
use vanth.Delivery.Poll.{
  Round, offered, by_age, keep, claim_all, relay_due_deliveries, poll_rounds, destinations_of,
  poll_as, relay_poll,
}

module _ (margin : ℕ) (client : String) where
  -- A delivery in the relay's hands.
  abbrev pub Held : Delivery → Type 0
  Held d = (d.status ≡ dispatching) × (d.claim_client_id ≡ some client)

  claimed-Held :
      (draw : Draw) (id : String) (db db' : Db) (d : Delivery)
      → claim_delivery margin draw (some client) id db ≡ (some d, db')
      → Held d
  unfolding stamp_claim
  claimed-Held draw id db db' d h =
      let c = claim_delivery-Claimed margin draw (some client) id db h in
      (
        Claimed-status margin draw (some client) id db c,
        ap (λ (x : Delivery). x.claim_client_id) c.stamped,
      )

  keep-Held :
      (draw : Draw) (id : String) (db : Db) (o : Option Delivery) (rest : List Delivery)
      → (claim_delivery margin draw (some client) id db).0 ≡ o
      → All Held rest
      → (All Held (keep margin client o rest))
        × (length (keep margin client o rest) ≤ suc (length rest))
  unfolding keep
  keep-Held draw id db none rest h a = (a, omega arith)
  keep-Held draw id db (some d) rest h a = (
    (
      claimed-Held draw id db (claim_delivery margin draw (some client) id db).1 d
          (ap (λ o. (o, (claim_delivery margin draw (some client) id db).1)) h),
      a,
    ),
    omega arith,
  )

  claim_all-Held :
      (r : Round) (n : ℕ) (ds : List Delivery) (db : Db)
      → (All Held (claim_all margin client r n ds db).0)
        × (length (claim_all margin client r n ds db).0 ≤ length ds)
  unfolding claim_all
  claim_all-Held r n [] db = (tt, omega arith)
  claim_all-Held r n (d ∷ ds) db =
      let first = claim_delivery margin (r.draws n) (some client) d.delivery_id (r.others n db) in
      let (all, count) = claim_all-Held r (suc n) ds first.1 in
      let (held, more) =
        keep-Held (r.draws n) d.delivery_id (r.others n db) first.0
          (claim_all margin client r (suc n) ds first.1).0 refl all in
      (held, omega (arith, count, more))

  -- What a round or a poll may return.
  abbrev Handed : List Delivery → Type 0
  Handed ds = All Held ds × (length ds ≤ 20)

  round-Handed :
      (r : Round) (kind : TargetType) (ids : List String) (db : Db)
      → Handed (relay_due_deliveries margin client r kind ids db).0
  unfolding relay_due_deliveries
  round-Handed r kind [] db = (tt, omega arith)
  round-Handed r kind (i ∷ ids) db =
      let rows = by_age (select (offered r.now kind (i ∷ ids)) db.deliveries) in
      let (all, count) = claim_all-Held r 0 (take 20 rows) db in
      (all, omega (arith, count, length-take-le 20 rows))

  rounds-Handed :
      (kind : TargetType) (ids : List String) (rounds : List Round) (db : Db)
      → Handed (poll_rounds margin client kind ids rounds db).0
  unfolding poll_rounds
  rounds-Handed kind ids [] db = (tt, omega arith)
  rounds-Handed kind ids (r ∷ rounds) db =
      at (relay_due_deliveries margin client r kind ids (r.before db))
        (λ after. rounds-Handed kind ids rounds after) (round-Handed r kind ids (r.before db))
    where
      at :
          (p : List Delivery × Db)
          → ((after : Db) → Handed (poll_rounds margin client kind ids rounds after).0)
          → Handed p.0
          → Handed
              (elim p.0 as (λ x. List Delivery × Db) [
                | [] ↦ poll_rounds margin client kind ids rounds p.1
                | d ∷ ds ↦ (d ∷ ds, p.1)
              ]).0
      at ([], after) later h = later after
      at (d ∷ ds, after) later h = h

  answered :
      (now : ℕ) (others : Db → Db) (rounds : List Round) (o : Option Subscription) (db : Db)
      {ds : List Delivery}
      → (poll_as margin client now others rounds o db).0 ≡ ok ds
      → Handed ds
  unfolding poll_as
  answered now others rounds none db h = absurd (cc)
  answered now others rounds (some s) db h = elim (Bool-cases (is_relay_type s.client_type)) [
    | inr other ↦ absurd (cc (rw other at h))
    | inl relay ↦ subst Handed (same_list (rw relay at h)) (
        rounds-Handed s.client_type (destinations_of margin client s.client_type s.destinations)
          rounds _)
  ]
    where
      same_list : {a b : List Delivery} → ◌≡◌ {A = Result (List Delivery)} (ok a) (ok b) → a ≡ b
      same_list e = cc

  -- A poll hands out at most 20 deliveries, and each of them, as its claim read it back, is being
  -- dispatched, under a claim that is bound to the client that polls, whatever others do in between.
  pub relay_poll-held :
      (now : ℕ) (others : Db → Db) (rounds : List Round) (db : Db) {ds : List Delivery}
      → (relay_poll margin client now others rounds db).0 ≡ ok ds
      → (All (λ d. (d.status ≡ dispatching) × (d.claim_client_id ≡ some client)) ds)
        × (length ds ≤ 20)
  unfolding relay_poll
  relay_poll-held now others rounds db h =
      answered now others rounds (find (λ s. same s.client_id client) db.subscriptions) db h
