-- ===== src/Delivery/Poll.antt =====
-- `relay_poll` and `_relay_due_deliveries` of src/vanth/server.py. A poll takes the lock for the
-- registration, for each query and for each claim; what others do in between is a parameter.
pub mod Handed
pub mod Tests
use vanth.Prelude.{
  ℕ, suc, Bool, true, false, ◌&&◌, String, Option, none, some, List, [], ◌∷◌, ◌++◌, take, same,
  if◌then◌else◌,
}
use vanth.Prelude.Rows.{find, select, update}
use vanth.Time.{text_le}
use vanth.Delivery.{
  Target, TargetType, codex_desktop, opencode_thread, Delivery, Subscription, Db, unknown_client,
  unsupported_client_type, Result, ok, err, is_due,
}
use vanth.Delivery.Destination.{identity_values, identities_of, one_in}
use vanth.Delivery.Claim.{Draw, claim_delivery}
use vanth.Delivery.Relay.{is_relay_type}

-- Which of the target types are equal.
unfoldable pub kind_eq : TargetType → TargetType → Bool
kind_eq codex_desktop codex_desktop = true
kind_eq opencode_thread opencode_thread = true
kind_eq _ _ = false

-- The WHERE of the query, with the destinations filtered before the LIMIT.
unfoldable pub offered : ℕ → TargetType → List String → Delivery → Bool
offered now kind ids d =
    kind_eq kind d.target_type && (one_in (identity_values kind d.target) ids && is_due now d)

-- ORDER BY created_at, ties in the table's order
unfoldable pub insert_by_age : Delivery → List Delivery → List Delivery
insert_by_age d [] = d ∷ []
insert_by_age d (x ∷ xs) =
    if text_le d.created_at x.created_at then d ∷ x ∷ xs else x ∷ insert_by_age d xs

unfoldable pub by_age : List Delivery → List Delivery
unfolding insert_by_age
by_age [] = []
by_age (d ∷ ds) = insert_by_age d (by_age ds)

-- A round of a poll: when it runs, what each of its claims draws, what others do before its query, and
-- before each of its claims.
pub record Round : Type 0 where
  pub now : ℕ
  pub draws : ℕ → Draw
  pub before : Db → Db
  pub others : ℕ → Db → Db

module _ (margin : ℕ) (client : String) where
  unfoldable pub keep : Option Delivery → List Delivery → List Delivery
  keep none rest = rest
  keep (some d) rest = d ∷ rest

  -- The claims of one round; each draws its own times and tokens.
  unfoldable pub claim_all : Round → ℕ → List Delivery → Db → List Delivery × Db
  unfolding keep
  claim_all r n [] db = ([], db)
  claim_all r n (d ∷ ds) db =
      let (claimed, db₁) =
        claim_delivery margin (r.draws n) (some client) d.delivery_id (r.others n db) in
      let (rest, db₂) = claim_all r (suc n) ds db₁ in (keep claimed rest, db₂)

  -- The identities of the poller's destinations, under every alias of its type.
  unfoldable pub destinations_of : TargetType → List Target → List String
  destinations_of kind [] = []
  destinations_of kind (t ∷ ts) = identities_of (identity_values kind t) ++ destinations_of kind ts

  unfoldable pub relay_due_deliveries : Round → TargetType → List String → Db → List Delivery × Db
  relay_due_deliveries r kind [] db = ([], db)
  relay_due_deliveries r kind (i ∷ ids) db =
      claim_all r 0 (take 20 (by_age (select (offered r.now kind (i ∷ ids)) db.deliveries))) db

  -- The rounds of one poll. The last one meets the deadline.
  unfoldable pub poll_rounds : TargetType → List String → List Round → Db → List Delivery × Db
  poll_rounds kind ids [] db = ([], db)
  poll_rounds kind ids (r ∷ rounds) db =
      let (due, db₁) = relay_due_deliveries r kind ids (r.before db) in
      let later = poll_rounds kind ids rounds db₁ in
      elim due [ [] ↦ later | d ∷ ds ↦ (d ∷ ds, db₁) ]

  unfoldable pub touch_poll : ℕ → Subscription → Subscription
  touch_poll now s = record s { last_poll_at = some now }

  -- `others` is what others do between the read of the subscription and its UPDATE.
  unfoldable pub poll_as :
      ℕ → (Db → Db) → List Round → Option Subscription → Db → Result (List Delivery) × Db
  poll_as now others rounds none db = (err unknown_client, db)
  poll_as now others rounds (some s) db =
      let later = others db in
      let seen = record later {
        subscriptions = update (λ x. same x.client_id client) (touch_poll now) later.subscriptions;
      } in
      let (due, after) =
        poll_rounds s.client_type (destinations_of s.client_type s.destinations) rounds seen in
      if is_relay_type s.client_type then (ok due, after) else (err unsupported_client_type, db)

  unfoldable pub relay_poll : ℕ → (Db → Db) → List Round → Db → Result (List Delivery) × Db
  unfolding poll_as
  relay_poll now others rounds db =
      poll_as now others rounds (find (λ s. same s.client_id client) db.subscriptions) db
