-- ===== src/Delivery/Poll/Tests.antt =====
-- A poll on a concrete database.
use vanth.Prelude.{◌++◌, ◌≤◌, ◌≡◌, refl, none, some, [], ◌∷◌, All, length}
use vanth.Prelude.Tests.{same}
use vanth.Prelude.Rows.{find, select, update, count}
use vanth.Time.{elapsed, unset_or_elapsed, text_le, text_rank}
use vanth.Delivery.{codex_desktop, dispatching, Delivery, Subscription, Db, ok, is_due}
use vanth.Delivery.Destination.{identity_values, identities_of, member, one_in}
use vanth.Delivery.Claim.{
  claim_delivery, claim_row, claimable, write_claim, stamp_claim, lease_seconds, lease_for,
  effective_timeout, claim_lease_seconds, helper_hard_deadline, wake_sequence_budget,
}
use vanth.Delivery.Poll.{
  Round, kind_eq, offered, by_age, insert_by_age, keep, claim_all, destinations_of,
  relay_due_deliveries, poll_rounds, touch_poll, poll_as, relay_poll,
}
use vanth.Delivery.Poll.Handed.{relay_poll-held}
use vanth.Delivery.Tests.{desktop, waiting_row, one_waiting, first}

abbrev relay_row : Subscription
relay_row = record {
  client_id = "relay-1";
  client_type = codex_desktop;
  destinations = desktop ∷ [];
  updated_at = 5;
  last_poll_at = none;
}

abbrev subscribed : Db
subscribed = record one_waiting { subscriptions = relay_row ∷ [] }

abbrev polled : Delivery
polled = record waiting_row {
  status = dispatching;
  attempts = 1;
  claim_token = some "claim-1";
  claimed_at = some 1000000;
  lease_expires_at = some 67000001;
  claim_client_id = some "relay-1";
}

-- Another relay registers before the claim.
abbrev relay_arrives : Db → Db
relay_arrives db = record db {
  subscriptions = db.subscriptions ++ record relay_row { client_id = "relay-2" } ∷ [];
}

abbrev round : Round
round = record { now = 1000000; draws = λ n. first; before = λ db. db; others = λ n. relay_arrives }

hands_out : (relay_poll 5 "relay-1" 1000000 (λ db. db) (round ∷ []) subscribed).0 ≡ ok (polled ∷ [])
unfolding relay_poll poll_as poll_rounds relay_due_deliveries claim_all keep destinations_of offered
    by_age insert_by_age kind_eq touch_poll identity_values identities_of one_in member is_due find
    select update count same elapsed unset_or_elapsed text_le text_rank claim_delivery claim_row
    claimable write_claim stamp_claim lease_seconds lease_for effective_timeout claim_lease_seconds
    helper_hard_deadline wake_sequence_budget
hands_out = refl

relay_poll-held_example :
    (All (λ d. (d.status ≡ dispatching) × (d.claim_client_id ≡ some "relay-1")) (polled ∷ []))
    × (length (polled ∷ []) ≤ 20)
relay_poll-held_example =
    relay_poll-held 5 "relay-1" 1000000 (λ db. db) (round ∷ []) subscribed hands_out
