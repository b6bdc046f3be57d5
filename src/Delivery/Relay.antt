-- ===== src/Delivery/Relay.antt =====
-- The relay's side of src/vanth/server.py: `relay_register`, `relay_unregister`, `relay_ack`,
-- `relay_release`, `relay_expire_stale`, and one round of `relay_poll`.
use vanth.Prelude.{
  ℕ, ◌-◌, Bool, true, false, ◌&&◌, String, Option, none, some, List, [], ◌∷◌, ◌++◌, ◌==◌, same,
  if◌then◌else◌,
}
use vanth.Prelude.Rows.{find, update, count, delete}
use vanth.Time.{seconds, text_lt}
use vanth.Delivery.{
  Status, pending, Target, TargetType, codex_desktop, opencode_thread, Delivery, Subscription, Db,
  invalid_status, not_claimed, no_lease_token, empty_client_id, unsupported_client_type, Result, ok,
  err, is_settled, open_of, owned_by,
}
use vanth.Delivery.Complete.{Clock, token_is, complete_delivery}

-- not isinstance(lease_token, str) or not lease_token
unfoldable pub present : Option String → Option String
present none = none
present (some token) = if same token "" then none else some token

module _ (client id : String) where
  unfoldable pub ack_row :
      Clock → Status → Option (List ℕ) → Option Delivery → Db → Result Status × Db
  ack_row clock status error none db = (err not_claimed, db)
  ack_row clock status error (some d) db =
      let (result, after) = complete_delivery clock d status error (some client) db in
      elim result [ ok _ ↦ (ok status, after) | err e ↦ (err e, after) ]

  unfoldable pub ack_token :
      Clock → Status → Option (List ℕ) → Option String → Db → Result Status × Db
  unfolding ack_row
  ack_token clock status error none db = (err no_lease_token, db)
  ack_token clock status error (some token) db =
      ack_row clock status error (find (owned_by id token client) db.deliveries) db

  unfoldable pub relay_ack :
      Clock → Status → Option (List ℕ) → Option String → Db → Result Status × Db
  unfolding ack_token
  relay_ack clock status error token db =
      if is_settled status
      then ack_token clock status error (present token) db
      else (err invalid_status, db)

  unfoldable pub released : Delivery → Delivery
  released d = record d {
    status = pending;
    attempts = d.attempts - 1;
    next_attempt_at = none;
    claim_token = none;
    claimed_at = none;
    lease_expires_at = none;
    claim_client_id = none;
  }

  unfoldable pub write_release : String → Db → Db
  unfolding released
  write_release token db = record db {
    deliveries = update (owned_by id token client) released db.deliveries;
    attempts = delete (λ a. open_of id a && token_is (some token) a) db.attempts;
  }

  unfoldable pub release_token : Option String → Db → Result Status × Db
  unfolding write_release
  release_token none db = (err no_lease_token, db)
  release_token (some token) db =
      if count (owned_by id token client) db.deliveries == 0
      then (err not_claimed, db)
      else (ok pending, write_release token db)

  unfoldable pub relay_release : Option String → Db → Result Status × Db
  unfolding release_token
  relay_release token db = release_token (present token) db

-- RELAY_CLIENT_TYPES
abbrev pub is_relay_type : TargetType → Bool
is_relay_type codex_desktop = true
is_relay_type opencode_thread = true
is_relay_type _ = false

module _ (client : String) where
  -- INSERT ... ON CONFLICT(client_id) DO UPDATE
  unfoldable pub relay_register : ℕ → TargetType → List Target → Db → Result (Unit {0}) × Db
  relay_register now type destinations db =
      let fresh : Subscription = record {
        client_id = client;
        client_type = type;
        destinations = destinations;
        updated_at = now;
        last_poll_at = some now;
      } in
      if same client ""
      then (err empty_client_id, db)
      else if is_relay_type type
      then (
        ok tt,
        record db {
          subscriptions =
              (if count (λ s. same s.client_id client) db.subscriptions == 0
                then db.subscriptions ++ fresh ∷ []
                else update (λ s. same s.client_id client) (λ s. fresh) db.subscriptions);
        },
      )
      else (err unsupported_client_type, db)

  unfoldable pub relay_unregister : Db → Db
  relay_unregister db = record db {
    subscriptions = delete (λ s. same s.client_id client) db.subscriptions;
  }

unfoldable pub stale : ℕ → Option ℕ → Bool
stale cutoff none = true
stale cutoff (some t) = text_lt t cutoff

unfoldable pub relay_expire_stale : ℕ → ℕ → Db → ℕ × Db
unfolding stale
relay_expire_stale now age db =
    let gone : Subscription → Bool = λ s. stale (now - seconds age) s.last_poll_at in
    (count gone db.subscriptions, record db { subscriptions = delete gone db.subscriptions })
