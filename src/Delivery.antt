-- ===== src/Delivery.antt =====
-- The wake deliveries of src/vanth/server.py: the tables `deliveries`, `delivery_attempts` and
-- `relay_subscriptions` (src/vanth/migrations.py), and the tests that its statements share.
pub mod Destination
pub mod Enqueue
pub mod Claim
pub mod Poll
pub mod Dispatch
pub mod Complete
pub mod Relay
pub mod Manual
pub mod Unbind
pub mod Ledger
pub mod History
pub mod Tests
use vanth.Prelude.{
  ℕ, ◌+◌, ◌≡◌, Bool, true, false, not, ◌&&◌, ◌||◌, String, Option, none, some, List, [], ◌∷◌, arith,
  same, same_as, take, if◌then◌else◌,
}
use vanth.Time.{elapsed, unset_or_elapsed}

pub data Status : Type 0 where
  pending retrying dispatching delivered failed reclaimed : Status

pub data TargetType : Type 0 where
  local_command codex_cli_thread codex_thread codex_desktop opencode_thread webhook : TargetType

-- The `target` object of `payload_json`. The numbers have passed `validate_wake_targets`.
pub record Target : Type 0 where
  pub kind : TargetType
  pub command : Bool
  pub attach : Bool
  pub auto_dispatch : Option Bool
  pub thread_id : Option String
  pub thread_id_alias : Option String
  pub session_id : Option String
  pub session_id_alias : Option String
  pub timeout_seconds : Option ℕ
  pub max_attempts : Option ℕ
  pub retry_delay_seconds : Option ℕ

-- A row of `deliveries`. Error texts are lists of code points.
pub record Delivery : Type 0 where
  pub delivery_id : String
  pub event_id : String
  pub target_id : String
  pub job_id : String
  pub target_type : TargetType
  pub status : Status
  pub attempts : ℕ
  pub target : Target
  pub created_at : ℕ
  pub next_attempt_at : Option ℕ
  pub delivered_at : Option ℕ
  pub last_error : Option (List ℕ)
  pub claim_token : Option String
  pub claimed_at : Option ℕ
  pub lease_expires_at : Option ℕ
  pub claim_client_id : Option String

-- A row of `delivery_attempts`.
pub record Attempt : Type 0 where
  pub attempt_id : String
  pub delivery_id : String
  pub attempt : ℕ
  pub claim_token : Option String
  pub target_type : TargetType
  pub started_at : ℕ
  pub ended_at : Option ℕ
  pub status : Status
  pub error : Option (List ℕ)
  pub reclaimed : Bool
  pub created_at : ℕ

-- A row of `relay_subscriptions`. A destination is the identity fields of one object.
pub record Subscription : Type 0 where
  pub client_id : String
  pub client_type : TargetType
  pub destinations : List Target
  pub updated_at : ℕ
  pub last_poll_at : Option ℕ

pub record Db : Type 0 where
  pub deliveries : List Delivery
  pub attempts : List Attempt
  pub subscriptions : List Subscription

-- What the methods raise, each a `ValueError` with its own message.
pub data Error : Type 0 where
  invalid_status not_claimed unknown_delivery no_lease_token invalid_limit : Error
  unknown_client unsupported_client_type empty_client_id empty_job_id : Error

pub data Result {ℓ} (A : Type ℓ) : Type ℓ where
  ok : A → Result A
  err : Error → Result A

abbrev pub is_dispatching : Status → Bool
is_dispatching dispatching = true
is_dispatching _ = false

-- status IN ('pending','retrying')
abbrev pub is_waiting : Status → Bool
is_waiting pending = true
is_waiting retrying = true
is_waiting _ = false

abbrev pub is_settled : Status → Bool
is_settled delivered = true
is_settled failed = true
is_settled _ = false

-- delivery_id=?
abbrev pub by_id : String → Delivery → Bool
by_id id d = same d.delivery_id id

-- The rows that the dispatcher and the relays are offered, and that a claim may take.
unfoldable pub is_due : ℕ → Delivery → Bool
is_due now d =
    (is_waiting d.status && unset_or_elapsed d.next_attempt_at now)
    || (is_dispatching d.status && elapsed d.lease_expires_at now)

abbrev pub or_else {ℓ} : {A : Type ℓ} → Option A → A → A
or_else none a = a
or_else (some b) a = b

abbrev pub is_null {ℓ} : {A : Type ℓ} → Option A → Bool
is_null none = true
is_null (some a) = false

-- delivery_id=? AND ended_at IS NULL
unfoldable pub open_of : String → Attempt → Bool
open_of id a = same a.delivery_id id && is_null a.ended_at

-- status='dispatching' AND claim_token=?
unfoldable pub claimed_with : String → Option String → Delivery → Bool
claimed_with id none d = false
claimed_with id (some token) d =
    by_id id d && (is_dispatching d.status && same_as d.claim_token token)

-- ... AND claim_client_id=?
unfoldable pub owned_by : String → String → String → Delivery → Bool
owned_by id token client d = claimed_with id (some token) d && same_as d.claim_client_id client

-- (error or "")[:DEFAULT_MAX_ERROR_BYTES] or None
unfoldable pub clip_error : Option (List ℕ) → Option (List ℕ)
clip_error none = none
clip_error (some []) = none
clip_error (some (c ∷ cs)) = some (take 4096 (c ∷ cs))
