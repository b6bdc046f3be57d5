-- ===== src/Decision.antt =====
-- Human decisions of src/vanth/server.py: the table `decisions`, the events of their transitions, and
-- the tests that the methods share.
pub mod Emit
pub mod Requests
pub mod Steps
pub mod Lifecycle
pub mod Options
pub mod Numbering
pub mod Listing
pub mod Tests
use vanth.Prelude.{
  ℕ, ◌≡◌, Bool, true, false, not, ◌&&◌, ◌||◌, String, Option, none, some, List, [], ◌∷◌, same, leb,
  ltb, codes, length, if◌then◌else◌,
}
use vanth.Prelude.Text.{is_space}
use vanth.Delivery.{Db}
use vanth.Delivery.Destination.{member}
use vanth.Delivery.Enqueue.{WakeTarget}

-- DECISION_STATUSES
pub data DecisionStatus : Type 0 where
  pending resolved withdrawn expired : DecisionStatus

-- A row of `decisions`.
pub record Decision : Type 0 where
  pub decision_id : String
  pub job_id : String
  pub prompt : String
  pub options : List String
  pub choice : Option String
  pub status : DecisionStatus
  pub resolved_by : Option String
  pub created_at : ℕ
  pub expires_at : Option ℕ
  pub resolved_at : Option ℕ

-- The `data` of a decision's event.
pub data Payload : Type 0 where
  requested_data :
      (decision_id prompt : String) (options : List String) (expires_at : Option ℕ) → Payload
  resolved_data : (decision_id choice actor : String) → Payload
  withdrawn_data : (decision_id actor : String) → Payload
  expired_data : (decision_id : String) → Payload

-- A row of `events`.
pub record EventRow : Type 0 where
  pub event_id : String
  pub job_id : String
  pub seq : ℕ
  pub kind : String
  pub message : String
  pub payload : Payload
  pub created_at : ℕ

-- What is read of a row of `jobs`.
pub record Job : Type 0 where
  pub job_id : String
  pub status : String

-- The tables that a transition reads or writes.
pub record World : Type 0 where
  pub jobs : List Job
  pub decisions : List Decision
  pub events : List EventRow
  pub targets : List WakeTarget
  pub queue : Db

-- What the methods raise. All are `ValueError` with their own message, but for `duplicate_id`, which
-- is SQLite's `IntegrityError`.
pub data Error : Type 0 where
  empty_prompt long_prompt bad_timeout oversized unknown_job terminal_job duplicate_id : Error
  no_options too_many_options empty_option long_option empty_actor long_actor : Error
  empty_choice empty_token unknown_decision already_resolved not_pending deadline_passed : Error
  not_an_option changed_concurrently : Error

pub data Result {ℓ} (A : Type ℓ) : Type ℓ where
  ok : A → Result A
  err : Error → Result A

abbrev pub is_pending : DecisionStatus → Bool
is_pending pending = true
is_pending _ = false

-- TERMINAL_STATUSES
unfoldable pub is_terminal : String → Bool
is_terminal status =
    member status ("completed" ∷ "failed" ∷ "timeout" ∷ "cancelled" ∷ "orphaned" ∷ [])

-- decision_id=?
abbrev pub with_token : String → Decision → Bool
with_token token d = same d.decision_id token

-- decision_id=? AND status='pending'
unfoldable pub open_token : String → Decision → Bool
open_token token d = with_token token d && is_pending d.status

-- `_row_isdue`: the stored texts are parsed, so this is the order of time.
unfoldable pub row_isdue : Option ℕ → DecisionStatus → ℕ → Bool
row_isdue (some deadline) pending now = leb deadline now
row_isdue _ _ now = false

-- not text.strip()
unfoldable pub blank : List ℕ → Bool
blank [] = true
blank (c ∷ cs) = is_space c && blank cs

unfoldable pub normalize_decision_actor : String → Result String
normalize_decision_actor actor =
    if blank (codes actor)
    then err empty_actor
    else if ltb 200 (length (codes actor))
    then err long_actor
    else ok actor

unfoldable pub cons_new : List String → String → Result (List String) → Result (List String)
cons_new seen option (err e) = err e
cons_new seen option (ok rest) = ok (if member option seen then rest else option ∷ rest)

-- The loop over the options; `seen` are those before.
unfoldable pub normalize_from : List String → List String → Result (List String)
unfolding cons_new
normalize_from seen [] = ok []
normalize_from seen (option ∷ options) =
    let rest = normalize_from (option ∷ seen) options in
    if blank (codes option)
    then err empty_option
    else if ltb 200 (length (codes option))
    then err long_option
    else cons_new seen option rest

unfoldable pub normalize_choices : List String → Result (List String)
unfolding normalize_from
normalize_choices [] = err no_options
normalize_choices (o ∷ os) =
    if ltb 50 (length (o ∷ os)) then err too_many_options else normalize_from [] (o ∷ os)

abbrev pub default_decision_options : List String
default_decision_options = "approve" ∷ "deny" ∷ []

unfoldable pub normalize_decision_options : Option (List String) → Result (List String)
unfolding normalize_choices
normalize_decision_options none = normalize_choices default_decision_options
normalize_decision_options (some options) = normalize_choices options
