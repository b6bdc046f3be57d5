-- ===== src/Remote/Store.antt =====
-- src/vanth/remote/store.py: its errors and state machines. Its tables have the child modules.
pub mod Forgotten
pub mod Hidden
pub mod Operations
pub mod Origins
pub mod Remotes
pub mod Requests
pub mod Restore
pub mod Retry
pub mod Shadows
pub mod Tests
use vanth.Prelude.{
  ◌≡◌, ◌⊎◌, inl, inr, refl, String, Option, none, some, List, [], ◌∷◌, same, if◌then◌else◌,
}

-- ValueError, VanthRemoteProtocolError with PROTOCOL_REPLAY_MISMATCH or INVALID_REQUEST, and
-- VanthRemoteError.
pub data StoreError : Type 0 where
  value_error replay_mismatch invalid_request remote_error : StoreError

pub data Reply (A : Type 0) : Type 0 where
  raised : StoreError → Reply A
  returned : A → Reply A

pub Reply-cases :
    {A : Type 0} (r : Reply A) → ((e : StoreError) × (r ≡ raised e)) ⊎ ((a : A) × (r ≡ returned a))
Reply-cases (raised e) = inl (e, refl)
Reply-cases (returned a) = inr (a, refl)

module _ {A : Type 0} where
  -- dict.get with a text for its key
  unfoldable pub lookup : String → List (String × A) → Option A
  lookup key [] = none
  lookup key ((k, v) ∷ rest) = if same k key then some v else lookup key rest

abbrev pub pairing_table : List (String × List (String × String))
pairing_table =
    ("unpaired", ("pairing", "pairing") ∷ [])
    ∷ ("pairing", ("paired", "paired") ∷ ("error", "error") ∷ [])
    ∷ ("paired", [])
    ∷ ("error", [])
    ∷ []

abbrev pub request_table : List (String × List (String × String))
request_table =
    ("creating", ("submitting", "submitting") ∷ [])
    ∷ ("submitting", ("accepted", "accepted") ∷ [])
    ∷ (
      "accepted",
      ("completed", "completed")
          ∷ ("failed", "failed")
          ∷ ("lost", "lost")
          ∷ ("submitting", "submitting")
          ∷ [],
    )
    ∷ ("completed", [])
    ∷ ("failed", [])
    ∷ ("lost", [])
    ∷ []

abbrev pub operation_table : List (String × List (String × String))
operation_table =
    ("accepted", ("queued", "queued") ∷ [])
    ∷ ("queued", ("launched", "launched") ∷ [])
    ∷ ("launched", ("running", "running") ∷ [])
    ∷ ("running", ("completed", "completed") ∷ ("failed", "failed") ∷ [])
    ∷ ("completed", [])
    ∷ ("failed", [])
    ∷ []

or_value_error : {A : Type 0} → Option A → Reply A
or_value_error none = raised value_error
or_value_error (some a) = returned a

next_state : String → Option (List (String × String)) → Reply String
unfolding or_value_error
next_state event none = raised value_error
next_state event (some row) = or_value_error (lookup event row)

abbrev pub transition_tables : List (String × List (String × List (String × String)))
transition_tables =
    ("pairing", pairing_table) ∷ ("request", request_table) ∷ ("operation", operation_table) ∷ []

in_table : String → String → Option (List (String × List (String × String))) → Reply String
unfolding next_state
in_table now event none = raised value_error
in_table now event (some table) = next_state event (lookup now table)

unfoldable pub transition : String → String → String → Reply String
unfolding in_table
transition now event machine = in_table now event (lookup machine transition_tables)
