-- ===== src/Delivery/Destination.antt =====
-- `canonicalize_wake_target` of src/vanth/server.py, and the identities that a relay reads
-- (`RELAY_IDENTITY_KEYS`, the predicate of `_relay_due_deliveries`).
pub mod Canonical
use vanth.Prelude.{
  ℕ, ◌≡◌, refl, inl, inr, Bool, true, false, not, ◌&&◌, ◌||◌, String, Option, none, some, List, [],
  ◌∷◌, arith, same, same_iff, if◌then◌else◌, Bool-cases,
}
use vanth.Delivery.{
  Target, TargetType, local_command, codex_cli_thread, codex_thread, codex_desktop, opencode_thread,
  webhook, or_else,
}

-- `value or next` on a key that may be missing: the empty text counts as missing.
unfoldable pub or_next : Option String → Option String → Option String
or_next none next = next
or_next (some v) next = if same v "" then next else some v

-- `if identity: copied[key] = identity`
unfoldable pub assign : Option String → Option String → Option String
assign none old = old
assign (some v) old = if same v "" then old else some v

unfoldable pub codex : Target → Target
codex t = record t {
  thread_id =
      assign
        (or_next t.thread_id (or_next t.thread_id_alias (or_next t.session_id t.session_id_alias)))
        t.thread_id;
  thread_id_alias = none;
  session_id = none;
  session_id_alias = none;
}

unfoldable pub other : Target → Target
other t = record t {
  thread_id = elim t.thread_id [ none ↦ t.thread_id_alias | some v ↦ some v ];
  thread_id_alias = none;
}

unfoldable pub canonical : TargetType → Target → Target
unfolding codex other assign or_next
canonical opencode_thread t = record t {
  session_id =
      assign
        (or_next t.session_id (or_next t.session_id_alias (or_next t.thread_id t.thread_id_alias)))
        t.session_id;
  session_id_alias = none;
  thread_id = none;
  thread_id_alias = none;
}
canonical codex_desktop t = codex t
canonical codex_thread t = codex t
canonical codex_cli_thread t = codex t
canonical local_command t = other t
canonical webhook t = other t

unfoldable pub canonicalize_wake_target : Target → Target
unfolding canonical
canonicalize_wake_target t = canonical t.kind t

-- The values at a client type's identity keys.
unfoldable pub identity_values : TargetType → Target → List (Option String)
identity_values codex_desktop t = t.thread_id ∷ t.thread_id_alias ∷ []
identity_values opencode_thread t = t.session_id ∷ t.session_id_alias ∷ []
identity_values _ t = []

-- The destination that a target names, under whichever of its keys.
unfoldable pub named_identity : TargetType → Target → Option String
unfolding or_next
named_identity opencode_thread t =
    or_next t.session_id (or_next t.session_id_alias (or_next t.thread_id t.thread_id_alias))
named_identity _ t =
    or_next t.thread_id (or_next t.thread_id_alias (or_next t.session_id t.session_id_alias))

-- isinstance(value, str) and value
unfoldable pub identities_of : List (Option String) → List String
identities_of [] = []
identities_of (none ∷ rest) = identities_of rest
identities_of (some v ∷ rest) = if same v "" then identities_of rest else v ∷ identities_of rest

unfoldable pub member : String → List String → Bool
member v [] = false
member v (i ∷ ids) = same v i || member v ids

-- json_extract(...) IN (identities), for one of the keys
unfoldable pub one_in : List (Option String) → List String → Bool
one_in [] ids = false
one_in (none ∷ rest) ids = one_in rest ids
one_in (some v ∷ rest) ids = member v ids || one_in rest ids
