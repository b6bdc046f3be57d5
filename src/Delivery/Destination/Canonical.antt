-- ===== src/Delivery/Destination/Canonical.antt =====
-- The canonical form of a wake target, and what a relay that looks for a destination finds of it.
use vanth.Prelude.{
  ◌≡◌, refl, ap, ◌∙◌, true, false, String, Option, none, some, List, [], ◌∷◌, arith, same,
}
use vanth.Delivery.{
  Target, TargetType, local_command, codex_cli_thread, codex_thread, codex_desktop, opencode_thread,
  webhook,
}
use vanth.Delivery.Destination.{
  or_next, assign, codex, other, canonical, canonicalize_wake_target, identity_values,
  named_identity, one_in, member,
}
use vanth.Delivery.Relay.{is_relay_type}

-- What is assigned is assigned again.
assign-settles :
    (o old : Option String) → assign (or_next (assign o old) none) (assign o old) ≡ assign o old
unfolding assign or_next
assign-settles none none = refl
assign-settles none (some v) = ground arith
assign-settles (some w) none = ground arith
assign-settles (some w) (some v) = ground arith

codex-twice : (t : Target) → codex (codex t) ≡ codex t
unfolding codex or_next
codex-twice t =
    ap
      (λ v. record t {
        thread_id = v;
        thread_id_alias = none;
        session_id = none;
        session_id_alias = none;
      })
      (assign-settles
        (or_next t.thread_id (or_next t.thread_id_alias (or_next t.session_id t.session_id_alias)))
        t.thread_id)

other-twice : (t : Target) → other (other t) ≡ other t
unfolding other
other-twice t = ap (λ v. record t { thread_id = v; thread_id_alias = none }) (settled t.thread_id)
  where
    copied :
        (o : Option String) → (elim o as (λ x. Option String) [ none ↦ none | some v ↦ some v ]) ≡ o
    copied none = refl
    copied (some v) = refl

    chosen : Option String → Option String
    chosen o = elim o [ none ↦ t.thread_id_alias | some v ↦ some v ]

    settled :
        (o : Option String)
        → (elim (chosen o) as (λ x. Option String) [ none ↦ none | some v ↦ some v ]) ≡ chosen o
    settled (some v) = refl
    settled none = copied t.thread_id_alias

opencode-twice :
    (t : Target)
    → canonical opencode_thread (canonical opencode_thread t) ≡ canonical opencode_thread t
unfolding canonical or_next
opencode-twice t =
    ap
      (λ v. record t {
        thread_id = none;
        thread_id_alias = none;
        session_id = v;
        session_id_alias = none;
      })
      (assign-settles
        (or_next t.session_id (or_next t.session_id_alias (or_next t.thread_id t.thread_id_alias)))
        t.session_id)

canonical-kind : (k : TargetType) (t : Target) → (canonical k t).kind ≡ t.kind
unfolding canonical codex other
canonical-kind opencode_thread t = refl
canonical-kind codex_desktop t = refl
canonical-kind codex_thread t = refl
canonical-kind codex_cli_thread t = refl
canonical-kind local_command t = refl
canonical-kind webhook t = refl

canonical-twice : (k : TargetType) (t : Target) → canonical k (canonical k t) ≡ canonical k t
unfolding canonical
canonical-twice opencode_thread t = opencode-twice t
canonical-twice codex_desktop t = codex-twice t
canonical-twice codex_thread t = codex-twice t
canonical-twice codex_cli_thread t = codex-twice t
canonical-twice local_command t = other-twice t
canonical-twice webhook t = other-twice t

-- The form is canonical: a target that has it keeps it.
pub canonicalize_wake_target-idempotent :
    (t : Target)
    → canonicalize_wake_target (canonicalize_wake_target t) ≡ canonicalize_wake_target t
unfolding canonicalize_wake_target
canonicalize_wake_target-idempotent t =
    ap (λ k. canonical k (canonical t.kind t)) (canonical-kind t.kind t) ∙ canonical-twice t.kind t

assign_named :
    (o old : Option String) (v : String) → o ≡ some v → same v "" ≡ false → assign o old ≡ some v
unfolding assign
assign_named o old v h e = rw (h, e)

one_in_named :
    (o : Option String) (v : String) (ids : List String)
    → o ≡ some v
    → one_in (o ∷ none ∷ []) ids ≡ member v ids
unfolding one_in
one_in_named o v ids h = rw h (ground arith)

-- Whichever of its keys a relay's target names its destination under, a relay that asks for some
-- destinations finds the stored target exactly where the named one is among them.
pub canonicalize_wake_target-matched :
    (t : Target) (v : String) (ids : List String)
    → is_relay_type t.kind ≡ true
    → named_identity t.kind t ≡ some v
    → same v "" ≡ false
    → one_in (identity_values t.kind (canonicalize_wake_target t)) ids ≡ member v ids
unfolding canonicalize_wake_target
canonicalize_wake_target-matched t v ids relay named proper = by_kind t.kind relay named
  where
    by_kind :
        (k : TargetType)
        → is_relay_type k ≡ true
        → named_identity k t ≡ some v
        → one_in (identity_values k (canonical k t)) ids ≡ member v ids
    by_kind codex_desktop r n =
        unfold canonical codex identity_values named_identity in
        one_in_named (assign _ t.thread_id) v ids (assign_named _ t.thread_id v n proper)
    by_kind opencode_thread r n =
        unfold canonical identity_values named_identity in
        one_in_named (assign _ t.session_id) v ids (assign_named _ t.session_id v n proper)
    by_kind codex_thread r n = absurd (cc)
    by_kind codex_cli_thread r n = absurd (cc)
    by_kind local_command r n = absurd (cc)
    by_kind webhook r n = absurd (cc)
