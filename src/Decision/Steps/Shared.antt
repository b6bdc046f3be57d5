-- ===== src/Decision/Steps/Shared.antt =====
-- What an event with its change leaves, and that reading a row back changes nothing.
use vanth.Prelude.{
  ℕ, ◌≡◌, refl, inl, inr, Bool, not, ◌&&◌, String, Option, none, some, ltb, same, codes, length,
  leb, Bool-cases,
}
use vanth.Prelude.Rows.{find, count}
use vanth.Decision.{
  Decision, EventRow, Payload, World, Result, ok, is_terminal, with_token, blank,
  normalize_decision_actor,
}
use vanth.Decision.Emit.{
  Mutation, changed, noop, refused, EmitDraw, write_event, commit, emit_transactional,
}
use vanth.Decision.Requests.{reload, reload_row}

pub normalize_decision_actor-same :
    (actor : String) {name : String} → normalize_decision_actor actor ≡ ok name → name ≡ actor
unfolding normalize_decision_actor
normalize_decision_actor-same actor h = elim (Bool-cases (blank (codes actor))) [
  | inl e ↦ absurd (cc (rw e at h))
  | inr e ↦ elim (Bool-cases (ltb 200 (length (codes actor)))) [
    | inl k ↦ absurd (cc (rw (e, k) at h))
    | inr k ↦ let at : ◌≡◌ {A = Result String} (ok actor) (ok _) = rw (e, k) at h in cc
  ]
]

reload_row-world : (o : Option Decision) (w : World) → (reload_row o w).1 ≡ w
unfolding reload_row
reload_row-world none w = refl
reload_row-world (some d) w = refl

pub reload-world : (token : String) (w : World) → (reload token w).1 ≡ w
unfolding reload
reload-world token w = reload_row-world (find (with_token token) w.decisions) w

-- `P` holds of the tables before, and of what a change leaves with its event.
module _ (P : World → Type 0) (w : World) (before : P w) where
  committed :
      (draw : EmitDraw) (job kind message : String) (payload : Payload) (m : Mutation)
      → ((w₁ : World) → m ≡ changed w₁ → P (write_event draw job kind message payload w₁))
      → P (commit draw job kind message payload w m).1
  unfolding commit
  committed draw job kind message payload (changed w₁) step = step w₁ refl
  committed draw job kind message payload noop step = before
  committed draw job kind message payload (refused e) step = before

  pub emit-keeps :
      (draw : EmitDraw) (job kind message : String) (payload : Payload) (max_events : ℕ)
      (exempt : Bool) (mutate : World → Mutation)
      → ((w₁ : World) → mutate w ≡ changed w₁ → P (write_event draw job kind message payload w₁))
      → P (emit_transactional draw job kind message payload max_events exempt mutate w).1
  unfolding emit_transactional
  emit-keeps draw job kind message payload max_events exempt mutate step = elim (Bool-cases full) [
    | inl e ↦ rw e before
    | inr e ↦ rw e (committed draw job kind message payload (mutate w) step)
  ]
    where
      full : Bool
      full =
          (not (is_terminal kind) && not exempt)
          && leb max_events (count (λ (e : EventRow). same e.job_id job) w.events)
