-- ===== src/Decision/Steps/Resolving.antt =====
-- What one call of `resolve_decision` or `withdraw_decision` can do to the tables.
use vanth.Prelude.{ℕ, ◌≡◌, refl, sym, subst, inl, inr, Bool, true, String, arith, same, Bool-cases}
use vanth.Decision.{
  Decision, Payload, resolved_data, withdrawn_data, World, Result, ok, err,
  normalize_decision_actor,
}
use vanth.Decision.Emit.{changed, Emission, persisted, capped, skipped, write_event}
use vanth.Decision.Requests.{
  Draw, resolve_mutation, resolve_answer, resolve_by, resolve_decision, noop_row, decision_for,
  withdraw_mutation, withdraw_answer, withdraw_by, withdraw_decision,
}
use vanth.Decision.Steps.Shared.{normalize_decision_actor-same, reload-world, emit-keeps}

module _ (P : World → Type 0) (max_events : ℕ) (fits : Payload → Bool) where
  module _ (draw : Draw) (job token choice actor : String) where
    noop_row-world :
        (o : Result Decision) (w : World)
        → (noop_row max_events fits draw job token choice actor o w).1 ≡ w
    unfolding noop_row
    noop_row-world (err e) w = refl
    noop_row-world (ok d) w = ground arith

    resolve_answer-world :
        (r : Result Emission × World)
        → (resolve_answer max_events fits draw job token choice actor r).1 ≡ r.1
    unfolding resolve_answer
    resolve_answer-world (err e, w) = refl
    resolve_answer-world (ok skipped, w) = noop_row-world (decision_for job token w) w
    resolve_answer-world (ok capped, w) = reload-world token w
    resolve_answer-world (ok (persisted e), w) = reload-world token w

    resolve_by-keeps :
        (w : World) (o : Result String)
        → P w
        → ((w₁ : World)
            → resolve_mutation max_events fits draw job token choice actor w ≡ changed w₁
            → P (
                write_event draw.emit job "decision_resolved" choice
                  (resolved_data token choice actor)
                  w₁))
        → normalize_decision_actor actor ≡ o
        → P (resolve_by max_events fits draw job token choice actor o w).1
    unfolding resolve_by
    resolve_by-keeps w (err e) before step h = before
    resolve_by-keeps w (ok name) before step h =
        elim (Bool-cases (fits (resolved_data token choice name))) [
          | inr big ↦ rw big before
          | inl small ↦ rw small (
              subst P (sym (resolve_answer-world _)) (
                emit-keeps P w before draw.emit job "decision_resolved" choice
                  (resolved_data token choice name) max_events true
                  (resolve_mutation max_events fits draw job token choice actor)
                  λ w₁ k.
                    subst
                      (λ n. P (
                        write_event draw.emit job "decision_resolved" choice
                          (resolved_data token choice n) w₁))
                      (sym (normalize_decision_actor-same actor h)) (step w₁ k)))
        ]

    pub resolve_decision-keeps :
        (w : World)
        → P w
        → ((w₁ : World)
            → resolve_mutation max_events fits draw job token choice actor w ≡ changed w₁
            → P (
                write_event draw.emit job "decision_resolved" choice
                  (resolved_data token choice actor)
                  w₁))
        → P (resolve_decision max_events fits draw job token choice actor w).1
    unfolding resolve_decision
    resolve_decision-keeps w before step = elim (Bool-cases (same choice "")) [
      | inl e ↦ rw e before
      | inr e ↦ rw e (elim (Bool-cases (same token "")) [
        | inl k ↦ rw k before
        | inr k ↦ rw k (resolve_by-keeps w (normalize_decision_actor actor) before step refl)
      ])
    ]

  module _ (draw : Draw) (job token actor : String) where
    withdraw_answer-world :
        (r : Result Emission × World)
        → (withdraw_answer max_events fits draw job token actor r).1 ≡ r.1
    unfolding withdraw_answer
    withdraw_answer-world (err e, w) = refl
    withdraw_answer-world (ok e, w) = reload-world token w

    withdraw_by-keeps :
        (w : World) (o : Result String)
        → P w
        → ((w₁ : World)
            → withdraw_mutation max_events fits draw job token actor w ≡ changed w₁
            → P (
                write_event draw.emit job "decision_withdrawn" "decision withdrawn"
                  (withdrawn_data token actor)
                  w₁))
        → normalize_decision_actor actor ≡ o
        → P (withdraw_by max_events fits draw job token actor o w).1
    unfolding withdraw_by
    withdraw_by-keeps w (err e) before step h = before
    withdraw_by-keeps w (ok name) before step h =
        elim (Bool-cases (fits (withdrawn_data token name))) [
          | inr big ↦ rw big before
          | inl small ↦ rw small (
              subst P (sym (withdraw_answer-world _)) (
                emit-keeps P w before draw.emit job "decision_withdrawn" "decision withdrawn"
                  (withdrawn_data token name) max_events true
                  (withdraw_mutation max_events fits draw job token actor)
                  λ w₁ k.
                    subst
                      (λ n. P (
                        write_event draw.emit job "decision_withdrawn" "decision withdrawn"
                          (withdrawn_data token n) w₁))
                      (sym (normalize_decision_actor-same actor h)) (step w₁ k)))
        ]

    pub withdraw_decision-keeps :
        (w : World)
        → P w
        → ((w₁ : World)
            → withdraw_mutation max_events fits draw job token actor w ≡ changed w₁
            → P (
                write_event draw.emit job "decision_withdrawn" "decision withdrawn"
                  (withdrawn_data token actor)
                  w₁))
        → P (withdraw_decision max_events fits draw job token actor w).1
    unfolding withdraw_decision
    withdraw_decision-keeps w before step = elim (Bool-cases (same token "")) [
      | inl k ↦ rw k before
      | inr k ↦ rw k (withdraw_by-keeps w (normalize_decision_actor actor) before step refl)
    ]
