-- ===== src/Decision/Steps/Asking.antt =====
-- What one call of `request_decision`, or one row of `_expire_decisions`, can do to the tables.
use vanth.Prelude.{
  ℕ, ◌≡◌, refl, sym, subst, inl, inr, Bool, true, String, Option, List, ltb, codes, length,
  Bool-cases,
}
use vanth.Decision.{
  Payload, requested_data, expired_data, World, Result, ok, err, blank, normalize_decision_options,
}
use vanth.Decision.Emit.{changed, Emission, write_event}
use vanth.Decision.Requests.{
  Draw, same_as_zero, deadline, request_mutation, request_answer, request_with, request_decision,
  expire_mutation, expire_decision,
}
use vanth.Decision.Steps.Shared.{reload-world, emit-keeps}

module _ (P : World → Type 0) (max_events : ℕ) (fits : Payload → Bool) where
  module _ (draw : Draw) (id job prompt : String) where
    request_answer-world :
        (r : Result Emission × World)
        → (request_answer max_events fits draw id job prompt r).1 ≡ r.1
    unfolding request_answer
    request_answer-world (err e, w) = refl
    request_answer-world (ok e, w) = reload-world id w

    -- What a request that was accepted leaves.
    abbrev pub requested : Option ℕ → List String → World → World
    requested timeout options w₁ =
        write_event draw.emit job "decision_requested" prompt
          (requested_data id prompt options (deadline max_events fits draw id job prompt timeout))
          w₁

    request_with-keeps :
        (w : World) (timeout : Option ℕ) (o : Result (List String))
        → P w
        → ((options : List String) (w₁ : World)
            → request_mutation max_events fits draw id job prompt options
                (deadline max_events fits draw id job prompt timeout)
                w
              ≡ changed w₁
            → P (requested timeout options w₁))
        → P (request_with max_events fits draw id job prompt timeout o w).1
    unfolding request_with
    request_with-keeps w timeout (err e) before step = before
    request_with-keeps w timeout (ok options) before step =
        elim (Bool-cases (same_as_zero timeout)) [
          | inl e ↦ rw e before
          | inr e ↦ rw e (elim (Bool-cases (fits payload)) [
            | inr big ↦ rw big before
            | inl small ↦ rw small (
                subst P (sym (request_answer-world _)) (
                  emit-keeps P w before draw.emit job "decision_requested" prompt payload max_events
                    true
                    (request_mutation max_events fits draw id job prompt options
                      (deadline max_events fits draw id job prompt timeout))
                    (step options)))
          ])
        ]
      where
        payload : Payload
        payload =
            requested_data id prompt options (deadline max_events fits draw id job prompt timeout)

    pub request_decision-keeps :
        (w : World) (options : Option (List String)) (timeout : Option ℕ)
        → P w
        → ((chosen : List String) (w₁ : World)
            → request_mutation max_events fits draw id job prompt chosen
                (deadline max_events fits draw id job prompt timeout)
                w
              ≡ changed w₁
            → P (requested timeout chosen w₁))
        → P (request_decision max_events fits draw id job prompt options timeout w).1
    unfolding request_decision
    request_decision-keeps w options timeout before step =
        elim (Bool-cases (blank (codes prompt))) [
          | inl e ↦ rw e before
          | inr e ↦ rw e (elim (Bool-cases (ltb 10000 (length (codes prompt)))) [
            | inl k ↦ rw k before
            | inr k ↦
                rw k (request_with-keeps w timeout (normalize_decision_options options) before step)
          ])
        ]

  pub expire_decision-keeps :
      (draw : Draw) (id job : String) (w : World)
      → P w
      → ((w₁ : World)
          → expire_mutation max_events fits draw id w ≡ changed w₁
          → P (
              write_event draw.emit job "decision_expired" "decision timed out"
                (expired_data id)
                w₁))
      → P (expire_decision max_events fits draw id job w)
  unfolding expire_decision
  expire_decision-keeps draw id job w before step =
      emit-keeps P w before draw.emit job "decision_expired" "decision timed out" (expired_data id)
        max_events true (expire_mutation max_events fits draw id) step
