-- ===== src/Decision/Lifecycle/History.antt =====
-- Sequences of calls on decisions: each story is told once, and what has ended stays as it ended.
use vanth.Prelude.{
  ℕ, suc, ◌≡◌, refl, sym, ap, subst, ◌∙◌, Bool, true, String, Option, some, List, [], ◌∷◌, ◌++◌,
  arith, same_iff,
}
use mathlib.Core.Path.{ap₂}
use vanth.Prelude.Rows.{select, find-some}
use vanth.Decision.{
  DecisionStatus, pending, Decision, Payload, requested_data, resolved_data, withdrawn_data,
  expired_data, World, is_pending, with_token, row_isdue,
}
use vanth.Decision.Emit.{write_event}
use vanth.Decision.Requests.{
  Draw, resolve_row, resolve_decision, withdraw_row, withdraw_decision, deadline, fresh_decision,
  request_decision, expire_row, expire_decision, expire_each, expire_decisions,
}
use vanth.Decision.Steps.{
  resolve_decision-keeps, withdraw_decision-keeps, request_decision-keeps, expire_decision-keeps,
}
use vanth.Decision.Lifecycle.{ending, told_by, IsLifecycle, end-IsLifecycle, begin-IsLifecycle}
use vanth.Decision.Lifecycle.Transitions.{
  resolve_mutation-Resolves, withdraw_mutation-Ends, expire_mutation-Ends, request_mutation-Begins,
}

-- One call, with its arguments and what it draws from outside.
pub data Op : Type 0 where
  requests : Draw → (id job prompt : String) → Option (List String) → (timeout : Option ℕ) → Op
  resolves : Draw → (job token choice actor : String) → Op
  withdraws : Draw → (job token actor : String) → Op
  expires : (now : ℕ) → (ℕ → Draw) → Op

pending_only : (s : DecisionStatus) → is_pending s ≡ true → s ≡ pending
pending_only s h = ground arith

nothing_ended : (d : Decision) → d.status ≡ pending → ending d d.status ≡ []
unfolding ending
nothing_ended d h = ap (ending d) h

module _ (max_events : ℕ) (fits : Payload → Bool) where
  unfoldable pub step : Op → World → World
  step (requests draw id job prompt options timeout) w =
      (request_decision max_events fits draw id job prompt options timeout w).1
  step (resolves draw job token choice actor) w =
      (resolve_decision max_events fits draw job token choice actor w).1
  step (withdraws draw job token actor) w =
      (withdraw_decision max_events fits draw job token actor w).1
  step (expires now draws) w = expire_decisions max_events fits now draws w

  unfoldable pub run : List Op → World → World
  run [] w = w
  run (op ∷ ops) w = run ops (step op w)

  -- The row of an ended decision says what its event says.
  ended_story :
      (f : Decision → Decision) (d : Decision) (payload : Payload)
      → is_pending d.status ≡ true
      → (f d).decision_id ≡ d.decision_id
      → (f d).prompt ≡ d.prompt
      → (f d).options ≡ d.options
      → (f d).expires_at ≡ d.expires_at
      → ending (f d) (f d).status ≡ payload ∷ []
      → told_by (some (f d)) ≡ told_by (some d) ++ payload ∷ []
  unfolding told_by
  ended_story f d payload idle id prompt options kept told =
      let same_request : requested_data (f d).decision_id (f d).prompt (f d).options
            (f d).expires_at
          ≡ requested_data d.decision_id d.prompt d.options d.expires_at =
        cc in
      let none_yet : ending d d.status ≡ [] = nothing_ended d (pending_only d.status idle) in
      ap₂ ◌∷◌ same_request (told ∙ sym (ap (λ l. l ++ payload ∷ []) none_yet))

  module _ (w : World) (v : IsLifecycle w) where
    resolve-IsLifecycle :
        (draw : Draw) (job token choice actor : String)
        → IsLifecycle (resolve_decision max_events fits draw job token choice actor w).1
    resolve-IsLifecycle draw job token choice actor =
        resolve_decision-keeps IsLifecycle max_events fits draw job token choice actor w v λ w₁ h.
          let r = resolve_mutation-Resolves max_events fits draw job token choice actor w h in
          let e = r.ends in
          let at : e.row.decision_id ≡ token =
            (same_iff e.row.decision_id token).0
              (find-some (with_token token) w.decisions e.found) in
          subst
            (λ x. IsLifecycle (
              write_event draw.emit job "decision_resolved" choice
                (resolved_data token choice actor) x))
            (sym e.written)
            (end-IsLifecycle draw.emit job "decision_resolved" choice
              (resolved_data token choice actor) w token
              (resolve_row max_events fits draw job token choice actor) v
              (unfold resolve_row in λ x. refl) e.found e.idle refl
              (unfold resolve_row ending in
                ended_story (resolve_row max_events fits draw job token choice actor) e.row
                  (resolved_data token choice actor) e.idle refl refl refl refl (rw at refl)))

    withdraw-IsLifecycle :
        (draw : Draw) (job token actor : String)
        → IsLifecycle (withdraw_decision max_events fits draw job token actor w).1
    withdraw-IsLifecycle draw job token actor =
        withdraw_decision-keeps IsLifecycle max_events fits draw job token actor w v λ w₁ h.
          let e = withdraw_mutation-Ends max_events fits draw job token actor w h in
          let at : e.row.decision_id ≡ token =
            (same_iff e.row.decision_id token).0
              (find-some (with_token token) w.decisions e.found) in
          subst
            (λ x. IsLifecycle (
              write_event draw.emit job "decision_withdrawn" "decision withdrawn"
                (withdrawn_data token actor) x))
            (sym e.written)
            (end-IsLifecycle draw.emit job "decision_withdrawn" "decision withdrawn"
              (withdrawn_data token actor) w token
              (withdraw_row max_events fits draw job token actor) v
              (unfold withdraw_row in λ x. refl) e.found e.idle refl
              (unfold withdraw_row ending in
                ended_story (withdraw_row max_events fits draw job token actor) e.row
                  (withdrawn_data token actor) e.idle refl refl refl refl (rw at refl)))

    expire-IsLifecycle :
        (draw : Draw) (id job : String)
        → IsLifecycle (expire_decision max_events fits draw id job w)
    expire-IsLifecycle draw id job =
        expire_decision-keeps IsLifecycle max_events fits draw id job w v λ w₁ h.
          let e = expire_mutation-Ends max_events fits draw id w h in
          let at : e.row.decision_id ≡ id =
            (same_iff e.row.decision_id id).0 (find-some (with_token id) w.decisions e.found) in
          subst
            (λ x. IsLifecycle (
              write_event draw.emit job "decision_expired" "decision timed out" (expired_data id)
                x))
            (sym e.written)
            (end-IsLifecycle draw.emit job "decision_expired" "decision timed out" (expired_data id)
              w id (expire_row max_events fits draw id) v (unfold expire_row in λ x. refl) e.found
              e.idle refl
              (unfold expire_row ending in
                ended_story (expire_row max_events fits draw id) e.row (expired_data id) e.idle refl
                  refl refl refl (rw at refl)))

    request-IsLifecycle :
        (draw : Draw) (id job prompt : String) (options : Option (List String)) (timeout : Option ℕ)
        → IsLifecycle (request_decision max_events fits draw id job prompt options timeout w).1
    request-IsLifecycle draw id job prompt options timeout =
        request_decision-keeps IsLifecycle max_events fits draw id job prompt w options timeout v
          λ chosen w₁ h.
            let until = deadline max_events fits draw id job prompt timeout in
            let b = request_mutation-Begins max_events fits draw id job prompt chosen until w h in
            subst
              (λ x. IsLifecycle (
                write_event draw.emit job "decision_requested" prompt
                  (requested_data id prompt chosen until) x))
              (sym b.written)
              (unfold fresh_decision told_by ending in
                begin-IsLifecycle draw.emit job "decision_requested" prompt
                  (requested_data id prompt chosen until) w
                  (fresh_decision max_events fits draw id job prompt chosen until) v b.absent refl
                  refl)

  expire_each-IsLifecycle :
      (draws : ℕ → Draw) (n : ℕ) (ds : List Decision) (w : World)
      → IsLifecycle w
      → IsLifecycle (expire_each max_events fits draws n ds w)
  unfolding expire_each
  expire_each-IsLifecycle draws n [] w v = v
  expire_each-IsLifecycle draws n (d ∷ ds) w v =
      expire_each-IsLifecycle draws (suc n) ds _
        (expire-IsLifecycle w v (draws n) d.decision_id d.job_id)

  step-IsLifecycle : (op : Op) (w : World) → IsLifecycle w → IsLifecycle (step op w)
  unfolding step expire_decisions
  step-IsLifecycle (requests draw id job prompt options timeout) w v =
      request-IsLifecycle w v draw id job prompt options timeout
  step-IsLifecycle (resolves draw job token choice actor) w v =
      resolve-IsLifecycle w v draw job token choice actor
  step-IsLifecycle (withdraws draw job token actor) w v =
      withdraw-IsLifecycle w v draw job token actor
  step-IsLifecycle (expires now draws) w v =
      expire_each-IsLifecycle draws 0
        (select (λ d. row_isdue d.expires_at d.status now) w.decisions) w v

  -- In every history of requests, resolutions, withdrawals and expiries, from tables where it holds:
  -- ids are unique, and the events about a decision are its request and, once it is no longer
  -- pending, one more, which says what its row says: who chose what, who withdrew it, or that it
  -- expired.
  pub run-IsLifecycle : (ops : List Op) (w : World) → IsLifecycle w → IsLifecycle (run ops w)
  unfolding run
  run-IsLifecycle [] w v = v
  run-IsLifecycle (op ∷ ops) w v = run-IsLifecycle ops (step op w) (step-IsLifecycle op w v)
