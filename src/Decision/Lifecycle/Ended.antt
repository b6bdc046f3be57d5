-- ===== src/Decision/Lifecycle/Ended.antt =====
-- A decision that is no longer pending keeps its row.
use vanth.Prelude.{
  ℕ, suc, ◌≡◌, refl, ap, ◌∙◌, Bool, false, String, some, List, [], ◌∷◌, ◌++◌, arith, same,
}
use vanth.Prelude.Rows.{find, select}
use vanth.Prelude.Keys.{touched, find-update-touched}
use vanth.Decision.{
  Decision, Payload, World, is_pending, with_token, open_token, row_isdue, resolved_data,
  withdrawn_data, expired_data,
}
use vanth.Decision.Emit.{EmitDraw, write_event}
use vanth.Decision.Requests.{
  Draw, resolve_row, withdraw_row, expire_row, deadline, expire_decision, expire_each,
  expire_decisions,
}
use vanth.Decision.Steps.{
  resolve_decision-keeps, withdraw_decision-keeps, request_decision-keeps, expire_decision-keeps,
}
use vanth.Decision.Lifecycle.Transitions.{
  Ends, resolve_mutation-Resolves, withdraw_mutation-Ends, expire_mutation-Ends,
  request_mutation-Begins,
}
use vanth.Decision.Lifecycle.History.{Op, requests, resolves, withdraws, expires, step, run}

module _ (id : String) (d : Decision) (settled : is_pending d.status ≡ false) where
  abbrev Stays : World → Type 0
  Stays w = find (with_token id) w.decisions ≡ some d

  not_open : (token : String) → open_token token d ≡ false
  unfolding open_token
  not_open token = ground arith

  append-find :
      (rows more : List Decision)
      → find (with_token id) rows ≡ some d
      → find (with_token id) (rows ++ more) ≡ some d
  unfolding find
  append-find [] more h = cc
  append-find (r ∷ rows) more h = ground (arith, append-find rows more)

  ends-Stays :
      (draw : EmitDraw) (job kind message : String) (payload : Payload) (token : String)
      (f : Decision → Decision) (w w₁ : World)
      → ((x : Decision) → (f x).decision_id ≡ x.decision_id)
      → Ends token f w w₁
      → Stays w
      → Stays (write_event draw job kind message payload w₁)
  unfolding write_event
  ends-Stays draw job kind message payload token f w w₁ keep e h =
      ap (λ (x : World). find (with_token id) x.decisions) e.written
      ∙ find-update-touched (with_token id) (open_token token) f (λ x. ap (λ i. same i id) (keep x))
          w.decisions
      ∙ ap (touched (open_token token) f) h
      ∙ rw (not_open token)

  module _ (max_events : ℕ) (fits : Payload → Bool) where
    expire-Stays :
        (draw : Draw) (token job : String) (w : World)
        → Stays w
        → Stays (expire_decision max_events fits draw token job w)
    expire-Stays draw token job w h =
        expire_decision-keeps Stays max_events fits draw token job w h λ w₁ k.
          ends-Stays draw.emit job "decision_expired" "decision timed out" (expired_data token)
            token (expire_row max_events fits draw token) w w₁ (unfold expire_row in λ x. refl)
            (expire_mutation-Ends max_events fits draw token w k) h

    expire_each-Stays :
        (draws : ℕ → Draw) (n : ℕ) (ds : List Decision) (w : World)
        → Stays w
        → Stays (expire_each max_events fits draws n ds w)
    unfolding expire_each
    expire_each-Stays draws n [] w h = h
    expire_each-Stays draws n (x ∷ ds) w h =
        expire_each-Stays draws (suc n) ds _ (expire-Stays (draws n) x.decision_id x.job_id w h)

    step-Stays : (op : Op) (w : World) → Stays w → Stays (step max_events fits op w)
    unfolding step expire_decisions
    step-Stays (requests draw new job prompt options timeout) w h =
        request_decision-keeps Stays max_events fits draw new job prompt w options timeout h
          λ chosen w₁ k.
            let b =
              request_mutation-Begins max_events fits draw new job prompt chosen
                (deadline max_events fits draw new job prompt timeout) w k in
            (unfold write_event in
              ap (λ (x : World). find (with_token id) x.decisions) b.written
              ∙ append-find w.decisions _ h)
    step-Stays (resolves draw job token choice actor) w h =
        resolve_decision-keeps Stays max_events fits draw job token choice actor w h λ w₁ k.
          let r = resolve_mutation-Resolves max_events fits draw job token choice actor w k in
          ends-Stays draw.emit job "decision_resolved" choice (resolved_data token choice actor)
            token (resolve_row max_events fits draw job token choice actor) w w₁
            (unfold resolve_row in λ x. refl) r.ends h
    step-Stays (withdraws draw job token actor) w h =
        withdraw_decision-keeps Stays max_events fits draw job token actor w h λ w₁ k.
          ends-Stays draw.emit job "decision_withdrawn" "decision withdrawn"
            (withdrawn_data token actor) token (withdraw_row max_events fits draw job token actor) w
            w₁ (unfold withdraw_row in λ x. refl)
            (withdraw_mutation-Ends max_events fits draw job token actor w k) h
    step-Stays (expires now draws) w h =
        expire_each-Stays draws 0 (select (λ x. row_isdue x.expires_at x.status now) w.decisions) w
          h

-- Once a decision is resolved, withdrawn or expired, no call changes its row: the first answer
-- stands.
pub run-ended :
    (max_events : ℕ) (fits : Payload → Bool) (ops : List Op) (w : World) (id : String)
    (d : Decision)
    → is_pending d.status ≡ false
    → find (with_token id) w.decisions ≡ some d
    → find (with_token id) (run max_events fits ops w).decisions ≡ some d
unfolding run
run-ended max_events fits [] w id d settled h = h
run-ended max_events fits (op ∷ ops) w id d settled h =
    run-ended max_events fits ops (step max_events fits op w) id d settled
      (step-Stays id d settled max_events fits op w h)
