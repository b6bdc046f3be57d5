-- ===== src/Decision/Requests/Resolving.antt =====
-- `resolve_decision` and `withdraw_decision` of src/vanth/server.py.
use vanth.Prelude.{
  ℕ, Bool, true, not, String, Option, none, some, ◌==◌, same, same_as, if◌then◌else◌,
}
use vanth.Prelude.Rows.{find, update, count}
use vanth.Delivery.Destination.{member}
use vanth.Decision.{
  DecisionStatus, pending, resolved, withdrawn, Decision, Payload, resolved_data, withdrawn_data,
  World, Result, ok, err, oversized, empty_choice, empty_token, unknown_decision, already_resolved,
  not_pending, deadline_passed, not_an_option, changed_concurrently, is_pending, with_token,
  open_token, row_isdue, normalize_decision_actor,
}
use vanth.Decision.Emit.{Mutation, changed, noop, refused, Emission, skipped, emit_transactional}
use vanth.Decision.Requests.Shared.{Draw, reload, decision_for}

-- `fits` is the test of the size of the data's JSON text against `max_event_bytes`.
module _ (max_events : ℕ) (fits : Payload → Bool) where
  module _ (draw : Draw) (job token choice actor : String) where
    unfoldable pub resolve_row : Decision → Decision
    resolve_row d = record d {
      status = resolved;
      choice = some choice;
      resolved_by = some actor;
      resolved_at = some draw.stamp;
    }

    unfoldable pub resolve_pending : Decision → World → Mutation
    unfolding resolve_row
    resolve_pending d w =
        if row_isdue d.expires_at d.status draw.now
        then refused deadline_passed
        else if not (member choice d.options)
        then refused not_an_option
        else if count (open_token token) w.decisions == 0
        then refused changed_concurrently
        else changed (record w { decisions = update (open_token token) resolve_row w.decisions })

    unfoldable pub resolve_status : DecisionStatus → Decision → World → Mutation
    unfolding resolve_pending
    resolve_status pending d w = resolve_pending d w
    resolve_status resolved d w = if same_as d.choice choice then noop else refused already_resolved
    resolve_status _ d w = refused not_pending

    unfoldable pub resolve_found : Option Decision → World → Mutation
    unfolding resolve_status
    resolve_found none w = refused unknown_decision
    resolve_found (some d) w =
        if same d.job_id job then resolve_status d.status d w else refused unknown_decision

    unfoldable pub resolve_mutation : World → Mutation
    unfolding resolve_found
    resolve_mutation w = resolve_found (find (with_token token) w.decisions) w

    unfoldable pub noop_row : Result Decision → World → Result Decision × World
    noop_row (err e) w = (err e, w)
    noop_row (ok d) w = if same_as d.choice choice then (ok d, w) else (err already_resolved, w)

    unfoldable pub resolve_answer : Result Emission × World → Result Decision × World
    unfolding noop_row reload decision_for
    resolve_answer (err e, w) = (err e, w)
    resolve_answer (ok skipped, w) = noop_row (decision_for job token w) w
    resolve_answer (ok _, w) = reload token w

    unfoldable pub resolve_by : Result String → World → Result Decision × World
    unfolding resolve_answer
    resolve_by (err e) w = (err e, w)
    resolve_by (ok name) w =
        if not (fits (resolved_data token choice name))
        then (err oversized, w)
        else resolve_answer (
            emit_transactional draw.emit job "decision_resolved" choice
              (resolved_data token choice name) max_events true resolve_mutation w)

    unfoldable pub resolve_decision : World → Result Decision × World
    unfolding resolve_by
    resolve_decision w =
        if same choice ""
        then (err empty_choice, w)
        else if same token ""
        then (err empty_token, w)
        else resolve_by (normalize_decision_actor actor) w

  module _ (draw : Draw) (job token actor : String) where
    unfoldable pub withdraw_row : Decision → Decision
    withdraw_row d = record d {
      status = withdrawn;
      resolved_by = some actor;
      resolved_at = some draw.stamp;
    }

    unfoldable pub withdraw_found : Option Decision → World → Mutation
    unfolding withdraw_row
    withdraw_found none w = refused unknown_decision
    withdraw_found (some d) w =
        if not (same d.job_id job)
        then refused unknown_decision
        else if not (is_pending d.status)
        then refused not_pending
        else if row_isdue d.expires_at d.status draw.now
        then refused deadline_passed
        else if count (open_token token) w.decisions == 0
        then refused changed_concurrently
        else changed (record w { decisions = update (open_token token) withdraw_row w.decisions })

    unfoldable pub withdraw_mutation : World → Mutation
    unfolding withdraw_found
    withdraw_mutation w = withdraw_found (find (with_token token) w.decisions) w

    unfoldable pub withdraw_answer : Result Emission × World → Result Decision × World
    unfolding reload
    withdraw_answer (err e, w) = (err e, w)
    withdraw_answer (ok _, w) = reload token w

    unfoldable pub withdraw_by : Result String → World → Result Decision × World
    unfolding withdraw_answer
    withdraw_by (err e) w = (err e, w)
    withdraw_by (ok name) w =
        if not (fits (withdrawn_data token name))
        then (err oversized, w)
        else withdraw_answer (
            emit_transactional draw.emit job "decision_withdrawn" "decision withdrawn"
              (withdrawn_data token name) max_events true withdraw_mutation w)

    unfoldable pub withdraw_decision : World → Result Decision × World
    unfolding withdraw_by
    withdraw_decision w =
        if same token ""
        then (err empty_token, w)
        else withdraw_by (normalize_decision_actor actor) w
