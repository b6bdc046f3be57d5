-- ===== src/Decision/Lifecycle/Resolution.antt =====
-- What `resolve_decision` answers.
use vanth.Prelude.{
  ℕ, ◌+◌, ◌<◌, ◌≡◌, refl, ap, ◌∙◌, inl, inr, Bool, true, false, String, some, [], ◌∷◌, ◌++◌, same,
  same_as, pos-ne-zero, if◌then◌else◌, Bool-cases,
}
use vanth.Prelude.Rows.{find, update, count, find-some}
use vanth.Prelude.Keys.{touched, find-update-touched, count_pos}
use vanth.Delivery.Destination.{member}
use vanth.Decision.{
  DecisionStatus, pending, resolved, Decision, Payload, resolved_data, World, Result, ok, err,
  already_resolved, deadline_passed, not_an_option, is_terminal, is_pending, with_token, open_token,
  row_isdue, normalize_decision_actor,
}
use vanth.Delivery.Enqueue.{enqueue_deliveries}
use vanth.Decision.Emit.{max_seq, next_event, Mutation, write_event, commit, emit_transactional}
use vanth.Decision.Requests.{
  Draw, reload, reload_row, resolve_row, resolve_pending, resolve_status, resolve_found,
  resolve_mutation, noop_row, decision_for, decision_found, resolve_answer, resolve_by,
  resolve_decision,
}

module _ (max_events : ℕ) (fits : Payload → Bool) (draw : Draw) (job token choice actor : String)
    (w : World) where
  -- Exempt from the cap, the transaction is the mutation's.
  uncapped :
      (mutate : World → Mutation)
      → emit_transactional draw.emit job "decision_resolved" choice
          (resolved_data token choice actor)
          max_events
          true
          mutate
          w
        ≡ commit draw.emit job "decision_resolved" choice
            (resolved_data token choice actor)
            w
            (mutate w)
  unfolding emit_transactional
  uncapped mutate = elim (Bool-cases (is_terminal "decision_resolved")) [
    | inl e ↦ rw e
    | inr e ↦ rw e
  ]

  -- With arguments that pass the tests at the start, the answer is the transaction's.
  admitted :
      same choice "" ≡ false
      → same token "" ≡ false
      → normalize_decision_actor actor ≡ ok actor
      → fits (resolved_data token choice actor) ≡ true
      → resolve_decision max_events fits draw job token choice actor w
        ≡ resolve_answer max_events fits draw job token choice actor (
            commit draw.emit job "decision_resolved" choice
              (resolved_data token choice actor)
              w
              (resolve_mutation max_events fits draw job token choice actor w))
  unfolding resolve_decision
  admitted c t a f =
      rw (c, t, a, resolve_by, f)
        (ap (resolve_answer max_events fits draw job token choice actor) (uncapped _))

  module _ (d : Decision) (found : find (with_token token) w.decisions ≡ some d)
      (own : same d.job_id job ≡ true) where
    at_row :
        resolve_mutation max_events fits draw job token choice actor w
        ≡ resolve_status max_events fits draw job token choice actor d.status d w
    unfolding resolve_mutation
    at_row = rw (found, resolve_found, own) refl

    -- The transaction on a row with the given status.
    abbrev answered : DecisionStatus → Result Decision × World
    answered s = resolve_answer max_events fits draw job token choice actor (
        commit draw.emit job "decision_resolved" choice (resolved_data token choice actor) w
          (resolve_status max_events fits draw job token choice actor s d w))

    at_resolved :
        same token "" ≡ false
        → answered resolved ≡ ((if same_as d.choice choice then ok d else err already_resolved), w)
    unfolding resolve_answer resolve_status commit
    at_resolved t = elim (Bool-cases (same_as d.choice choice)) [
      | inl e ↦ rw (e, decision_for, t, found, decision_found, own, noop_row, e) refl
      | inr e ↦ rw e refl
    ]

    guard_self : is_pending d.status ≡ true → open_token token d ≡ true
    unfolding open_token
    guard_self p = rw (find-some (with_token token) w.decisions found) p

    -- The tables after the choice is written.
    abbrev pub chosen : World
    chosen =
        write_event draw.emit job "decision_resolved" choice (resolved_data token choice actor)
          (record w {
            decisions =
                update (open_token token) (resolve_row max_events fits draw job token choice actor)
                  w.decisions;
          })

    found_chosen :
        is_pending d.status ≡ true
        → find (with_token token) chosen.decisions
          ≡ some (resolve_row max_events fits draw job token choice actor d)
    unfolding write_event
    found_chosen p =
        find-update-touched (with_token token) (open_token token)
          (resolve_row max_events fits draw job token choice actor)
          (unfold resolve_row in λ x. refl) w.decisions
        ∙ ap (touched (open_token token) (resolve_row max_events fits draw job token choice actor))
            found
        ∙ rw (guard_self p)

    -- A decision with this choice made by this actor.
    abbrev pub with_choice : Decision → Decision
    with_choice x = record x {
      status = resolved;
      choice = some choice;
      resolved_by = some actor;
      resolved_at = some draw.stamp;
    }

    -- The tables with the choice made, the event of it, and the deliveries that the event owes.
    abbrev pub decided : World
    decided = record w {
      decisions = update (open_token token) with_choice w.decisions;
      events =
          w.events
          ++ record {
            event_id = draw.emit.event_id;
            job_id = job;
            seq = max_seq job w.events + 1;
            kind = "decision_resolved";
            message = choice;
            payload = resolved_data token choice actor;
            created_at = draw.emit.created_at;
          }
            ∷ [];
      queue =
          enqueue_deliveries draw.emit.delivery_ids draw.emit.delivery_times
            (record { event_id = draw.emit.event_id; job_id = job; kind = "decision_resolved" })
            w.targets w.queue;
    }

    -- What a resolution of a pending row answers, in the order of its tests.
    abbrev pub verdict : Result Decision × World
    verdict =
        if row_isdue d.expires_at d.status draw.now
        then (err deadline_passed, w)
        else if member choice d.options
        then (ok (with_choice d), decided)
        else (err not_an_option, w)

    chosen-decided : chosen ≡ decided
    unfolding write_event next_event resolve_row
    chosen-decided = refl

    made : resolve_row max_events fits draw job token choice actor d ≡ with_choice d
    unfolding resolve_row
    made = refl

    at_pending : is_pending d.status ≡ true → answered pending ≡ verdict
    unfolding resolve_answer resolve_status resolve_pending commit reload
    at_pending p = elim (Bool-cases (row_isdue d.expires_at d.status draw.now)) [
      | inl late ↦ rw late refl
      | inr timely ↦ elim (Bool-cases (member choice d.options)) [
        | inr other ↦ rw (timely, other) refl
        | inl offered ↦
            let n : 0 < count (open_token token) w.decisions =
              count_pos (with_token token) (open_token token) w.decisions found (guard_self p) in
            rw (timely, offered, pos-ne-zero _ n)
              (ap (λ o. reload_row o chosen) (found_chosen p ∙ ap some made)
                ∙ ap (reload_row (some (with_choice d))) chosen-decided
                ∙ (unfold reload_row in refl))
      ]
    ]

    module _ (c : same choice "" ≡ false) (t : same token "" ≡ false)
        (a : normalize_decision_actor actor ≡ ok actor)
        (f : fits (resolved_data token choice actor) ≡ true) where
      resolved_by_status :
          {s : DecisionStatus}
          → d.status ≡ s
          → resolve_decision max_events fits draw job token choice actor w ≡ answered s
      resolved_by_status h =
          admitted c t a f
          ∙ ap
              (λ m. resolve_answer max_events fits draw job token choice actor (
                commit draw.emit job "decision_resolved" choice (resolved_data token choice actor) w
                  m))
              (at_row
                ∙ ap (λ s. resolve_status max_events fits draw job token choice actor s d w) h)

      -- A call with a choice, a token, an actor and data that pass, on the job's own pending decision,
      -- resolves it exactly if it is made in time and its choice is an option: the row gets the choice,
      -- the actor and the time, one event with the next number is added, and its deliveries are owed.
      -- Otherwise it changes nothing, and says which of the two failed, the deadline first.
      pub resolve_decision-pending :
          d.status ≡ pending
          → resolve_decision max_events fits draw job token choice actor w ≡ verdict
      resolve_decision-pending h = resolved_by_status h ∙ at_pending (ap is_pending h)

      -- A call with a choice, a token, an actor and data that pass, on the job's own resolved decision,
      -- changes nothing, whoever makes it and whenever: it returns the decision if the choice is the
      -- one that was made, and is refused if it is another.
      pub resolve_decision-again :
          d.status ≡ resolved
          → resolve_decision max_events fits draw job token choice actor w
            ≡ ((if same_as d.choice choice then ok d else err already_resolved), w)
      resolve_decision-again h = resolved_by_status h ∙ at_resolved t
