-- ===== src/Decision/Requests/Asking.antt =====
-- `request_decision` and `_expire_decisions` of src/vanth/server.py.
use vanth.Prelude.{
  ℕ, suc, ◌+◌, Bool, true, not, String, Option, none, some, List, [], ◌∷◌, ◌++◌, ltb, ◌==◌, same,
  codes, length, if◌then◌else◌,
}
use vanth.Prelude.Rows.{find, select, update, count}
use vanth.Time.{seconds}
use vanth.Decision.{
  pending, expired, Decision, Payload, requested_data, expired_data, Job, World, Result, ok, err,
  empty_prompt, long_prompt, bad_timeout, oversized, unknown_job, terminal_job, duplicate_id,
  is_terminal, with_token, open_token, row_isdue, blank, normalize_decision_options,
}
use vanth.Decision.Emit.{Mutation, changed, noop, refused, Emission, emit_transactional}
use vanth.Decision.Requests.Shared.{Draw, same_as_zero, reload}

-- `fits` is the test of the size of the data's JSON text against `max_event_bytes`.
module _ (max_events : ℕ) (fits : Payload → Bool) where
  module _ (draw : Draw) (id job prompt : String) where
    unfoldable pub fresh_decision : List String → Option ℕ → Decision
    fresh_decision options expires = record {
      decision_id = id;
      job_id = job;
      prompt = prompt;
      options = options;
      choice = none;
      status = pending;
      resolved_by = none;
      created_at = draw.stamp;
      expires_at = expires;
      resolved_at = none;
    }

    -- INSERT, whose PRIMARY KEY refuses an identifier that is taken
    unfoldable pub insert_decision : List String → Option ℕ → World → Mutation
    unfolding fresh_decision
    insert_decision options expires w =
        if count (with_token id) w.decisions == 0
        then changed (record w { decisions = w.decisions ++ fresh_decision options expires ∷ [] })
        else refused duplicate_id

    unfoldable pub request_for : Option Job → List String → Option ℕ → World → Mutation
    unfolding insert_decision
    request_for none options expires w = refused unknown_job
    request_for (some j) options expires w =
        if is_terminal j.status then refused terminal_job else insert_decision options expires w

    unfoldable pub request_mutation : List String → Option ℕ → World → Mutation
    unfolding request_for
    request_mutation options expires w =
        request_for (find (λ (j : Job). same j.job_id job) w.jobs) options expires w

    unfoldable pub deadline : Option ℕ → Option ℕ
    deadline none = none
    deadline (some timeout) = some (draw.now + seconds timeout)

    unfoldable pub request_answer : Result Emission × World → Result Decision × World
    unfolding reload
    request_answer (err e, w) = (err e, w)
    request_answer (ok _, w) = reload id w

    unfoldable pub request_with : Option ℕ → Result (List String) → World → Result Decision × World
    unfolding request_answer
    request_with timeout (err e) w = (err e, w)
    request_with timeout (ok options) w =
        if same_as_zero timeout
        then (err bad_timeout, w)
        else if not (fits (requested_data id prompt options (deadline timeout)))
        then (err oversized, w)
        else request_answer (
            emit_transactional draw.emit job "decision_requested" prompt
              (requested_data id prompt options (deadline timeout)) max_events true
              (request_mutation options (deadline timeout)) w)

    unfoldable pub request_decision :
        Option (List String) → Option ℕ → World → Result Decision × World
    unfolding request_with
    request_decision options timeout w =
        if blank (codes prompt)
        then (err empty_prompt, w)
        else if ltb 10000 (length (codes prompt))
        then (err long_prompt, w)
        else request_with timeout (normalize_decision_options options) w

  module _ (draw : Draw) (id : String) where
    unfoldable pub expire_row : Decision → Decision
    expire_row d = record d { status = expired; resolved_at = some draw.stamp }

    -- The row again, under the write lock.
    unfoldable pub expire_found : Option Decision → World → Mutation
    unfolding expire_row
    expire_found none w = noop
    expire_found (some d) w =
        if not (row_isdue d.expires_at d.status draw.now)
        then noop
        else if count (open_token id) w.decisions == 0
        then noop
        else changed (record w { decisions = update (open_token id) expire_row w.decisions })

    unfoldable pub expire_mutation : World → Mutation
    unfolding expire_found
    expire_mutation w = expire_found (find (with_token id) w.decisions) w

    unfoldable pub expire_decision : String → World → World
    unfolding expire_mutation
    expire_decision job w =
        (emit_transactional draw.emit job "decision_expired" "decision timed out" (expired_data id)
          max_events true expire_mutation w).1

  -- The loop over the rows that were read as overdue.
  unfoldable pub expire_each : (ℕ → Draw) → ℕ → List Decision → World → World
  unfolding expire_decision
  expire_each draws n [] w = w
  expire_each draws n (d ∷ ds) w =
      expire_each draws (suc n) ds (expire_decision (draws n) d.decision_id d.job_id w)

  unfoldable pub expire_decisions : ℕ → (ℕ → Draw) → World → World
  unfolding expire_each
  expire_decisions now draws w =
      expire_each draws 0 (select (λ d. row_isdue d.expires_at d.status now) w.decisions) w
