-- ===== src/Decision/Numbering.antt =====
-- The `seq` of the events of a job.
use vanth.Prelude.{
  ℕ, suc, ◌<◌, max, ◌≡◌, ap, ◌∙◌, inl, inr, Bool, true, false, ◌&&◌, String, List, [], ◌∷◌, ◌++◌,
  arith, same, same_iff, ltb, if◌then◌else◌, Bool-cases,
}
use vanth.Prelude.Rows.{select}
use vanth.Decision.{
  Decision, Payload, EventRow, World, row_isdue, requested_data, resolved_data, withdrawn_data,
  expired_data,
}
use vanth.Decision.Emit.{EmitDraw, max_seq, next_event, write_event}
use vanth.Decision.Requests.{Draw, deadline, expire_decision, expire_each, expire_decisions}
use vanth.Decision.Steps.{
  resolve_decision-keeps, withdraw_decision-keeps, request_decision-keeps, expire_decision-keeps,
}
use vanth.Decision.Lifecycle.Transitions.{
  resolve_mutation-Resolves, withdraw_mutation-Ends, expire_mutation-Ends, request_mutation-Begins,
}
use vanth.Decision.Lifecycle.History.{Op, requests, resolves, withdraws, expires, step, run}

-- The events of a job, in the order of their rows, have ascending numbers above the given one.
unfoldable pub ascending_from : String → ℕ → List EventRow → Bool
ascending_from job last [] = true
ascending_from job last (e ∷ es) =
    if same e.job_id job
    then ltb last e.seq && ascending_from job e.seq es
    else ascending_from job last es

append-ascending :
    (job : String) (last : ℕ) (es : List EventRow) (e : EventRow)
    → ascending_from job last es ≡ true
    → last < e.seq
    → max_seq job es < e.seq
    → ascending_from job last (es ++ e ∷ []) ≡ true
unfolding ascending_from max_seq
append-ascending job last [] e h above top = ground arith
append-ascending job last (x ∷ es) e h above top = elim (Bool-cases (same x.job_id job)) [
  | inl own ↦
      let parts : (ltb last x.seq && ascending_from job x.seq es) ≡ true = rw own at h in
      let top' : max x.seq (max_seq job es) < e.seq = rw own at top in
      let rest : ascending_from job x.seq es ≡ true = ground arith in
      let step : ascending_from job x.seq (es ++ e ∷ []) ≡ true =
        append-ascending job x.seq es e rest (omega arith) (omega arith) in
      rw (own, step) (ground arith)
  | inr other ↦ rw other (append-ascending job last es e (rw other at h) above (rw other at top))
]

other-ascending :
    (job : String) (last : ℕ) (es : List EventRow) (e : EventRow)
    → same e.job_id job ≡ false
    → ascending_from job last es ≡ true
    → ascending_from job last (es ++ e ∷ []) ≡ true
unfolding ascending_from
other-ascending job last [] e other h = rw other
other-ascending job last (x ∷ es) e other h = elim (Bool-cases (same x.job_id job)) [
  | inl own ↦
      let parts : (ltb last x.seq && ascending_from job x.seq es) ≡ true = rw own at h in
      let rest : ascending_from job x.seq es ≡ true = ground arith in
      rw (own, other-ascending job x.seq es e other rest) (ground arith)
  | inr foreign ↦ rw foreign (other-ascending job last es e other (rw foreign at h))
]

module _ (job : String) where
  abbrev pub Numbered : World → Type 0
  Numbered w = ascending_from job 0 w.events ≡ true

  write_event-Numbered :
      (draw : EmitDraw) (of kind message : String) (payload : Payload) (w w₁ : World)
      → w₁.events ≡ w.events
      → Numbered w
      → Numbered (write_event draw of kind message payload w₁)
  unfolding write_event next_event
  write_event-Numbered draw of kind message payload w w₁ same_events v =
      let before : ascending_from job 0 w₁.events ≡ true =
        ap (ascending_from job 0) same_events ∙ v in
      elim (Bool-cases (same of job)) [
        | inr other ↦ other-ascending job 0 w₁.events _ other before
        | inl own ↦
            let at : of ≡ job = (same_iff of job).0 own in
            let top : max_seq of w₁.events ≡ max_seq job w₁.events =
              ap (λ j. max_seq j w₁.events) at in
            append-ascending job 0 w₁.events _ before (omega arith) (omega (arith, top))
      ]

  module _ (max_events : ℕ) (fits : Payload → Bool) where
    expire-Numbered :
        (draw : Draw) (token of : String) (w : World)
        → Numbered w
        → Numbered (expire_decision max_events fits draw token of w)
    expire-Numbered draw token of w v =
        expire_decision-keeps Numbered max_events fits draw token of w v λ w₁ k.
          write_event-Numbered draw.emit of "decision_expired" "decision timed out"
            (expired_data token) w w₁
            (ap (λ (x : World). x.events)
              (expire_mutation-Ends max_events fits draw token w k).written)
            v

    expire_each-Numbered :
        (draws : ℕ → Draw) (n : ℕ) (ds : List Decision) (w : World)
        → Numbered w
        → Numbered (expire_each max_events fits draws n ds w)
    unfolding expire_each
    expire_each-Numbered draws n [] w v = v
    expire_each-Numbered draws n (d ∷ ds) w v =
        expire_each-Numbered draws (suc n) ds _
          (expire-Numbered (draws n) d.decision_id d.job_id w v)

    step-Numbered : (op : Op) (w : World) → Numbered w → Numbered (step max_events fits op w)
    unfolding step expire_decisions
    step-Numbered (requests draw id of prompt options timeout) w v =
        request_decision-keeps Numbered max_events fits draw id of prompt w options timeout v
          λ chosen w₁ k.
            let until = deadline max_events fits draw id of prompt timeout in
            write_event-Numbered draw.emit of "decision_requested" prompt
              (requested_data id prompt chosen until) w w₁
              (ap (λ (x : World). x.events)
                (request_mutation-Begins max_events fits draw id of prompt chosen until w
                  k).written)
              v
    step-Numbered (resolves draw of token choice actor) w v =
        resolve_decision-keeps Numbered max_events fits draw of token choice actor w v λ w₁ k.
          write_event-Numbered draw.emit of "decision_resolved" choice
            (resolved_data token choice actor) w w₁
            (ap (λ (x : World). x.events)
              (resolve_mutation-Resolves max_events fits draw of token choice actor w
                k).ends.written)
            v
    step-Numbered (withdraws draw of token actor) w v =
        withdraw_decision-keeps Numbered max_events fits draw of token actor w v λ w₁ k.
          write_event-Numbered draw.emit of "decision_withdrawn" "decision withdrawn"
            (withdrawn_data token actor) w w₁
            (ap (λ (x : World). x.events)
              (withdraw_mutation-Ends max_events fits draw of token actor w k).written)
            v
    step-Numbered (expires now draws) w v =
        expire_each-Numbered draws 0 (select (λ d. row_isdue d.expires_at d.status now) w.decisions)
          w v

    -- Where the events of a job have ascending numbers from 1, in the order of their rows, they still do
    -- after any sequence of requests, resolutions, withdrawals and expiries of decisions, so no two of
    -- them share a number. Other events, and the deletion of old ones, are not among these calls.
    pub run-Numbered :
        (ops : List Op) (w : World)
        → ascending_from job 0 w.events ≡ true
        → ascending_from job 0 (run max_events fits ops w).events ≡ true
    unfolding run
    run-Numbered [] w v = v
    run-Numbered (op ∷ ops) w v =
        run-Numbered ops (step max_events fits op w) (step-Numbered op w v)
