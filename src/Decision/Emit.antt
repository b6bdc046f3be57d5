-- ===== src/Decision/Emit.antt =====
-- `_emit_transactional` of src/vanth/server.py: a change of state, its event, and the deliveries that
-- the event owes, in one transaction.
use vanth.Prelude.{
  ℕ, ◌+◌, max, Bool, not, ◌&&◌, String, List, [], ◌∷◌, ◌++◌, leb, same, if◌then◌else◌,
}
use vanth.Prelude.Rows.{count}
use vanth.Delivery.Enqueue.{enqueue_deliveries}
use vanth.Decision.{Payload, EventRow, World, Error, Result, ok, err, is_terminal}

-- What `mutate` does: it changes the tables, raises `_DecisionNoOp`, or raises an error.
pub data Mutation : Type 0 where
  changed : World → Mutation
  noop : Mutation
  refused : Error → Mutation

-- What is answered: the event, or that it was not kept.
pub data Emission : Type 0 where
  persisted : EventRow → Emission
  capped skipped : Emission

-- What one event draws from outside.
pub record EmitDraw : Type 0 where
  pub created_at : ℕ
  pub event_id : String
  pub delivery_ids : ℕ → String
  pub delivery_times : ℕ → ℕ

-- COALESCE(MAX(seq), 0) ... WHERE job_id=?
unfoldable pub max_seq : String → List EventRow → ℕ
max_seq job [] = 0
max_seq job (e ∷ es) =
    let rest = max_seq job es in if same e.job_id job then max e.seq rest else rest

module _ (draw : EmitDraw) (job kind message : String) (payload : Payload) where
  unfoldable pub next_event : World → EventRow
  unfolding max_seq
  next_event w = record {
    event_id = draw.event_id;
    job_id = job;
    seq = max_seq job w.events + 1;
    kind = kind;
    message = message;
    payload = payload;
    created_at = draw.created_at;
  }

  -- INSERT INTO events, and the deliveries
  unfoldable pub write_event : World → World
  unfolding next_event
  write_event w = record w {
    events = w.events ++ next_event w ∷ [];
    queue =
        enqueue_deliveries draw.delivery_ids draw.delivery_times
          (record { event_id = draw.event_id; job_id = job; kind = kind }) w.targets w.queue;
  }

  unfoldable pub commit : World → Mutation → Result Emission × World
  unfolding write_event next_event
  commit before (changed w) = (ok (persisted (next_event w)), write_event w)
  commit before noop = (ok skipped, before)
  commit before (refused e) = (err e, before)

  unfoldable pub emit_transactional :
      ℕ → Bool → (World → Mutation) → World → Result Emission × World
  unfolding commit
  emit_transactional max_events exempt mutate w =
      if (not (is_terminal kind) && not exempt)
        && leb max_events (count (λ e. same e.job_id job) w.events)
      then (ok capped, w)
      else commit w (mutate w)
