-- ===== src/Delivery/History/Settled.antt =====
-- What is delivered, or has failed for good, stays so under the daemon and the relays.
use vanth.Prelude.{
  ℕ, suc, ◌≡◌, refl, ap, ◌∙◌, inl, inr, Bool, true, false, String, Option, none, some, List, [],
  ◌∷◌, ◌++◌, arith, same, Bool-cases, All, ◌==◌,
}
use vanth.Prelude.Rows.{find, update, select, count}
use vanth.Prelude.Keys.{touched, find-update-touched}
use vanth.Delivery.{
  Status, Db, Delivery, TargetType, Target, by_id, is_due, is_dispatching, is_settled, claimed_with,
  owned_by,
}
use vanth.Delivery.Enqueue.{
  Event, WakeTarget, owed, insert_or_ignore, enqueue_for, enqueue_deliveries,
}
use vanth.Delivery.Claim.{Draw, claimable, stamp_claim, write_claim, claim_delivery}
use vanth.Delivery.Claim.Outcome.{claim_outcome, claim_delivery-eq-outcome}
use vanth.Delivery.Complete.{
  Clock, finish_row, guard_row, write_completion, complete_delivery, answer,
}
use vanth.Delivery.Relay.{
  present, ack_row, ack_token, relay_ack, released, write_release, release_token, relay_release,
  relay_register, relay_unregister, relay_expire_stale, is_relay_type,
}
use vanth.Delivery.Unbind.{
  owed_by_job, owed_to_target, fail_row, drop_remote_wake_binding, reject_target, reject_all,
  reconcile_invalid_wake_targets,
}
use vanth.Delivery.History.{
  Op, enqueues, claims, completes, acks, releases, registers, unregisters, expires, retries, clears,
  drops, reconciles, marks, step, run, is_automatic,
}

-- The row `d` is what `id` finds.
abbrev Holds : String → Delivery → Db → Type 0
Holds id d db = find (by_id id) db.deliveries ≡ some d

module _ (id : String) (d : Delivery) (settled : is_settled d.status ≡ true) where
  not_dispatching : is_dispatching d.status ≡ false
  not_dispatching = ground arith

  untouched :
      (p : Delivery → Bool) (f : Delivery → Delivery) (rows : List Delivery)
      → ((r : Delivery) → by_id id (f r) ≡ by_id id r)
      → p d ≡ false
      → find (by_id id) rows ≡ some d
      → find (by_id id) (update p f rows) ≡ some d
  untouched p f rows keep miss h =
      find-update-touched (by_id id) p f keep rows ∙ ap (touched p f) h ∙ rw miss

  append-find :
      (rows more : List Delivery)
      → find (by_id id) rows ≡ some d
      → find (by_id id) (rows ++ more) ≡ some d
  unfolding find
  append-find [] more h = cc
  append-find (r ∷ rows) more h = ground (arith, append-find rows more)

  enqueue-find :
      (ids : ℕ → String) (times : ℕ → ℕ) (n : ℕ) (e : Event) (ts : List WakeTarget)
      (rows : List Delivery)
      → find (by_id id) rows ≡ some d
      → find (by_id id) (enqueue_for ids times n e ts rows) ≡ some d
  unfolding enqueue_for insert_or_ignore
  enqueue-find ids times n e [] rows h = h
  enqueue-find ids times n e (t ∷ ts) rows h =
      enqueue-find ids times (suc n) e ts _
        (ground (arith, append-find rows (owed (ids n) (times n) e t ∷ [])))

  claimed_with-misses : (i : String) (t : Option String) → claimed_with i t d ≡ false
  unfolding claimed_with
  claimed_with-misses i none = refl
  claimed_with-misses i (some t) = ground (arith, not_dispatching)

  claimable-misses : (i : String) (now : ℕ) → claimable i now d ≡ false
  unfolding claimable
  claimable-misses i now = ground arith

  guard_row-misses :
      (clock : Clock) (x : Delivery) (status : Status) (error : Option (List ℕ))
      (client : Option String)
      → guard_row clock x status error client d ≡ false
  unfolding guard_row
  guard_row-misses clock x status error none = claimed_with-misses x.delivery_id x.claim_token
  guard_row-misses clock x status error (some c) =
      rw (claimed_with-misses x.delivery_id x.claim_token)

  owned_by-misses : (i t c : String) → owned_by i t c d ≡ false
  unfolding owned_by
  owned_by-misses i t c = rw (claimed_with-misses i (some t))

  complete-Holds :
      (clock : Clock) (x : Delivery) (status : Status) (error : Option (List ℕ))
      (client : Option String) (db : Db)
      → Holds id d db
      → Holds id d (complete_delivery clock x status error client db).1
  unfolding complete_delivery
  complete-Holds clock x status error client db h = elim (Bool-cases (is_settled status)) [
    | inr bad ↦ rw bad h
    | inl good ↦
        elim (Bool-cases (count (guard_row clock x status error client) db.deliveries == 0)) [
          | inl none_owned ↦ rw (good, none_owned) (answered client false db h)
          | inr owned ↦ rw (good, owned) (answered client true _ written)
        ]
  ]
    where
      answered :
          (k : Option String) (b : Bool) (y : Db)
          → Holds id d y
          → Holds id d (answer clock x status error k b y).1
      answered none b y w = w
      answered (some c) false y w = w
      answered (some c) true y w = w

      written : Holds id d (write_completion clock x status error client db)
      written =
          unfold write_completion finish_row in
          untouched (guard_row clock x status error client) (finish_row clock x status error)
            db.deliveries (λ r. refl) (guard_row-misses clock x status error client) h

  claim-Holds :
      (margin : ℕ) (draw : Draw) (client : Option String) (i : String) (db : Db)
      → Holds id d db
      → Holds id d (claim_delivery margin draw client i db).1
  claim-Holds margin draw client i db h =
      rw (claim_delivery-eq-outcome margin draw client i db) (at (find (by_id i) db.deliveries))
    where
      written : (row : Delivery) → Holds id d (write_claim margin draw client i row db)
      written row =
          unfold write_claim stamp_claim in
          untouched (claimable i draw.now) (stamp_claim margin draw client i row) db.deliveries
            (λ r. refl) (claimable-misses i draw.now) h

      at : (o : Option Delivery) → Holds id d (claim_outcome margin draw client i o db).1
      at none = h
      at (some row) = elim (Bool-cases (is_due draw.now row)) [
        | inl due ↦ rw due (written row)
        | inr late ↦ rw late h
      ]

  ack-Holds :
      (client i : String) (clock : Clock) (status : Status) (error : Option (List ℕ))
      (token : Option String) (db : Db)
      → Holds id d db
      → Holds id d (relay_ack client i clock status error token db).1
  unfolding relay_ack ack_token ack_row
  ack-Holds client i clock status error token db h = elim (Bool-cases (is_settled status)) [
    | inr bad ↦ rw bad h
    | inl good ↦ rw good (by_token (present token))
  ]
    where
      by_row : (o : Option Delivery) → Holds id d (ack_row client i clock status error o db).1
      by_row none = h
      by_row (some x) = ground (arith, complete-Holds clock x status error (some client) db h)

      by_token : (o : Option String) → Holds id d (ack_token client i clock status error o db).1
      by_token none = h
      by_token (some t) = by_row (find (owned_by i t client) db.deliveries)

  release-Holds :
      (client i : String) (token : Option String) (db : Db)
      → Holds id d db
      → Holds id d (relay_release client i token db).1
  unfolding relay_release release_token
  release-Holds client i token db h = by_token (present token)
    where
      written : (t : String) → Holds id d (write_release client i t db)
      written t =
          unfold write_release released in
          untouched (owned_by i t client) (released client i) db.deliveries (λ r. refl)
            (owned_by-misses i t client) h

      by_token : (o : Option String) → Holds id d (release_token client i o db).1
      by_token none = h
      by_token (some t) = elim (Bool-cases (count (owned_by i t client) db.deliveries == 0)) [
        | inl e ↦ rw e h
        | inr e ↦ rw e (written t)
      ]

  register-Holds :
      (client : String) (now : ℕ) (kind : TargetType) (destinations : List Target) (db : Db)
      → Holds id d db
      → Holds id d (relay_register client now kind destinations db).1
  unfolding relay_register
  register-Holds client now kind destinations db h = elim (Bool-cases (same client "")) [
    | inl e ↦ rw e h
    | inr e ↦ rw e (elim (Bool-cases (is_relay_type kind)) [ inl k ↦ rw k h | inr k ↦ rw k h ])
  ]

  owed_by_job-misses : (binding : String) → owed_by_job binding d ≡ false
  unfolding owed_by_job
  owed_by_job-misses binding = ground arith

  owed_to_target-misses : (target : String) → owed_to_target target d ≡ false
  unfolding owed_to_target
  owed_to_target-misses target = ground arith

  drop-Holds :
      (binding : String) (reason : List ℕ) (targets : List WakeTarget) (db : Db)
      → Holds id d db
      → Holds id d (drop_remote_wake_binding binding reason targets db).2
  unfolding drop_remote_wake_binding
  drop-Holds binding reason targets db h =
      elim (Bool-cases (count (λ (t : WakeTarget). same t.job_id binding) targets == 0)) [
        | inl unbound ↦ rw unbound h
        | inr bound ↦ rw bound (
            unfold fail_row in
            untouched (owed_by_job binding) (fail_row reason) db.deliveries (λ r. refl)
              (owed_by_job-misses binding) h)
      ]

  reject-Holds :
      (i : String) (message : Option (List ℕ)) (s : List WakeTarget × Db)
      → Holds id d s.1
      → Holds id d (reject_target i message s).1
  unfolding reject_target fail_row
  reject-Holds i none s h = h
  reject-Holds i (some message) s h =
      untouched (owed_to_target i) (fail_row message) s.1.deliveries (λ r. refl)
        (owed_to_target-misses i) h

  reject_all-Holds :
      (invalid : WakeTarget → Option (List ℕ)) (ts : List WakeTarget) (s : List WakeTarget × Db)
      → Holds id d s.1
      → Holds id d (reject_all invalid ts s).1
  unfolding reject_all
  reject_all-Holds invalid [] s h = h
  reject_all-Holds invalid (t ∷ ts) s h =
      reject_all-Holds invalid ts _ (reject-Holds t.target_id (invalid t) s h)

  step-Holds :
      (op : Op) (db : Db) → is_automatic op ≡ true → Holds id d db → Holds id d (step op db)
  unfolding step relay_unregister relay_expire_stale enqueue_deliveries
      reconcile_invalid_wake_targets
  step-Holds (enqueues ids times e targets) db a h =
      enqueue-find ids times 0 e (select (λ t. same t.job_id e.job_id) targets) db.deliveries h
  step-Holds (claims margin draw client i) db a h = claim-Holds margin draw client i db h
  step-Holds (completes clock x status error client) db a h =
      complete-Holds clock x status error client db h
  step-Holds (acks client i clock status error token) db a h =
      ack-Holds client i clock status error token db h
  step-Holds (releases client i token) db a h = release-Holds client i token db h
  step-Holds (registers client now kind destinations) db a h =
      register-Holds client now kind destinations db h
  step-Holds (unregisters client) db a h = h
  step-Holds (expires now age) db a h = h
  step-Holds (retries i) db a h = cc
  step-Holds (clears now ended source f) db a h = cc
  step-Holds (drops binding reason targets) db a h = drop-Holds binding reason targets db h
  step-Holds (reconciles invalid targets) db a h = reject_all-Holds invalid targets (targets, db) h
  step-Holds (marks clock attempt_id i status error) db a h = cc

-- Once a delivery is `delivered` or `failed`, no sequence of events, claims, completions, relay calls,
-- expiries and removals of wake targets changes its row in any column.
pub run-settled :
    (ops : List Op) (db : Db) (id : String) (d : Delivery)
    → is_settled d.status ≡ true
    → All (λ op. is_automatic op ≡ true) ops
    → find (by_id id) db.deliveries ≡ some d
    → find (by_id id) (run ops db).deliveries ≡ some d
unfolding run
run-settled [] db id d settled a h = h
run-settled (op ∷ ops) db id d settled a h =
    run-settled ops (step op db) id d settled a.1 (step-Holds id d settled op db a.0 h)
