-- ===== src/Remote/Store/Retry.antt =====
-- Retries of a request of src/vanth/remote/store.py that is not settled.
use vanth.Prelude.{
  ℕ, ◌≡◌, ◌⊎◌, refl, ap, ◌∙◌, inl, inr, Bool, true, false, not, ◌&&◌, String, Option, some, List,
  [], ◌∷◌, arith, same, ◌==◌, All, Bool-cases, Option-cases,
}
use vanth.Prelude.Rows.{find, update, count}
use vanth.Prelude.Keys.{touched, find-update-touched, find-append_some, find-delete}
use vanth.Remote.Store.{Reply, Reply-cases, raised, returned, replay_mismatch}
use vanth.Remote.Store.Remotes.{Remote, with_remote}
use vanth.Remote.Store.Requests.{
  Submission, Request, with_key, with_id, recorded, record_request, get_request_by_key, set_status,
  updated, status_moved, update_request_status, settled, prunable, prune_requests,
}

-- One write to `remote_requests`.
pub data RequestOp : Type 0 where
  records : (stamp : ℕ) (id : String) → Submission → List Remote → RequestOp
  moves : (stamp : ℕ) (id status : String) (response error : Option String) → RequestOp
  prunes : (now age : ℕ) → RequestOp

abbrev pub or_kept : List Request → Reply (List Request) → List Request
or_kept rows (raised e) = rows
or_kept rows (returned next) = next

unfoldable pub step : RequestOp → List Request → List Request
step (records stamp id s remotes) rows = (record_request stamp id s remotes rows).1
step (moves stamp id status response error) rows =
    or_kept rows (update_request_status stamp id status response error rows)
step (prunes now age) rows = (prune_requests now age rows []).1

unfoldable pub run : List RequestOp → List Request → List Request
run [] rows = rows
run (o ∷ os) rows = run os (step o rows)

-- The write does not settle this request.
abbrev pub spares : String → RequestOp → Bool
spares id (moves stamp other status response error) = not (same id other && settled status)
spares id _ = true

-- The key has a request with this identifier and submission, and it is not settled.
pub record InFlight (id : String) (s : Submission) (rows : List Request) : Type 0 where
  pub row : Request
  pub found : get_request_by_key s.remote_id s.idempotency_key rows ≡ some row
  pub named : row.request_id ≡ id
  pub given : row.submission ≡ s
  pub open_ : settled row.status ≡ false

module _ (id : String) (s : Submission) where
  record-InFlight :
      (stamp : ℕ) (new : String) (t : Submission) (remotes : List Remote) (rows : List Request)
      → InFlight id s rows
      → InFlight id s (record_request stamp new t remotes rows).1
  unfolding record_request recorded get_request_by_key
  record-InFlight stamp new t remotes rows f =
      elim (Bool-cases (count (with_remote t.remote_id) remotes == 0)) [
        | inl unknown ↦ rw unknown f
        | inr known ↦
            rw known (elim (Option-cases (find (with_key t.remote_id t.idempotency_key) rows)) [
              | inl fresh ↦ rw fresh (record {
                row = f.row;
                found = find-append_some _ rows _ f.found;
                named = f.named;
                given = f.given;
                open_ = f.open_;
              })
              | inr (old, taken) ↦
                  rw taken (elim (Bool-cases (same old.submission.digest t.digest)) [
                    | inl e ↦ rw e f
                    | inr e ↦ rw e f
                  ])
            ])
      ]

  update-InFlight :
      (stamp : ℕ) (other status : String) (response error : Option String) (rows : List Request)
      → not (same id other && settled status) ≡ true
      → InFlight id s rows
      → InFlight id s (update (with_id other) (set_status stamp status response error) rows)
  unfolding get_request_by_key
  update-InFlight stamp other status response error rows spared f =
      let at =
        find-update-touched (with_key s.remote_id s.idempotency_key) (with_id other)
          (set_status stamp status response error) (λ r. unfold with_key set_status in refl) rows
        ∙ ap (touched (with_id other) (set_status stamp status response error)) f.found in
      elim (Bool-cases (same f.row.request_id other)) [
        | inl hit ↦ record {
          row = set_status stamp status response error f.row;
          found = at ∙ rw hit refl;
          named = unfold set_status in f.named;
          given = unfold set_status in f.given;
          open_ = unfold set_status in ground (arith, spared, ap (λ i. same i other) f.named, hit);
        }
        | inr miss ↦ record {
          row = f.row;
          found = at ∙ rw miss refl;
          named = f.named;
          given = f.given;
          open_ = f.open_;
        }
      ]

  move-InFlight :
      (stamp : ℕ) (other status : String) (response error : Option String) (rows : List Request)
      → not (same id other && settled status) ≡ true
      → InFlight id s rows
      → InFlight id s (or_kept rows (update_request_status stamp other status response error rows))
  unfolding update_request_status updated
  move-InFlight stamp other status response error rows spared f =
      elim (Reply-cases (status_moved status (find (with_id other) rows))) [
        | inl (e, refused) ↦ rw refused f
        | inr (next, moved) ↦
            rw moved (update-InFlight stamp other status response error rows spared f)
      ]

  prune-InFlight :
      (now age : ℕ) (rows : List Request)
      → InFlight id s rows
      → InFlight id s (prune_requests now age rows []).1
  unfolding prune_requests prunable get_request_by_key
  prune-InFlight now age rows f = elim (Bool-cases (age == 0)) [
    | inl none_pruned ↦ rw none_pruned f
    | inr some_pruned ↦ rw some_pruned (record {
      row = f.row;
      found = find-delete _ _ rows (rw (f.open_)) f.found;
      named = f.named;
      given = f.given;
      open_ = f.open_;
    })
  ]

  step-InFlight :
      (o : RequestOp) (rows : List Request)
      → spares id o ≡ true
      → InFlight id s rows
      → InFlight id s (step o rows)
  unfolding step
  step-InFlight (records stamp new t remotes) rows h f = record-InFlight stamp new t remotes rows f
  step-InFlight (moves stamp other status response error) rows h f =
      move-InFlight stamp other status response error rows h f
  step-InFlight (prunes now age) rows h f = prune-InFlight now age rows f

  pub run-InFlight :
      (os : List RequestOp) (rows : List Request)
      → All (λ o. spares id o ≡ true) os
      → InFlight id s rows
      → InFlight id s (run os rows)
  unfolding run
  run-InFlight [] rows h f = f
  run-InFlight (o ∷ os) rows h f = run-InFlight os (step o rows) h.1 (step-InFlight o rows h.0 f)

-- Where a request is not settled, then after any records, prunings and status changes that do not
-- settle it, a retry of its key with the same digest is answered with that request, whatever else
-- it says, and one with another digest is refused; neither changes the table.
pub retry-answered :
    (id : String) (s : Submission) (rows : List Request) (os : List RequestOp) (stamp : ℕ)
    (new : String) (t : Submission) (remotes : List Remote)
    → InFlight id s rows
    → All (λ o. spares id o ≡ true) os
    → t.remote_id ≡ s.remote_id
    → t.idempotency_key ≡ s.idempotency_key
    → (count (with_remote t.remote_id) remotes == 0) ≡ false
    → ((same s.digest t.digest ≡ true)
        × (r : Request) × (r.request_id ≡ id)
        × (r.submission ≡ s)
        × (record_request stamp new t remotes (run os rows) ≡ (returned r, run os rows)))
      ⊎ ((same s.digest t.digest ≡ false)
          × (record_request stamp new t remotes (run os rows)
              ≡ (raised replay_mismatch, run os rows)))
unfolding record_request recorded get_request_by_key
retry-answered id s rows os stamp new t remotes open_ spared at key known =
    let f = run-InFlight id s os rows spared open_ in
    let found : find (with_key t.remote_id t.idempotency_key) (run os rows) ≡ some f.row =
      rw (at, key) (f.found) in
    elim (Bool-cases (same s.digest t.digest)) [
      | inl e ↦ inl (e, f.row, f.named, f.given, rw (known, found, f.given, e) refl)
      | inr e ↦ inr (e, rw (known, found, f.given, e) refl)
    ]
