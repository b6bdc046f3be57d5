-- ===== src/Remote/Journal/Kept.antt =====
-- A request that is not resolved stays in the journal: it is the handle for its retry.
use vanth.Prelude.{
  ℕ, ◌-◌, ◌≡◌, refl, ap, ◌∙◌, inl, inr, Bool, true, false, not, ◌&&◌, String, Option, some, List,
  [], ◌∷◌, arith, same, same_iff, pos-ne-zero, ◌==◌, All, Bool-cases,
}
use vanth.Prelude.Rows.{select, count, delete, find-some}
use vanth.Prelude.Keys.{count_pos, touched, find-update-touched, find-append_some, find-delete}
use vanth.Time.{seconds}
use vanth.Remote.Journal.{
  Request, Entry, done, is_resolved, with_request, same_key, record_request, resolve_entry,
  mark_resolved, prunable, prune_resolved, by_creation, of_remote, pending_entries, get,
}

-- One write to the journal.
pub data Write : Type 0 where
  records : (stamp : ℕ) → Request → Write
  resolves : (stamp : ℕ) (id : String) → Write
  prunes : (now age : ℕ) → Write

unfoldable pub step : Write → List Entry → List Entry
step (records stamp r) rows = (record_request stamp r rows).1
step (resolves stamp id) rows = mark_resolved stamp id rows
step (prunes now age) rows = (prune_resolved now age rows).1

unfoldable pub run : List Write → List Entry → List Entry
run [] rows = rows
run (w ∷ ws) rows = run ws (step w rows)

-- The write does not resolve this request.
abbrev pub spares : String → Write → Bool
spares id (resolves stamp other) = not (same other id)
spares id _ = true

module _ (id : String) (e : Entry) (waits : is_resolved e.status ≡ false) where
  record-get :
      (stamp : ℕ) (r : Request) (rows : List Entry)
      → get id rows ≡ some e
      → get id (record_request stamp r rows).1 ≡ some e
  unfolding record_request get
  record-get stamp r rows h = elim (Bool-cases (count (with_request r.request_id) rows == 0)) [
    | inr known ↦ rw known h
    | inl new ↦ rw new (elim (Bool-cases (count (same_key r) rows == 0)) [
      | inl free ↦ rw free (find-append_some (with_request id) rows _ h)
      | inr taken ↦ rw taken h
    ])
  ]

  resolve-get :
      (stamp : ℕ) (other : String) (rows : List Entry)
      → not (same other id) ≡ true
      → get id rows ≡ some e
      → get id (mark_resolved stamp other rows) ≡ some e
  unfolding mark_resolved get resolve_entry
  resolve-get stamp other rows apart h =
      find-update-touched (with_request id) (with_request other) (resolve_entry stamp) (λ x. refl)
        rows
      ∙ ap (touched (with_request other) (resolve_entry stamp)) h
      ∙ rw misses
    where
      at : e.request.request_id ≡ id
      at = (same_iff e.request.request_id id).0 (find-some (with_request id) rows h)

      misses : with_request other e ≡ false
      misses = rw at (ground (arith, apart, same_iff id other, same_iff other id))

  prune-get :
      (now age : ℕ) (rows : List Entry)
      → get id rows ≡ some e
      → get id (prune_resolved now age rows).1 ≡ some e
  unfolding prune_resolved prunable get
  prune-get now age rows h = elim (Bool-cases (age == 0)) [
    | inl none_pruned ↦ rw none_pruned h
    | inr some_pruned ↦ rw some_pruned (find-delete (with_request id) _ rows (rw waits) h)
  ]

  step-get :
      (w : Write) (rows : List Entry)
      → spares id w ≡ true
      → get id rows ≡ some e
      → get id (step w rows) ≡ some e
  unfolding step
  step-get (records stamp r) rows s h = record-get stamp r rows h
  step-get (resolves stamp other) rows s h = resolve-get stamp other rows s h
  step-get (prunes now age) rows s h = prune-get now age rows h

-- A request that waits in the journal is kept as it was recorded, through records, also of itself,
-- resolutions of other requests, and prunings.
pub run-kept :
    (ws : List Write) (rows : List Entry) (id : String) (e : Entry)
    → is_resolved e.status ≡ false
    → All (λ w. spares id w ≡ true) ws
    → get id rows ≡ some e
    → get id (run ws rows) ≡ some e
unfolding run
run-kept [] rows id e waits a h = h
run-kept (w ∷ ws) rows id e waits a h =
    run-kept ws (step w rows) id e waits a.1 (step-get id e waits w rows a.0 h)

select-delete :
    (keep p : Entry → Bool) (rows : List Entry)
    → ((x : Entry) → p x ≡ true → keep x ≡ false)
    → select keep (delete p rows) ≡ select keep rows
unfolding select delete
select-delete keep p [] h = refl
select-delete keep p (x ∷ rows) h = elim (Bool-cases (p x)) [
  | inl gone ↦ rw (gone, h x gone) (select-delete keep p rows h)
  | inr stays ↦ rw stays (ground (arith, select-delete keep p rows h))
]

-- A pruning changes nothing that `pending` lists.
pub prune_resolved-pending :
    (now age : ℕ) (remote : Option String) (rows : List Entry)
    → pending_entries remote (prune_resolved now age rows).1 ≡ pending_entries remote rows
unfolding prune_resolved pending_entries
prune_resolved-pending now age remote rows = elim (Bool-cases (age == 0)) [
  | inl none_pruned ↦ rw none_pruned
  | inr some_pruned ↦ rw some_pruned (
      ap by_creation (
        select-delete (λ e. not (is_resolved e.status) && of_remote remote e)
          (prunable (now - seconds age)) rows (unfold prunable in λ x gone. ground arith)))
]

-- To record a request that is in the journal again, under its own identifier, changes nothing.
pub record_request-again :
    (stamp : ℕ) (r : Request) (rows : List Entry) {e : Entry}
    → get r.request_id rows ≡ some e
    → record_request stamp r rows ≡ (done, rows)
unfolding record_request get
record_request-again stamp r rows h = rw (
    pos-ne-zero _ (
      count_pos (with_request r.request_id) (with_request r.request_id) rows h
        (find-some (with_request r.request_id) rows h)))
