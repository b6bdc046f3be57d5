-- ===== src/Remote/Control/Live.antt =====
-- Deletion reconciliation in src/vanth/remote/control.py: what a snapshot leaves listed.
use vanth.Prelude.{
  ℕ, ◌≡◌, ◌⊎◌, refl, ap, subst, ◌∙◌, inl, inr, Bool, true, false, ◌&&◌, ◌||◌, String, some, List,
  [], ◌∷◌, arith, same, same_iff, same_self, ltb, if◌then◌else◌, All, All-map, Bool-cases,
  Option-cases,
}
use vanth.Prelude.Rows.{select, find, update-turns}
use vanth.Prelude.Keys.{touched, find-update-touched}
use vanth.Time.{text_le}
use vanth.Remote.Store.{returned}
use vanth.Remote.Store.Remotes.{
  Remote, with_remote, get_remote, or_unknown, set_snapshot_cursor, raise_state_epoch,
}
use vanth.Remote.Store.Shadows.{
  Shadow, of_job, suppress, suppress_shadow, listed, insert_by_creation, by_creation, live_shadows,
  listing, current_shadows,
}
use vanth.Remote.Store.Forgotten.{sorted-All}
use vanth.Remote.Control.{
  Controller, JobView, seen, suppress_unseen, reconciled, finalize_snapshot_locked, Totals,
  applied_page, epoch_raised, finished, apply_snapshot,
}

abbrev has_job : String → List Shadow → Bool
has_job job [] = false
has_job job (r ∷ rs) = same r.remote_job_id job || has_job job rs

insert-has_job :
    (job : String) (r : Shadow) (rs : List Shadow)
    → has_job job (insert_by_creation r rs) ≡ has_job job (r ∷ rs)
unfolding insert_by_creation
insert-has_job job r [] = refl
insert-has_job job r (x ∷ rs) = elim (Bool-cases (text_le r.created_at x.created_at)) [
  | inl e ↦ rw e refl
  | inr e ↦ rw e (ground (arith, insert-has_job job r rs))
]

sort-has_job : (job : String) (rs : List Shadow) → has_job job (by_creation rs) ≡ has_job job rs
unfolding by_creation
sort-has_job job [] = refl
sort-has_job job (r ∷ rs) =
    insert-has_job job r (by_creation rs)
    ∙ ap (λ b. same r.remote_job_id job || b) (sort-has_job job rs)

-- A selected row's job is found in every list that has the jobs of the selection.
select-has_job :
    (p : Shadow → Bool) (all rows : List Shadow)
    → ((job : String) → has_job job (select p rows) ≡ true → has_job job all ≡ true)
    → All (λ r. p r ≡ true → has_job r.remote_job_id all ≡ true) rows
unfolding select
select-has_job p all [] sub = tt
select-has_job p all (r ∷ rows) sub = (
  (λ hit. sub r.remote_job_id (rw (hit, same_self r.remote_job_id) refl)),
  select-has_job p all rows (λ job h. sub job (wider job h)),
)
  where
    wider :
        (job : String)
        → has_job job (select p rows) ≡ true
        → has_job job (if p r then r ∷ select p rows else select p rows) ≡ true
    wider job h = ground (arith, h)

module _ (remote : String) (epoch : ℕ) (jobs : List JobView) where
  -- A listed row's job is in the snapshot, or among the shadows that are yet to be looked at.
  abbrev Left : List Shadow → Shadow → Type 0
  Left live r =
      listed remote epoch r ≡ true
      → (seen r.remote_job_id jobs ≡ true) ⊎ (has_job r.remote_job_id live ≡ true)

  suppress-Left :
      (stamp : ℕ) (x : Shadow) (live rows : List Shadow)
      → All (Left (x ∷ live)) rows
      → All (Left live) (suppress_shadow stamp remote x.remote_job_id rows)
  unfolding suppress_shadow
  suppress-Left stamp x live rows a =
      update-turns {Q = Left (x ∷ live)} (of_job remote x.remote_job_id) (suppress stamp) rows
        (λ r left hit at. absurd (unfold listed suppress in ground (arith, at)))
        (λ r left miss at.
          unfold of_job listed in
          ground (
            arith,
            miss,
            at,
            same_iff x.remote_job_id r.remote_job_id,
            same_self r.remote_job_id,
            left at,
          ))
        a

  unseen-Left :
      (stamp : ℕ) (live rows : List Shadow)
      → All (Left live) rows
      → All (Left []) (suppress_unseen stamp remote jobs live rows).1
  unfolding suppress_unseen
  unseen-Left stamp [] rows a = a
  unseen-Left stamp (x ∷ live) rows a = elim (Bool-cases (seen x.remote_job_id jobs)) [
    | inl e ↦ rw e (
        unseen-Left stamp live rows (
          All-map rows
            (λ r left at. elim (left at) [
              | inl known ↦ inl known
              | inr waits ↦ elim (Bool-cases (same x.remote_job_id r.remote_job_id)) [
                | inl this ↦ inl (
                    subst (λ i. seen i jobs ≡ true)
                      ((same_iff x.remote_job_id r.remote_job_id).0 this) e)
                | inr other ↦ inr (ground (arith, waits, other))
              ]
            ])
            a))
    | inr e ↦ rw e (unseen-Left stamp live _ (suppress-Left stamp x live rows a))
  ]

  -- After the reconciliation every listed row's job is in the snapshot.
  reconcile-Left :
      (stamp : ℕ) (at : Remote) (rows : List Shadow)
      → at.state_epoch ≡ epoch
      → All (Left []) (suppress_unseen stamp remote jobs (live_shadows remote rows at) rows).1
  unfolding live_shadows
  reconcile-Left stamp at rows now = rw now (
      unseen-Left stamp _ rows (
        All-map rows (λ r h hit. inr (h hit))
          (select-has_job (listed remote epoch) (by_creation (select (listed remote epoch) rows))
            rows (λ job h. sort-has_job job (select (listed remote epoch) rows) ∙ h))))

  select-Left :
      (rows : List Shadow)
      → All (Left []) rows
      → All (λ r. seen r.remote_job_id jobs ≡ true) (select (listed remote epoch) rows)
  unfolding select
  select-Left [] a = tt
  select-Left (r ∷ rows) a = elim (Bool-cases (listed remote epoch r)) [
    | inr e ↦ rw e (select-Left rows a.1)
    | inl e ↦
        rw e
          (elim (a.0 e) [ inl known ↦ known | inr none_left ↦ absurd (cc) ], select-Left rows a.1)
  ]

live-seen :
    (remote : String) (epoch : ℕ) (jobs : List JobView) (rows : List Shadow) (now : Remote)
    → now.state_epoch ≡ epoch
    → All (Left remote epoch jobs []) rows
    → All (λ r. seen r.remote_job_id jobs ≡ true) (live_shadows remote rows now)
unfolding live_shadows
live-seen remote epoch jobs rows now keeps a =
    rw keeps (sorted-All _ _ (select-Left remote epoch jobs rows a))

-- The epoch of a remote that is at the snapshot's epoch stays.
kept_epoch :
    (stamp : ℕ) (remote cursor : String) (epoch : ℕ) (rows : List Remote) (at : Remote)
    → find (with_remote remote) rows ≡ some at
    → at.state_epoch ≡ epoch
    → (now : Remote) × (find
          (with_remote remote)
          (raise_state_epoch stamp remote epoch (set_snapshot_cursor stamp remote cursor rows))
        ≡ some now)
      × (now.state_epoch ≡ epoch)
unfolding raise_state_epoch set_snapshot_cursor
kept_epoch stamp remote cursor epoch rows at found now = (
  _,
  find-update-touched (with_remote remote)
        (λ (r : Remote). same r.remote_id remote && ltb r.state_epoch epoch)
        (λ r. record r { state_epoch = epoch; updated_at = stamp }) (λ r. refl) _
      ∙ ap
          (touched (λ (r : Remote). same r.remote_id remote && ltb r.state_epoch epoch)
            (λ r. record r { state_epoch = epoch; updated_at = stamp }))
          (find-update-touched (with_remote remote) (with_remote remote)
              (λ r. record r { snapshot_cursor = some cursor; updated_at = stamp }) (λ r. refl) rows
            ∙ ap
                (touched (with_remote remote)
                  (λ r. record r { snapshot_cursor = some cursor; updated_at = stamp }))
                found),
  ground (arith, now),
)

found_remote :
    (remote : String) (rows : List Remote) (at : Remote)
    → get_remote remote rows ≡ returned at
    → find (with_remote remote) rows ≡ some at
unfolding get_remote
found_remote remote rows at h = elim (Option-cases (find (with_remote remote) rows)) [
  | inl e ↦ absurd (ground (arith, h, e))
  | inr (r, e) ↦ ground (arith, h, e)
]

got_remote :
    (remote : String) (rows : List Remote) (at : Remote)
    → find (with_remote remote) rows ≡ some at
    → get_remote remote rows ≡ returned at
unfolding get_remote
got_remote remote rows at h = ap or_unknown h

-- A complete snapshot at the epoch that the remote's row has is applied, and afterwards
-- `current_shadows` answers and lists no job that is not in the snapshot.
pub apply_snapshot-live :
    (stamp : ℕ) (remote : String) (epoch : ℕ) (jobs : List JobView) (cursor : String)
    (c : Controller) (at : Remote)
    → get_remote remote c.remotes ≡ returned at
    → at.state_epoch ≡ epoch
    → (t : Totals) × (next : Controller) × (shown : List Shadow) × (apply_snapshot stamp remote
          epoch jobs cursor true c
        ≡ returned (t, next))
      × (current_shadows remote next.remotes next.shadows ≡ returned shown)
      × All (λ r. seen r.remote_job_id jobs ≡ true) shown
unfolding apply_snapshot finished finalize_snapshot_locked reconciled applied_page epoch_raised
    current_shadows listing
apply_snapshot-live stamp remote epoch jobs cursor c at found same_epoch =
    let (now, is, keeps) =
      kept_epoch stamp remote cursor epoch c.remotes at (found_remote remote c.remotes at found)
        same_epoch in
    let page = applied_page stamp remote epoch jobs c in
    let swept =
      suppress_unseen stamp remote jobs (live_shadows remote page.1.shadows at) page.1.shadows in
    (
      record { applied = page.0.0; deleted = swept.0; superseded = page.0.1 },
      record {
        remotes =
            raise_state_epoch stamp remote epoch
              (set_snapshot_cursor stamp remote cursor c.remotes);
        shadows = swept.1;
      },
      live_shadows remote swept.1 now,
      rw found refl,
      ap (listing remote swept.1) (got_remote remote _ now is),
      live-seen remote epoch jobs swept.1 now keeps
          (reconcile-Left remote epoch jobs stamp at page.1.shadows same_epoch),
    )
