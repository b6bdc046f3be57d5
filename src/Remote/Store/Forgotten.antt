-- ===== src/Remote/Store/Forgotten.antt =====
-- What the read path of src/vanth/remote/store.py shows of a shadow that is suppressed or superseded.
use vanth.Prelude.{
  ℕ, ◌<◌, ◌≡◌, refl, subst, inl, inr, Bool, true, false, String, Option, none, List, [], ◌∷◌, arith,
  same, ◌==◌, All, All-map, Bool-cases, Option-cases,
}
use vanth.Prelude.Rows.{
  select, find, count, count-update, find-All, find-some, find-none, update-turns, find-never,
}
use vanth.Time.{text_le}
use vanth.Remote.Store.{Reply-cases, returned}
use vanth.Remote.Store.Remotes.{Remote, get_remote}
use vanth.Remote.Store.Shadows.{
  Shadow, of_job, Report, report_to, upsert_at, upsert_shadow, suppress, suppress_shadow, outdated,
  supersede, supersede_old_epochs, listed, insert_by_creation, by_creation, live_shadows, listing,
  current_shadows, not_forgotten, get_shadow,
}
use vanth.Remote.Store.Hidden.{ShadowOp, run, Marked, is_suppressed, is_superseded, run-Marked}

insert-All :
    (P : Shadow → Type 0) (r : Shadow) (rs : List Shadow)
    → P r
    → All P rs
    → All P (insert_by_creation r rs)
unfolding insert_by_creation
insert-All P r [] h a = (h, tt)
insert-All P r (x ∷ rs) h a = elim (Bool-cases (text_le r.created_at x.created_at)) [
  | inl e ↦ rw e (h, a)
  | inr e ↦ rw e (a.0, insert-All P r rs h a.1)
]

pub sorted-All : (P : Shadow → Type 0) (rs : List Shadow) → All P rs → All P (by_creation rs)
unfolding by_creation
sorted-All P [] a = tt
sorted-All P (r ∷ rs) a = insert-All P r (by_creation rs) a.0 (sorted-All P rs a.1)

every : {Q : Shadow → Type 0} → ((r : Shadow) → Q r) → (rs : List Shadow) → All Q rs
every f [] = tt
every f (r ∷ rs) = (f r, every f rs)

module _ (mark : Shadow → Bool) (remote job : String) where
  select-hidden :
      (epoch : ℕ) (rows : List Shadow)
      → ((r : Shadow) → mark r ≡ true → listed remote epoch r ≡ false)
      → All (λ r. of_job remote job r ≡ true → mark r ≡ true) rows
      → All (λ r. same r.remote_job_id job ≡ false) (select (listed remote epoch) rows)
  unfolding select
  select-hidden epoch [] hides a = tt
  select-hidden epoch (r ∷ rows) hides a = elim (Bool-cases (listed remote epoch r)) [
    | inr e ↦ rw e (select-hidden epoch rows hides a.1)
    | inl e ↦ rw e (elim (Bool-cases (same r.remote_job_id job)) [
      | inr other ↦ (other, select-hidden epoch rows hides a.1)
      | inl this ↦
          let at : of_job remote job r ≡ true = unfold of_job listed in ground (arith, e, this) in
          absurd (ground (arith, hides r (a.0 at), e))
    ])
  ]

  -- A mark that the read path heeds hides the job.
  shown-hidden :
      (remotes : List Remote) (rows shown : List Shadow)
      → ((epoch : ℕ) (r : Shadow) → mark r ≡ true → listed remote epoch r ≡ false)
      → Marked mark remote job rows
      → current_shadows remote remotes rows ≡ returned shown
      → All (λ r. same r.remote_job_id job ≡ false) shown
  unfolding current_shadows listing live_shadows
  shown-hidden remotes rows shown hides m e = elim (Reply-cases (get_remote remote remotes)) [
    | inl (bad, refused) ↦ absurd (ground (arith, e, refused))
    | inr (at, found) ↦
        let is : by_creation (select (listed remote at.state_epoch) rows) ≡ shown =
          ground (arith, e, found) in
        subst (All (λ r. same r.remote_job_id job ≡ false)) is
          (sorted-All _ _ (select-hidden at.state_epoch rows (hides at.state_epoch) m.all))
  ]

suppressed-hides :
    (remote : String) (epoch : ℕ) (r : Shadow)
    → is_suppressed r ≡ true
    → listed remote epoch r ≡ false
unfolding listed
suppressed-hides remote epoch r h = ground arith

superseded-hides :
    (remote : String) (epoch : ℕ) (r : Shadow)
    → is_superseded r ≡ true
    → listed remote epoch r ≡ false
unfolding listed
superseded-hides remote epoch r h = ground arith

module _ (remote job : String) where
  run-suppressed :
      (os : List ShadowOp) (rows : List Shadow)
      → Marked is_suppressed remote job rows
      → Marked is_suppressed remote job (run os rows)
  unfolding report_to suppress supersede
  run-suppressed os rows m =
      run-Marked is_suppressed (λ stamp epoch j r. refl) (λ stamp r h. refl) (λ stamp r h. h) remote
        job os rows m

  run-superseded :
      (os : List ShadowOp) (rows : List Shadow)
      → Marked is_superseded remote job rows
      → Marked is_superseded remote job (run os rows)
  unfolding report_to suppress supersede
  run-superseded os rows m =
      run-Marked is_superseded (λ stamp epoch j r. refl) (λ stamp r h. h) (λ stamp r h. refl) remote
        job os rows m

  suppress-Marked :
      (stamp : ℕ) (rows : List Shadow)
      → (count (of_job remote job) rows == 0) ≡ false
      → Marked is_suppressed remote job (suppress_shadow stamp remote job rows)
  unfolding suppress_shadow
  suppress-Marked stamp rows known = record {
    known =
        rw
          (count-update (of_job remote job) (of_job remote job) (suppress stamp)
            (λ r. unfold of_job suppress in refl) rows)
          known;
    all =
        update-turns (of_job remote job) (suppress stamp) rows
          (λ r u hit at. unfold suppress in refl) (λ r u miss at. absurd (cc))
          (every {Q = λ r. Unit {0}} (λ r. tt) rows);
  }

  supersede-Marked :
      (stamp epoch : ℕ) (rows : List Shadow)
      → (count (of_job remote job) rows == 0) ≡ false
      → All (λ r. of_job remote job r ≡ true → r.state_epoch < epoch) rows
      → Marked is_superseded remote job (supersede_old_epochs stamp remote epoch rows).1
  unfolding supersede_old_epochs
  supersede-Marked stamp epoch rows known older = record {
    known =
        rw
          (count-update (of_job remote job) (outdated remote epoch) (supersede stamp)
            (λ r. unfold of_job supersede in refl) rows)
          known;
    all =
        update-turns {Q = λ r. of_job remote job r ≡ true → r.state_epoch < epoch}
          (outdated remote epoch) (supersede stamp) rows (λ r old hit at. unfold supersede in refl)
          (λ r old miss at.
            let below : r.state_epoch < epoch = old at in
            unfold outdated of_job in ground (arith, below, miss, at))
          older;
  }

  get-forgotten :
      (rows : List Shadow)
      → Marked is_suppressed remote job rows
      → get_shadow remote job rows ≡ none
  unfolding get_shadow not_forgotten
  get-forgotten rows m =
      find-never (not_forgotten remote job) rows (All-map rows (λ r h. ground (arith, h)) m.all)

  upsert-forgotten :
      (stamp : ℕ) (id : String) (epoch : ℕ) (j : Report) (rows : List Shadow)
      → j.remote_id ≡ remote
      → j.remote_job_id ≡ job
      → Marked is_suppressed remote job rows
      → upsert_shadow stamp id epoch j rows ≡ (none, rows)
  unfolding upsert_shadow upsert_at
  upsert-forgotten stamp id epoch j rows at named m =
      rw (at, named)
        (elim (Option-cases (find (of_job remote job) rows)) [
          | inl absent ↦ absurd (ground (arith, m.known, find-none (of_job remote job) rows absent))
          | inr (r, found) ↦
              let here : is_suppressed r ≡ true =
                find-All (λ x. of_job remote job x ≡ true → is_suppressed x ≡ true)
                  (of_job remote job) rows m.all found (find-some (of_job remote job) rows found) in
              rw (found, here)
        ])

-- Where the job has a shadow and it is suppressed, then whatever is written to the table afterwards:
-- `get_shadow` finds none, `current_shadows` does not list the job, and a report of the job at any
-- epoch is refused and changes nothing.
pub forgotten-hidden :
    (stamp : ℕ) (remote job : String) (rows : List Shadow) (os : List ShadowOp)
    (remotes : List Remote) (shown : List Shadow) (now : ℕ) (id : String) (epoch : ℕ)
    (status : String) (payload : Option String)
    → (count (of_job remote job) rows == 0) ≡ false
    → current_shadows remote remotes (run os (suppress_shadow stamp remote job rows))
      ≡ returned shown
    → (get_shadow remote job (run os (suppress_shadow stamp remote job rows)) ≡ none)
      × All (λ r. same r.remote_job_id job ≡ false) shown
      × (upsert_shadow now id epoch
            (record { remote_id = remote; remote_job_id = job; status = status; payload = payload })
            (run os (suppress_shadow stamp remote job rows))
          ≡ (none, run os (suppress_shadow stamp remote job rows)))
forgotten-hidden stamp remote job rows os remotes shown now id epoch status payload known e = (
  get-forgotten remote job _ after,
  shown-hidden is_suppressed remote job remotes _ shown (suppressed-hides remote) after e,
  upsert-forgotten remote job now id epoch _ _ refl refl after,
)
  where
    after : Marked is_suppressed remote job (run os (suppress_shadow stamp remote job rows))
    after = run-suppressed remote job os _ (suppress-Marked remote job stamp rows known)

-- Where the job has a shadow, and all of its shadows are of epochs below the one by which the
-- remote's are superseded, `current_shadows` never lists the job again, whatever is written
-- afterwards: a report of the job at the current epoch does not bring it back.
pub superseded-hidden :
    (stamp epoch : ℕ) (remote job : String) (rows : List Shadow) (os : List ShadowOp)
    (remotes : List Remote) (shown : List Shadow)
    → (count (of_job remote job) rows == 0) ≡ false
    → All (λ r. of_job remote job r ≡ true → r.state_epoch < epoch) rows
    → current_shadows remote remotes (run os (supersede_old_epochs stamp remote epoch rows).1)
      ≡ returned shown
    → All (λ r. same r.remote_job_id job ≡ false) shown
superseded-hidden stamp epoch remote job rows os remotes shown known older e =
    shown-hidden is_superseded remote job remotes _ shown (superseded-hides remote)
      (run-superseded remote job os _ (supersede-Marked remote job stamp epoch rows known older)) e
