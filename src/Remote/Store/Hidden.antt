-- ===== src/Remote/Store/Hidden.antt =====
-- A shadow that is suppressed or superseded, under everything that is written to the table.
use vanth.Prelude.{
  ℕ, ◌≡◌, refl, sym, ◌∙◌, inl, inr, Bool, true, false, String, none, List, [], ◌∷◌, ◌++◌, arith,
  same, same_iff, and_true, subst, ltb, ◌==◌, All, All-append, Bool-cases, Option-cases,
}
use vanth.Prelude.Rows.{find, update, count, update-All, find-none, count-update, count-append}
use vanth.Remote.Store.Shadows.{
  Shadow, is_set, of_job, with_shadow, Report, report_to, new_shadow, upsert_at, upsert_shadow,
  submitted, record_submitting_shadow, suppress, suppress_shadow, outdated, supersede,
  supersede_old_epochs,
}

-- One write to `remote_shadows`.
pub data ShadowOp : Type 0 where
  upserts : (stamp : ℕ) (id : String) (epoch : ℕ) → Report → ShadowOp
  submits : (stamp : ℕ) (id remote request payload : String) → ShadowOp
  suppresses : (stamp : ℕ) (remote job : String) → ShadowOp
  supersedes : (stamp : ℕ) (remote : String) (epoch : ℕ) → ShadowOp

unfoldable pub step : ShadowOp → List Shadow → List Shadow
step (upserts stamp id epoch j) rows = (upsert_shadow stamp id epoch j rows).1
step (submits stamp id remote request payload) rows =
    record_submitting_shadow stamp id remote request payload rows
step (suppresses stamp remote job) rows = suppress_shadow stamp remote job rows
step (supersedes stamp remote epoch) rows = (supersede_old_epochs stamp remote epoch rows).1

unfoldable pub run : List ShadowOp → List Shadow → List Shadow
run [] rows = rows
run (o ∷ os) rows = run os (step o rows)

-- The job has a shadow, and the mark is on every shadow of the job.
pub record Marked (mark : Shadow → Bool) (remote job : String) (rows : List Shadow) : Type 0 where
  pub known : (count (of_job remote job) rows == 0) ≡ false
  pub all : All (λ r. of_job remote job r ≡ true → mark r ≡ true) rows

abbrev pub is_suppressed : Shadow → Bool
is_suppressed r = is_set r.suppressed_at

abbrev pub is_superseded : Shadow → Bool
is_superseded r = is_set r.superseded_at

of_job_pair :
    (remote job : String) (r : Shadow)
    → of_job remote job r ≡ true
    → ◌≡◌ {A = String × String} (r.remote_id, r.remote_job_id) (remote, job)
unfolding of_job
of_job_pair remote job r h =
    let (at, named) = and_true (same r.remote_id remote) (same r.remote_job_id job) h in
    let first : r.remote_id ≡ remote = (same_iff r.remote_id remote).0 at in
    let second : r.remote_job_id ≡ job = (same_iff r.remote_job_id job).0 named in cc

module _ (mark : Shadow → Bool)
    (report : (stamp epoch : ℕ) (j : Report) (r : Shadow)
      → mark (report_to stamp epoch j r) ≡ mark r)
    (sup : (stamp : ℕ) (r : Shadow) → mark r ≡ true → mark (suppress stamp r) ≡ true)
    (old : (stamp : ℕ) (r : Shadow) → mark r ≡ true → mark (supersede stamp r) ≡ true)
    (remote job : String) where
  update-Marked :
      (p : Shadow → Bool) (f : Shadow → Shadow)
      → ((r : Shadow) → of_job remote job (f r) ≡ of_job remote job r)
      → ((r : Shadow) → mark r ≡ true → mark (f r) ≡ true)
      → (rows : List Shadow) → Marked mark remote job rows
      → Marked mark remote job (update p f rows)
  update-Marked p f keeps marks rows m = record {
    known = rw (count-update (of_job remote job) p f keeps rows) m.known;
    all = update-All p f rows (λ r hit was h. marks r (was (sym (keeps r) ∙ h))) m.all;
  }

  append-Marked :
      (rows : List Shadow) (r : Shadow)
      → of_job remote job r ≡ false
      → Marked mark remote job rows
      → Marked mark remote job (rows ++ r ∷ [])
  append-Marked rows r other m = record {
    known = rw (count-append (of_job remote job) rows (r ∷ [])) (ground (arith, m.known));
    all = All-append _ rows _ m.all ((λ h. cc), tt);
  }

  -- Where the table has no shadow of a job, the job is another.
  other_job :
      (rows : List Shadow) (r : Shadow)
      → Marked mark remote job rows
      → find (of_job r.remote_id r.remote_job_id) rows ≡ none
      → of_job remote job r ≡ false
  other_job rows r m absent = elim (Bool-cases (of_job remote job r)) [
    | inr e ↦ e
    | inl e ↦
        let clear : count (of_job remote job) rows ≡ 0 =
          subst (λ (at : String × String). count (of_job at.0 at.1) rows ≡ 0)
            (of_job_pair remote job r e)
            (find-none (of_job r.remote_id r.remote_job_id) rows absent) in
        absurd (ground (arith, m.known, clear))
  ]

  new-Marked :
      (stamp : ℕ) (id : String) (epoch : ℕ) (j : Report) (rows : List Shadow)
      → find (of_job j.remote_id j.remote_job_id) rows ≡ none
      → Marked mark remote job rows
      → Marked mark remote job (rows ++ new_shadow stamp id epoch j ∷ [])
  unfolding new_shadow
  new-Marked stamp id epoch j rows absent m =
      append-Marked rows _ (other_job rows (new_shadow stamp id epoch j) m absent) m

  upsert-Marked :
      (stamp : ℕ) (id : String) (epoch : ℕ) (j : Report) (rows : List Shadow)
      → Marked mark remote job rows
      → Marked mark remote job (upsert_shadow stamp id epoch j rows).1
  unfolding upsert_shadow upsert_at
  upsert-Marked stamp id epoch j rows m =
      elim (Option-cases (find (of_job j.remote_id j.remote_job_id) rows)) [
        | inl e ↦ rw e (new-Marked stamp id epoch j rows e m)
        | inr (r, e) ↦ rw e (elim (Bool-cases (is_set r.suppressed_at)) [
          | inl forgotten ↦ rw forgotten m
          | inr kept ↦ rw kept (elim (Bool-cases (ltb epoch r.state_epoch)) [
            | inl older ↦ rw older m
            | inr newer ↦ rw newer (
                update-Marked (with_shadow r.shadow_id) (report_to stamp epoch j)
                  (λ x. unfold of_job report_to in refl) (λ x h. report stamp epoch j x ∙ h) rows m)
          ])
        ])
      ]

  submit-Marked :
      (stamp : ℕ) (id from request payload : String) (rows : List Shadow)
      → Marked mark remote job rows
      → Marked mark remote job (record_submitting_shadow stamp id from request payload rows)
  unfolding record_submitting_shadow submitted
  submit-Marked stamp id from request payload rows m =
      elim (Option-cases (find (of_job from request) rows)) [
        | inl e ↦ rw e (new-Marked stamp id 1 _ rows e m)
        | inr (r, e) ↦ rw e m
      ]

  step-Marked :
      (o : ShadowOp) (rows : List Shadow)
      → Marked mark remote job rows
      → Marked mark remote job (step o rows)
  unfolding step suppress_shadow supersede_old_epochs
  step-Marked (upserts stamp id epoch j) rows m = upsert-Marked stamp id epoch j rows m
  step-Marked (submits stamp id from request payload) rows m =
      submit-Marked stamp id from request payload rows m
  step-Marked (suppresses stamp from other) rows m =
      update-Marked (of_job from other) (suppress stamp) (λ x. unfold of_job suppress in refl)
        (sup stamp) rows m
  step-Marked (supersedes stamp from epoch) rows m =
      update-Marked (outdated from epoch) (supersede stamp) (λ x. unfold of_job supersede in refl)
        (old stamp) rows m

  pub run-Marked :
      (os : List ShadowOp) (rows : List Shadow)
      → Marked mark remote job rows
      → Marked mark remote job (run os rows)
  unfolding run
  run-Marked [] rows m = m
  run-Marked (o ∷ os) rows m = run-Marked os (step o rows) (step-Marked o rows m)
