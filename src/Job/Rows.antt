-- ===== src/Job/Rows.antt =====
-- What a statement on `jobs` does to the row of one job.
use vanth.Prelude.{◌≡◌, ap, ◌∙◌, Bool, true, false, ◌&&◌, String, some, List, arith, same, same_as}
use vanth.Prelude.Rows.{find, update}
use vanth.Prelude.Keys.{touched, find-update-touched}
use vanth.Job.{Job, with_id, owned}

abbrev pub Renames : (Job → Job) → Type 0
Renames f = (j : Job) → (f j).job_id ≡ j.job_id

module _ (id : String) (p : Job → Bool) (f : Job → Job) (keeps : Renames f) (jobs : List Job) where
  -- The row of a job after a statement.
  pub find-statement : find (with_id id) (update p f jobs) ≡ touched p f (find (with_id id) jobs)
  find-statement = find-update-touched (with_id id) p f (λ j. ap (λ i. same i id) (keeps j)) jobs

  pub find-missed :
      {j : Job}
      → p j ≡ false
      → find (with_id id) jobs ≡ some j
      → find (with_id id) (update p f jobs) ≡ some j
  find-missed {j} miss h = find-statement ∙ ap (touched p f) h ∙ rw miss

  pub find-hit :
      {j : Job}
      → p j ≡ true
      → find (with_id id) jobs ≡ some j
      → find (with_id id) (update p f jobs) ≡ some (f j)
  find-hit {j} hit h = find-statement ∙ ap (touched p f) h ∙ rw hit

-- A statement that names a token does not take a row that carries another.
pub not_owned :
    (id token : String) (rest : Bool) (j : Job)
    → same_as j.claim_token token ≡ false
    → (owned id token j && rest) ≡ false
not_owned id token rest j h = ground arith
