-- ===== src/Job/Exclusive.antt =====
-- Who wins a launch claim.
use vanth.Prelude.{
  ℕ, ◌≡◌, refl, sym, ap, ◌∙◌, inl, inr, Bool, true, false, same_iff, String, Option, none, some,
  List, [], ◌∷◌, arith, Bool-cases,
}
use vanth.Prelude.Rows.{find, find-some, update, count, update-none}
use vanth.Prelude.Keys.{Keyed, count-key, hits}
use vanth.Job.{launching, Job, PolicyState, is_runnable, with_id}
use vanth.Job.Handover.{key, OnlyJob}
use vanth.Job.Rows.{find-hit}
use vanth.Job.Claim.{
  required, updated_state, claimable, claim_row, claim_write, claim_found, claim_launch,
}

module _ (id : String) (require updates : Option (Option ℕ)) (token : String) (stamp : ℕ) where
  -- What a claim that was won had found, and what it left.
  pub record Claimed (jobs : List Job) (claimant : String) : Type 0 where
    pub row : Job
    pub found : find (with_id id) jobs ≡ some row
    pub runnable : is_runnable row.status ≡ true
    pub enabled : row.policy_disabled ≡ false
    pub asked : required require row.policy ≡ true
    pub claimed_by : claimant ≡ token
    pub left :
        (claim_launch id require updates token stamp jobs).1
        ≡ update (claimable id) (claim_row token stamp (updated_state updates row.policy)) jobs

  write-Claimed :
      (j : Job) (jobs : List Job) (claimant : String)
      → (claim_launch id require updates token stamp jobs)
        ≡ claim_found id require updates token stamp (some j) jobs
      → find (with_id id) jobs ≡ some j
      → (claim_found id require updates token stamp (some j) jobs).0 ≡ some claimant
      → Claimed jobs claimant
  unfolding claim_found claim_write
  write-Claimed j jobs claimant whole found h = elim (Bool-cases (is_runnable j.status)) [
    | inr e ↦ absurd (cc (rw e at h))
    | inl e ↦ elim (Bool-cases j.policy_disabled) [
      | inl k ↦ absurd (cc (rw (e, k) at h))
      | inr k ↦ elim (Bool-cases (required require j.policy)) [
        | inr m ↦ absurd (cc (rw (e, k, m) at h))
        | inl m ↦ record {
          row = j;
          found = found;
          runnable = e;
          enabled = k;
          asked = m;
          claimed_by = ground arith;
          left = ap (λ r. r.1) whole ∙ rw (e, k, m);
        }
      ]
    ]
  ]

  pub claim_launch-Claimed :
      (jobs : List Job) (claimant : String)
      → (claim_launch id require updates token stamp jobs).0 ≡ some claimant
      → Claimed jobs claimant
  unfolding claim_launch
  claim_launch-Claimed jobs claimant h = by_row (find (with_id id) jobs) refl
    where
      by_row : (o : Option Job) → find (with_id id) jobs ≡ o → Claimed jobs claimant
      by_row none e = absurd (cc (rw (e, claim_found) at h))
      by_row (some j) e =
          let whole : claim_launch id require updates token stamp jobs
              ≡ claim_found id require updates token stamp (some j) jobs =
            rw e in
          write-Claimed j jobs claimant whole e (sym (ap (λ r. r.0) whole) ∙ h)

  pub Claimed-row :
      (jobs : List Job) (claimant : String) (c : Claimed jobs claimant)
      → find (with_id id) (claim_launch id require updates token stamp jobs).1
        ≡ some (claim_row token stamp (updated_state updates c.row.policy) c.row)
  Claimed-row jobs claimant c =
      ap (find (with_id id)) c.left
      ∙ find-hit id (claimable id) (claim_row token stamp (updated_state updates c.row.policy))
          (unfold claim_row in λ x. refl) jobs taken c.found
    where
      taken : claimable id c.row ≡ true
      taken = rw (find-some (with_id id) jobs c.found, c.runnable, c.enabled)

-- After a statement whose result it does not take again, it takes no row.
count-taken :
    (p : Job → Bool) (f : Job → Job)
    → ((j : Job) → p (f j) ≡ false)
    → (jobs : List Job) → count p (update p f jobs) ≡ 0
unfolding count update
count-taken p f gone [] = refl
count-taken p f gone (j ∷ jobs) = elim (Bool-cases (p j)) [
  | inl e ↦ rw (e, gone j) (count-taken p f gone jobs)
  | inr e ↦ rw (e, e) (count-taken p f gone jobs)
]

module _ (id : String) (require updates : Option (Option ℕ)) (token : String) (stamp : ℕ) where
  -- The UPDATE of a claim that finds no runnable row changes nothing, whatever was read.
  refused :
      (read : Option Job) (jobs : List Job)
      → count (claimable id) jobs ≡ 0
      → claim_found id require updates token stamp read jobs ≡ (none, jobs)
  unfolding claim_found claim_write
  refused none jobs h = refl
  refused (some j) jobs h =
      let same_rows =
        update-none (claimable id) (claim_row token stamp (updated_state updates j.policy)) jobs
          h in
      ground (arith, h, same_rows)

  -- What the UPDATE of a claim that was won had found, and the table that it left.
  pub record Won (jobs : List Job) (claimant : String) (after : List Job) : Type 0 where
    pub state : PolicyState
    pub one : count (claimable id) jobs ≡ 1
    pub claimed_by : claimant ≡ token
    pub left : after ≡ update (claimable id) (claim_row token stamp state) jobs

  found-Won :
      (read : Option Job) (jobs : List Job) (claimant : String)
      → (claim_found id require updates token stamp read jobs).0 ≡ some claimant
      → Won jobs claimant (claim_found id require updates token stamp read jobs).1
  unfolding claim_found claim_write
  found-Won none jobs claimant h = absurd (cc)
  found-Won (some j) jobs claimant h = elim (Bool-cases (is_runnable j.status)) [
    | inr e ↦ absurd (cc (rw e at h))
    | inl e ↦ elim (Bool-cases j.policy_disabled) [
      | inl k ↦ absurd (cc (rw (e, k) at h))
      | inr k ↦ elim (Bool-cases (required require j.policy)) [
        | inr m ↦ absurd (cc (rw (e, k, m) at h))
        | inl m ↦ record {
          state = updated_state updates j.policy;
          one = ground arith;
          claimed_by = ground arith;
          left = rw (e, k, m) refl;
        }
      ]
    ]
  ]

claimable-only : (id : String) → OnlyJob id (claimable id)
claimable-only id j h = (same_iff j.job_id id).0 (ground arith)

-- Two claims on one job that each read a row, in any process and at any time, and then make their
-- UPDATE one after the other, in a table that is keyed by the job: where the first is won, the row is
-- `launching` under its token, and the second is refused and changes nothing, whatever either had read.
pub claim_launch-exclusive :
    (id token claimant other : String) (require updates require' updates' : Option (Option ℕ))
    (stamp later : ℕ) (read read' : Option Job) (jobs : List Job)
    → Keyed key jobs
    → (claim_found id require updates token stamp read jobs).0 ≡ some claimant
    → (j : Job) × (find (with_id id) (claim_found id require updates token stamp read jobs).1
        ≡ some j)
      × (j.status ≡ launching)
      × (j.claim_token ≡ some claimant)
      × (claim_found id require' updates' other later read'
            (claim_found id require updates token stamp read jobs).1
          ≡ (none, (claim_found id require updates token stamp read jobs).1))
claim_launch-exclusive id token claimant other require updates require' updates' stamp later read
      read' jobs keyed h =
    by (find (with_id id) jobs) refl
  where
    w :
        Won id require updates token stamp jobs claimant
          (claim_found id require updates token stamp read jobs).1
    w = found-Won id require updates token stamp read jobs claimant h

    gone : count (claimable id) (claim_found id require updates token stamp read jobs).1 ≡ 0
    gone =
        ap (count (claimable id)) w.left
        ∙ count-taken (claimable id) (claim_row token stamp w.state)
            (unfold claim_row in λ j. ground arith) jobs

    by :
        (o : Option Job)
        → find (with_id id) jobs ≡ o
        → (j : Job) × (find (with_id id) (claim_found id require updates token stamp read jobs).1
            ≡ some j)
          × (j.status ≡ launching)
          × (j.claim_token ≡ some claimant)
          × (claim_found id require' updates' other later read'
                (claim_found id require updates token stamp read jobs).1
              ≡ (none, (claim_found id require updates token stamp read jobs).1))
    by none e = absurd (
        omega (
          arith,
          w.one,
          count-key key id (claimable id) (claimable-only id) jobs keyed
              ∙ ap (hits (claimable id)) e,
        ))
    by (some j) e =
        let one : hits (claimable id) (some j) ≡ 1 =
          sym (
            count-key key id (claimable id) (claimable-only id) jobs keyed
            ∙ ap (hits (claimable id)) e)
          ∙ w.one in
        (
          claim_row token stamp w.state j,
          ap (find (with_id id)) w.left
              ∙ find-hit id (claimable id) (claim_row token stamp w.state)
                  (unfold claim_row in λ x. refl) jobs (ground (arith, one)) e,
          (unfold claim_row in refl),
          (unfold claim_row in ap some (sym w.claimed_by)),
          refused id require' updates' other later read' _ gone,
        )
