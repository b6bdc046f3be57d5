-- ===== src/Job/Restored.antt =====
-- A restart whose launch is taken for dead has its deadline back.
use vanth.Prelude.{
  ℕ, ◌≡◌, refl, sym, ap, ◌∙◌, Bool, true, String, Option, none, some, List, arith, same_as_iff,
  some_inj, inl, inr, Option-cases,
}
use vanth.Prelude.Rows.{find, find-some, update}
use vanth.Prelude.Keys.{count_pos}
use vanth.Job.{JobStatus, failed, Job, PolicyState, with_id}
use vanth.Job.Rows.{find-hit}
use vanth.Job.Claim.{
  unset, seen, finishable, finish_row, restorable, restore_row, restore_pending_restart_after,
  claim_row, required, updated_state, claim_due_restart,
}
use vanth.Job.Recovery.{pending_of, target_of, abandon_restore, abandon_launch_claim}
use vanth.Job.Exclusive.{claim_launch-Claimed, Claimed-row}
use vanth.Job.Handover.{recovers_taken}

module _ (id token : String) (expected : Option ℕ) (stamp : ℕ) where
  restored_row :
      (jobs : List Job) {j : Job} (t : ℕ)
      → find (with_id id) jobs ≡ some j
      → finishable id (some token) unset true (seen expected) j ≡ true
      → j.policy.pending_restart_after ≡ some t
      → find (with_id id) (abandon_launch_claim id expected stamp (some token) jobs).2
        ≡ some (restore_row stamp (finish_row failed none stamp j))
  restored_row jobs {j} t found taken pending =
      ap (λ (r : Bool × JobStatus × List Job). find (with_id id) r.2)
        (recovers_taken id token expected stamp jobs (
          count_pos (with_id id) (finishable id (some token) unset true (seen expected)) jobs found
            taken))
      ∙ ap
          (λ o.
            find (with_id id)
              (abandon_restore id expected stamp (some token) o (
                true,
                update (finishable id (some token) unset true (seen expected))
                    (finish_row (target_of o) none stamp) jobs,
              )).2)
          (ap pending_of found ∙ pending)
      ∙ after
    where
      waits : restorable id (some token) (some failed) (finish_row failed none stamp j) ≡ true
      waits =
          unfold finish_row in
          rw (find-some (with_id id) jobs found, pending) (ground (arith, taken))

      after :
          find
            (with_id id)
            (abandon_restore id expected stamp (some token) (some t) (
              true,
              update
                  (finishable id (some token) unset true (seen expected))
                  (finish_row failed none stamp)
                  jobs,
            )).2
          ≡ some (restore_row stamp (finish_row failed none stamp j))
      after =
          unfold abandon_restore restore_pending_restart_after in
          find-hit id (restorable id (some token) (some failed)) (restore_row stamp)
            (unfold restore_row in λ x. refl) _ {j = finish_row failed none stamp j} waits
            (find-hit id (finishable id (some token) unset true (seen expected))
              (finish_row failed none stamp) (unfold finish_row in λ x. refl) jobs taken found)

-- What a claim keeps of a policy whose deadline was asked for.
claimed_policy :
    (s : PolicyState) (deadline : ℕ)
    → required (some (some deadline)) s ≡ true
    → ((updated_state (some none) s).pending_restart_after ≡ some deadline)
      × (◌≡◌ {A = PolicyState}
          (record s {
            restart_after = (updated_state (some none) s).pending_restart_after;
            pending_restart_after = none;
          })
          (record s { pending_restart_after = none }))
unfolding updated_state
claimed_policy s deadline h = elim (Option-cases s.restart_after) [
  | inl e ↦ absurd (cc (rw e at h))
  | inr (t, e) ↦ (ground arith, ground arith)
]

-- A restart that is due is claimed, and its launch is taken for dead before a runner is seen: the job
-- is failed, and its restart policy is as before the claim, with the deadline set and the attempts
-- that it counts, so that the restart is launched again.
pub restart-recovered :
    (id token claimant : String) (deadline stamp later : ℕ) (jobs : List Job) {j : Job}
    → find (with_id id) jobs ≡ some j
    → (claim_due_restart id deadline token stamp jobs).0 ≡ some claimant
    → (k : Job) × (find
          (with_id id)
          (abandon_launch_claim id none later
            (some token)
            (claim_due_restart id deadline token stamp jobs).1).2
        ≡ some k)
      × (k.status ≡ failed)
      × (k.policy ≡ record j.policy { pending_restart_after = none })
unfolding claim_due_restart
restart-recovered id token claimant deadline stamp later jobs {j} found h =
    let c =
      claim_launch-Claimed id (some (some deadline)) (some none) token stamp jobs claimant h in
    let e : c.row ≡ j = some_inj (sym c.found ∙ found) in
    let (pending, policy) = claimed_policy c.row.policy deadline c.asked in
    let left = Claimed-row id (some (some deadline)) (some none) token stamp jobs claimant c in
    (
      restore_row later (
          finish_row failed none later
            (claim_row token stamp (updated_state (some none) c.row.policy) c.row)),
      restored_row id token none later _ deadline left
          (unfold claim_row in
            rw (find-some (with_id id) jobs c.found, (same_as_iff (some token) token).1 refl) refl)
          (unfold claim_row in pending),
      (unfold restore_row finish_row in refl),
      (unfold restore_row finish_row claim_row in
          (unfold updated_state in policy)
          ∙ ap (λ (x : Job). record x.policy { pending_restart_after = none }) e),
    )
