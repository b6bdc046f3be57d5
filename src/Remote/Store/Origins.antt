-- ===== src/Remote/Store/Origins.antt =====
-- `remote_job_origins` of src/vanth/remote/store.py, read from both of its sides.
use vanth.Prelude.{
  ℕ, ◌≡◌, ◌↔◌, refl, sym, subst, ap, ◌∙◌, inl, inr, true, String, none, some, List, [], ◌∷◌, arith,
  same, same_iff, same_self, Option-cases, some_inj,
}
use vanth.Prelude.Rows.{find, delete, find-some}
use vanth.Prelude.Keys.{
  Keyed, Keyed-append, Keyed-delete, Keyed-found, count-delete_all, find-append_none,
  find-delete_all,
}
use vanth.Remote.Store.Operations.{
  Origin, origin_op, origin_job, conflicting, record_queued_job, op_of, job_of,
  get_remote_job_origin_op, get_remote_operation_by_job,
}

-- What a call of `record_queued_job` is given.
pub record Queued : Type 0 where
  pub stamp : ℕ
  pub op : String
  pub job : String
  pub origin : String

-- The table after these calls, the last first, from the empty one.
unfoldable pub queue_all : List Queued → List Origin
queue_all [] = []
queue_all (q ∷ qs) = record_queued_job q.stamp q.op q.job q.origin (queue_all qs)

record-Keyed :
    (key : Origin → String) (stamp : ℕ) (op job origin : String) (rows : List Origin)
    → ((r : Origin)
        → same (key r) (
            key (record {
              op_id = op;
              remote_job_id = job;
              origin = origin;
              launch_intent = "queued";
              created_at = stamp;
            }))
          ≡ true
        → conflicting op job r ≡ true)
    → Keyed key rows
    → Keyed key (record_queued_job stamp op job origin rows)
unfolding record_queued_job
record-Keyed key stamp op job origin rows clash k =
    Keyed-append key _ _ (count-delete_all _ (conflicting op job) clash rows)
      (Keyed-delete key (conflicting op job) rows k)

queue_all-Keyed_op : (qs : List Queued) → Keyed origin_op (queue_all qs)
unfolding queue_all
queue_all-Keyed_op [] = tt
queue_all-Keyed_op (q ∷ qs) =
    record-Keyed origin_op q.stamp q.op q.job q.origin (queue_all qs)
      (λ r h. unfold conflicting in rw h refl) (queue_all-Keyed_op qs)

queue_all-Keyed_job : (qs : List Queued) → Keyed origin_job (queue_all qs)
unfolding queue_all
queue_all-Keyed_job [] = tt
queue_all-Keyed_job (q ∷ qs) =
    record-Keyed origin_job q.stamp q.op q.job q.origin (queue_all qs)
      (λ r h. unfold conflicting in ground (arith, h)) (queue_all-Keyed_job qs)

job-op :
    (op job : String) (rows : List Origin)
    → Keyed origin_op rows
    → get_remote_operation_by_job job rows ≡ some op
    → get_remote_job_origin_op op rows ≡ some job
unfolding get_remote_operation_by_job get_remote_job_origin_op
job-op op job rows k h = elim (Option-cases (find (λ r. same r.remote_job_id job) rows)) [
  | inl e ↦ absurd (ground (arith, h, e))
  | inr (r, e) ↦
      let is_op : r.op_id ≡ op = some_inj (ap op_of (sym e) ∙ h) in
      let is_job : r.remote_job_id ≡ job = (same_iff r.remote_job_id job).0 (find-some _ rows e) in
      let found : find (λ x. same x.op_id r.op_id) rows ≡ some r =
        Keyed-found origin_op _ rows k e in
      subst (λ i. job_of (find (λ x. same x.op_id i) rows) ≡ some job) is_op
        (ap job_of found ∙ ap some is_job)
]

op-job :
    (op job : String) (rows : List Origin)
    → Keyed origin_job rows
    → get_remote_job_origin_op op rows ≡ some job
    → get_remote_operation_by_job job rows ≡ some op
unfolding get_remote_operation_by_job get_remote_job_origin_op
op-job op job rows k h = elim (Option-cases (find (λ r. same r.op_id op) rows)) [
  | inl e ↦ absurd (ground (arith, h, e))
  | inr (r, e) ↦
      let is_job : r.remote_job_id ≡ job = some_inj (ap job_of (sym e) ∙ h) in
      let is_op : r.op_id ≡ op = (same_iff r.op_id op).0 (find-some _ rows e) in
      let found : find (λ x. same x.remote_job_id r.remote_job_id) rows ≡ some r =
        Keyed-found origin_job _ rows k e in
      subst (λ i. op_of (find (λ x. same x.remote_job_id i) rows) ≡ some op) is_job
        (ap op_of found ∙ ap some is_op)
]

record-found :
    (stamp : ℕ) (op job origin : String) (rows : List Origin)
    → get_remote_job_origin_op op (record_queued_job stamp op job origin rows) ≡ some job
unfolding get_remote_job_origin_op record_queued_job find
record-found stamp op job origin rows =
    let gone : find (λ r. same r.op_id op) (delete (conflicting op job) rows) ≡ none =
      find-delete_all _ _ (λ r h. unfold conflicting in rw h refl) rows in
    ap job_of (find-append_none (λ r. same r.op_id op) (delete (conflicting op job) rows) _ gone)
    ∙ ground (arith, same_self op)

-- Whatever jobs were recorded, the last first, with operations and jobs repeated in any order: the
-- operation of a job is the one whose job it is, and the last operation's job is the last job.
pub origins-inverse :
    (q : Queued) (qs : List Queued) (op job : String)
    → ((get_remote_operation_by_job job (queue_all (q ∷ qs)) ≡ some op)
        ↔ (get_remote_job_origin_op op (queue_all (q ∷ qs)) ≡ some job))
      × (get_remote_job_origin_op q.op (queue_all (q ∷ qs)) ≡ some q.job)
unfolding queue_all
origins-inverse q qs op job = (
  (
    job-op op job (queue_all (q ∷ qs)) (queue_all-Keyed_op (q ∷ qs)),
    op-job op job (queue_all (q ∷ qs)) (queue_all-Keyed_job (q ∷ qs)),
  ),
  record-found q.stamp q.op q.job q.origin (queue_all qs),
)
