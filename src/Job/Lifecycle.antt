-- ===== src/Job/Lifecycle.antt =====
-- The life cycle that the statements on `jobs` follow, as a machine of its own: what a status can
-- become, and that a statement which follows it moves each job along it.
pub mod Launching
pub mod Ending
pub mod Recovering
pub mod Stopping
pub mod Restarting
pub mod History
use vanth.Prelude.{
  ◌≡◌, refl, sym, ap, subst, ◌∙◌, inl, inr, Bool, true, false, ◌&&◌, String, Option, none, some,
  List, arith, same, Bool-cases, if◌then◌else◌,
}
use vanth.Prelude.Rows.{find, update}
use vanth.Prelude.Keys.{touched}
use vanth.Job.{
  JobStatus, queued, launching, running, completed, failed, timeout, cancelled, orphaned, Job,
  is_runnable, is_active, is_terminal, is_queued, with_id,
}
use vanth.Job.Rows.{Renames, find-statement}

-- One move of a job: it is taken for launch, it is published, its run ends, or it is cancelled in the
-- queue.
pub data Moves : JobStatus → JobStatus → Type 0 where
  takes : {s t : JobStatus} → is_runnable s ≡ true → t ≡ launching → Moves s t
  comes_up : {s t : JobStatus} → s ≡ launching → t ≡ running → Moves s t
  ends : {s t : JobStatus} → is_active s ≡ true → is_terminal t ≡ true → Moves s t
  leaves_queue : {s t : JobStatus} → s ≡ queued → t ≡ cancelled → Moves s t

-- Any number of moves.
pub data Reach (s : JobStatus) : JobStatus → Type 0 where
  here : {t : JobStatus} → s ≡ t → Reach s t
  next : {t u : JobStatus} → Reach s t → Moves t u → Reach s u

-- A status that nothing leaves.
abbrev pub is_final : JobStatus → Bool
is_final completed = true
is_final timeout = true
is_final cancelled = true
is_final _ = false

final_stays :
    (s : JobStatus)
    → is_final s ≡ true
    → (is_runnable s ≡ false) × (is_active s ≡ false) × (is_queued s ≡ false)
final_stays completed h = (refl, refl, refl)
final_stays timeout h = (refl, refl, refl)
final_stays cancelled h = (refl, refl, refl)
final_stays queued h = absurd (cc)
final_stays launching h = absurd (cc)
final_stays running h = absurd (cc)
final_stays failed h = absurd (cc)
final_stays orphaned h = absurd (cc)

Moves-final : {s t : JobStatus} → is_final s ≡ true → Moves s t → ⊥
Moves-final {s} h (takes e t) = let f = final_stays s h in absurd (cc)
Moves-final {s} h (comes_up e t) = absurd (cc (rw e at h))
Moves-final {s} h (ends e t) = let f = final_stays s h in absurd (cc)
Moves-final {s} h (leaves_queue e t) = absurd (cc (rw e at h))

-- A job that completed, timed out or was cancelled moves no more.
pub Reach-final : {s t : JobStatus} → is_final s ≡ true → Reach s t → t ≡ s
Reach-final h (here e) = sym e
Reach-final h (next r m) =
    absurd (Moves-final (subst (λ u. is_final u ≡ true) (sym (Reach-final h r)) h) m)

-- The job is there, and its status is one that `s` reaches.
abbrev pub Follows : String → JobStatus → List Job → Type 0
Follows id s jobs = (k : Job) × (find (with_id id) jobs ≡ some k) × Reach s k.status

module _ (id : String) (s : JobStatus) (p : Job → Bool) (f : Job → Job) (keeps : Renames f) where
  pub statement-Follows :
      ((k : Job) → p k ≡ true → Moves k.status (f k).status)
      → (jobs : List Job) → Follows id s jobs
      → Follows id s (update p f jobs)
  statement-Follows moves jobs (k, found, r) = elim (Bool-cases (p k)) [
    | inl e ↦ (f k, at ∙ rw e, next r (moves k e))
    | inr e ↦ (k, at ∙ rw e, r)
  ]
    where
      at : find (with_id id) (update p f jobs) ≡ touched p f (some k)
      at = find-statement id p f keeps jobs ∙ ap (touched p f) found

  -- A statement that leaves the status alone.
  pub quiet-Follows :
      ((k : Job) → (f k).status ≡ k.status)
      → (jobs : List Job) → Follows id s jobs
      → Follows id s (update p f jobs)
  quiet-Follows same_status jobs (k, found, r) = elim (Bool-cases (p k)) [
    | inl e ↦ (f k, at ∙ rw e, subst (λ t. Reach s t) (sym (same_status k)) r)
    | inr e ↦ (k, at ∙ rw e, r)
  ]
    where
      at : find (with_id id) (update p f jobs) ≡ touched p f (some k)
      at = find-statement id p f keeps jobs ∙ ap (touched p f) found
