-- ===== src/Job/Queue.antt =====
-- What one pass of `_dispatch_queued_jobs` of src/vanth/server.py decides on a queued row, with
-- `_probe_timed_out` and `_probe_ready`. What a probe
-- answers, the clocks and the spawned runners are parameters, by job.
use vanth.Prelude.{
  ℕ, ◌+◌, ◌-◌, Bool, true, false, not, String, Option, none, some, List, [], ◌∷◌, ◌==◌, ◌&&◌, ◌||◌,
  same, ltb, leb, if◌then◌else◌,
}
use vanth.Prelude.Rows.{find, delete}
use vanth.Prelude.Text.{ℤ, pos, negsuc}
use vanth.Time.{text_le, seconds}
use vanth.Job.{Job, Probe, Gate, Trigger, is_terminal, with_id}
use vanth.Job.Claim.{rank}

unfoldable pub int_lt : ℤ → ℤ → Bool
int_lt (pos a) (pos b) = ltb a b
int_lt (pos a) (negsuc b) = false
int_lt (negsuc a) (pos b) = true
int_lt (negsuc a) (negsuc b) = ltb b a

-- ORDER BY priority DESC, created_at ASC, ties in the table's order
unfoldable pub goes_before : Job → Job → Bool
unfolding int_lt
goes_before a b =
    int_lt b.priority a.priority
    || (not (int_lt a.priority b.priority) && text_le a.created_at b.created_at)

unfoldable pub insert_by_priority : Job → List Job → List Job
unfolding goes_before
insert_by_priority j [] = j ∷ []
insert_by_priority j (x ∷ xs) = if goes_before j x then j ∷ x ∷ xs else x ∷ insert_by_priority j xs

unfoldable pub by_priority : List Job → List Job
unfolding insert_by_priority
by_priority [] = []
by_priority (j ∷ js) = insert_by_priority j (by_priority js)

-- `_probe_last_attempt` and the probes that are left to one pass.
pub record Probing : Type 0 where
  pub last_attempt : List (String × ℕ)
  pub budget : ℕ

-- Why the dispatcher cancels a queued job.
pub data Reason : Type 0 where
  not_ready : Probe → Reason
  incompatible : Gate → Reason
  no_parent : String → Reason

pub record Daemon : Type 0 where
  pub max_running_jobs : ℕ
  pub probe_budget : ℕ
  pub utc : String → ℕ
  pub monotonic : String → ℕ
  pub evaluate : String → Probe → Bool
  pub message : Reason → String
  pub token : String → String
  pub stamp : String → ℕ
  pub spawned : String → Option ℕ

unfoldable pub attempt_of : String → List (String × ℕ) → Option ℕ
attempt_of id [] = none
attempt_of id ((k, t) ∷ m) = if same k id then some t else attempt_of id m

-- dict.pop(id, None)
unfoldable pub without : String → List (String × ℕ) → List (String × ℕ)
without id m = delete (λ e. same e.0 id) m

-- dict[id] = t
unfoldable pub set_attempt : String → ℕ → List (String × ℕ) → List (String × ℕ)
unfolding without
set_attempt id t m = (id, t) ∷ without id m

unfoldable pub probe_timed_out : ℕ → Probe → ℕ → Bool
probe_timed_out now probe start = elim probe.timeout_seconds [
  | none ↦ false
  | some limit ↦ not (limit == 0) && leb (start + seconds limit) now
]

-- float(probe.get("interval_seconds", 1))
abbrev pub interval_of : Option ℕ → ℕ
interval_of none = 1
interval_of (some n) = n

-- now - last < interval
abbrev pub throttled : ℕ → ℕ → Option ℕ → Bool
throttled now interval none = false
throttled now interval (some last) = ltb now (last + seconds interval)

-- What one pass does with a queued row.
pub data Verdict : Type 0 where
  waits : Verdict
  launches : Verdict
  cancels : Reason → Verdict

-- The parent's gate: it can never open, it is closed, or it is open, with the start of the probe's
-- deadline.
pub data Gated : Type 0 where
  never : Reason → Gated
  closed : Gated
  opened : ℕ → Gated

abbrev pub ended_or : Option ℕ → ℕ → ℕ
ended_or none created = created
ended_or (some t) created = t

unfoldable pub gate_on : ℕ → Gate → Option Job → Gated
gate_on created g none = never (no_parent g.parent)
gate_on created g (some parent) =
    if is_terminal parent.status && not (rank parent.status == rank g.status)
    then never (incompatible g)
    else if not (rank parent.status == rank g.status)
    then closed
    else opened (ended_or parent.ended_at created)

unfoldable pub gate_of : List Job → ℕ → Option Gate → Gated
unfolding gate_on
gate_of jobs created none = opened created
gate_of jobs created (some g) = gate_on created g (find (with_id g.parent) jobs)

abbrev pub gate_in : Option Trigger → Option Gate
gate_in none = none
gate_in (some t) = t.gate

abbrev pub probe_in : Option Trigger → Option Probe
probe_in none = none
probe_in (some t) = t.probe

module _ (d : Daemon) where
  unfoldable pub probe_ready : String → Probe → Probing → Bool × Probing
  unfolding attempt_of set_attempt
  probe_ready id probe p =
      if throttled (d.monotonic id) (interval_of probe.interval_seconds)
        (attempt_of id p.last_attempt)
      then (false, p)
      else if p.budget == 0
      then (false, p)
      else (
        d.evaluate id probe,
        record {
          last_attempt = set_attempt id (d.monotonic id) p.last_attempt;
          budget = p.budget - 1;
        },
      )

  unfoldable pub probe_verdict : Bool × Probing → Verdict × Probing
  probe_verdict (true, p) = (launches, p)
  probe_verdict (false, p) = (waits, p)

  unfoldable pub verdict_at : Bool → Job → Option Probe → ℕ → Probing → Verdict × Probing
  unfolding probe_ready probe_verdict probe_timed_out
  verdict_at room j none start p = if j.paused then (waits, p) else (launches, p)
  verdict_at room j (some probe) start p =
      if probe_timed_out (d.utc j.job_id) probe start
      then (cancels (not_ready probe), p)
      else if j.paused
      then (waits, p)
      else if not room
      then (waits, p)
      else probe_verdict (probe_ready j.job_id probe p)

  unfoldable pub verdict_on : Bool → Job → Gated → Probing → Verdict × Probing
  unfolding verdict_at
  verdict_on room j (never reason) p = (cancels reason, p)
  verdict_on room j closed p = (waits, p)
  verdict_on room j (opened start) p = verdict_at room j (probe_in j.trigger) start p

  unfoldable pub verdict : List Job → Bool → Job → Probing → Verdict × Probing
  unfolding verdict_on gate_of
  verdict jobs room j p = verdict_on room j (gate_of jobs j.created_at (gate_in j.trigger)) p
