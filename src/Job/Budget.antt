-- ===== src/Job/Budget.antt =====
-- The restart policy's budget.
use vanth.Prelude.{
  ℕ, ◌+◌, ◌<◌, ◌≡◌, refl, ap, ◌∙◌, true, false, String, none, some, List, [], ◌∷◌, arith, ◌==◌, ltb,
  leb,
}
use vanth.Prelude.Rows.{find, find-some}
use vanth.Time.{seconds}
use vanth.Job.{failed, Job, PolicyState, with_id}
use vanth.Job.Rows.{find-hit}
use vanth.Job.Restart.{
  RestartPolicy, RestartEvent, Tick, state_found, policy_state, save_row, save_policy_state,
  restart_delay, budgeted, claim_budget, watch_failed, watch_restart,
}

-- What the policy does with a fresh failure that has budget left and a delay: the attempt is counted,
-- and the deadline is the delay from now.
fresh_failure :
    (r : RestartPolicy) (t : Tick) (id : String) (jobs : List Job) {j : Job}
    → find (with_id id) jobs ≡ some j
    → j.policy.restart_after ≡ none
    → j.policy.restart_attempts < r.max_retries
    → 0 < restart_delay r j.policy.restart_attempts
    → watch_restart r t id failed jobs
      ≡ ([], save_policy_state id (budgeted r t.set_at j.policy) t.stamp jobs)
unfolding watch_restart watch_failed claim_budget policy_state
fresh_failure r t id jobs {j} found idle budget delay = rw (found, state_found, idle, ge, ne)
  where
    ge : leb r.max_retries j.policy.restart_attempts ≡ false
    ge = ground arith

    ne : (restart_delay r j.policy.restart_attempts == 0) ≡ false
    ne = ground arith

saved :
    (id : String) (state : PolicyState) (stamp : ℕ) (jobs : List Job) {j : Job}
    → find (with_id id) jobs ≡ some j
    → find (with_id id) (save_policy_state id state stamp jobs) ≡ some (save_row state stamp j)
unfolding save_policy_state
saved id state stamp jobs {j} h =
    find-hit id (with_id id) (save_row state stamp) (unfold save_row in λ k. refl) jobs
      (find-some (with_id id) jobs h) h

-- Polling before the deadline changes nothing.
waiting :
    (r : RestartPolicy) (t : Tick) (id : String) (jobs : List Job) {j : Job} (deadline : ℕ)
    → find (with_id id) jobs ≡ some j
    → j.policy.restart_after ≡ some deadline
    → t.now < deadline
    → watch_restart r t id failed jobs ≡ ([], jobs)
unfolding watch_restart watch_failed policy_state
waiting r t id jobs {j} deadline found set early = rw (found, state_found, set, lt)
  where
    lt : ltb t.now deadline ≡ true
    lt = ground arith

abbrev pub polls : RestartPolicy → List Tick → String → List Job → List Job
polls r [] id jobs = jobs
polls r (t ∷ ts) id jobs = polls r ts id (watch_restart r t id failed jobs).1

abbrev pub AllBefore : ℕ → List Tick → Type 0
AllBefore deadline [] = Unit {0}
AllBefore deadline (t ∷ ts) = (t.now < deadline) × AllBefore deadline ts

polls_waiting :
    (r : RestartPolicy) (ts : List Tick) (id : String) (jobs : List Job) {j : Job} (deadline : ℕ)
    → find (with_id id) jobs ≡ some j
    → j.policy.restart_after ≡ some deadline
    → AllBefore deadline ts
    → polls r ts id jobs ≡ jobs
polls_waiting r [] id jobs deadline found set early = refl
polls_waiting r (t ∷ ts) id jobs deadline found set early =
    ap (λ (e : List RestartEvent × List Job). polls r ts id e.1)
      (waiting r t id jobs deadline found set early.0)
    ∙ polls_waiting r ts id jobs deadline found set early.1

-- A job that failed afresh, with budget left and a delay, has one attempt counted and a deadline that
-- is the delay away; however often the policy is polled before that deadline, no more of the budget is
-- used and the deadline stays.
pub polls_keep_budget :
    (r : RestartPolicy) (t : Tick) (ts : List Tick) (id : String) (jobs : List Job) {j : Job}
    → find (with_id id) jobs ≡ some j
    → j.policy.restart_after ≡ none
    → j.policy.restart_attempts < r.max_retries
    → 0 < restart_delay r j.policy.restart_attempts
    → AllBefore (t.set_at + seconds (restart_delay r j.policy.restart_attempts)) ts
    → (k : Job) × (find (with_id id) (polls r (t ∷ ts) id jobs) ≡ some k)
      × (k.policy.restart_attempts ≡ j.policy.restart_attempts + 1)
      × (k.policy.restart_after
          ≡ some (t.set_at + seconds (restart_delay r j.policy.restart_attempts)))
unfolding budgeted
polls_keep_budget r t ts id jobs {j} found idle budget delay early =
    let state = budgeted r t.set_at j.policy in
    let at = saved id state t.stamp jobs found in
    let left : (save_row state t.stamp j).policy ≡ state = (unfold save_row in refl) in
    let deadline = t.set_at + seconds (restart_delay r j.policy.restart_attempts) in
    (
      save_row state t.stamp j,
      ap (λ (e : List RestartEvent × List Job). find (with_id id) (polls r ts id e.1))
            (fresh_failure r t id jobs found idle budget delay)
          ∙ ap (find (with_id id)) (
              polls_waiting r ts id (save_policy_state id state t.stamp jobs) deadline at
                (ap (λ (p : PolicyState). p.restart_after) left) early)
          ∙ at,
      ap (λ (p : PolicyState). p.restart_attempts) left,
      ap (λ (p : PolicyState). p.restart_after) left,
    )
