-- ===== src/Job/Launch.antt =====
-- The launch of a claimed job in src/vanth/server.py: `_launch`, the insert of `start`, and
-- `_launch_queued_if_capacity`. Whether a runner process could be spawned, and its number, is a
-- parameter; the runner itself is in Job/Runner.
use vanth.Prelude.{
  ℕ, Bool, true, false, not, String, Option, none, some, List, [], ◌∷◌, ◌++◌, ◌==◌, ◌&&◌, ◌||◌,
  same, same_as, ltb, leb, if◌then◌else◌,
}
use vanth.Prelude.Rows.{find, update, count}
use vanth.Prelude.Text.{ℤ, pos}
use vanth.Job.{
  queued, launching, failed, Job, PolicyState, Trigger, is_active, is_queued, is_launching,
  is_terminal, active, with_id, owned,
}
use vanth.Job.Claim.{changed, finish_row, restore_pending_restart_after}

pub record Pool : Type 0 where
  pub pool : String
  pub max_parallel : ℕ
  pub paused : Bool
  pub created_at : ℕ
  pub updated_at : ℕ

pub record JobDb : Type 0 where
  pub jobs : List Job
  pub pools : List Pool

-- pool=?
abbrev pub of_pool : String → Pool → Bool
of_pool name p = same p.pool name

-- job_id=? AND claim_token=? AND status='launching'
abbrev pub being_launched : String → String → Job → Bool
being_launched id token j = owned id token j && is_launching j.status

unfoldable pub worker_row : ℕ → ℕ → Job → Job
worker_row pid stamp j = record j { worker_pid = some pid; updated_at = stamp }

-- What `_launch` answers, and whether it terminates the runner that it spawned.
pub data Launched : Type 0 where
  start_failed : Launched
  started : Launched
  lost : Launched

-- current["claim_token"] == claim_token and current["status"] in {"running","launching"} | TERMINAL
abbrev pub ours : String → Option Job → Bool
ours token none = false
ours token (some j) = same_as j.claim_token token && (is_active j.status || is_terminal j.status)

module _ (id token : String) (stamp : ℕ) where
  unfoldable pub launch_answer : ℕ → Option Job → Launched
  launch_answer wrote current =
      if wrote == 1 then started else if ours token current then started else lost

  unfoldable pub launch : Option ℕ → List Job → Launched × List Job
  unfolding launch_answer restore_pending_restart_after finish_row worker_row
  launch none jobs = (
    start_failed,
    (restore_pending_restart_after id (some token) none stamp
        (update (being_launched id token) (finish_row failed (some (pos 1)) stamp) jobs)).1,
  )
  launch (some pid) jobs = (
    launch_answer (count (being_launched id token) jobs)
        (find (with_id id) (update (being_launched id token) (worker_row pid stamp) jobs)),
    update (being_launched id token) (worker_row pid stamp) jobs,
  )

-- The columns that `start` gives to a row.
pub record NewJob : Type 0 where
  pub job_id : String
  pub pool : Option String
  pub priority : ℤ
  pub trigger : Option Trigger
  pub token : String
  pub created_at : ℕ

abbrev pub gated : Option Trigger → Option String → Bool
gated none none = false
gated _ _ = true

abbrev pub no_policy_state : PolicyState
no_policy_state = record {
  restart_attempts = 0;
  restart_after = none;
  pending_restart_after = none;
  gave_up = false;
  last_restart_delay_seconds = 0;
}

unfoldable pub new_row : NewJob → Job
new_row n = record {
  job_id = n.job_id;
  status = if gated n.trigger n.pool then queued else launching;
  claim_token = if gated n.trigger n.pool then none else some n.token;
  worker_pid = none;
  pid = none;
  exit_code = none;
  policy = no_policy_state;
  policy_disabled = false;
  paused = false;
  pool = n.pool;
  priority = n.priority;
  trigger = n.trigger;
  created_at = n.created_at;
  updated_at = n.created_at;
  started_at = if gated n.trigger n.pool then none else some n.created_at;
  ended_at = none;
  runner_heartbeat_at = if gated n.trigger n.pool then none else some n.created_at;
  stop_requested_at = none;
  stop_actor = none;
  stop_reason = none;
}

-- The quota of `VANTH_MAX_RUNNING_JOBS`: 0 is none.
abbrev pub has_room : ℕ → List Job → Bool
has_room limit jobs = limit == 0 || ltb (count active jobs) limit

-- The insert of `start`, with the quota's test in its transaction; false is the ValueError for it, or
-- the error for a primary key that is there.
unfoldable pub insert_job : ℕ → NewJob → List Job → Bool × List Job
unfolding new_row
insert_job limit n jobs =
    if (not (limit == 0) && not (gated n.trigger n.pool)) && leb limit (count active jobs)
    then (false, jobs)
    else if not (count (with_id n.job_id) jobs == 0)
    then (false, jobs)
    else (true, jobs ++ new_row n ∷ [])

-- COALESCE((SELECT paused FROM pools WHERE pool=?), 0)
abbrev pub pool_paused : Option Pool → Bool
pool_paused none = false
pool_paused (some p) = p.paused

-- COALESCE((SELECT max_parallel FROM pools WHERE pool=?), 0)
abbrev pub pool_max : Option Pool → ℕ
pool_max none = 0
pool_max (some p) = p.max_parallel

-- pool=? AND status IN ('running','launching')
abbrev pub active_in : String → Job → Bool
active_in name j = same_as j.pool name && is_active j.status

unfoldable pub pool_has_room : Option String → JobDb → Bool
pool_has_room none db = true
pool_has_room (some name) db =
    not (pool_paused (find (of_pool name) db.pools))
    && (pool_max (find (of_pool name) db.pools) == 0
        || ltb (count (active_in name) db.jobs) (pool_max (find (of_pool name) db.pools)))

-- The WHERE of the two claims of `_launch_queued_if_capacity`; its subqueries are evaluated once.
unfoldable pub launchable : ℕ → String → Option String → JobDb → Job → Bool
unfolding pool_has_room
launchable limit id pool db j =
    (same j.job_id id && (is_queued j.status && (not j.paused && not j.policy_disabled)))
    && (has_room limit db.jobs && pool_has_room pool db)

unfoldable pub launch_row : String → ℕ → Job → Job
launch_row token stamp j = record j {
  status = launching;
  claim_token = some token;
  updated_at = stamp;
}

-- The claim of `_launch_queued_if_capacity`.
unfoldable pub claim_queued : ℕ → String → Option String → String → ℕ → JobDb → Bool × JobDb
unfolding launchable launch_row
claim_queued limit id pool token stamp db = (
  changed (count (launchable limit id pool db) db.jobs),
  record db { jobs = update (launchable limit id pool db) (launch_row token stamp) db.jobs },
)

unfoldable pub launched_after : String → String → ℕ → Option ℕ → Bool × JobDb → Bool × JobDb
unfolding launch
launched_after id token stamp spawned (false, db) = (false, db)
launched_after id token stamp spawned (true, db) =
    (true, record db { jobs = (launch id token stamp spawned db.jobs).1 })

unfoldable pub launch_queued_if_capacity :
    ℕ → String → Option String → String → ℕ → Option ℕ → JobDb → Bool × JobDb
unfolding claim_queued launched_after
launch_queued_if_capacity limit id pool token stamp spawned db =
    launched_after id token stamp spawned (claim_queued limit id pool token stamp db)
