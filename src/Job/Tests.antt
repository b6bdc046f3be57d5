-- ===== src/Job/Tests.antt =====
-- Jobs on small tables, and the theorems about them at those tables.
pub mod Policies
use vanth.Prelude.{
  ◌≡◌, ◌≤◌, refl, true, false, String, Option, none, some, List, [], ◌∷◌, max, arith,
}
use vanth.Prelude.Tests.{same, same_as}
use vanth.Prelude.Rows.{find, select, update, count}
use vanth.Prelude.Keys.{Keyed}
use vanth.Prelude.Text.{pos}
use vanth.Job.{JobStatus, queued, launching, completed, failed, Job, PolicyState, active, with_id}
use vanth.Job.Claim.{unset, claim_found, claim_write, prepare_launch, claim_due_restart}
use vanth.Job.Runner.{publish_workload}
use vanth.Job.Recovery.{abandon_launch_claim}
use vanth.Job.Launch.{JobDb, NewJob, no_policy_state}
use vanth.Job.Queue.{Daemon}
use vanth.Job.Dispatch.{dispatch_queued_jobs}
use vanth.Job.Exclusive.{claim_launch-exclusive}
use vanth.Job.Fencing.{
  RunOp, publishes, finishes, restores, abandons, requests, launches, run_ops, run_ops-fenced,
}
use vanth.Job.Handover.{key, published-unrecovered, recovered-unpublished}
use vanth.Job.Restored.{restart-recovered}
use vanth.Job.Quota.History.{QuotaOp, starts, dispatches, quota_ops, quota_ops-bounded}
use vanth.Job.Lifecycle.{Reach}
use vanth.Job.Lifecycle.History as History
use vanth.Job.Lifecycle.History.{JobOp, job_ops, job_ops-refines}
use vanth.Prelude.{◌+◌}
use vanth.Time.{seconds}
use vanth.Job.Claim.{finish_row}
use vanth.Job.Launch.{of_pool}
use vanth.Job.Restart.{RestartPolicy, Tick, restart_delay}
use vanth.Job.Budget.{polls, polls_keep_budget}
use vanth.Job.Stop.{stop, stop_live, newer_launch, launch_stopped, request_row}
use vanth.Job.Halted.{quiet_others, stop-cancels, stop_live-newer}
use vanth.Job.Queue.{verdict, launches, gate_in, probe_in}
use vanth.Job.Gates.{GateOpen, ProbeReady, WithinCap, verdict-launches, launch_queued-within}

abbrev pub restarting : PolicyState
restarting = record {
  restart_attempts = 1;
  restart_after = some 5000000;
  pending_restart_after = none;
  gave_up = false;
  last_restart_delay_seconds = 5;
}

abbrev pub plain : String → JobStatus → Option String → Job
plain id status token = record {
  job_id = id;
  status = status;
  claim_token = token;
  worker_pid = none;
  pid = none;
  exit_code = none;
  policy = no_policy_state;
  policy_disabled = false;
  paused = false;
  pool = none;
  priority = pos 0;
  trigger = none;
  created_at = 1000000;
  updated_at = 1000000;
  started_at = none;
  ended_at = none;
  runner_heartbeat_at = none;
  stop_requested_at = none;
  stop_actor = none;
  stop_reason = none;
}

abbrev pub build : Job
build = record (plain "job_a" failed (some "claim_1")) { policy = restarting }

abbrev pub deploy : Job
deploy = plain "job_b" launching (some "claim_2")

abbrev pub report : Job
report = record (plain "job_c" queued none) { pool = some "cpu" }

abbrev pub table : List Job
table = build ∷ deploy ∷ report ∷ []

abbrev pub db : JobDb
db = record {
  jobs = table;
  pools =
      record { pool = "cpu"; max_parallel = 2; paused = false; created_at = 0; updated_at = 0 }
      ∷ [];
}

abbrev pub daemon : Daemon
daemon = record {
  max_running_jobs = 2;
  probe_budget = 4;
  utc = λ id. 9000000;
  monotonic = λ id. 9000000;
  evaluate = λ id probe. true;
  message = λ reason. "cancelled";
  token = λ id. "claim_9";
  stamp = λ id. 9000000;
  spawned = λ id. some 77;
}

abbrev after_claim : List Job
after_claim = (prepare_launch "job_a" "claim_3" 6000000 table).1

pub keyed : Keyed key table
unfolding count same
keyed = (refl, (refl, (refl, tt)))

-- Both claims read the job before either wrote.
claimed : (claim_found "job_a" none none "claim_3" 6000000 (some build) table).0 ≡ some "claim_3"
unfolding claim_found claim_write count same
claimed = refl

claim_launch-exclusive_example :
    (j : Job) × (find
        (with_id "job_a")
        (claim_found "job_a" none none "claim_3" 6000000 (some build) table).1
      ≡ some j)
    × (j.status ≡ launching)
    × (j.claim_token ≡ some "claim_3")
    × (claim_found "job_a" none none "claim_4" 6000001
          (some build)
          (claim_found "job_a" none none "claim_3" 6000000 (some build) table).1
        ≡ (none, (claim_found "job_a" none none "claim_3" 6000000 (some build) table).1))
claim_launch-exclusive_example =
    claim_launch-exclusive "job_a" "claim_3" "claim_3" "claim_4" none none none none 6000000 6000001
      (some build) (some build) table keyed claimed

pub another_token : same_as deploy.claim_token "claim_1" ≡ false
unfolding same_as same
another_token = refl

pub deploy_found : find (with_id "job_b") table ≡ some deploy
unfolding find same
deploy_found = refl

abbrev old_run : List RunOp
old_run =
    publishes "job_b" 12 11 (7000000, 7000000, 7000000)
    ∷ finishes "job_b" failed none false unset 8000000
    ∷ restores "job_b" (some failed) 8000001
    ∷ abandons "job_b" none 8000002
    ∷ requests "job_b" deploy 8000003 "user" "enough"
    ∷ launches "job_b" 8000004 none
    ∷ []

run_ops-fenced_example : find (with_id "job_b") (run_ops "claim_1" old_run table) ≡ some deploy
run_ops-fenced_example = run_ops-fenced "claim_1" "job_b" old_run table another_token deploy_found

publishes_first :
    (publish_workload "job_b" (some "claim_2") 12 11 (7000000, 7000000, 7000000) table).0 ≡ true
unfolding publish_workload count same same_as
publishes_first = refl

published-unrecovered_example :
    ((abandon_launch_claim "job_b" none 8000000
        (some "claim_2")
        (publish_workload "job_b" (some "claim_2") 12 11 (7000000, 7000000, 7000000) table).1).0
      ≡ false)
    × ((abandon_launch_claim "job_b" none 8000000
          (some "claim_2")
          (publish_workload "job_b" (some "claim_2") 12 11 (7000000, 7000000, 7000000) table).1).2
        ≡ (publish_workload "job_b" (some "claim_2") 12 11 (7000000, 7000000, 7000000) table).1)
published-unrecovered_example =
    published-unrecovered "job_b" "claim_2" none 8000000 12 11 (7000000, 7000000, 7000000) table
      keyed publishes_first

recovers_first : (abandon_launch_claim "job_b" none 8000000 (some "claim_2") table).0 ≡ true
unfolding abandon_launch_claim find count update same same_as
recovers_first = refl

recovered-unpublished_example :
    publish_workload "job_b"
      (some "claim_2")
      12
      11
      (7000000, 7000000, 7000000)
      (abandon_launch_claim "job_b" none 8000000 (some "claim_2") table).2
    ≡ (false, (abandon_launch_claim "job_b" none 8000000 (some "claim_2") table).2)
recovered-unpublished_example =
    recovered-unpublished "job_b" "claim_2" none 8000000 12 11 (7000000, 7000000, 7000000) table
      keyed recovers_first

build_found : find (with_id "job_a") table ≡ some build
unfolding find same
build_found = refl

restart_claimed : (claim_due_restart "job_a" 5000000 "claim_3" 6000000 table).0 ≡ some "claim_3"
unfolding claim_due_restart find update count same
restart_claimed = refl

restart-recovered_example :
    (k : Job) × (find
        (with_id "job_a")
        (abandon_launch_claim "job_a" none 9000000
          (some "claim_3")
          (claim_due_restart "job_a" 5000000 "claim_3" 6000000 table).1).2
      ≡ some k)
    × (k.status ≡ failed)
    × (k.policy ≡ record restarting { pending_restart_after = none })
restart-recovered_example =
    restart-recovered "job_a" "claim_3" "claim_3" 5000000 6000000 9000000 table build_found
      restart_claimed

abbrev lint : NewJob
lint = record {
  job_id = "job_d";
  pool = none;
  priority = pos 0;
  trigger = none;
  token = "claim_8";
  created_at = 8000000;
}

abbrev busy_hour : List QuotaOp
busy_hour = dispatches daemon [] ∷ starts lint ∷ dispatches daemon [] ∷ []

quota_ops-bounded_example :
    count active (quota_ops 2 busy_hour db).jobs ≤ max 2 (count active db.jobs)
quota_ops-bounded_example = quota_ops-bounded 2 busy_hour db (omega arith) keyed

dispatched : count active (dispatch_queued_jobs daemon db []).db.jobs ≡ 2
unfolding dispatch_queued_jobs find update count select same same_as
dispatched = refl

abbrev day : List JobOp
day =
    History.prepares "job_a" "claim_3" 6000000
    ∷ History.publishes "job_a" (some "claim_3") 12 11 (7000000, 7000000, 7000000)
    ∷ History.finishes "job_a" completed (some (pos 0)) (some "claim_3") unset false unset 8000000
    ∷ History.dispatches daemon []
    ∷ []

job_ops-refines_example :
    (k : Job) × (find (with_id "job_a") (job_ops day db).jobs ≡ some k)
    × Reach build.status k.status
job_ops-refines_example = job_ops-refines day db "job_a" build_found
