-- ===== src/Job/Tests/Policies.antt =====
-- The restart policy, stops, gates and pools on small tables, and the theorems about them there.
use vanth.Prelude.{◌≡◌, refl, true, false, none, some, List, [], ◌∷◌, arith}
use vanth.Prelude.Tests.{same, same_as}
use vanth.Prelude.Rows.{find, count}
use vanth.Job.{queued, completed, failed, Job, with_id}
use vanth.Prelude.{◌+◌}
use vanth.Time.{seconds}
use vanth.Job.Launch.{of_pool}
use vanth.Job.Restart.{RestartPolicy, Tick, restart_delay}
use vanth.Job.Budget.{polls, polls_keep_budget}
use vanth.Job.Stop.{stop, stop_live, newer_launch, launch_stopped}
use vanth.Job.Halted.{quiet_others, stop-cancels, stop_live-newer}
use vanth.Job.Queue.{verdict, launches, gate_in, probe_in}
use vanth.Job.Gates.{GateOpen, ProbeReady, WithinCap, verdict-launches, launch_queued-within}
use vanth.Prelude.{ℕ}
use vanth.Job.{cancelled, running}
use vanth.Job.Queue.{Probing}
use vanth.Job.Launch.{Pool, launch_queued_if_capacity}
use vanth.Job.Tests.{plain, deploy, table, db, daemon, keyed, deploy_found, another_token}

abbrev patient : RestartPolicy
patient = record { max_retries = 3; backoff_seconds = 5; backoff_max_seconds = 60 }

abbrev tick : ℕ → Tick
tick now = record { now = now; set_at = now; token = "claim_5"; stamp = now; spawned = some 88 }

abbrev crashed : Job
crashed = plain "job_e" failed (some "claim_6")

crashed_found : find (with_id "job_e") (crashed ∷ table) ≡ some crashed
unfolding find same
crashed_found = refl

delayed : restart_delay patient 0 ≡ 5
unfolding restart_delay
delayed = refl

polls_keep_budget_example :
    (k : Job) × (find (with_id "job_e") (
        polls patient
          (tick 10000000 ∷ tick 11000000 ∷ tick 14999999 ∷ [])
          "job_e"
          (crashed ∷ table))
      ≡ some k)
    × (k.policy.restart_attempts ≡ 0 + 1)
    × (k.policy.restart_after ≡ some (10000000 + seconds (restart_delay patient 0)))
polls_keep_budget_example =
    polls_keep_budget patient (tick 10000000) (tick 11000000 ∷ tick 14999999 ∷ []) "job_e"
      (crashed ∷ table) crashed_found refl (omega arith) (rw delayed (omega arith))
      (rw delayed (omega arith, (omega arith, tt)))

stop-cancels_example :
    ((stop quiet_others (λ pid. true) none "job_b" "user" "enough" 7000000 7000001 10 table).0
      ≡ launch_stopped)
    × (find
          (with_id "job_b")
          (stop quiet_others (λ pid. true) none "job_b" "user" "enough" 7000000 7000001 10 table).1
        ≡ some (record deploy {
          status = cancelled;
          exit_code = none;
          ended_at = some 7000001;
          updated_at = 7000001;
          stop_requested_at = none;
          stop_actor = some "user";
          stop_reason = some "enough";
        }))
stop-cancels_example =
    stop-cancels (λ pid. true) none "job_b" "user" "enough" "claim_2" 7000000 7000001 10 table
      (λ pid. refl) (omega arith) deploy_found refl refl

abbrev deploy_before : Job
deploy_before = plain "job_b" running (some "claim_1")

stop_live-newer_example :
    stop_live quiet_others
      (λ pid. true)
      none
      "job_b"
      "user"
      "enough"
      7000000
      7000001
      deploy_before
      table
    ≡ (newer_launch, table)
stop_live-newer_example =
    stop_live-newer quiet_others (λ pid. true) none "job_b" "user" "enough" 7000000 7000001
      deploy_before deploy "claim_1" table keyed deploy_found refl another_token

abbrev when_deployed : Job
when_deployed = record (plain "job_f" queued none) {
  trigger = some record {
    gate = some record { parent = "job_g"; status = completed };
    probe = some record { kind = "http"; timeout_seconds = some 60; interval_seconds = none };
  };
}

abbrev deployed : List Job
deployed = plain "job_g" completed none ∷ []

abbrev no_probes : Probing
no_probes = record { last_attempt = []; budget = 4 }

ready : (verdict daemon deployed true when_deployed no_probes).0 ≡ launches
unfolding verdict find same
ready = refl

verdict-launches_example :
    (when_deployed.paused ≡ false)
    × GateOpen deployed (gate_in when_deployed.trigger)
    × ProbeReady daemon "job_f" (probe_in when_deployed.trigger)
verdict-launches_example = verdict-launches daemon deployed true when_deployed no_probes ready

abbrev cpu : Pool
cpu = record { pool = "cpu"; max_parallel = 2; paused = false; created_at = 0; updated_at = 0 }

cpu_found : find (of_pool "cpu") db.pools ≡ some cpu
unfolding find same
cpu_found = refl

launched_report :
    (launch_queued_if_capacity 2 "job_c" (some "cpu") "claim_9" 9000000 (some 77) db).0 ≡ true
unfolding launch_queued_if_capacity find count same same_as
launched_report = refl

launch_queued-within_example :
    (cpu.paused ≡ false)
    × WithinCap "cpu" 2
        (launch_queued_if_capacity 2 "job_c" (some "cpu") "claim_9" 9000000 (some 77) db).1.jobs
launch_queued-within_example =
    launch_queued-within 2 "job_c" "cpu" "claim_9" 9000000 (some 77) db keyed cpu_found
      launched_report
