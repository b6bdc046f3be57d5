-- ===== src/Decision/Tests.antt =====
-- Concrete tables of decisions, and the theorems of this folder at work on them.
use vanth.Prelude.{◌≡◌, refl, Bool, true, none, some, List, [], ◌∷◌}
use vanth.Prelude.Tests.{same}
use vanth.Prelude.Text.{is_space}
use vanth.Prelude.Rows.{find, select}
use vanth.Delivery.Destination.{member}
use vanth.Decision.{
  pending, resolved, Decision, Payload, World, ok, with_token, blank, normalize_decision_actor,
  normalize_from, cons_new, normalize_choices, normalize_decision_options,
}
use vanth.Decision.Requests.{Draw, resolve_decision}
use vanth.Decision.Lifecycle.{IsLifecycle, story, told_by}
use vanth.Decision.Lifecycle.History.{
  Op, requests, resolves, withdraws, expires, run, run-IsLifecycle,
}
use vanth.Decision.Lifecycle.Ended.{run-ended}
use vanth.Decision.Lifecycle.Resolution.{verdict, resolve_decision-pending}
use vanth.Time.{text_le, text_lt, text_rank}
use vanth.Decision.Listing.{
  validate_limit, list_decisions, list_up_to, newest_first, insert_newest, stands_before,
}
use vanth.Decision.Numbering.{ascending_from, run-Numbered}

abbrev any_size : Payload → Bool
any_size p = true

abbrev draw : Draw
draw = record {
  now = 100;
  stamp = 101;
  emit = record {
    created_at = 102;
    event_id = "evt_1";
    delivery_ids = λ n. "del_1";
    delivery_times = λ n. 103;
  };
}

-- One running job, and nothing asked.
abbrev quiet : World
quiet = record {
  jobs = record { job_id = "j1"; status = "running" } ∷ [];
  decisions = [];
  events = [];
  targets = [];
  queue = record { deliveries = []; attempts = []; subscriptions = [] };
}

abbrev deploy : Decision
deploy = record {
  decision_id = "dec_1";
  job_id = "j1";
  prompt = "deploy?";
  options = "approve" ∷ "deny" ∷ [];
  choice = none;
  status = pending;
  resolved_by = none;
  created_at = 50;
  expires_at = some 200;
  resolved_at = none;
}

abbrev deployed : Decision
deployed = record deploy {
  status = resolved;
  choice = some "approve";
  resolved_by = some "user";
  resolved_at = some 60;
}

abbrev asking : World
asking = record quiet { decisions = deploy ∷ [] }

abbrev answered : World
answered = record quiet { decisions = deployed ∷ [] }

abbrev history : List Op
history =
    requests draw "dec_2" "j1" "go on?" none (some 60)
    ∷ resolves draw "j1" "dec_2" "approve" "user"
    ∷ resolves draw "j1" "dec_1" "deny" "user"
    ∷ withdraws draw "j1" "dec_2" "tool"
    ∷ expires 900000000 (λ n. draw)
    ∷ []

quiet-IsLifecycle : IsLifecycle quiet
unfolding story told_by find
quiet-IsLifecycle = record { keys = tt; told = λ id. refl }

run-IsLifecycle_example : IsLifecycle (run 100 any_size history quiet)
run-IsLifecycle_example = run-IsLifecycle 100 any_size history quiet quiet-IsLifecycle

deployed_found : find (with_token "dec_1") answered.decisions ≡ some deployed
unfolding find same
deployed_found = refl

deploy_found : find (with_token "dec_1") asking.decisions ≡ some deploy
unfolding find same
deploy_found = refl

user_accepted : normalize_decision_actor "user" ≡ ok "user"
unfolding normalize_decision_actor blank is_space
user_accepted = refl

run-ended_example :
    find (with_token "dec_1") (run 100 any_size history answered).decisions ≡ some deployed
run-ended_example = run-ended 100 any_size history answered "dec_1" deployed refl deployed_found

resolve_decision-pending_example :
    resolve_decision 100 any_size draw "j1" "dec_1" "approve" "user" asking
    ≡ verdict 100 any_size draw "j1" "dec_1" "approve" "user" asking deploy deploy_found
        (unfold same in refl)
unfolding same
resolve_decision-pending_example =
    resolve_decision-pending 100 any_size draw "j1" "dec_1" "approve" "user" asking deploy
      deploy_found refl refl refl user_accepted refl refl

run-Numbered_example : ascending_from "j1" 0 (run 100 any_size history asking).events ≡ true
unfolding ascending_from
run-Numbered_example = run-Numbered "j1" 100 any_size history asking refl

repeats : normalize_decision_options (some ("a" ∷ "b" ∷ "a" ∷ [])) ≡ ok ("a" ∷ "b" ∷ [])
unfolding normalize_decision_options normalize_choices normalize_from cons_new member same blank
    is_space
repeats = refl

lists : list_decisions (some "j1") none 10 (deploy ∷ []) ≡ some (deploy ∷ [])
unfolding list_decisions list_up_to validate_limit newest_first insert_newest stands_before text_le
    text_lt text_rank select same
lists = refl
