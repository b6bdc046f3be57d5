-- ===== src/Remote/Store/Tests/Shadows.antt =====
-- Concrete shadows, requests and job origins, and the theorems about them at work.
use vanth.Prelude.{ℕ, ◌≡◌, refl, false, none, List, [], ◌∷◌, String, arith, All, ◌==◌}
use vanth.Prelude.Tests.{same}
use vanth.Prelude.Rows.{select, find, update, count}
use vanth.Remote.Store.{returned}
use vanth.Remote.Store.Remotes.{Remote, NewRemote, get_remote}
use vanth.Remote.Store.Shadows.{
  Shadow, Report, of_job, upsert_shadow, upsert_at, report_to, suppress, suppress_shadow, outdated,
  supersede, supersede_old_epochs, listed, insert_by_creation, by_creation, live_shadows, listing,
  current_shadows, get_shadow,
}
use vanth.Remote.Store.Hidden.{upserts, step, run}
use vanth.Remote.Store.Forgotten.{forgotten-hidden, superseded-hidden}

abbrev pub info : NewRemote
info = record {
  name = none;
  target = "me@box";
  state = "paired";
  state_epoch = 2;
  instance_id = none;
  controller_id = none;
  credential_state = none;
  pairing_state = "idle";
  key_path = none;
  known_hosts_path = none;
  installed_at = none;
}

abbrev pub box : Remote
box = record {
  remote_id = "box";
  info = info;
  state = "paired";
  state_epoch = 2;
  instance_id = none;
  snapshot_cursor = none;
  feed_cursor = none;
  created_at = 1;
  updated_at = 1;
}

abbrev pub shadow : String → String → ℕ → Shadow
shadow id job epoch = record {
  shadow_id = id;
  remote_id = "box";
  remote_job_id = job;
  status = "running";
  payload = none;
  state_epoch = epoch;
  suppressed_at = none;
  superseded_at = none;
  created_at = 5;
  updated_at = 5;
}

abbrev again : Report
again = record { remote_id = "box"; remote_job_id = "j1"; status = "completed"; payload = none }

-- One job of the current epoch, and another.
abbrev two : List Shadow
two = shadow "s1" "j1" 2 ∷ shadow "s2" "j2" 2 ∷ []

two_known : (count (of_job "box" "j1") two == 0) ≡ false
unfolding count of_job same
two_known = refl

two_shown :
    current_shadows "box"
      (box ∷ [])
      (run (upserts 20 "s9" 2 again ∷ []) (suppress_shadow 10 "box" "j1" two))
    ≡ returned (shadow "s2" "j2" 2 ∷ [])
unfolding current_shadows listing live_shadows by_creation insert_by_creation listed get_remote find
    select run step upsert_shadow upsert_at suppress_shadow suppress update of_job same
two_shown = refl

forgotten-hidden_example :
    (get_shadow "box" "j1" (run (upserts 20 "s9" 2 again ∷ []) (suppress_shadow 10 "box" "j1" two))
      ≡ none)
    × All (λ r. same r.remote_job_id "j1" ≡ false) (shadow "s2" "j2" 2 ∷ [])
    × (upsert_shadow 30 "s10" 3
          (record { remote_id = "box"; remote_job_id = "j1"; status = "running"; payload = none })
          (run (upserts 20 "s9" 2 again ∷ []) (suppress_shadow 10 "box" "j1" two))
        ≡ (none, run (upserts 20 "s9" 2 again ∷ []) (suppress_shadow 10 "box" "j1" two)))
forgotten-hidden_example =
    forgotten-hidden 10 "box" "j1" two (upserts 20 "s9" 2 again ∷ []) (box ∷ [])
      (shadow "s2" "j2" 2 ∷ []) 30 "s10" 3 "running" none two_known two_shown

-- A job of the epoch before, which a later page of the same snapshot reports.
abbrev old : List Shadow
old = shadow "s1" "j1" 1 ∷ []

old_known : (count (of_job "box" "j1") old == 0) ≡ false
unfolding count of_job same
old_known = refl

old_shown :
    current_shadows "box"
      (box ∷ [])
      (run (upserts 20 "s9" 2 again ∷ []) (supersede_old_epochs 10 "box" 2 old).1)
    ≡ returned []
unfolding current_shadows listing live_shadows by_creation insert_by_creation listed get_remote find
    select run step upsert_shadow upsert_at report_to supersede_old_epochs supersede outdated update
    of_job same
old_shown = refl

superseded-hidden_example : All (λ (r : Shadow). same r.remote_job_id "j1" ≡ false) []
superseded-hidden_example =
    superseded-hidden 10 2 "box" "j1" old (upserts 20 "s9" 2 again ∷ []) (box ∷ []) [] old_known
      ((λ at. omega arith), tt) old_shown
