-- ===== src/Remote/Store/Tests/Requests.antt =====
-- Concrete requests and job origins, and the theorems about them at work.
use vanth.Prelude.{◌≡◌, ◌⊎◌, ◌↔◌, refl, true, false, none, some, List, [], ◌∷◌, String, ◌==◌}
use vanth.Prelude.Tests.{same}
use vanth.Prelude.Rows.{find, count}
use vanth.Remote.Store.{raised, returned, replay_mismatch}
use vanth.Remote.Store.Remotes.{with_remote}
use vanth.Remote.Store.Requests.{
  Submission, Request, with_key, new_request, record_request, get_request_by_key,
}
use vanth.Remote.Store.Retry.{records, moves, prunes, InFlight, run, retry-answered}
use vanth.Remote.Store.Operations.{get_remote_job_origin_op, get_remote_operation_by_job}
use vanth.Remote.Store.Origins.{Queued, queue_all, origins-inverse}
use vanth.Remote.Store.Tests.Shadows.{box}

abbrev submit : String → String → Submission
submit key payload = record {
  remote_id = "box";
  idempotency_key = key;
  method = "job.submit";
  payload = payload;
  digest = "d1";
  expected_state_epoch = some 2;
  expected_instance_id = none;
}

abbrev made : List Request
made = new_request 10 "r1" (submit "k1" "{}") ∷ []

made_open : InFlight "r1" (submit "k1" "{}") made
unfolding get_request_by_key find with_key same new_request
made_open = record {
  row = new_request 10 "r1" (submit "k1" "{}");
  found = refl;
  named = refl;
  given = refl;
  open_ = refl;
}

box_known : (count (with_remote "box") (box ∷ []) == 0) ≡ false
unfolding count same
box_known = refl

retry-answered_example :
    ((same "d1" "d1" ≡ true)
      × (r : Request) × (r.request_id ≡ "r1")
      × (r.submission ≡ submit "k1" "{}")
      × (record_request 40 "r3" (submit "k1" "{ }") (box ∷ []) (
            run
              (records 20 "r2" (submit "k2" "{}") (box ∷ [])
                ∷ moves 25 "r1" "submitting" none none
                ∷ prunes 30 1
                ∷ [])
              made)
          ≡ (
            returned r,
            run
                (records 20 "r2" (submit "k2" "{}") (box ∷ [])
                  ∷ moves 25 "r1" "submitting" none none
                  ∷ prunes 30 1
                  ∷ [])
                made,
          )))
    ⊎ ((same "d1" "d1" ≡ false)
        × (record_request 40 "r3" (submit "k1" "{ }") (box ∷ []) (
              run
                (records 20 "r2" (submit "k2" "{}") (box ∷ [])
                  ∷ moves 25 "r1" "submitting" none none
                  ∷ prunes 30 1
                  ∷ [])
                made)
            ≡ (
              raised replay_mismatch,
              run
                  (records 20 "r2" (submit "k2" "{}") (box ∷ [])
                    ∷ moves 25 "r1" "submitting" none none
                    ∷ prunes 30 1
                    ∷ [])
                  made,
            )))
unfolding same
retry-answered_example =
    retry-answered "r1" (submit "k1" "{}") made
      (records 20 "r2" (submit "k2" "{}") (box ∷ [])
        ∷ moves 25 "r1" "submitting" none none
        ∷ prunes 30 1
        ∷ [])
      40 "r3" (submit "k1" "{ }") (box ∷ []) made_open (refl, (refl, (refl, tt))) refl refl
      box_known

abbrev queued : String → String → Queued
queued op job = record { stamp = 7; op = op; job = job; origin = "remote" }

-- The job of the second operation goes to the third.
origins-inverse_example :
    ((get_remote_operation_by_job "j2"
          (queue_all (queued "o3" "j2" ∷ queued "o2" "j2" ∷ queued "o1" "j1" ∷ []))
        ≡ some "o3")
      ↔ (get_remote_job_origin_op "o3"
            (queue_all (queued "o3" "j2" ∷ queued "o2" "j2" ∷ queued "o1" "j1" ∷ []))
          ≡ some "j2"))
    × (get_remote_job_origin_op "o3"
          (queue_all (queued "o3" "j2" ∷ queued "o2" "j2" ∷ queued "o1" "j1" ∷ []))
        ≡ some "j2")
origins-inverse_example =
    origins-inverse (queued "o3" "j2") (queued "o2" "j2" ∷ queued "o1" "j1" ∷ []) "o3" "j2"
