-- ===== src/Delivery/Tests.antt =====
-- Concrete databases of deliveries, and the theorems of this folder at work on them.
use vanth.Prelude.{
  ℕ, ◌&&◌, ◌⊎◌, if◌then◌else◌, zero, suc, ap, sym, ◌∙◌, length, Bool-cases, inl, inr, ◌++◌, ◌+◌,
  ◌≤◌, ◌≡◌, refl, false, true, String, Option, none, some, List, [], ◌∷◌, arith, codes, ◌≢◌,
}
use vanth.Prelude.Tests.{same, same_as, same_iff}
use vanth.Prelude.Rows.{find, update, count}
use vanth.Time.{seconds, text_le, text_rank, elapsed, unset_or_elapsed}
use vanth.Delivery.{
  pending, dispatching, delivered, failed, codex_desktop, Target, Delivery, Db, by_id, is_due, ok,
  open_of,
}
use vanth.Delivery.Destination.{member}
use vanth.Delivery.Enqueue.{Event, WakeTarget, wants, for_pair, enqueue_deliveries}
use vanth.Delivery.Enqueue.Once.{enqueue_exactly_once}
use vanth.Delivery.Claim.{
  Draw, claim_delivery, claim_row, claimable, write_claim, stamp_claim, lease_seconds, lease_for,
  effective_timeout, claim_lease_seconds, helper_hard_deadline, wake_sequence_budget,
}
use vanth.Delivery.Claim.Outcome.{claim_exclusive}
use vanth.Delivery.Claim.Taken
use vanth.Delivery.Claim.Taken.{taken_attempts, claim_delivery-taken}
use vanth.Delivery.Complete.{Clock, complete_delivery}
use vanth.Delivery.Complete.Ownership.{complete_reclaimed, verdict, HasKeys}
use vanth.Delivery.Complete.Written.{completed_row, ended_attempt, complete_delivery-written}
use vanth.Delivery.Complete.Backoff.{Rescheduled, complete_delivery-Rescheduled}
use vanth.Delivery.Manual.{MarkClock, mark_delivery}
use vanth.Delivery.Ledger.{IsLedger, open_tokens}
use vanth.Delivery.Ledger.Claiming.{claim_delivery-IsLedger}
use vanth.Delivery.Ledger.Manual.{mark_delivery-strands}
use vanth.Delivery.History.{Op, claims, acks, releases, run}
use vanth.Delivery.History.Ledgers.{run-IsLedger}
use vanth.Delivery.History.Settled.{run-settled}

abbrev pub desktop : Target
desktop = record {
  kind = codex_desktop;
  command = false;
  attach = false;
  auto_dispatch = none;
  thread_id = some "thread";
  thread_id_alias = none;
  session_id = none;
  session_id_alias = none;
  timeout_seconds = some 60;
  max_attempts = some 2;
  retry_delay_seconds = some 10;
}

abbrev pub waiting_row : Delivery
waiting_row = record {
  delivery_id = "d1";
  event_id = "e1";
  target_id = "t1";
  job_id = "j1";
  target_type = codex_desktop;
  status = pending;
  attempts = 0;
  target = desktop;
  created_at = 100;
  next_attempt_at = none;
  delivered_at = none;
  last_error = none;
  claim_token = none;
  claimed_at = none;
  lease_expires_at = none;
  claim_client_id = none;
}

abbrev pub one_waiting : Db
one_waiting = record { deliveries = waiting_row ∷ []; attempts = []; subscriptions = [] }

abbrev pub first : Draw
first = record { now = 1000000; leased_at = 1000001; token = "claim-1"; attempt_id = "a1" }

abbrev pub second : Draw
second = record { now = 900000000; leased_at = 900000001; token = "claim-2"; attempt_id = "a2" }

abbrev pub clock : Clock
clock = record { retry_from = 950000000; delivered_at = 950000001; stamp = 950000002 }

abbrev after_first : Option Delivery × Db
after_first = claim_delivery 5 first (some "relay-1") "d1" one_waiting

abbrev taken_row : Delivery
taken_row = record waiting_row {
  status = dispatching;
  attempts = 1;
  claim_token = some "claim-1";
  claimed_at = some 1000000;
  lease_expires_at = some 67000001;
  claim_client_id = some "relay-1";
}

first_claims : after_first ≡ (some taken_row, after_first.1)
unfolding claim_delivery claim_row claimable write_claim stamp_claim lease_seconds lease_for
    effective_timeout claim_lease_seconds helper_hard_deadline wake_sequence_budget is_due find
    update count same elapsed unset_or_elapsed text_le text_rank
first_claims = refl

abbrev after_second : Option Delivery × Db
after_second = claim_delivery 5 second (some "relay-2") "d1" after_first.1

abbrev retaken_row : Delivery
retaken_row = record waiting_row {
  status = dispatching;
  attempts = 2;
  claim_token = some "claim-2";
  claimed_at = some 900000000;
  lease_expires_at = some 966000001;
  claim_client_id = some "relay-2";
}

second_claims : after_second ≡ (some retaken_row, after_second.1)
unfolding claim_delivery claim_row claimable write_claim stamp_claim lease_seconds lease_for
    effective_timeout claim_lease_seconds helper_hard_deadline wake_sequence_budget is_due find
    update count same elapsed unset_or_elapsed text_le text_rank
second_claims = refl

first_found : find (by_id "d1") after_first.1.deliveries ≡ some taken_row
unfolding claim_delivery claim_row claimable write_claim stamp_claim lease_seconds lease_for
    effective_timeout claim_lease_seconds helper_hard_deadline wake_sequence_budget is_due find
    update count same elapsed unset_or_elapsed text_le text_rank
first_found = refl

waiting_found : find (by_id "d1") one_waiting.deliveries ≡ some waiting_row
unfolding find same
waiting_found = refl

waiting-HasKeys : HasKeys one_waiting
unfolding count
waiting-HasKeys = (refl, tt)

waiting-IsLedger : IsLedger one_waiting
unfolding find open_tokens
waiting-IsLedger = record { keys = waiting-HasKeys; tokens = λ id. ground arith }

taken-IsLedger : IsLedger after_first.1
taken-IsLedger = claim_delivery-IsLedger 5 first (some "relay-1") "d1" one_waiting waiting-IsLedger

early :
    (record second { now = 30000000 }).now ≤ first.leased_at + seconds (effective_timeout taken_row)
unfolding effective_timeout
early = omega arith

tokens_differ : first.token ≢ second.token
unfolding same
tokens_differ e = absurd (cc ((same_iff "claim-1" "claim-2").1 e))

complete_reclaimed_example :
    complete_delivery clock taken_row delivered none (some "relay-1") after_second.1
    ≡ (verdict (some "relay-1") retaken_row, after_second.1)
complete_reclaimed_example =
    complete_reclaimed 5 first second (some "relay-1") (some "relay-2") (some "relay-1") "d1"
      one_waiting after_first.1 clock delivered none taken-IsLedger.keys first_claims second_claims
      tokens_differ refl

claim_exclusive_example :
    claim_delivery 5 (record second { now = 30000000 }) (some "relay-2") "d1" after_first.1
    ≡ (none, after_first.1)
claim_exclusive_example =
    claim_exclusive 5 first (record second { now = 30000000 }) (some "relay-1") (some "relay-2")
      "d1" one_waiting first_claims early

claim_delivery-taken_example :
    ((find (by_id "d1") one_waiting.deliveries ≡ none)
      × (claim_delivery 5 first (some "relay-1") "d1" one_waiting ≡ (none, one_waiting)))
    ⊎ ((row : Delivery) × (find (by_id "d1") one_waiting.deliveries ≡ some row)
        × (((is_due first.now row ≡ false)
              × (claim_delivery 5 first (some "relay-1") "d1" one_waiting ≡ (none, one_waiting)))
            ⊎ ((is_due first.now row ≡ true)
                × ((claim_delivery 5 first (some "relay-1") "d1" one_waiting).0
                    ≡ some (Taken.taken_row 5 first (some "relay-1") "d1" row))
                × (find
                      (by_id "d2")
                      (claim_delivery 5 first (some "relay-1") "d1" one_waiting).1.deliveries
                    ≡ (if same "d1" "d2"
                        then some (Taken.taken_row 5 first (some "relay-1") "d1" row)
                        else find (by_id "d2") one_waiting.deliveries))
                × ((claim_delivery 5 first (some "relay-1") "d1" one_waiting).1.attempts
                    ≡ taken_attempts 5 first (some "relay-1") "d1" row one_waiting.attempts)
                × ((claim_delivery 5 first (some "relay-1") "d1" one_waiting).1.subscriptions
                    ≡ one_waiting.subscriptions))))
claim_delivery-taken_example = claim_delivery-taken 5 first (some "relay-1") "d1" "d2" one_waiting

complete_delivery-written_example :
    ((complete_delivery clock taken_row failed none (some "relay-1") after_first.1).0
      ≡ ok (completed_row clock taken_row failed none))
    × (find
          (by_id "d2")
          (complete_delivery clock taken_row failed none
            (some "relay-1")
            after_first.1).1.deliveries
        ≡ (if same "d1" "d2"
            then some (completed_row clock taken_row failed none)
            else find (by_id "d2") after_first.1.deliveries))
    × ((complete_delivery clock taken_row failed none (some "relay-1") after_first.1).1.attempts
        ≡ update
            (λ a. open_of "d1" a && same_as a.claim_token "claim-1")
            (ended_attempt clock taken_row failed none)
            after_first.1.attempts)
    × ((complete_delivery clock taken_row failed none
          (some "relay-1")
          after_first.1).1.subscriptions
        ≡ after_first.1.subscriptions)
unfolding same_as same
complete_delivery-written_example =
    complete_delivery-written clock taken_row failed none (some "relay-1") after_first.1 "claim-1"
      "d2" first_found refl refl refl refl

abbrev pub error_text : Option (List ℕ)
error_text = some (codes "no route to host")

complete_delivery-Rescheduled_example :
    (r : Delivery) × (find
        (by_id "d1")
        (complete_delivery clock taken_row failed error_text none after_first.1).1.deliveries
      ≡ some r)
    × Rescheduled 950000000 970000000 taken_row r
complete_delivery-Rescheduled_example =
    complete_delivery-Rescheduled clock 970000000 taken_row error_text none after_first.1
      first_found refl refl refl

abbrev mark_clock : MarkClock
mark_clock = record { delivered_at = 7; started_at = 8; ended_at = 9; created_at = 10 }

mark_delivery-strands_example :
    (open_tokens "d1" (mark_delivery mark_clock "a3" "d1" delivered none after_first.1).1.attempts
      ≡ some "claim-1" ∷ [])
    × ¬ IsLedger (mark_delivery mark_clock "a3" "d1" delivered none after_first.1).1
mark_delivery-strands_example =
    mark_delivery-strands mark_clock "a3" "d1" delivered none after_first.1 taken-IsLedger
      first_found refl refl refl

abbrev history : List Op
history =
    claims 5 first (some "relay-1") "d1"
    ∷ acks "relay-1" "d1" clock failed error_text (some "claim-1")
    ∷ claims 5 second (some "relay-2") "d1"
    ∷ releases "relay-2" "d1" (some "claim-2")
    ∷ []

run-IsLedger_example : IsLedger (run history one_waiting)
run-IsLedger_example =
    run-IsLedger history one_waiting (refl, (refl, (refl, (refl, tt)))) waiting-IsLedger

abbrev done_row : Delivery
done_row = record waiting_row { status = delivered; attempts = 1; delivered_at = some 5000000 }

done_found :
    find (by_id "d1") (record one_waiting { deliveries = done_row ∷ [] }).deliveries ≡ some done_row
unfolding find same
done_found = refl

run-settled_example :
    find (by_id "d1") (run history (record one_waiting { deliveries = done_row ∷ [] })).deliveries
    ≡ some done_row
run-settled_example =
    run-settled history (record one_waiting { deliveries = done_row ∷ [] }) "d1" done_row refl
      (refl, (refl, (refl, (refl, tt)))) done_found

abbrev watch : WakeTarget
watch = record {
  target_id = "t2";
  job_id = "j1";
  kind = codex_desktop;
  events = "completed" ∷ [];
  config = desktop;
}

abbrev completed : Event
completed = record { event_id = "e2"; job_id = "j1"; kind = "completed" }

-- The identifiers "", "x", "xx" and so on.
abbrev drawn : ℕ → String
drawn zero = ""
drawn (suc n) = String.◌∷◌ "x" (drawn n)

abbrev lead : List ℕ → ℕ
lead [] = 0
lead (c ∷ cs) = c

length-drawn : (n : ℕ) → length (codes (drawn n)) ≡ n
length-drawn zero = refl
length-drawn (suc n) = ap suc (length-drawn n)

drawn-distinct : (i j : ℕ) → drawn i ≡ drawn j → i ≡ j
drawn-distinct i j h = sym (length-drawn i) ∙ ap (λ s. length (codes s)) h ∙ length-drawn j

drawn-apart : (k : ℕ) → ¬ ("d1" ≡ drawn k)
drawn-apart zero h = omega (arith, ap (λ s. length (codes s)) h)
drawn-apart (suc k) h = omega (arith, ap (λ s. lead (codes s)) h)

drawn-fresh : (k : ℕ) → count (by_id (drawn k)) one_waiting.deliveries ≡ 0
unfolding count
drawn-fresh k = elim (Bool-cases (same "d1" (drawn k))) [
  | inl e ↦ absurd (drawn-apart k ((same_iff "d1" (drawn k)).0 e))
  | inr e ↦ rw e
]

enqueue_exactly_once_example :
    count
      (for_pair "e2" "t2")
      (enqueue_deliveries drawn (λ n. n) completed ([] ++ watch ∷ []) one_waiting).deliveries
    ≡ 1
unfolding for_pair count same wants member
enqueue_exactly_once_example =
    enqueue_exactly_once drawn (λ n. n) completed [] watch [] one_waiting drawn-distinct drawn-fresh
      refl refl (omega arith)

abbrev by_alias : Target
by_alias = record desktop { thread_id = none; session_id_alias = some "thread" }
