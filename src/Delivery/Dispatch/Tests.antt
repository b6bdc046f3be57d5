-- ===== src/Delivery/Dispatch/Tests.antt =====
-- Dispatches on concrete databases.
use vanth.Prelude.{ℕ, ◌+◌, ◌≤◌, ◌≡◌, refl, true, none, some, List, [], ◌∷◌, arith, codes, All}
use vanth.Prelude.Tests.{same}
use vanth.Prelude.Rows.{find, update, count}
use vanth.Time.{unset_or_elapsed}
use vanth.Delivery.{codex_thread, codex_desktop, Delivery, Db, Error, by_id, is_due}
use vanth.Delivery.Claim.{claimable, stamp_claim, write_claim, claim_row, claim_delivery}
use vanth.Delivery.Relay.{relay_register}
use vanth.Delivery.Dispatch.{
  Route, by_codex, Sent, permanent, route, dispatchable, dispatch_delivery, dispatch_due_deliveries,
}
use vanth.Delivery.Dispatch.Settles.{Settled, settled_as, dispatch_delivery-settles}
use vanth.Delivery.Dispatch.Capacity.{dispatch_due_deliveries-bounded}
use vanth.Delivery.Tests.{desktop, waiting_row, one_waiting, first, clock}

abbrev thread_row : Delivery
thread_row = record waiting_row {
  target_type = codex_thread;
  target = record desktop { kind = codex_thread };
}

abbrev thread_waiting : Db
thread_waiting = record one_waiting { deliveries = thread_row ∷ [] }

-- Another writer owns the session.
abbrev owned : Route → Delivery → Sent
owned r d = permanent (codes "active writer")

abbrev said : Error → List ℕ
said e = []

thread_found : find (by_id "d1") thread_waiting.deliveries ≡ some thread_row
unfolding find same
thread_found = refl

-- Meanwhile a relay registers.
abbrev meanwhile : Db → Db
meanwhile db = (relay_register "relay-2" 900000000 codex_desktop [] db).1

still_taken :
    find (by_id "d1") (meanwhile (claim_delivery 5 first none "d1" thread_waiting).1).deliveries
    ≡ some (stamp_claim 5 first none "d1" thread_row thread_row)
unfolding relay_register claim_delivery claim_row write_claim stamp_claim claimable is_due
    unset_or_elapsed find update count same
still_taken = refl

dispatch_delivery-settles_example :
    (after : Delivery) × (find
        (by_id "d1")
        (dispatch_delivery 5 owned said meanwhile first clock clock thread_row
          thread_waiting).deliveries
      ≡ some after)
    × Settled
        (settled_as
          (owned by_codex (stamp_claim 5 first none "d1" thread_row thread_row))
          by_codex
          (0 + 1)
          (some 2))
        (0 + 1)
        after
unfolding is_due unset_or_elapsed route
dispatch_delivery-settles_example =
    dispatch_delivery-settles 5 owned said meanwhile first clock clock thread_row thread_row
      thread_waiting thread_found refl refl still_taken

dispatch_due_deliveries-bounded_example :
    ((dispatch_due_deliveries 4 (λ n. 1) (λ d. true) 1000000 1000000 4 thread_waiting).1 ≤ 4)
    × All
        (λ d. (dispatchable d ≡ true) × (true ≡ true))
        (dispatch_due_deliveries 4 (λ n. 1) (λ d. true) 1000000 1000000 4 thread_waiting).0
dispatch_due_deliveries-bounded_example =
    dispatch_due_deliveries-bounded 4 (λ n. 1) (λ d. true) 1000000 1000000 4 thread_waiting
      (omega arith)
