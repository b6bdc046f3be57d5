-- ===== src/Delivery/Dispatch/Capacity.antt =====
-- The dispatcher's threads: how many there are, and what they carry.
use vanth.Prelude.{
  ℕ, suc, ◌+◌, ◌-◌, ◌≤◌, ◌≡◌, inl, inr, Bool, true, not, ◌&&◌, List, [], ◌∷◌, arith, All, leb,
  Bool-cases,
}
use vanth.Prelude.Rows.{select}
use vanth.Delivery.{Delivery, Db}
use vanth.Delivery.Dispatch.{overdue, dispatchable, dispatch_rows, dispatch_due_deliveries}

module _ (max_concurrency : ℕ) (freed : ℕ → ℕ) (starts : Delivery → Bool) where
  rows-bounded :
      (n in_flight : ℕ) (ds : List Delivery)
      → in_flight ≤ max_concurrency
      → ((dispatch_rows max_concurrency freed starts n in_flight ds).1 ≤ max_concurrency)
        × All
            (λ d. (dispatchable d ≡ true) × (starts d ≡ true))
            (dispatch_rows max_concurrency freed starts n in_flight ds).0
  unfolding dispatch_rows
  rows-bounded n in_flight [] h = (h, tt)
  rows-bounded n in_flight (d ∷ ds) h =
      elim (Bool-cases
        (dispatchable d && (not (leb max_concurrency (in_flight - freed n)) && starts d))) [
          | inl e ↦
              let room : in_flight - freed n + 1 ≤ max_concurrency = ground arith in
              let (bound, all) = rows-bounded (suc n) (in_flight - freed n + 1) ds room in
              rw e (bound, ((ground arith, ground arith), all))
          | inr e ↦ rw e (rows-bounded (suc n) (in_flight - freed n) ds (omega arith))
        ]

  -- A round of the dispatcher never has more threads in flight than its limit, if it starts with no
  -- more, and hands a thread only deliveries that are not a Desktop relay's and are not exempt from
  -- automatic dispatch.
  pub dispatch_due_deliveries-bounded :
      (now again in_flight : ℕ) (db : Db)
      → in_flight ≤ max_concurrency
      → ((dispatch_due_deliveries max_concurrency freed starts now again in_flight db).1
          ≤ max_concurrency)
        × All
            (λ d. (dispatchable d ≡ true) × (starts d ≡ true))
            (dispatch_due_deliveries max_concurrency freed starts now again in_flight db).0
  unfolding dispatch_due_deliveries
  dispatch_due_deliveries-bounded now again in_flight db h =
      rows-bounded 0 in_flight (select (overdue now again) db.deliveries) h
