-- ===== src/Delivery/Enqueue/Once.antt =====
-- An event owes each wake target of its job that wants it exactly one delivery.
use vanth.Prelude.{
  ℕ, suc, ◌≤◌, ◌≡◌, ap, inl, inr, Bool, true, ◌&&◌, String, List, [], ◌∷◌, ◌++◌, arith, same,
  same_iff, same_self, if◌then◌else◌, Bool-cases, and_true, ◌==◌,
}
use vanth.Prelude.Rows.{select, count, count-append}
use vanth.Delivery.{Delivery, Db, by_id}
use vanth.Delivery.Enqueue.{
  Event, WakeTarget, wants, owed, for_pair, insert_or_ignore, enqueue_for, enqueue_deliveries,
}

-- One row more, where neither its key nor its pair is taken.
abbrev free : Delivery → List Delivery → Bool
free d rows =
    (count (by_id d.delivery_id) rows == 0) && (count (for_pair d.event_id d.target_id) rows == 0)

count-insert :
    (q : Delivery → Bool) (d : Delivery) (rows : List Delivery)
    → count q (insert_or_ignore d rows)
      ≡ (if free d rows && q d then suc (count q rows) else count q rows)
unfolding insert_or_ignore count
count-insert q d rows = elim (Bool-cases (free d rows)) [
  | inl e ↦ rw (e, count-append q rows (d ∷ [])) (ground arith)
  | inr e ↦ rw e
]

-- What a row of the pair (event, target) is.
pair_of :
    (event target : String) (d : Delivery)
    → for_pair event target d ≡ true
    → (d.event_id ≡ event) × (d.target_id ≡ target)
unfolding for_pair
pair_of event target d h =
    let (at_event, at_target) = and_true (same d.event_id event) _ h in
    ((same_iff d.event_id event).0 at_event, (same_iff d.target_id target).0 at_target)

module _ (event target : String) where
  pairs : List Delivery → ℕ
  pairs rows = count (for_pair event target) rows

  -- UNIQUE(event_id, target_id) survives an insert, and a pair that is there stays.
  insert-bounds :
      (d : Delivery) (rows : List Delivery)
      → pairs rows ≤ 1
      → (pairs (insert_or_ignore d rows) ≤ 1) × (pairs rows ≤ pairs (insert_or_ignore d rows))
  unfolding pairs
  insert-bounds d rows h = elim (Bool-cases (for_pair event target d)) [
    | inr other ↦ rw (count-insert (for_pair event target) d rows, other) (ground arith)
    | inl hit ↦
        let (at_event, at_target) = pair_of event target d hit in
        rw (count-insert (for_pair event target) d rows, hit, at_event, at_target) (ground arith)
  ]

module _ (ids : ℕ → String) (times : ℕ → ℕ) (e : Event)
    (distinct : (i j : ℕ) → ids i ≡ ids j → i ≡ j) where
  -- No identifier still to be drawn is in the table.
  abbrev Fresh : ℕ → List Delivery → Type 0
  Fresh n rows = (k : ℕ) → n ≤ k → count (by_id (ids k)) rows ≡ 0

  -- The rows after one target.
  abbrev after_target : ℕ → WakeTarget → List Delivery → List Delivery
  after_target n t rows =
      if wants e t then insert_or_ignore (owed (ids n) (times n) e t) rows else rows

  after_target-Fresh :
      (n : ℕ) (t : WakeTarget) (rows : List Delivery)
      → Fresh n rows
      → Fresh (suc n) (after_target n t rows)
  unfolding owed
  after_target-Fresh n t rows f k le = elim (Bool-cases (wants e t)) [
    | inr skip ↦ rw skip (f k (omega arith))
    | inl wanted ↦
        rw (wanted, count-insert (by_id (ids k)) (owed (ids n) (times n) e t) rows)
          (elim (Bool-cases (same (ids n) (ids k))) [
            | inl clash ↦
                let equal : n ≡ k = distinct n k ((same_iff (ids n) (ids k)).0 clash) in
                absurd (omega arith)
            | inr apart ↦ ground (arith, apart, f k (omega arith))
          ])
  ]

  after_target-bounds :
      (event target : String) (n : ℕ) (t : WakeTarget) (rows : List Delivery)
      → pairs event target rows ≤ 1
      → (pairs event target (after_target n t rows) ≤ 1)
        × (pairs event target rows ≤ pairs event target (after_target n t rows))
  after_target-bounds event target n t rows h = elim (Bool-cases (wants e t)) [
    | inr skip ↦ rw skip (h, omega arith)
    | inl wanted ↦ rw wanted (insert-bounds event target (owed (ids n) (times n) e t) rows h)
  ]

  enqueue_for-bounds :
      (event target : String) (n : ℕ) (ts : List WakeTarget) (rows : List Delivery)
      → pairs event target rows ≤ 1
      → (pairs event target (enqueue_for ids times n e ts rows) ≤ 1)
        × (pairs event target rows ≤ pairs event target (enqueue_for ids times n e ts rows))
  unfolding enqueue_for
  enqueue_for-bounds event target n [] rows h = (h, omega arith)
  enqueue_for-bounds event target n (t ∷ ts) rows h =
      let (most, least) = after_target-bounds event target n t rows h in
      let (most', least') =
        enqueue_for-bounds event target (suc n) ts (after_target n t rows) most in
      (most', omega (arith, least, least'))

  -- A wanted target's own insert leaves its pair in the table.
  own_pair :
      (n : ℕ) (t : WakeTarget) (rows : List Delivery)
      → Fresh n rows
      → wants e t ≡ true
      → 1 ≤ pairs e.event_id t.target_id (after_target n t rows)
  unfolding pairs owed for_pair
  own_pair n t rows f wanted =
      rw (wanted, count-insert (for_pair e.event_id t.target_id) (owed (ids n) (times n) e t) rows)
        (ground (arith, f n (omega arith), same_self e.event_id, same_self t.target_id))

  once :
      (n : ℕ) (xs : List WakeTarget) (t : WakeTarget) (ys : List WakeTarget) (rows : List Delivery)
      → Fresh n rows
      → wants e t ≡ true
      → pairs e.event_id t.target_id rows ≤ 1
      → pairs e.event_id t.target_id (enqueue_for ids times n e (xs ++ t ∷ ys) rows) ≡ 1
  unfolding enqueue_for
  once n [] t ys rows f wanted h =
      let (most, _) = after_target-bounds e.event_id t.target_id n t rows h in
      let (most', least') =
        enqueue_for-bounds e.event_id t.target_id (suc n) ys (after_target n t rows) most in
      omega (arith, most', least', own_pair n t rows f wanted)
  once n (x ∷ xs) t ys rows f wanted h =
      once (suc n) xs t ys (after_target n x rows) (after_target-Fresh n x rows f) wanted
        (after_target-bounds e.event_id t.target_id n x rows h).0

select-append_hit :
    {R : Type 0} (p : R → Bool) (xs : List R) (x : R) (ys : List R)
    → p x ≡ true
    → select p (xs ++ x ∷ ys) ≡ select p xs ++ x ∷ select p ys
unfolding select
select-append_hit p [] x ys h = rw h
select-append_hit p (y ∷ xs) x ys h = elim (Bool-cases (p y)) [
  | inl e ↦ rw e (ap (λ l. y ∷ l) (select-append_hit p xs x ys h))
  | inr e ↦ rw e (select-append_hit p xs x ys h)
]

-- Where the drawn identifiers are new and distinct, and the table has at most one row for the event
-- and a target of its job that wants the event, it has exactly one after the event is enqueued, so
-- to enqueue the event again owes the target nothing more.
pub enqueue_exactly_once :
    (ids : ℕ → String) (times : ℕ → ℕ) (e : Event) (xs : List WakeTarget) (t : WakeTarget)
    (ys : List WakeTarget) (db : Db)
    → ((i j : ℕ) → ids i ≡ ids j → i ≡ j)
    → ((k : ℕ) → count (by_id (ids k)) db.deliveries ≡ 0)
    → t.job_id ≡ e.job_id
    → wants e t ≡ true
    → count (for_pair e.event_id t.target_id) db.deliveries ≤ 1
    → count
        (for_pair e.event_id t.target_id)
        (enqueue_deliveries ids times e (xs ++ t ∷ ys) db).deliveries
      ≡ 1
unfolding enqueue_deliveries pairs
enqueue_exactly_once ids times e xs t ys db distinct fresh mine wanted h =
    rw
      (select-append_hit (λ (w : WakeTarget). same w.job_id e.job_id) xs t ys
        ((same_iff t.job_id e.job_id).1 mine))
      (once ids times e distinct 0 _ t _ db.deliveries (λ k le. fresh k) wanted h)
