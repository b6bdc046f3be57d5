-- ===== src/Delivery/Claim/Outcome.antt =====
-- What a claim does, as one equation, and who can hold a delivery while its lease runs.
use vanth.Prelude.{
  ℕ, ◌+◌, ◌≤◌, ◌<◌, ◌≡◌, refl, sym, ap, subst, ◌∙◌, inl, inr, true, false, String, Option, none,
  some, arith, if◌then◌else◌, Bool-cases, Option-cases, some_inj, same_iff,
}
use vanth.Prelude.Rows.{find, count, find-some}
use vanth.Prelude.Keys.{find-update-touched, count_pos, touched, Keyed, Keyed-update}
use vanth.Time.{seconds, elapsed, text_le_early}
use vanth.Delivery.{dispatching, Delivery, Db, by_id, is_due}
use vanth.Delivery.Claim.{
  Draw, effective_timeout, lease_seconds, claimable, stamp_claim, write_claim, claim_row,
  claim_delivery, lease_for,
}

module _ (margin : ℕ) (draw : Draw) (client : Option String) (id : String) where
  -- The answer and the database after a claim, given the row that the key finds.
  abbrev pub claim_outcome : Option Delivery → Db → Option Delivery × Db
  claim_outcome none db = (none, db)
  claim_outcome (some row) db =
      if is_due draw.now row
      then (
        some (stamp_claim margin draw client id row row),
        write_claim margin draw client id row db,
      )
      else (none, db)

  pub due-claimable :
      (row : Delivery)
      → by_id id row ≡ true
      → is_due draw.now row ≡ true
      → claimable id draw.now row ≡ true
  unfolding is_due claimable
  due-claimable row h d = ground arith

  module _ (db : Db) (row : Delivery) (found : find (by_id id) db.deliveries ≡ some row) where
    found_by_id : by_id id row ≡ true
    found_by_id = find-some (by_id id) db.deliveries found

    pub find-write_claim :
        claimable id draw.now row ≡ true
        → find (by_id id) (write_claim margin draw client id row db).deliveries
          ≡ some (stamp_claim margin draw client id row row)
    unfolding write_claim
    find-write_claim c =
        find-update-touched (by_id id) (claimable id draw.now)
          (stamp_claim margin draw client id row) (λ r. refl) db.deliveries
        ∙ ap (touched (claimable id draw.now) (stamp_claim margin draw client id row)) found
        ∙ rw c

    -- A row that is due is claimed: both guards agree on it.
    pub claim_found : claim_delivery margin draw client id db ≡ claim_outcome (some row) db
    unfolding claim_delivery
    claim_found =
        rw (found, claim_row)
          (elim (Bool-cases (is_due draw.now row)) [
            | inr late ↦ rw (late, claim_row)
            | inl due ↦
                let c : claimable id draw.now row ≡ true = due-claimable row found_by_id due in
                let n : 0 < count (claimable id draw.now) db.deliveries =
                  count_pos (by_id id) (claimable id draw.now) db.deliveries found c in
                rw (due, claim_row) (ground (arith, n, find-write_claim c))
          ])

-- A claim either changes nothing and returns none, or stamps the row that is due and returns it.
pub claim_delivery-eq-outcome :
    (margin : ℕ) (draw : Draw) (client : Option String) (id : String) (db : Db)
    → claim_delivery margin draw client id db
      ≡ claim_outcome margin draw client id (find (by_id id) db.deliveries) db
unfolding claim_delivery
claim_delivery-eq-outcome margin draw client id db =
    elim (Option-cases (find (by_id id) db.deliveries)) [
      | inl absent ↦ rw (absent, claim_row)
      | inr (row, found) ↦
          claim_found margin draw client id db row found
          ∙ ap (λ o. claim_outcome margin draw client id o db) (sym found)
    ]

module _ (margin : ℕ) (draw : Draw) (client : Option String) (id : String) (db : Db) where
  -- What a successful claim found, and what it left.
  pub record Claimed (d : Delivery) (db' : Db) : Type 0 where
    pub row : Delivery
    pub found : find (by_id id) db.deliveries ≡ some row
    pub due : is_due draw.now row ≡ true
    pub stamped : d ≡ stamp_claim margin draw client id row row
    pub written : db' ≡ write_claim margin draw client id row db
    pub found_again : find (by_id id) db'.deliveries ≡ some d

  from_outcome :
      {d : Delivery} {db' : Db} (o : Option Delivery)
      → find (by_id id) db.deliveries ≡ o
      → claim_outcome margin draw client id o db ≡ (some d, db')
      → Claimed d db'
  from_outcome none f w = absurd (cc)
  from_outcome {d} {db'} (some row) f w = elim (Bool-cases (is_due draw.now row)) [
    | inr late ↦ absurd (cc (w, late))
    | inl due ↦
        let both : ◌≡◌ {A = Option Delivery × Db}
            (
              some (stamp_claim margin draw client id row row),
              write_claim margin draw client id row db,
            )
            (some d, db') =
          rw due at w in
        let stamped : some (stamp_claim margin draw client id row row) ≡ some d =
          ap (λ (p : Option Delivery × Db). p.0) both in
        let written : write_claim margin draw client id row db ≡ db' =
          ap (λ (p : Option Delivery × Db). p.1) both in
        record {
          row = row;
          found = f;
          due = due;
          stamped = sym (some_inj stamped);
          written = sym written;
          found_again =
              ap (λ (x : Db). find (by_id id) x.deliveries) (sym written)
              ∙ find-write_claim margin draw client id db row f (
                  due-claimable margin draw client id row (find-some (by_id id) db.deliveries f)
                    due)
              ∙ stamped;
        }
  ]

  pub claim_delivery-Claimed :
      {d : Delivery} {db' : Db}
      → claim_delivery margin draw client id db ≡ (some d, db')
      → Claimed d db'
  claim_delivery-Claimed e =
      from_outcome (find (by_id id) db.deliveries) refl
        (sym (claim_delivery-eq-outcome margin draw client id db) ∙ e)

  module _ {d : Delivery} {db' : Db} (c : Claimed d db') where
    pub Claimed-id : d.delivery_id ≡ id
    unfolding stamp_claim
    Claimed-id =
        ap (λ (x : Delivery). x.delivery_id) c.stamped
        ∙ found_id (find-some (by_id id) db.deliveries c.found)
      where
        found_id :
            by_id id c.row ≡ true → (stamp_claim margin draw client id c.row c.row).delivery_id ≡ id
        found_id h = (same_iff c.row.delivery_id id).0 h

    pub Claimed-token : d.claim_token ≡ some draw.token
    unfolding stamp_claim
    Claimed-token = ap (λ (x : Delivery). x.claim_token) c.stamped

    pub Claimed-status : d.status ≡ dispatching
    unfolding stamp_claim
    Claimed-status = ap (λ (x : Delivery). x.status) c.stamped

    pub Claimed-keys :
        Keyed (λ (r : Delivery). r.delivery_id) db.deliveries
        → Keyed (λ (r : Delivery). r.delivery_id) db'.deliveries
    unfolding write_claim
    Claimed-keys k =
        subst (λ (x : Db). Keyed (λ (r : Delivery). r.delivery_id) x.deliveries) (sym c.written)
          (Keyed-update (λ (r : Delivery). r.delivery_id) (claimable id draw.now)
            (stamp_claim margin draw client id c.row) (λ r. refl) db.deliveries k)

lease_covers : (margin : ℕ) (d : Delivery) → effective_timeout d + 1 ≤ lease_seconds margin d
unfolding lease_seconds lease_for
lease_covers margin d = ground arith

lease_seconds-stamp_claim :
    (margin : ℕ) (draw : Draw) (client : Option String) (id : String) (row : Delivery)
    → lease_seconds margin (stamp_claim margin draw client id row row) ≡ lease_seconds margin row
unfolding lease_seconds stamp_claim effective_timeout
lease_seconds-stamp_claim margin draw client id row = refl

held :
    (margin : ℕ) (draw later : Draw) (client : Option String) (id : String) (db : Db) {d : Delivery}
    {db' : Db}
    → Claimed margin draw client id db d db'
    → later.now ≤ draw.leased_at + seconds (effective_timeout d)
    → is_due later.now d ≡ false
unfolding is_due stamp_claim elapsed
held margin draw later client id db {d} c h =
    let status : d.status ≡ dispatching = ap (λ (x : Delivery). x.status) c.stamped in
    let lease : d.lease_expires_at ≡ some (draw.leased_at + seconds (lease_seconds margin d)) =
      ap (λ (x : Delivery). x.lease_expires_at) c.stamped
      ∙ ap (λ n. some (draw.leased_at + seconds n))
          (sym (lease_seconds-stamp_claim margin draw client id c.row)
            ∙ ap (lease_seconds margin) (sym c.stamped)) in
    ground (
      arith,
      status,
      lease,
      lease_covers margin d,
      text_le_early (draw.leased_at + seconds (lease_seconds margin d)) later.now,
    )

-- While the timeout of the claimed target runs, counted from the lease's start, nobody else can
-- claim the delivery, and an attempt to changes nothing.
pub claim_exclusive :
    (margin : ℕ) (draw later : Draw) (client rival : Option String) (id : String) (db : Db)
    {d : Delivery} {db' : Db}
    → claim_delivery margin draw client id db ≡ (some d, db')
    → later.now ≤ draw.leased_at + seconds (effective_timeout d)
    → claim_delivery margin later rival id db' ≡ (none, db')
claim_exclusive margin draw later client rival id db {d} {db'} e h =
    let c = claim_delivery-Claimed margin draw client id db e in
    claim_delivery-eq-outcome margin later rival id db'
    ∙ ap (λ o. claim_outcome margin later rival id o db') c.found_again
    ∙ rw (held margin draw later client id db c h)
