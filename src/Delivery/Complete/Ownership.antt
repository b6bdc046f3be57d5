-- ===== src/Delivery/Complete/Ownership.antt =====
-- Who can complete a delivery: the holder of the current claim, and nobody else.
use vanth.Prelude.{
  ℕ, ◌<◌, ◌≡◌, refl, sym, ap, subst, ◌∙◌, ◌≢◌, inl, inr, Bool, true, false, String, Option, none,
  some, List, arith, Bool-cases, same, same_self, same_iff, same_as, same_as_iff, some_inj,
  and_true, pos-ne-zero,
}
use vanth.Prelude.Rows.{find, count}
use vanth.Prelude.Keys.{find-update-touched, count_pos, touched, hits, count-key, Keyed}
use vanth.Delivery.{
  Status, dispatching, Delivery, Db, Result, ok, err, not_claimed, is_dispatching, is_settled,
  by_id, claimed_with,
}
use vanth.Delivery.Claim.{Draw, claim_delivery}
use vanth.Delivery.Claim.Outcome.{claim_delivery-Claimed, Claimed-id, Claimed-token, Claimed-keys}
use vanth.Delivery.Complete.{
  Clock, finish_row, guard_row, write_completion, complete_delivery, answer, reload,
}

abbrev pub HasKeys : Db → Type 0
HasKeys db = Keyed (λ (d : Delivery). d.delivery_id) db.deliveries

-- `require_claim_client_id` is not given, or names the client of the claim.
abbrev pub client_fits : Option String → Delivery → Bool
client_fits none d = true
client_fits (some c) d = same_as d.claim_client_id c

pub status_dispatching : (s : Status) → is_dispatching s ≡ true → s ≡ dispatching
status_dispatching s h = ground arith

-- What the guard of a completion found.
pub record ClaimedBy (id : String) (token : Option String) (r : Delivery) : Type 0 where
  pub named : String
  pub given : token ≡ some named
  pub same_id : r.delivery_id ≡ id
  pub in_flight : r.status ≡ dispatching
  pub held : r.claim_token ≡ some named

pub claimed_with-ClaimedBy :
    (id : String) (token : Option String) (r : Delivery)
    → claimed_with id token r ≡ true
    → ClaimedBy id token r
unfolding claimed_with
claimed_with-ClaimedBy id none r h = absurd (cc)
claimed_with-ClaimedBy id (some t) r h =
    let (at_id, rest) = and_true (same r.delivery_id id) _ h in
    let (flying, token) = and_true (is_dispatching r.status) _ rest in
    record {
      named = t;
      given = refl;
      same_id = (same_iff r.delivery_id id).0 at_id;
      in_flight = status_dispatching r.status flying;
      held = (same_as_iff r.claim_token t).0 token;
    }

claimed_with-key :
    (id : String) (token : Option String) (r : Delivery)
    → claimed_with id token r ≡ true
    → r.delivery_id ≡ id
claimed_with-key id token r h = (claimed_with-ClaimedBy id token r h).same_id

pub guard_row-claimed :
    (clock : Clock) (d : Delivery) (status : Status) (error : Option (List ℕ))
    (client : Option String) (r : Delivery)
    → guard_row clock d status error client r ≡ true
    → claimed_with d.delivery_id d.claim_token r ≡ true
unfolding guard_row
guard_row-claimed clock d status error none r h = h
guard_row-claimed clock d status error (some c) r h =
    (and_true (claimed_with d.delivery_id d.claim_token r) _ h).0

claimed_with_self :
    (d : Delivery) (token : String)
    → d.status ≡ dispatching
    → d.claim_token ≡ some token
    → claimed_with d.delivery_id d.claim_token d ≡ true
unfolding claimed_with
claimed_with_self d token s t =
    rw (t, claimed_with)
      (ground (arith, same_self d.delivery_id, (same_as_iff d.claim_token token).1 t))

fits-guard :
    (clock : Clock) (d : Delivery) (status : Status) (error : Option (List ℕ))
    (client : Option String) (token : String)
    → d.status ≡ dispatching
    → d.claim_token ≡ some token
    → client_fits client d ≡ true
    → guard_row clock d status error client d ≡ true
unfolding guard_row
fits-guard clock d status error none token s t c = claimed_with_self d token s t
fits-guard clock d status error (some k) token s t c = rw (claimed_with_self d token s t, c)

module _ (clock : Clock) (d : Delivery) (status : Status) (error : Option (List ℕ))
    (client : Option String) where
  pub guard_row-key :
      (r : Delivery)
      → guard_row clock d status error client r ≡ true
      → r.delivery_id ≡ d.delivery_id
  guard_row-key r h =
      claimed_with-key d.delivery_id d.claim_token r
        (guard_row-claimed clock d status error client r h)

  pub guard_row_self :
      {token : String}
      → d.status ≡ dispatching
      → d.claim_token ≡ some token
      → client_fits client d ≡ true
      → guard_row clock d status error client d ≡ true
  guard_row_self {token} s t c = fits-guard clock d status error client token s t c

  pub find-write_completion :
      (db : Db) {token : String}
      → find (by_id d.delivery_id) db.deliveries ≡ some d
      → d.status ≡ dispatching
      → d.claim_token ≡ some token
      → client_fits client d ≡ true
      → find (by_id d.delivery_id) (write_completion clock d status error client db).deliveries
        ≡ some (finish_row clock d status error d)
  unfolding write_completion
  find-write_completion db f s t c =
      find-update-touched (by_id d.delivery_id) (guard_row clock d status error client)
        (finish_row clock d status error) (λ r. refl) db.deliveries
      ∙ ap (touched (guard_row clock d status error client) (finish_row clock d status error)) f
      ∙ rw (guard_row_self s t c)

  -- The holder's completion is written and returned.
  pub complete_owned :
      (db : Db) {token : String}
      → find (by_id d.delivery_id) db.deliveries ≡ some d
      → d.status ≡ dispatching
      → d.claim_token ≡ some token
      → client_fits client d ≡ true
      → is_settled status ≡ true
      → complete_delivery clock d status error client db
        ≡ (ok (finish_row clock d status error d), write_completion clock d status error client db)
  unfolding complete_delivery
  complete_owned db f s t c settled =
      let g : guard_row clock d status error client d ≡ true = guard_row_self s t c in
      let n : 0 < count (guard_row clock d status error client) db.deliveries =
        count_pos (by_id d.delivery_id) (guard_row clock d status error client) db.deliveries f g in
      rw (settled, pos-ne-zero _ n)
        (won client ∙ ap (λ r. (reload clock d status error r, after)) again)
    where
      after : Db
      after = write_completion clock d status error client db

      won :
          (k : Option String)
          → answer clock d status error k true after
            ≡ (reload clock d status error (find (by_id d.delivery_id) after.deliveries), after)
      won none = refl
      won (some k) = refl

      again : find (by_id d.delivery_id) after.deliveries ≡ some (finish_row clock d status error d)
      again = find-write_completion db f s t c

-- The guard fails on a row that carries another token.
guard_row-ne :
    (clock : Clock) (d r : Delivery) (status : Status) (error : Option (List ℕ))
    (client : Option String) (old new : String)
    → d.claim_token ≡ some old
    → r.claim_token ≡ some new
    → old ≢ new
    → guard_row clock d status error client r ≡ false
unfolding claimed_with
guard_row-ne clock d r status error client old new held has differ =
    elim (Bool-cases (guard_row clock d status error client r)) [
      | inr no_match ↦ no_match
      | inl hit ↦
          let claimed : claimed_with d.delivery_id (some old) r ≡ true =
            subst (λ t. claimed_with d.delivery_id t r ≡ true) held
              (guard_row-claimed clock d status error client r hit) in
          absurd (differ (some_inj (sym (by_token claimed) ∙ has)))
    ]
  where
    by_token : claimed_with d.delivery_id (some old) r ≡ true → r.claim_token ≡ some old
    by_token h =
        (same_as_iff r.claim_token old).0
          (and_true (is_dispatching r.status) _ (and_true (by_id d.delivery_id r) _ h).1).1

-- What a caller that owns nothing is told: the row as it is, or, for a relay, an error.
abbrev pub verdict : Option String → Delivery → Result Delivery
verdict none r = ok r
verdict (some c) r = err not_claimed

lost_verdict :
    (clock : Clock) (d r : Delivery) (status : Status) (error : Option (List ℕ))
    (client : Option String) (db : Db)
    → count (guard_row clock d status error client) db.deliveries ≡ 0
    → is_settled status ≡ true
    → find (by_id d.delivery_id) db.deliveries ≡ some r
    → complete_delivery clock d status error client db ≡ (verdict client r, db)
unfolding complete_delivery
lost_verdict clock d r status error none db h settled f = rw (settled, h, f)
lost_verdict clock d r status error (some c) db h settled f = rw (settled, h)

-- The holder of a claim that another claim, under another token, has taken over completes nothing:
-- the database stays as it is, and a relay is told that the delivery is not its own.
pub complete_reclaimed :
    (margin : ℕ) (old new : Draw) (holder rival client : Option String) (id : String) (db db₁ : Db)
    {db₀ db₂ : Db} {d₁ d₂ : Delivery} (clock : Clock) (status : Status) (error : Option (List ℕ))
    → HasKeys db₁
    → claim_delivery margin old holder id db ≡ (some d₁, db₀)
    → claim_delivery margin new rival id db₁ ≡ (some d₂, db₂)
    → old.token ≢ new.token
    → is_settled status ≡ true
    → complete_delivery clock d₁ status error client db₂ ≡ (verdict client d₂, db₂)
complete_reclaimed margin old new holder rival client id db db₁ {db₀} {db₂} {d₁} {d₂} clock status
      error keys first second differ settled =
    let c₁ = claim_delivery-Claimed margin old holder id db first in
    let c₂ = claim_delivery-Claimed margin new rival id db₁ second in
    let guard = guard_row clock d₁ status error client in
    let misses : guard d₂ ≡ false =
      guard_row-ne clock d₁ d₂ status error client old.token new.token
        (Claimed-token margin old holder id db c₁) (Claimed-token margin new rival id db₁ c₂)
        differ in
    let none_owned : count guard db₂.deliveries ≡ 0 =
      count-key (λ (r : Delivery). r.delivery_id) id guard
        (λ r h.
          guard_row-key clock d₁ status error client r h ∙ Claimed-id margin old holder id db c₁)
        db₂.deliveries (Claimed-keys margin new rival id db₁ c₂ keys)
      ∙ ap (hits guard) c₂.found_again
      ∙ rw misses in
    lost_verdict clock d₁ d₂ status error client db₂ none_owned settled (
      ap (λ i. find (by_id i) db₂.deliveries) (Claimed-id margin old holder id db c₁)
      ∙ c₂.found_again)
