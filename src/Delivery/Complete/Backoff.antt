-- ===== src/Delivery/Complete/Backoff.antt =====
-- What a failed attempt leaves: a retry with a growing, bounded delay, or a final failure.
use native.Mathlib.Nat.{pow-suc}
use vanth.Prelude.{
  ℕ, zero, suc, ◌+◌, ◌-◌, ◌*◌, ◌^◌, ◌≤◌, min, ◌≡◌, refl, ap, ◌∙◌, ◌⊎◌, ◌<◌, inl, inr, true, false,
  Bool-cases, ◌&&◌, String, Option, none, some, List, arith, ltb, if◌then◌else◌,
}
use vanth.Prelude.Rows.{find}
use vanth.Time.{seconds, text_le, text_le_early, text_le_late, unset_or_elapsed}
use vanth.Delivery.{retrying, failed, dispatching, Delivery, Db, Result, by_id, is_due, or_else}
use vanth.Delivery.Complete.{Clock, retry_delay, finish_row, complete_delivery}
use vanth.Delivery.Complete.Ownership.{complete_owned, find-write_completion, client_fits}

abbrev budget : Delivery → ℕ
budget d = or_else d.target.max_attempts 1

min_pow_grows :
    (base n k m : ℕ) → m ≡ n - 1 → k ≡ suc n - 1 → min (base * 3 ^ m) 300 ≤ min (base * 3 ^ k) 300
min_pow_grows base zero k m hm hk = rw (hm, hk) (omega arith)
min_pow_grows base (suc n) k m hm hk =
    let less : m ≡ n = omega arith in
    let more : k ≡ suc n = omega arith in
    let step : base * 3 ^ suc n ≡ base * (3 ^ n * 3) = ap (λ x. base * x) (pow-suc 3 n) in
    rw (less, more) (omega arith)

-- One more attempt never shortens the delay, and no delay passes five minutes.
pub retry_delay_grows :
    (d : Delivery)
    → (retry_delay d ≤ retry_delay (record d { attempts = suc d.attempts })) × (retry_delay d ≤ 300)
unfolding retry_delay
retry_delay_grows d =
    (min_pow_grows (or_else d.target.retry_delay_seconds 5) d.attempts _ _ refl refl, omega arith)

-- How a row stands at `now`, after an attempt on `d` failed at `from`.
abbrev pub Rescheduled : ℕ → ℕ → Delivery → Delivery → Type 0
Rescheduled from now d r =
    (r.status ≡ (if ltb d.attempts (budget d) then retrying else failed))
    × (is_due now r ≡ (ltb d.attempts (budget d) && text_le (from + seconds (retry_delay d)) now))
    × ((is_due now r ≡ false) ⊎ (from + seconds (retry_delay d) < now + 1000000))
    × ((ltb d.attempts (budget d) ≡ false)
        ⊎ (is_due now r ≡ true)
        ⊎ (now < from + seconds (retry_delay d) + 1000000))
    × (r.attempts ≡ d.attempts)
    × (r.claim_token ≡ none)
    × (r.lease_expires_at ≡ none)

text_le_not_late : (t now : ℕ) → text_le t now ≡ false → now < t + 1000000
text_le_not_late t now e = ground (arith, text_le_late t now, e)

finish_row-Rescheduled :
    (clock : Clock) (now : ℕ) (d : Delivery) (error : Option (List ℕ))
    → Rescheduled clock.retry_from now d (finish_row clock d failed error d)
unfolding finish_row is_due unset_or_elapsed
finish_row-Rescheduled clock now d error = (
  refl,
  due,
  by_end (Bool-cases (text_le end now)),
  by_start (Bool-cases (text_le end now)),
  refl,
  refl,
  refl,
)
  where
    end : ℕ
    end = clock.retry_from + seconds (retry_delay d)

    due :
        is_due now (finish_row clock d failed error d)
        ≡ (ltb d.attempts (budget d) && text_le end now)
    due = ground arith

    by_end :
        ((text_le end now ≡ true) ⊎ (text_le end now ≡ false))
        → (is_due now (finish_row clock d failed error d) ≡ false) ⊎ (end < now + 1000000)
    by_end (inl e) = inr (text_le_early end now e)
    by_end (inr e) = inl (due ∙ rw e (ground arith))

    by_start :
        ((text_le end now ≡ true) ⊎ (text_le end now ≡ false))
        → (ltb d.attempts (budget d) ≡ false)
          ⊎ (is_due now (finish_row clock d failed error d) ≡ true)
          ⊎ (now < end + 1000000)
    by_start (inl e) = elim (Bool-cases (ltb d.attempts (budget d))) [
      | inl more ↦ inr (inl (due ∙ rw (more, e) refl))
      | inr spent ↦ inl spent
    ]
    by_start (inr e) = inr (inr (text_le_not_late end now e))

-- A failed attempt of the claim's holder: while the budget of attempts lasts, the delivery is
-- `retrying`, and due when the text of the time is not before the text of the end of its delay, which
-- is less than a second early or late; the attempt that ends the budget leaves it `failed` and never
-- due. The claim is gone, and the count of attempts stays.
pub complete_delivery-Rescheduled :
    (clock : Clock) (now : ℕ) (d : Delivery) (error : Option (List ℕ)) (client : Option String)
    (db : Db) {token : String}
    → find (by_id d.delivery_id) db.deliveries ≡ some d
    → d.status ≡ dispatching
    → d.claim_token ≡ some token
    → client_fits client d ≡ true
    → (r : Delivery) × (find
          (by_id d.delivery_id)
          (complete_delivery clock d failed error client db).1.deliveries
        ≡ some r)
      × Rescheduled clock.retry_from now d r
complete_delivery-Rescheduled clock now d error client db f s t c = (
  finish_row clock d failed error d,
  ap (λ (x : Result Delivery × Db). find (by_id d.delivery_id) x.1.deliveries)
        (complete_owned clock d failed error client db f s t c refl)
      ∙ find-write_completion clock d failed error client db f s t c,
  finish_row-Rescheduled clock now d error,
)
