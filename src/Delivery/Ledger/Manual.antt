-- ===== src/Delivery/Ledger/Manual.antt =====
-- The ledger of attempts under `retry_delivery`, `clear_deliveries` and `mark_delivery` of
-- src/vanth/server.py.
use vanth.Prelude.{
  ℕ, ◌+◌, ◌≡◌, refl, sym, ap, subst, ◌∙◌, inl, inr, Bool, true, not, ◌&&◌, ◌||◌, String, Option,
  none, some, List, [], ◌∷◌, ◌++◌, arith, same, same_iff, same_as, leb, if◌then◌else◌, Bool-cases,
  ◌==◌,
}
use mathlib.Core.Path.{ap₂}
use vanth.Prelude.Rows.{find, update, count, find-some}
use vanth.Prelude.Keys.{touched, find-update-touched, Keyed, Keyed-update}
use vanth.Delivery.{Status, dispatching, Attempt, Delivery, Db, is_null, by_id, open_of}
use vanth.Delivery.Manual.{
  MarkClock, is_markable, marked, marked_attempt, mark_row, mark_delivery, retriable, requeued,
  retry_row, retry_delivery, Filter, one_of, drained_row, drained_attempt, write_drain, drain_ids,
  drain, is_clearable, clear_deliveries, matches,
}
use vanth.Delivery.Ledger.{open_tokens, held_tokens, open_tokens-append, IsLedger, key}

-- The ledger where a statement touches rows by a test of their key alone, or leaves them as held.
module _ (db db' : Db) (p : Delivery → Bool) (f : Delivery → Delivery) (v : IsLedger db)
    (keep : (x : Delivery) → (f x).delivery_id ≡ x.delivery_id)
    (rows : db'.deliveries ≡ update p f db.deliveries)
    (meet : (j : String)
      → open_tokens j db'.attempts ≡ held_tokens (touched p f (find (by_id j) db.deliveries))) where
  touch-IsLedger : IsLedger db'
  touch-IsLedger = record {
    keys = subst (λ l. Keyed key l) (sym rows) (Keyed-update key p f keep db.deliveries v.keys);
    tokens = λ j.
        meet j
        ∙ sym (
            ap held_tokens (
              ap (λ l. find (by_id j) l) rows
              ∙ find-update-touched (by_id j) p f (λ r. ap (λ i. same i j) (keep r))
                  db.deliveries));
  }

retry-held :
    (id : String) (o : Option Delivery)
    → held_tokens (touched (retriable id) requeued o) ≡ held_tokens o
unfolding retriable requeued
retry-held id none = refl
retry-held id (some d) = ground arith

requeued-id : (x : Delivery) → (requeued x).delivery_id ≡ x.delivery_id
unfolding requeued
requeued-id x = refl

retry_row-IsLedger :
    (id : String) (o : Option Delivery) (db : Db) → IsLedger db → IsLedger (retry_row id o db).1
unfolding retry_row
retry_row-IsLedger id none db v = v
retry_row-IsLedger id (some d) db v =
    touch-IsLedger db _ (retriable id) requeued v requeued-id refl
      (λ j. v.tokens j ∙ sym (retry-held id (find (by_id j) db.deliveries)))

-- A retry keeps the ledger: it never takes a delivery that is being dispatched.
pub retry_delivery-IsLedger :
    (id : String) (db : Db) → IsLedger db → IsLedger (retry_delivery id db).1
unfolding retry_delivery
retry_delivery-IsLedger id db v = retry_row-IsLedger id (find (by_id id) db.deliveries) db v

module _ (ids : List String) where
  hit_row : Delivery → Bool
  hit_row d = one_of ids d.delivery_id

  open_tokens-drain :
      (ended : ℕ) (j : String) (rest : List Attempt)
      → open_tokens j (
          update (λ a. one_of ids a.delivery_id && is_null a.ended_at) (drained_attempt ended) rest)
        ≡ (if one_of ids j then [] else open_tokens j rest)
  unfolding open_tokens update open_of drained_attempt
  open_tokens-drain ended j [] = ground arith
  open_tokens-drain ended j (a ∷ rest) =
      ground (arith, same_iff a.delivery_id j, open_tokens-drain ended j rest)

  held-drain :
      (j : String) (o : Option Delivery)
      → ((d : Delivery) → o ≡ some d → d.delivery_id ≡ j)
      → held_tokens (touched (λ d. one_of ids d.delivery_id) drained_row o)
        ≡ (if one_of ids j then [] else held_tokens o)
  unfolding drained_row
  held-drain j none at = ground arith
  held-drain j (some d) at = ground (arith, at d refl)

  drained-id : (x : Delivery) → (drained_row x).delivery_id ≡ x.delivery_id
  unfolding drained_row
  drained-id x = refl

  write_drain-IsLedger :
      (now ended : ℕ) (source : Delivery → Bool) (f : Filter) (db : Db)
      → IsLedger db
      → IsLedger (write_drain now ended source f ids db)
  unfolding write_drain
  write_drain-IsLedger now ended source f db v =
      touch-IsLedger db _ (λ d. one_of ids d.delivery_id) drained_row v drained-id refl
        λ j.
          open_tokens-drain ended j db.attempts
          ∙ ap (λ l. if one_of ids j then [] else l) (v.tokens j)
          ∙ sym (
              held-drain j (find (by_id j) db.deliveries)
                λ d found. (same_iff d.delivery_id j).0 (find-some (by_id j) db.deliveries found))

module _ (now ended : ℕ) (source : Delivery → Bool) (f : Filter) (db : Db) (v : IsLedger db) where
  drain-IsLedger : (n : ℕ) → IsLedger (drain now ended source f n db).1
  unfolding drain
  drain-IsLedger n = elim (Bool-cases (f.dry_run || (n == 0))) [
    | inl e ↦ rw e v
    | inr e ↦ rw e (write_drain-IsLedger (drain_ids now ended source f db) now ended source f db v)
  ]

  -- A drain keeps the ledger: it ends the open attempts of what it drains.
  pub clear_deliveries-IsLedger : IsLedger (clear_deliveries now ended source f db).1
  unfolding clear_deliveries
  clear_deliveries-IsLedger = elim (Bool-cases (not (leb 1 f.limit && leb f.limit 10000))) [
    | inl e ↦ rw e v
    | inr e ↦ rw e (elim (Bool-cases (not (is_clearable f.status))) [
      | inl e' ↦ rw e' v
      | inr e' ↦ rw e' (elim (Bool-cases (same_as f.job_id "")) [
        | inl k ↦ rw k v
        | inr k ↦ rw k (drain-IsLedger (count (matches now ended source f) db.deliveries))
      ])
    ])
  ]

module _ (clock : MarkClock) (attempt_id id : String) (status : Status)
    (error : Option (List ℕ)) where
  closed_mark :
      (n : ℕ) (d : Delivery)
      → open_tokens id (marked_attempt clock attempt_id id status error n d ∷ []) ≡ []
  unfolding open_tokens open_of marked_attempt
  closed_mark n d = ground arith

  free_mark :
      (n : ℕ) (d : Delivery)
      → is_markable status ≡ true
      → held_tokens (some (marked clock attempt_id id status error n d)) ≡ []
  unfolding marked
  free_mark n d h = ground arith

  -- The bug: to mark a delivery by hand while it is being dispatched leaves the attempt of its
  -- claim open, with no claim to end it.
  pub mark_delivery-strands :
      (db : Db) {d : Delivery} {token : String}
      → IsLedger db
      → find (by_id id) db.deliveries ≡ some d
      → d.status ≡ dispatching
      → d.claim_token ≡ some token
      → is_markable status ≡ true
      → (open_tokens id (mark_delivery clock attempt_id id status error db).1.attempts
          ≡ some token ∷ [])
        × ¬ IsLedger (mark_delivery clock attempt_id id status error db).1
  unfolding mark_delivery mark_row marked
  mark_delivery-strands db {d} {token} v found s t ok_status =
      rw (ok_status, found) (stranded, λ w. absurd (cc (w.tokens id, stranded, free)))
    where
      after : Db
      after = (mark_row clock attempt_id id status error (some d) db).1

      taken_mark :
          held_tokens
            (touched (by_id id) (marked clock attempt_id id status error (d.attempts + 1)) (some d))
          ≡ []
      taken_mark =
          rw (find-some (by_id id) db.deliveries found) (free_mark (d.attempts + 1) d ok_status)

      before : open_tokens id db.attempts ≡ some token ∷ []
      before = v.tokens id ∙ rw (found, s, t)

      stranded : open_tokens id after.attempts ≡ some token ∷ []
      stranded =
          open_tokens-append id db.attempts
            (marked_attempt clock attempt_id id status error (d.attempts + 1) d ∷ [])
          ∙ ap₂ ◌++◌ before (closed_mark (d.attempts + 1) d)

      free : held_tokens (find (by_id id) after.deliveries) ≡ []
      free =
          ap held_tokens (
            find-update-touched (by_id id) (by_id id)
              (marked clock attempt_id id status error (d.attempts + 1)) (λ r. refl) db.deliveries
            ∙ ap (touched (by_id id) (marked clock attempt_id id status error (d.attempts + 1)))
                found)
          ∙ taken_mark
