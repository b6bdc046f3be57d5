-- ===== src/Delivery/Ledger/Freeing.antt =====
-- The ledger of attempts where a statement frees the row of a claim (src/vanth/server.py).
use vanth.Prelude.{
  ◌≡◌, refl, sym, ap, subst, ◌∙◌, inl, inr, Bool, true, false, String, some, [], ◌∷◌, same,
  same_iff, same_as_iff, if◌then◌else◌, Bool-cases,
}
use vanth.Prelude.Rows.{find, update}
use vanth.Prelude.Keys.{touched, Keyed, Keyed-update, find-update-key}
use vanth.Delivery.{dispatching, Delivery, Db, is_dispatching, by_id}
use vanth.Delivery.Ledger.{open_tokens, held_tokens, drop_token, IsLedger, key}

-- Freeing the row that holds a claim, and dropping the attempts under its token.
module _ (db db' : Db) (id t : String) (r : Delivery) (p : Delivery → Bool)
    (f : Delivery → Delivery) (v : IsLedger db) (found : find (by_id id) db.deliveries ≡ some r)
    (status : r.status ≡ dispatching) (token : r.claim_token ≡ some t)
    (only : (x : Delivery) → p x ≡ true → x.delivery_id ≡ id)
    (keep : (x : Delivery) → (f x).delivery_id ≡ x.delivery_id) (hit : p r ≡ true)
    (frees : is_dispatching (f r).status ≡ false) (rows : db'.deliveries ≡ update p f db.deliveries)
    (dropped : (j : String)
      → open_tokens j db'.attempts ≡ (
          if same id j
          then drop_token t (open_tokens j db.attempts)
          else open_tokens j db.attempts)) where
  held_after :
      (j : String)
      → held_tokens (find (by_id j) db'.deliveries)
        ≡ (if same id j then [] else held_tokens (find (by_id j) db.deliveries))
  held_after j =
      ap (λ l. held_tokens (find (by_id j) l)) rows
      ∙ ap held_tokens (find-update-key key id j p f only keep db.deliveries)
      ∙ ap (λ o. held_tokens (if same id j then touched p f o else find (by_id j) db.deliveries))
          found
      ∙ elim (Bool-cases (same id j)) [ inl e ↦ rw (e, hit, frees) | inr e ↦ rw e ]

  the_token : open_tokens id db.attempts ≡ some t ∷ []
  the_token = v.tokens id ∙ rw (found, status, token)

  drop_self : drop_token t (some t ∷ []) ≡ []
  drop_self = rw ((same_as_iff (some t) t).1 refl)

  pub free-IsLedger : IsLedger db'
  free-IsLedger = record {
    keys = subst (λ l. Keyed key l) (sym rows) (Keyed-update key p f keep db.deliveries v.keys);
    tokens = λ j. dropped j ∙ meet j ∙ sym (held_after j);
  }
    where
      meet :
          (j : String)
          → (if same id j
              then drop_token t (open_tokens j db.attempts)
              else open_tokens j db.attempts)
            ≡ (if same id j then [] else held_tokens (find (by_id j) db.deliveries))
      meet j = elim (Bool-cases (same id j)) [
        | inl e ↦ rw e (
            subst (λ i. drop_token t (open_tokens i db.attempts) ≡ []) ((same_iff id j).0 e)
              (ap (drop_token t) the_token ∙ drop_self))
        | inr e ↦ rw e (v.tokens j)
      ]
