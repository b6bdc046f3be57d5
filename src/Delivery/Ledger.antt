-- ===== src/Delivery/Ledger.antt =====
-- The open entries of `delivery_attempts` (src/vanth/server.py) seen as the claims that they record.
pub mod Claiming
pub mod Freeing
pub mod Completing
pub mod Relaying
pub mod Manual
use vanth.Prelude.{
  ℕ, ◌≡◌, refl, inl, inr, Bool, true, false, not, ◌&&◌, ◌||◌, String, Option, none, some, List, [],
  ◌∷◌, ◌++◌, arith, same, same_iff, same_as, if◌then◌else◌, Bool-cases, ap,
}
use vanth.Prelude.Rows.{find, update, delete}
use vanth.Delivery.{Attempt, Delivery, Db, is_dispatching, is_null, by_id, open_of}
use vanth.Delivery.Complete.{token_is}
use vanth.Delivery.Complete.Ownership.{HasKeys}

-- The tokens of the attempts of a delivery that have not ended.
unfoldable pub open_tokens : String → List Attempt → List (Option String)
open_tokens id [] = []
open_tokens id (a ∷ rest) =
    if open_of id a then a.claim_token ∷ open_tokens id rest else open_tokens id rest

-- The token under which a delivery is being dispatched, if it is.
abbrev pub held_tokens : Option Delivery → List (Option String)
held_tokens none = []
held_tokens (some d) = if is_dispatching d.status then d.claim_token ∷ [] else []

abbrev pub drop_token : String → List (Option String) → List (Option String)
drop_token t [] = []
drop_token t (x ∷ xs) = if same_as x t then drop_token t xs else x ∷ drop_token t xs

pub open_tokens-append :
    (id : String) (xs ys : List Attempt)
    → open_tokens id (xs ++ ys) ≡ open_tokens id xs ++ open_tokens id ys
unfolding open_tokens
open_tokens-append id [] ys = refl
open_tokens-append id (a ∷ rest) ys = elim (Bool-cases (open_of id a)) [
  | inl e ↦ rw e (ap (λ l. a.claim_token ∷ l) (open_tokens-append id rest ys))
  | inr e ↦ rw e (open_tokens-append id rest ys)
]

-- `f` ends every attempt that it touches.
module _ (f : Attempt → Attempt) (ends : (j : String) (a : Attempt) → open_of j (f a) ≡ false) where
  pub open_tokens-close :
      (i j : String) (rest : List Attempt)
      → open_tokens j (update (open_of i) f rest) ≡ (if same i j then [] else open_tokens j rest)
  unfolding open_tokens update open_of
  open_tokens-close i j [] = ground arith
  open_tokens-close i j (a ∷ rest) = ground (
    arith,
    ends j a,
    same_iff i j,
    same_iff a.delivery_id i,
    same_iff a.delivery_id j,
    open_tokens-close i j rest,
  )

  pub open_tokens-close_token :
      (i j t : String) (rest : List Attempt)
      → open_tokens j (update (λ a. open_of i a && token_is (some t) a) f rest)
        ≡ (if same i j then drop_token t (open_tokens j rest) else open_tokens j rest)
  unfolding open_tokens update open_of
  open_tokens-close_token i j t [] = ground arith
  open_tokens-close_token i j t (a ∷ rest) = ground (
    arith,
    ends j a,
    same_iff i j,
    same_iff a.delivery_id i,
    same_iff a.delivery_id j,
    open_tokens-close_token i j t rest,
  )

pub open_tokens-delete_token :
    (i j t : String) (rest : List Attempt)
    → open_tokens j (delete (λ a. open_of i a && token_is (some t) a) rest)
      ≡ (if same i j then drop_token t (open_tokens j rest) else open_tokens j rest)
unfolding open_tokens delete open_of
open_tokens-delete_token i j t [] = ground arith
open_tokens-delete_token i j t (a ∷ rest) = ground (
  arith,
  same_iff i j,
  same_iff a.delivery_id i,
  same_iff a.delivery_id j,
  open_tokens-delete_token i j t rest,
)

-- Ids are unique, and each delivery has one open attempt, under its token, while it is being
-- dispatched, and none otherwise.
pub record IsLedger (db : Db) : Type 0 where
  pub keys : HasKeys db
  pub tokens :
      (id : String) → open_tokens id db.attempts ≡ held_tokens (find (by_id id) db.deliveries)

abbrev pub key : Delivery → String
key d = d.delivery_id
