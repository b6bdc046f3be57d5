-- ===== src/Remote/Store/Restore.antt =====
-- `RemoteOperationStore.set_state_epoch` of src/vanth/remote/store.py, and the feed around a restore.
use vanth.Prelude.{
  ℕ, zero, suc, ◌+◌, ◌≤◌, ◌<◌, ◌≡◌, ◌⊎◌, refl, ap, inl, inr, true, String, Option, none, some, List,
  [], ◌∷◌, arith, take, ltb, ◌==◌, if◌then◌else◌, Bool-cases, All, All-append, All-map,
  Option-cases, sym, subst,
}
use vanth.Prelude.Rows.{select}
use vanth.Remote.Feed.{
  FeedRow, FeedStore, or_one, epochs_of, epochs, insert, append, after_cursor, current, read_rows,
  read,
}
use vanth.Remote.Store.{Reply, Reply-cases, raised, returned, value_error}

unfoldable pub get_state_epoch : FeedStore → ℕ
unfolding epochs
get_state_epoch store = (epochs store).0

unfoldable pub get_feed_epoch : FeedStore → ℕ
unfolding epochs
get_feed_epoch store = (epochs store).1

-- UPDATE remote_state ... WHERE id=1 AND state_epoch=?, and the error where it took no row
unfoldable pub rotate : ℕ → FeedStore → Reply FeedStore
rotate epoch store = elim store.remote_state [
  | none ↦ raised value_error
  | some row ↦
      returned (record store { remote_state = some (epoch, some (get_feed_epoch store + 1)) })
]

-- An epoch that is no number, or below 1, counts as 0. A refusal rolls the transaction back.
unfoldable pub set_state_epoch : ℕ → FeedStore → Reply FeedStore
unfolding rotate get_state_epoch
set_state_epoch epoch store =
    if epoch == 0
    then raised value_error
    else if ltb epoch (get_state_epoch store)
    then raised value_error
    else if epoch == get_state_epoch store
    then returned store
    else rotate epoch store

-- One write to the remote's feed or to its epochs.
pub data FeedOp : Type 0 where
  appends : (now : ℕ) (kind : String) (job_id : Option String) (payload : String) → FeedOp
  restores : (epoch : ℕ) → FeedOp

abbrev pub or_kept : FeedStore → Reply FeedStore → FeedStore
or_kept store (raised e) = store
or_kept store (returned next) = next

unfoldable pub step : FeedOp → FeedStore → FeedStore
step (appends now kind job_id payload) store = (append now kind job_id payload store).1
step (restores epoch) store = or_kept store (set_state_epoch epoch store)

unfoldable pub run : List FeedOp → FeedStore → FeedStore
run [] store = store
run (o ∷ os) store = run os (step o store)

-- Both epochs of the second store are those of the first, or both are above them.
abbrev pub Follows : FeedStore → FeedStore → Type 0
Follows s t =
    ((get_state_epoch s ≡ get_state_epoch t) × (get_feed_epoch s ≡ get_feed_epoch t))
    ⊎ ((get_state_epoch s < get_state_epoch t) × (get_feed_epoch s < get_feed_epoch t))

-- What a restore that is accepted leaves.
pub restored-cases :
    (epoch : ℕ) (store next : FeedStore)
    → set_state_epoch epoch store ≡ returned next
    → ((epoch ≡ get_state_epoch store) × (next ≡ store))
      ⊎ ((get_state_epoch store < epoch)
          × (get_state_epoch next ≡ epoch)
          × (get_feed_epoch next ≡ get_feed_epoch store + 1)
          × (next.rows ≡ store.rows)
          × (next.last_seq ≡ store.last_seq))
unfolding set_state_epoch rotate get_state_epoch get_feed_epoch epochs epochs_of or_one
restored-cases epoch store next h = elim (Option-cases store.remote_state) [
  | inl e ↦ ground (arith, e, h)
  | inr (row, e) ↦ ground (arith, e, h)
]

step-Follows : (o : FeedOp) (store : FeedStore) → Follows store (step o store)
unfolding step append insert get_state_epoch get_feed_epoch epochs
step-Follows (appends now kind job_id payload) store = inl (refl, refl)
step-Follows (restores epoch) store = elim (Reply-cases (set_state_epoch epoch store)) [
  | inl (e, refused) ↦ rw refused (inl (refl, refl))
  | inr (next, accepted) ↦ rw accepted (elim (restored-cases epoch store next accepted) [
    | inl (equal, kept) ↦ inl (ap get_state_epoch (sym kept), ap get_feed_epoch (sym kept))
    | inr (above, now, rotated, rows, last) ↦
        inr (omega (arith, above, now), omega (arith, rotated))
  ])
]

-- Whatever is written, the epochs stay as they are together or grow together.
pub run-Follows : (os : List FeedOp) (store : FeedStore) → Follows store (run os store)
unfolding run
run-Follows [] store = inl (refl, refl)
run-Follows (o ∷ os) store = ground (arith, step-Follows o store, run-Follows os (step o store))

-- The changes of the current timeline are those above `n`.
pub record Fresh (n : ℕ) (store : FeedStore) : Type 0 where
  pub dated : All (λ r. r.feed_epoch ≤ get_feed_epoch store) store.rows
  pub above : All (λ r. current (epochs store) r ≡ true → n < r.seq) store.rows
  pub below : n ≤ store.last_seq

append-Fresh :
    (n now : ℕ) (kind : String) (job_id : Option String) (payload : String) (store : FeedStore)
    → Fresh n store
    → Fresh n (append now kind job_id payload store).1
unfolding append insert get_feed_epoch epochs
append-Fresh n now kind job_id payload store f = record {
  dated = All-append _ store.rows _ f.dated (omega arith, tt);
  above = All-append _ store.rows _ f.above ((λ c. omega (arith, f.below)), tt);
  below = omega (arith, f.below);
}

-- A restore to a new epoch leaves no change of the current timeline.
restored-Fresh :
    (n epoch : ℕ) (store next : FeedStore)
    → All (λ r. r.feed_epoch ≤ get_feed_epoch store) store.rows
    → n ≤ store.last_seq
    → get_feed_epoch next ≡ get_feed_epoch store + 1
    → next.rows ≡ store.rows
    → next.last_seq ≡ store.last_seq
    → Fresh n next
unfolding get_feed_epoch get_state_epoch current
restored-Fresh n epoch store next dated below rotated rows last = record {
  dated =
      subst (All (λ r. r.feed_epoch ≤ get_feed_epoch next)) (sym rows)
        (All-map store.rows (λ r h. omega (arith, h, rotated)) dated);
  above =
      subst (All (λ r. current (epochs next) r ≡ true → n < r.seq)) (sym rows)
        (All-map store.rows (λ r h c. ground (arith, h, rotated, c)) dated);
  below = omega (arith, last, below);
}

step-Fresh : (n : ℕ) (o : FeedOp) (store : FeedStore) → Fresh n store → Fresh n (step o store)
unfolding step
step-Fresh n (appends now kind job_id payload) store f =
    append-Fresh n now kind job_id payload store f
step-Fresh n (restores epoch) store f = elim (Reply-cases (set_state_epoch epoch store)) [
  | inl (e, refused) ↦ rw refused f
  | inr (next, accepted) ↦ rw accepted (elim (restored-cases epoch store next accepted) [
    | inl (equal, kept) ↦ subst (Fresh n) (sym kept) f
    | inr (above, now, rotated, rows, last) ↦
        restored-Fresh n epoch store next f.dated f.below rotated rows last
  ])
]

run-Fresh : (n : ℕ) (os : List FeedOp) (store : FeedStore) → Fresh n store → Fresh n (run os store)
unfolding run
run-Fresh n [] store f = f
run-Fresh n (o ∷ os) store f = run-Fresh n os (step o store) (step-Fresh n o store f)

page-above :
    (n cursor : ℕ) (at : ℕ × ℕ) (rs : List FeedRow)
    → All (λ r. current at r ≡ true → n < r.seq) rs
    → All (λ r. n < r.seq) (select (after_cursor at cursor) rs)
unfolding select after_cursor
page-above n cursor at [] a = tt
page-above n cursor at (r ∷ rs) a = elim (Bool-cases (after_cursor at cursor r)) [
  | inl hit ↦ rw hit (a.0 (ground (arith, hit)), page-above n cursor at rs a.1)
  | inr miss ↦ rw miss (page-above n cursor at rs a.1)
]

take-All : (P : FeedRow → Type 0) (n : ℕ) (rs : List FeedRow) → All P rs → All P (take n rs)
take-All P zero rs a = tt
take-All P (suc n) [] a = tt
take-All P (suc n) (r ∷ rs) a = (a.0, take-All P n rs a.1)

-- Where no row is dated after the current feed epoch, and a restore to a greater state epoch is
-- accepted, no page that is read afterwards holds a change from before it: not with any cursor,
-- nor after any further appends and restores.
pub restored-unread :
    (epoch : ℕ) (store next : FeedStore) (os : List FeedOp) (cursor limit : ℕ)
    → All (λ r. r.feed_epoch ≤ get_feed_epoch store) store.rows
    → get_state_epoch store < epoch
    → set_state_epoch epoch store ≡ returned next
    → All (λ r. store.last_seq < r.seq) (read (run os next) cursor limit).changes
unfolding read read_rows
restored-unread epoch store next os cursor limit dated newer accepted = take-All _ limit _ (
    page-above store.last_seq cursor (epochs (run os next)) (run os next).rows
      (run-Fresh store.last_seq os next fresh).above)
  where
    fresh : Fresh store.last_seq next
    fresh = elim (restored-cases epoch store next accepted) [
      | inl (equal, kept) ↦ absurd (omega (arith, equal, newer))
      | inr (above, now, rotated, rows, last) ↦
          restored-Fresh store.last_seq epoch store next dated (omega arith) rotated rows last
    ]
