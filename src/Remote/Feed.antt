-- ===== src/Remote/Feed.antt =====
-- `FeedStore` of src/vanth/remote/feed.py: the outbox of changes that controllers read by cursor.
pub mod Paging
use vanth.Prelude.{
  ℕ, zero, suc, ◌+◌, max, Bool, true, false, not, ◌&&◌, String, Option, none, some, List, [], ◌∷◌,
  ◌++◌, length, take, ltb, ◌==◌, if◌then◌else◌,
}
use vanth.Prelude.Rows.{select}

-- A row of `remote_feed`; `payload` is its JSON text.
pub record FeedRow : Type 0 where
  pub seq : ℕ
  pub state_epoch : ℕ
  pub feed_epoch : ℕ
  pub kind : String
  pub job_id : Option String
  pub payload : String
  pub created_at : ℕ

-- The table in the order of its primary key, the last key that AUTOINCREMENT gave, and the row of
-- `remote_state`, where there is one, with its `feed_epoch`, where it is set.
pub record FeedStore : Type 0 where
  pub rows : List FeedRow
  pub last_seq : ℕ
  pub remote_state : Option (ℕ × Option ℕ)

unfoldable pub or_one : Option ℕ → ℕ
or_one none = 1
or_one (some zero) = 1
or_one (some (suc n)) = suc n

unfoldable pub epochs_of : Option (ℕ × Option ℕ) → ℕ × ℕ
unfolding or_one
epochs_of none = (1, 1)
epochs_of (some (state, feed)) = (state, or_one feed)

unfoldable pub epochs : FeedStore → ℕ × ℕ
unfolding epochs_of
epochs store = epochs_of store.remote_state

-- state_epoch=? AND feed_epoch=?
unfoldable pub current : ℕ × ℕ → FeedRow → Bool
current at r = (r.state_epoch == at.0) && (r.feed_epoch == at.1)

unfoldable pub insert : ℕ → String → ℕ × ℕ → Option String → String → FeedStore → ℕ × FeedStore
insert now kind at job_id payload store = (
  store.last_seq + 1,
  record store {
    rows =
        store.rows
        ++ record {
          seq = store.last_seq + 1;
          state_epoch = at.0;
          feed_epoch = at.1;
          kind = kind;
          job_id = job_id;
          payload = payload;
          created_at = now;
        }
          ∷ [];
    last_seq = store.last_seq + 1;
  },
)

-- `append`, and `append_in_tx` within the caller's transaction
unfoldable pub append : ℕ → String → Option String → String → FeedStore → ℕ × FeedStore
unfolding insert
append now kind job_id payload store = insert now kind (epochs store) job_id payload store

-- ... AND feed_seq>?
unfoldable pub after_cursor : ℕ × ℕ → ℕ → FeedRow → Bool
unfolding current
after_cursor at seq r = current at r && ltb seq r.seq

-- SELECT MIN(feed_seq)
unfoldable pub min_seq : List FeedRow → Option ℕ
min_seq [] = none
min_seq (r ∷ rs) = elim (min_seq rs) [
  | none ↦ some r.seq
  | some m ↦ some (if ltb m r.seq then m else r.seq)
]

-- SELECT MAX(feed_seq)
unfoldable pub max_seq : List FeedRow → Option ℕ
max_seq [] = none
max_seq (r ∷ rs) = elim (max_seq rs) [ none ↦ some r.seq | some m ↦ some (max r.seq m) ]

pub record Page : Type 0 where
  pub state_epoch : ℕ
  pub feed_epoch : ℕ
  pub changes : List FeedRow
  pub has_more : Bool
  pub oldest_seq : Option ℕ
  pub high_water_seq : Option ℕ

module _ (store : FeedStore) where
  -- A cursor that is missing, or names no number, counts as 0.
  unfoldable pub read_rows : ℕ → ℕ → List FeedRow
  unfolding after_cursor
  read_rows cursor limit = take limit (select (after_cursor (epochs store) cursor) store.rows)

  unfoldable pub read : ℕ → ℕ → Page
  unfolding read_rows min_seq max_seq
  read cursor limit = record {
    state_epoch = (epochs store).0;
    feed_epoch = (epochs store).1;
    changes = read_rows cursor limit;
    has_more =
        (length (read_rows cursor limit) == limit) && ltb 0 (length (read_rows cursor limit));
    oldest_seq = min_seq (select (current (epochs store)) store.rows);
    high_water_seq = max_seq (select (current (epochs store)) store.rows);
  }

  unfoldable pub feed_high_water : Option ℕ
  unfolding min_seq current
  feed_high_water = min_seq (select (current (epochs store)) store.rows)
