-- ===== src/Remote/Tests.antt =====
-- Concrete feeds and journals, and the theorems of this folder at work on them.
use vanth.Prelude.{ℕ, suc, ◌+◌, ◌≡◌, refl, false, none, some, [], ◌∷◌, ◌++◌, arith}
use vanth.Prelude.Tests.{same}
use vanth.Prelude.Rows.{find, select}
use vanth.Remote.Feed.{FeedRow, FeedStore, epochs, read, read_rows, after_cursor, current}
use vanth.Remote.Feed.Paging.{in_order, last_of, IsOrdered, next_cursor, read-pages}
use vanth.Remote.Journal.{pending, Request, Entry, get}
use vanth.Remote.Journal.Kept.{records, resolves, prunes, run, run-kept}

abbrev change : ℕ → ℕ → FeedRow
change n epoch = record {
  seq = n;
  state_epoch = epoch;
  feed_epoch = 1;
  kind = "job";
  job_id = some "j1";
  payload = "{}";
  created_at = n;
}

-- Three changes of the current timeline, around one of another.
abbrev feed : FeedStore
feed = record {
  rows = change 1 2 ∷ change 2 1 ∷ change 4 2 ∷ change 5 2 ∷ [];
  last_seq = 5;
  remote_state = some (2, none);
}

feed-IsOrdered : IsOrdered feed
unfolding in_order last_of
feed-IsOrdered = record { order = refl; top = omega arith }

read-pages_example :
    (read feed 0 (2 + 2)).changes
    ≡ (read feed 0 2).changes ++ (read feed (next_cursor 0 (read feed 0 2).changes) 2).changes
read-pages_example = read-pages feed 0 2 2 feed-IsOrdered

no_more : (read feed 1 (suc 2)).has_more ≡ false
unfolding read read_rows after_cursor current epochs select
no_more = refl

abbrev submit : Request
submit = record {
  request_id = "r1";
  remote_id = "box";
  idempotency_key = "k1";
  method = "job.submit";
  payload = "{}";
  digest = "00";
  expected_state_epoch = none;
  expected_instance_id = none;
}

abbrev submitted : Entry
submitted = record { request = submit; status = pending; created_at = 10; updated_at = 10 }

submitted_found : get "r1" (submitted ∷ []) ≡ some submitted
unfolding get find same
submitted_found = refl

run-kept_example :
    get "r1" (run (records 20 submit ∷ resolves 30 "r2" ∷ prunes 40 1 ∷ []) (submitted ∷ []))
    ≡ some submitted
unfolding same
run-kept_example =
    run-kept (records 20 submit ∷ resolves 30 "r2" ∷ prunes 40 1 ∷ []) (submitted ∷ []) "r1"
      submitted refl (refl, (refl, (refl, tt))) submitted_found
