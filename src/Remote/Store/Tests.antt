-- ===== src/Remote/Store/Tests.antt =====
-- Concrete stores of a controller and of a remote, and the theorems of this folder at work on them.
pub mod Requests
pub mod Shadows
use vanth.Prelude.{
  ℕ, ◌+◌, ◌<◌, ◌≤◌, ◌≡◌, ◌⊎◌, ◌↔◌, refl, Bool, true, false, Option, none, some, List, [], ◌∷◌,
  String, arith, All,
}
use vanth.Prelude.Tests.{same}
use vanth.Prelude.Rows.{select, find, update, count}
use vanth.Time.{text_le}
use vanth.Remote.Feed.{FeedRow, FeedStore, epochs, epochs_of, or_one, read}
use vanth.Remote.Store.{Reply, raised, returned, replay_mismatch, value_error, transition, lookup}
use vanth.Remote.Store.Remotes.{Remote, NewRemote, get_remote}
use vanth.Remote.Store.Restore.{
  set_state_epoch, get_state_epoch, get_feed_epoch, rotate, appends, restores, run, restored-unread,
}

abbrev change : ℕ → FeedRow
change n = record {
  seq = n;
  state_epoch = 2;
  feed_epoch = 1;
  kind = "job.upsert";
  job_id = some "j1";
  payload = "{}";
  created_at = n;
}

abbrev feed : FeedStore
feed = record { rows = change 4 ∷ change 5 ∷ []; last_seq = 5; remote_state = some (2, none) }

abbrev restored : FeedStore
restored = record { rows = change 4 ∷ change 5 ∷ []; last_seq = 5; remote_state = some (3, some 2) }

restored_epoch : set_state_epoch 3 feed ≡ returned restored
unfolding set_state_epoch get_state_epoch get_feed_epoch rotate epochs epochs_of or_one
restored_epoch = refl

dated : All (λ r. r.feed_epoch ≤ get_feed_epoch feed) feed.rows
unfolding get_feed_epoch epochs epochs_of or_one
dated = omega arith

newer : get_state_epoch feed < 3
unfolding get_state_epoch epochs epochs_of or_one
newer = omega arith

restored-unread_example :
    All
      (λ r. 5 < r.seq)
      (read (run (appends 9 "job.upsert" none "{}" ∷ restores 2 ∷ []) restored) 4 10).changes
restored-unread_example =
    restored-unread 3 feed restored (appends 9 "job.upsert" none "{}" ∷ restores 2 ∷ []) 4 10 dated
      newer restored_epoch

refused_epoch : set_state_epoch 1 feed ≡ raised value_error
unfolding set_state_epoch get_state_epoch epochs epochs_of or_one
refused_epoch = refl

redriven : transition "accepted" "submitting" "request" ≡ returned "submitting"
unfolding transition lookup same
redriven = refl

terminal : transition "completed" "accepted" "request" ≡ raised value_error
unfolding transition lookup same
terminal = refl
