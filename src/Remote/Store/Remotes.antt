-- ===== src/Remote/Store/Remotes.antt =====
-- The table `remotes` of `RemoteStore`, src/vanth/remote/store.py: a controller's remotes.
use vanth.Prelude.{
  ℕ, Bool, true, false, ◌&&◌, String, Option, none, some, List, [], ◌∷◌, ◌++◌, same, codes, ltb,
  ◌==◌, if◌then◌else◌,
}
use vanth.Prelude.Rows.{find, update, count}
use vanth.Prelude.Text.{strip}
use vanth.Remote.Store.{Reply, raised, returned, value_error, remote_error, transition}

-- A change-feed cursor; the column holds its JSON text.
pub record Cursor : Type 0 where
  pub state_epoch : ℕ
  pub feed_epoch : ℕ
  pub seq : ℕ

-- What a caller of `create_remote` gives.
pub record NewRemote : Type 0 where
  pub name : Option String
  pub target : String
  pub state : String
  pub state_epoch : ℕ
  pub instance_id : Option String
  pub controller_id : Option String
  pub credential_state : Option String
  pub pairing_state : String
  pub key_path : Option String
  pub known_hosts_path : Option String
  pub installed_at : Option String

-- A row of `remotes`; `info` keeps what `create_remote` was given, for the columns that stay so.
pub record Remote : Type 0 where
  pub remote_id : String
  pub info : NewRemote
  pub state : String
  pub state_epoch : ℕ
  pub instance_id : Option String
  pub snapshot_cursor : Option String
  pub feed_cursor : Option Cursor
  pub created_at : ℕ
  pub updated_at : ℕ

abbrev pub with_remote : String → Remote → Bool
with_remote id r = same r.remote_id id

-- not value.strip()
unfoldable pub is_blank : String → Bool
unfolding strip
is_blank text = elim (strip (codes text)) [ [] ↦ true | c ∷ cs ↦ false ]

unfoldable pub create_remote : ℕ → String → NewRemote → List Remote → Reply (List Remote)
create_remote stamp id info rows =
    if is_blank info.target
    then raised value_error
    else returned (
        rows
        ++ record {
          remote_id = id;
          info = info;
          state = info.state;
          state_epoch = info.state_epoch;
          instance_id = info.instance_id;
          snapshot_cursor = none;
          feed_cursor = none;
          created_at = stamp;
          updated_at = stamp;
        }
          ∷ [])

abbrev pub or_unknown : {A : Type 0} → Option A → Reply A
or_unknown none = raised value_error
or_unknown (some a) = returned a

unfoldable pub get_remote : String → List Remote → Reply Remote
get_remote id rows = or_unknown (find (with_remote id) rows)

-- The write that a caller makes where what it checked first is no error.
abbrev pub checked : {A B : Type 0} → Reply A → B → Reply B
checked (raised e) b = raised e
checked (returned a) b = returned b

moved_from : String → Reply Remote → Reply String
moved_from state (raised e) = raised e
moved_from state (returned r) = transition r.state state "pairing"

unfoldable pub update_remote_state : ℕ → String → String → List Remote → Reply (List Remote)
unfolding moved_from get_remote
update_remote_state stamp id state rows =
    checked (moved_from state (get_remote id rows))
      (update (with_remote id) (λ r. record r { state = state; updated_at = stamp }) rows)

agreeing : ℕ → Reply Remote → Reply (Unit {0})
agreeing expected (raised e) = raised e
agreeing expected (returned r) =
    if r.state_epoch == expected then returned tt else raised remote_error

unfoldable pub check_state_epoch : String → Option ℕ → List Remote → Reply (Unit {0})
unfolding agreeing get_remote
check_state_epoch id none rows = returned tt
check_state_epoch id (some expected) rows = agreeing expected (get_remote id rows)

-- The row is changed and committed before `get_remote` finds that there is none.
unfoldable pub set_state_epoch : ℕ → String → ℕ → List Remote → Reply (List Remote)
unfolding get_remote
set_state_epoch stamp id epoch rows =
    let next =
      update (with_remote id) (λ r. record r { state_epoch = epoch; updated_at = stamp }) rows in
    if epoch == 0 then raised value_error else checked (get_remote id next) next

unfoldable pub set_instance_id : ℕ → String → String → List Remote → Reply (List Remote)
set_instance_id stamp id instance_id rows =
    if is_blank instance_id
    then raised value_error
    else if count (with_remote id) rows == 0
    then raised value_error
    else returned (
        update (with_remote id)
          (λ r. record r { instance_id = some instance_id; updated_at = stamp }) rows)

unfoldable pub set_snapshot_cursor : ℕ → String → String → List Remote → List Remote
set_snapshot_cursor stamp id cursor rows =
    update (with_remote id) (λ r. record r { snapshot_cursor = some cursor; updated_at = stamp })
      rows

unfoldable pub set_feed_cursor : ℕ → String → Option Cursor → List Remote → List Remote
set_feed_cursor stamp id cursor rows =
    update (with_remote id) (λ r. record r { feed_cursor = cursor; updated_at = stamp }) rows

abbrev pub cursor_of : Option Remote → Option Cursor
cursor_of none = none
cursor_of (some r) = r.feed_cursor

unfoldable pub get_feed_cursor : String → List Remote → Option Cursor
get_feed_cursor id rows = cursor_of (find (with_remote id) rows)

-- UPDATE remotes SET state_epoch=? ... WHERE remote_id=? AND state_epoch<?
unfoldable pub raise_state_epoch : ℕ → String → ℕ → List Remote → List Remote
raise_state_epoch stamp id epoch rows =
    update (λ r. same r.remote_id id && ltb r.state_epoch epoch)
      (λ r. record r { state_epoch = epoch; updated_at = stamp }) rows
