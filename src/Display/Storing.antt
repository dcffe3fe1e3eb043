-- ===== src/Display/Storing.antt =====
-- display/session_selected.go: the command STORE, which changes flags.
pub mod Results
mod Tests
use atmail.Prelude.{ℕ, Bool, true, false, Option, none, some, List, [], ◌∷◌, Text}
use atmail.Storage.Files.{Email}
use atmail.Storage.Database.{Database}
use atmail.Storage.Mailbox.{NumSet, list_emails}
use atmail.Storage.Flags.{FlagIds, add_email_flags, remove_email_flags, remove_email_all_flags}
use atmail.Display.Fetching.{Fetching, FetchOptions, Fetched, done, panicked, fetch}
use atmail.Display.Selected.{View}

-- `imap.StoreFlagsOp`.
pub data Op : Type 0 where
  set_flags add_flags del_flags : Op

abbrev pub after_adding : Database → Option Database → Database × Bool
after_adding db none = (db, false)
after_adding db (some db') = (db', true)

-- The switch, and whether there was no error.
unfoldable pub apply : FlagIds → Op → List Text → Email → Database → Database × Bool
unfolding add_email_flags remove_email_flags remove_email_all_flags
apply ids set_flags flags e db =
    let cleared = remove_email_all_flags e.id db in
    after_adding cleared (add_email_flags ids e.id flags cleared)
apply ids add_flags flags e db = after_adding db (add_email_flags ids e.id flags db)
apply ids del_flags flags e db = (remove_email_flags ids e.id flags db, true)

abbrev pub then_rest : Database × Bool → (Database → Database × Bool) → Database × Bool
then_rest (db, true) rest = rest db
then_rest (db, false) rest = (db, false)

-- The loop over the emails.
unfoldable pub apply_all : FlagIds → Op → List Text → List Email → Database → Database × Bool
unfolding apply
apply_all ids op flags [] db = (db, true)
apply_all ids op flags (e ∷ es) db =
    then_rest (apply ids op flags e db) λ db'. apply_all ids op flags es db'

module _ (env : Fetching) where
  -- `imap.FetchOptions{Flags: true}`.
  abbrev pub flags_only : FetchOptions env
  flags_only = record {
    uid = false;
    flags = true;
    internal_date = false;
    envelope = false;
    rfc822_size = false;
    body_structure = false;
    body_section = [];
    binary_section = [];
    binary_section_size = [];
  }

  abbrev pub fetched : Fetched env → Database × Option Bool
  fetched (db, msgs, done) = (db, some true)
  fetched (db, msgs, panicked) = (db, none)
  fetched (db, msgs, end) = (db, some false)

  abbrev pub stored : FlagIds → ℕ → NumSet → Bool → Database × Bool → Database × Option Bool
  unfolding fetch
  stored ids m set silent (db, false) = (db, some false)
  stored ids m set true (db, true) = (db, some true)
  stored ids m set false (db, true) = fetched (fetch env flags_only ids m set db)

  abbrev pub store_listed :
      FlagIds
      → ℕ
      → NumSet
      → Op
      → List Text
      → Bool
      → Database
      → Option (List Email)
      → Database × Option Bool
  unfolding apply_all stored
  store_listed ids m set op flags silent db none = (db, none)
  store_listed ids m set op flags silent db (some es) =
      stored ids m set silent (apply_all ids op flags es db)

  -- `Session.Store`, which fetches the flags where it is not silent, without what it writes to the
  -- clients: whether there was no error, or a panic.
  unfoldable pub store :
      FlagIds → View → NumSet → Op → List Text → Bool → Database → Database × Option Bool
  unfolding list_emails store_listed
  store ids selected set op flags silent db =
      store_listed ids selected.id set op flags silent db (list_emails selected.id set db)
