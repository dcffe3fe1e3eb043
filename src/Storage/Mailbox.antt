-- ===== src/Storage/Mailbox.antt =====
-- storage/mailbox.go, storage/flags.go: the emails of a mailbox.
pub mod Alive
pub mod Sequences
use atmail.Prelude.{
  ℕ, zero, suc, ◌+◌, ◌%◌, Bool, true, false, Option, none, some, List, [], ◌∷◌, ◌++◌, map,
  if◌then◌else◌,
}
use atmail.Storage.Files.{Email}
use atmail.Storage.Database.{
  Database, select_from, get_mailbox_emails, list_mailbox_emails, list_emails_no_mailbox,
  list_emails_with_flag, get_sequence, from_sequence, add_mailbox_email, remove_mailbox_email,
  delete_row, remove_emails_with_flag,
}

-- `imap.NumSet`: none, the numbers of a set, or the test of a dynamic set, which has a `*`.
pub data NumSet : Type 0 where
  every : NumSet
  seqs uids : List ℕ → NumSet
  dynamic_seqs dynamic_uids : (ℕ → Bool) → NumSet

-- `ToSequence`.
unfoldable pub to_sequence : ℕ → ℕ → Database → ℕ
unfolding get_sequence
to_sequence m id db = get_sequence m id db % 4294967296

abbrev pub id_before : Option ℕ → Option (List ℕ) → Option (List ℕ)
id_before none ids = none
id_before (some id) none = none
id_before (some id) (some ids) = some (id ∷ ids)

unfoldable pub ids_of_seqs : ℕ → List ℕ → Database → Option (List ℕ)
unfolding from_sequence
ids_of_seqs m [] db = some []
ids_of_seqs m (s ∷ ss) db = id_before (from_sequence m s db) (ids_of_seqs m ss db)

-- `GetIds`: none for a panic.
unfoldable pub get_ids : ℕ → NumSet → Database → Option (List ℕ)
unfolding ids_of_seqs
get_ids m every db = none
get_ids m (seqs ss) db = ids_of_seqs m ss db
get_ids m (uids is) db = some is
get_ids m (dynamic_seqs p) db = none
get_ids m (dynamic_uids p) db = none

abbrev pub with_ids : ℕ → Database → Option (List ℕ) → Option (List Email)
with_ids m db none = none
with_ids m db (some ids) = some (get_mailbox_emails m ids db)

-- `ListMailboxEmails`: none for a panic.
unfoldable pub list_emails : ℕ → NumSet → Database → Option (List Email)
unfolding get_mailbox_emails list_mailbox_emails get_ids to_sequence select_from
list_emails m every db = some (list_mailbox_emails m db)
list_emails m (seqs ss) db = with_ids m db (get_ids m (seqs ss) db)
list_emails m (uids is) db = with_ids m db (get_ids m (uids is) db)
list_emails m (dynamic_seqs p) db =
    some (select_from (list_mailbox_emails m db) λ e. p (to_sequence m e.id db))
list_emails m (dynamic_uids p) db = some (select_from (list_mailbox_emails m db) λ e. p e.id)

-- `AddMailboxEmails`, in a transaction: none where it fails.
unfoldable pub add_mailbox_emails : ℕ → List Email → Database → Option Database
unfolding add_mailbox_email
add_mailbox_emails m [] db = some db
add_mailbox_emails m (e ∷ es) db = elim (add_mailbox_email m e.id db) [
  | none ↦ none
  | some db' ↦ add_mailbox_emails m es db'
]

-- The loop of `deleteEmail` over emails, where `erase` is whether the deletion in the file of an email
-- has no error: the row is deleted first.
unfoldable pub delete_emails : (Email → Bool) → List Email → Database → Database × Bool
unfolding delete_row
delete_emails erase [] db = (db, true)
delete_emails erase (e ∷ es) db =
    let rest = delete_emails erase es (delete_row e.id db) in
    if erase e then rest else (delete_row e.id db, false)

unfoldable pub remove_all : ℕ → List ℕ → Database → Database
unfolding remove_mailbox_email
remove_all m [] db = db
remove_all m (id ∷ ids) db = remove_all m ids (remove_mailbox_email m id db)

-- `RemoveMailboxEmails`, and whether there was no error.
unfoldable pub remove_mailbox_emails : (Email → Bool) → ℕ → List ℕ → Database → Database × Bool
unfolding remove_all delete_emails list_emails_no_mailbox
remove_mailbox_emails erase m ids db =
    delete_emails erase (list_emails_no_mailbox (remove_all m ids db)) (remove_all m ids db)

abbrev pub after_deleting : ℕ → List Email → Database × Bool → Database × Option (List Email)
after_deleting flag es (db, true) = (remove_emails_with_flag flag db, some es)
after_deleting flag es (db, false) = (db, none)

-- `DeleteEmailsWithFlag`: the emails, or none for an error.
unfoldable pub delete_emails_with_flag :
    (Email → Bool) → ℕ → Database → Database × Option (List Email)
unfolding delete_emails list_emails_with_flag remove_emails_with_flag
delete_emails_with_flag erase flag db =
    after_deleting flag (list_emails_with_flag flag db)
      (delete_emails erase (list_emails_with_flag flag db) db)
