-- ===== src/Storage/Delivery.antt =====
-- storage/email.go: StoreEmail with its callback, and what it is called for.
pub mod Delivered
pub mod Examples
mod Tests
use atmail.Prelude.{
  ℕ, Bool, true, false, Option, none, some, List, [], ◌∷◌, if◌then◌else◌, is_empty, Text, ◌==◌,
  ◌||◌,
}
use atmail.Storage.Format.{Gzip}
use atmail.Storage.Files.{Store, store_email, new_email}
use atmail.Storage.Database.{Database, add_mailbox_email}
use atmail.Storage.Flags.{add_email_flag}
use atmail.Display.Boxes.{Server, get_or_create}

-- The files of a user, and the tables.
pub record Account : Type 0 where
  pub store : Store
  pub server : Server

-- What a callback does to the tables in the transaction: none for an error.
abbrev pub Callback : Type 0
Callback = Server → Option Server

-- The tables with the row that the transaction has added.
abbrev pub with_row : Store → Server → Server
with_row stored s = record s { tables = record s.tables { emails = stored.emails } }

abbrev pub committed : Account → Store → Store → ℕ → Option Server → Account × Option ℕ
committed a stored not_stored id none = (record a { store = not_stored }, none)
committed a stored not_stored id (some server) =
    (record { store = stored; server = server }, some id)

abbrev pub called : Callback → Account → Store → Store × Option ℕ → Account × Option ℕ
called callback a not_stored (stored, none) = (record a { store = stored }, none)
called callback a not_stored (stored, some id) =
    committed a stored not_stored id (callback (with_row stored a.server))

-- `StoreEmail`, where the row that is added has this id.
unfoldable pub store_with : Gzip → Text → ℕ → Bool → Text → Callback → Account → Account × Option ℕ
unfolding store_email new_email
store_with gzip now id encrypted b callback a =
    called callback a (store_email gzip now none encrypted b a.store).0
      (store_email gzip now (new_email now b id a.store) encrypted b a.store)

abbrev pub in_tables : Server → Option Database → Option Server
in_tables s none = none
in_tables s (some db) = some (record s { tables = db })

-- Whether the table has a mailbox with an id.
unfoldable pub has_box : ℕ → List (ℕ × Text) → Bool
has_box box [] = false
has_box box ((i, n) ∷ rows) = i == box || has_box box rows

-- AddMailboxEmail, as a callback: an error where the mailbox is not in the table.
unfoldable pub add_to : ℕ → ℕ → Callback
unfolding has_box add_mailbox_email
add_to box id s =
    if has_box box s.mailboxes then in_tables s (add_mailbox_email box id s.tables) else none

abbrev pub junk_flag : ℕ
junk_flag = 8

abbrev pub junk_mailbox : ℕ
junk_mailbox = 2

abbrev pub inbox_mailbox : ℕ
inbox_mailbox = 1

abbrev pub then_add : ℕ → ℕ → Option Server → Option Server
unfolding add_to
then_add box id none = none
then_add box id (some s) = add_to box id s

-- The callback of `StoreSpam`.
unfoldable pub add_spam : ℕ → Callback
unfolding then_add add_email_flag
add_spam id s = then_add junk_mailbox id (in_tables s (add_email_flag id junk_flag s.tables))

-- `StoreSpam`.
unfoldable pub store_spam : Gzip → Text → ℕ → Bool → Text → Account → Account × Option ℕ
unfolding store_with add_spam
store_spam gzip now id encrypted b a = store_with gzip now id encrypted b (add_spam id) a

-- The callback of `StoreEmailInbox`.
unfoldable pub add_inbox : Text → ℕ → Callback
unfolding add_to get_or_create
add_inbox folder id s =
    if is_empty folder
    then add_to inbox_mailbox id s
    else add_to (get_or_create folder s.mailboxes).0 id
        (record s { mailboxes = (get_or_create folder s.mailboxes).1 })

-- `StoreEmailInbox`.
unfoldable pub store_email_inbox :
    Gzip → Text → ℕ → Bool → Text → Text → Account → Account × Option ℕ
unfolding store_with add_inbox
store_email_inbox gzip now id encrypted b folder a =
    store_with gzip now id encrypted b (add_inbox folder id) a
