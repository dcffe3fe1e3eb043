-- ===== src/Display/Boxes.antt =====
-- display/session_auth.go, display/server.go: the mailboxes of a user, which the sessions share, and the
-- table of mailboxes.
pub mod Agreement
pub mod Shared
pub mod Renames
pub mod Examples
mod Tests
use atmail.Prelude.{
  ℕ, zero, suc, ◌+◌, max, Bool, true, false, not, ◌&&◌, ◌||◌, Option, none, some, List, [], ◌∷◌,
  ◌++◌, if◌then◌else◌, ◌==◌, is_some, is_empty, Text, eq_text, contains, lookup, insert,
}
use atmail.Storage.Files.{Email}
use atmail.Storage.Database.{Database, select_from, has_mailbox}
use atmail.Display.Selected.{View}

-- What a session gets.
pub data Reply : Type 0 where
  ok not_found already_exists cannot internal : Reply

-- The table of mailboxes, the other tables, and `Boxes` by the names.
pub record Server : Type 0 where
  pub mailboxes : List (ℕ × Text)
  pub tables : Database
  pub boxes : List (Text × View)

pub record Session : Type 0 where
  pub selected : Option View
  pub read_only : Bool
  pub subscribed : List Text

-- The id of the mailbox with a name.
unfoldable pub find_id : Text → List (ℕ × Text) → Option ℕ
unfolding eq_text
find_id name [] = none
find_id name ((i, n) ∷ rows) =
    let rest = find_id name rows in if eq_text n name then some i else rest

-- The id of a new row: one more than the highest.
unfoldable pub new_id : List (ℕ × Text) → ℕ
new_id [] = 1
new_id ((i, n) ∷ rows) = max (suc i) (new_id rows)

-- NewMailbox: none where the name is taken.
unfoldable pub new_mailbox : Text → List (ℕ × Text) → Option (ℕ × List (ℕ × Text))
unfolding find_id new_id
new_mailbox name rows =
    if is_some (find_id name rows)
    then none
    else some (new_id rows, rows ++ (new_id rows, name) ∷ [])

-- DeleteMailbox, on the table.
unfoldable pub delete_id : ℕ → List (ℕ × Text) → List (ℕ × Text)
delete_id id [] = []
delete_id id ((i, n) ∷ rows) =
    let rest = delete_id id rows in if i == id then rest else (i, n) ∷ rest

-- RenameMailbox: none where another mailbox has the name, and for the empty name.
unfoldable pub rename_id : ℕ → Text → List (ℕ × Text) → List (ℕ × Text)
rename_id id name [] = []
rename_id id name ((i, n) ∷ rows) =
    let rest = rename_id id name rows in if i == id then (i, name) ∷ rest else (i, n) ∷ rest

unfoldable pub rename_mailbox : ℕ → Text → List (ℕ × Text) → Option (List (ℕ × Text))
unfolding find_id rename_id
rename_mailbox id name rows = if is_empty name then none else elim (find_id name rows) [
  | none ↦ some (rename_id id name rows)
  | some i ↦ if i == id then some (rename_id id name rows) else none
]

-- DeleteMailbox and CleanEmails, on the other tables.
unfoldable pub clean : ℕ → Database → Database
unfolding select_from has_mailbox
clean id db =
    let rows = select_from db.mailbox_emails λ (m, e). not (m == id) in
    record {
      emails = select_from db.emails λ e. has_mailbox rows e.id;
      mailbox_emails = rows;
      emails_flags = select_from db.emails_flags λ (e, f). has_mailbox rows e;
    }

-- `Boxes.Delete`.
unfoldable pub delete_box : Text → List (Text × View) → List (Text × View)
unfolding eq_text
delete_box name [] = []
delete_box name ((k, v) ∷ m) =
    let rest = delete_box name m in if eq_text k name then rest else (k, v) ∷ rest

-- strings.HasSuffix(box, "/"), strings.Contains(box, "//") and strings.TrimPrefix(box, "/").
unfoldable pub ends_in_sep : Text → Bool
ends_in_sep [] = false
ends_in_sep (c ∷ []) = c == b'/'
ends_in_sep (c ∷ d ∷ t) = ends_in_sep (d ∷ t)

unfoldable pub has_two_seps : Text → Bool
has_two_seps [] = false
has_two_seps (c ∷ []) = false
has_two_seps (c ∷ d ∷ t) = (c == b'/' && d == b'/') || has_two_seps (d ∷ t)

abbrev pub trim_sep : Text → Text
trim_sep [] = []
trim_sep (c ∷ t) = if c == b'/' then t else c ∷ t

abbrev pub added : Text → Server → Option (ℕ × List (ℕ × Text)) → Server × Reply
added name s none = (s, internal)
added name s (some (id, rows)) = (
  record s { mailboxes = rows; boxes = insert name (record { id = id; name = name }) s.boxes },
  ok,
)

-- `Session.Create`.
unfoldable pub create : Text → Server → Server × Reply
unfolding lookup insert ends_in_sep has_two_seps new_mailbox
create box s =
    if is_some (lookup box s.boxes)
    then (s, already_exists)
    else if ends_in_sep box || (has_two_seps box || is_empty box)
    then (s, cannot)
    else added (trim_sep box) s (new_mailbox (trim_sep box) s.mailboxes)

abbrev pub deleted : Text → Server → Option View → Server × Reply
unfolding clean delete_id delete_box
deleted name s none = (s, not_found)
deleted name s (some v) = (
  record {
    mailboxes = delete_id v.id s.mailboxes;
    tables = clean v.id s.tables;
    boxes = delete_box name s.boxes;
  },
  ok,
)

-- `Session.Delete`.
unfoldable pub delete : Text → Server → Server × Reply
unfolding lookup clean delete_id delete_box
delete name s = deleted name s (lookup name s.boxes)

abbrev pub renamed_to : Server → Option (List (ℕ × Text)) → Server × Reply
renamed_to s none = (s, internal)
renamed_to s (some rows) = (record s { mailboxes = rows }, ok)

abbrev pub renamed : Text → Server → Option View → Server × Reply
unfolding rename_mailbox
renamed to s none = (s, not_found)
renamed to s (some v) = renamed_to s (rename_mailbox v.id to s.mailboxes)

-- `Session.Rename`.
unfoldable pub rename : Text → Text → Server → Server × Reply
unfolding lookup rename_mailbox
rename name to s = renamed to s (lookup name s.boxes)

-- GetOrCreateMailbox.
unfoldable pub get_or_create : Text → List (ℕ × Text) → ℕ × List (ℕ × Text)
unfolding find_id new_id
get_or_create name rows = elim (find_id name rows) [
  | some i ↦ (i, rows)
  | none ↦ (new_id rows, rows ++ (new_id rows, name) ∷ [])
]

abbrev pub selected : Text → Bool → Server → Session → Option View → Server × Session × Reply
unfolding get_or_create
selected name read_only s u none = (s, u, not_found)
selected name read_only s u (some v) = (
  record s { mailboxes = (get_or_create name s.mailboxes).1 },
  record u { selected = some v; read_only = read_only },
  ok,
)

-- `Session.Select`, without the data that it answers.
unfoldable pub select : Text → Bool → Server → Session → Server × Session × Reply
unfolding lookup get_or_create
select name read_only s u = selected name read_only s u (lookup name s.boxes)

-- `Session.Unselect`.
abbrev pub unselect : Session → Session
unselect u = record u { selected = none }

-- `Session.Subscribe` and `Session.Unsubscribe`.
unfoldable pub subscribe : Text → Server → Session → Session × Reply
unfolding lookup contains
subscribe name s u =
    if is_some (lookup name s.boxes)
    then (
      record u {
        subscribed = if contains u.subscribed name then u.subscribed else name ∷ u.subscribed;
      },
      ok,
    )
    else (u, not_found)

unfoldable pub unsubscribe_from : Text → List Text → List Text
unfolding eq_text
unsubscribe_from name [] = []
unsubscribe_from name (n ∷ ns) =
    let rest = unsubscribe_from name ns in if eq_text n name then rest else n ∷ rest

unfoldable pub unsubscribe : Text → Session → Session
unfolding unsubscribe_from
unsubscribe name u = record u { subscribed = unsubscribe_from name u.subscribed }
