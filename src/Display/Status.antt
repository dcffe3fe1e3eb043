-- ===== src/Display/Status.antt =====
-- storage/mailbox.go, storage/mailbox_attributes.go, display/session_auth.go: what a session is told
-- of a mailbox.
pub mod Numbers
pub mod Next
mod Tests
use atmail.Prelude.{
  ℕ, suc, ◌+◌, ◌-◌, ◌%◌, min, Bool, true, false, not, ◌&&◌, Option, none, some, List, [], ◌∷◌, ◌++◌,
  if◌then◌else◌, ◌==◌, ltb, length, Text,
}
use atmail.Storage.Files.{Email}
use atmail.Storage.Database.{
  Database, has_row, count_mailbox_emails, list_mailbox_emails, select_from,
}
use atmail.Display.Boxes.{Server, get_or_create}

-- CountEmailsWithFlagInMailbox.
unfoldable pub count_with_flag : ℕ → ℕ → Database → ℕ
unfolding select_from has_row
count_with_flag flag m db =
    length (select_from db.emails_flags λ (e, f). f == flag && has_row db.mailbox_emails m e)

-- The first email by ascending id.
unfoldable pub lowest : List Email → Option ℕ
lowest [] = none
lowest (e ∷ es) = elim (lowest es) [ none ↦ some e.id | some i ↦ some (min e.id i) ]

-- GetLatestMailboxEmails with the limit 1: the id of the email.
unfoldable pub latest_email : ℕ → Database → Option ℕ
unfolding lowest list_mailbox_emails
latest_email m db = lowest (list_mailbox_emails m db)

-- A number as an uint32, and the difference of two.
abbrev pub to_uint32 : ℕ → ℕ
to_uint32 n = n % 4294967296

abbrev pub minus_uint32 : ℕ → ℕ → ℕ
minus_uint32 a b = (a + 4294967296 - b) % 4294967296

abbrev pub uid_after : Option ℕ → ℕ
uid_after none = 1
uid_after (some id) = to_uint32 (id + 1)

pub record SelectData : Type 0 where
  pub flags : List Text
  pub permanent_flags : List Text
  pub num_messages : ℕ
  pub uid_next : ℕ
  pub uid_validity : ℕ

-- The flags of ListMailboxFlags that a user has added, or those that none has.
unfoldable pub flags_added : Bool → List (Text × Bool) → List Text
flags_added b [] = []
flags_added b ((name, user_added) ∷ fs) =
    let rest = flags_added b fs in if (if user_added then b else not b) then name ∷ rest else rest

-- `DescribeMailbox`, with what ListMailboxFlags gives for an id.
unfoldable pub describe_mailbox : (ℕ → List (Text × Bool)) → Text → Server → Server × SelectData
unfolding get_or_create count_mailbox_emails flags_added latest_email
describe_mailbox list_mailbox_flags mailbox s =
    let (id, rows) = get_or_create mailbox s.mailboxes in
    (
      record s { mailboxes = rows },
      record {
        flags = flags_added false (list_mailbox_flags id);
        permanent_flags = flags_added true (list_mailbox_flags id);
        num_messages = to_uint32 (count_mailbox_emails id s.tables);
        uid_next = uid_after (latest_email id s.tables);
        uid_validity = to_uint32 id;
      },
    )

pub record StatusOptions : Type 0 where
  pub num_messages : Bool
  pub uid_validity : Bool
  pub num_deleted : Bool
  pub num_recent : Bool
  pub num_unseen : Bool
  pub uid_next : Bool

pub record StatusData : Type 0 where
  pub mailbox : Text
  pub num_messages : Option ℕ
  pub uid_validity : ℕ
  pub num_recent : Option ℕ
  pub num_unseen : Option ℕ
  pub uid_next : ℕ

-- `SeenFlag` and `DeletedFlag`.
abbrev pub seen_flag : ℕ
seen_flag = 1

abbrev pub deleted_flag : ℕ
deleted_flag = 4

-- The messages without the deleted ones, where these are asked for; none for a nil dereference.
abbrev pub less_deleted : Bool → ℕ → Option ℕ → Option (Option ℕ)
less_deleted false nbr messages = some messages
less_deleted true nbr none = none
less_deleted true nbr (some n) = some (some (minus_uint32 n (to_uint32 nbr)))

abbrev pub unseen_of : Bool → ℕ → Option ℕ → Option (Option ℕ)
unseen_of false nbr messages = some none
unseen_of true nbr none = none
unseen_of true nbr (some n) = some (some (minus_uint32 n (to_uint32 nbr)))

unfoldable pub status_of : Text → StatusOptions → ℕ → Database → Option StatusData
unfolding count_mailbox_emails count_with_flag latest_email
status_of mailbox opt id db =
    elim (less_deleted opt.num_deleted (count_with_flag deleted_flag id db)
      (if opt.num_messages then some (to_uint32 (count_mailbox_emails id db)) else none)) [
        | none ↦ none
        | some messages ↦
            elim (unseen_of opt.num_unseen (count_with_flag seen_flag id db) messages) [
              | none ↦ none
              | some unseen ↦ some (record {
                mailbox = mailbox;
                num_messages = messages;
                uid_validity = if opt.uid_validity then to_uint32 id else 0;
                num_recent = if opt.num_recent then some 0 else none;
                num_unseen = unseen;
                uid_next = if opt.uid_next then uid_after (latest_email id db) else 0;
              })
            ]
      ]

-- `StatusMailbox`: none for a panic.
unfoldable pub status_mailbox : Text → StatusOptions → Server → Server × Option StatusData
unfolding get_or_create status_of
status_mailbox mailbox opt s =
    let (id, rows) = get_or_create mailbox s.mailboxes in
    (record s { mailboxes = rows }, status_of mailbox opt id s.tables)

pub data Attribute : Type 0 where
  has_children has_no_children junk sent trash subscribed : Attribute

-- SELECT COUNT(*) FROM mailbox WHERE name LIKE ?, where LIKE is a parameter.
unfoldable pub count_like : (Text → Text → Bool) → Text → List (ℕ × Text) → ℕ
count_like like pattern_text [] = 0
count_like like pattern_text ((i, n) ∷ rows) =
    (if like n pattern_text then 1 else 0) + count_like like pattern_text rows

abbrev pub attribute_of : ℕ → List Attribute
attribute_of id =
    if id == 2 then junk ∷ [] else if id == 3 then sent ∷ [] else if id == 4 then trash ∷ [] else []

-- `GetMailboxAttributes`.
unfoldable pub get_mailbox_attributes :
    (Text → Text → Bool) → Text → Server → Server × List Attribute
unfolding count_like get_or_create
get_mailbox_attributes like mailbox s =
    let (id, rows) = get_or_create mailbox s.mailboxes in
    (
      record s { mailboxes = rows },
      (if ltb 1 (count_like like (mailbox ++ b'/' ∷ b'%' ∷ []) s.mailboxes)
            then has_children
            else has_no_children)
          ∷ attribute_of id,
    )
