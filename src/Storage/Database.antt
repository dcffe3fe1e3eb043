-- ===== src/Storage/Database.antt =====
-- storage/store/query/, storage/store/schema/: the tables of emails, of the emails of a mailbox and of
-- the flags of an email, and the queries on them.
use atmail.Prelude.{
  ℕ, ◌+◌, ◌-◌, Bool, false, not, ◌&&◌, ◌||◌, Option, none, some, List, [], ◌∷◌, ◌++◌, if◌then◌else◌,
  ◌==◌, leb, length, get_elem?,
}
use atmail.Storage.Files.{Email}

-- The tables, in the order of their rows. Those of mailboxes and flags have their ids here only.
pub record Database : Type 0 where
  pub emails : List Email
  pub mailbox_emails : List (ℕ × ℕ)
  pub emails_flags : List (ℕ × ℕ)

-- WHERE.
unfoldable pub select_from {ℓ} : {A : Type ℓ} → List A → (A → Bool) → List A
select_from [] p = []
select_from (a ∷ xs) p = let rest = select_from xs p in if p a then a ∷ rest else rest

-- EXISTS (SELECT * ... WHERE the row is this one).
unfoldable pub has_row : List (ℕ × ℕ) → ℕ → ℕ → Bool
has_row [] a b = false
has_row ((x, y) ∷ rows) a b = (x == a && y == b) || has_row rows a b

-- EXISTS, of a row with this email in `mailbox_emails`.
unfoldable pub has_mailbox : List (ℕ × ℕ) → ℕ → Bool
has_mailbox [] id = false
has_mailbox ((m, e) ∷ rows) id = e == id || has_mailbox rows id

unfoldable pub has_id : List ℕ → ℕ → Bool
has_id [] id = false
has_id (i ∷ is) id = i == id || has_id is id

unfoldable pub has_email : List Email → ℕ → Bool
has_email [] id = false
has_email (e ∷ es) id = e.id == id || has_email es id

-- GetMailboxEmails.
unfoldable pub get_mailbox_emails : ℕ → List ℕ → Database → List Email
unfolding select_from has_row has_id
get_mailbox_emails m ids db =
    select_from db.emails λ e. has_row db.mailbox_emails m e.id && has_id ids e.id

-- ListMailboxEmails.
unfoldable pub list_mailbox_emails : ℕ → Database → List Email
unfolding select_from has_row
list_mailbox_emails m db = select_from db.emails λ e. has_row db.mailbox_emails m e.id

-- ListEmailsNoMailbox.
unfoldable pub list_emails_no_mailbox : Database → List Email
unfolding select_from has_mailbox
list_emails_no_mailbox db = select_from db.emails λ e. not (has_mailbox db.mailbox_emails e.id)

-- ListEmailsWithFlag.
unfoldable pub list_emails_with_flag : ℕ → Database → List Email
unfolding select_from has_row
list_emails_with_flag flag db = select_from db.emails λ e. has_row db.emails_flags e.id flag

-- The email_ids of a mailbox.
unfoldable pub ids_of : ℕ → List (ℕ × ℕ) → List ℕ
ids_of m [] = []
ids_of m ((x, e) ∷ rows) = let rest = ids_of m rows in if x == m then e ∷ rest else rest

-- ORDER BY ... DESC.
unfoldable pub sort_in : ℕ → List ℕ → List ℕ
sort_in a [] = a ∷ []
sort_in a (b ∷ xs) = let rest = sort_in a xs in if leb b a then a ∷ b ∷ xs else b ∷ rest

unfoldable pub descending : List ℕ → List ℕ
unfolding sort_in
descending [] = []
descending (a ∷ xs) = sort_in a (descending xs)

-- COUNT(*) of the ids that are not above one.
unfoldable pub count_le : ℕ → List ℕ → ℕ
count_le id [] = 0
count_le id (e ∷ es) = (if leb e id then 1 else 0) + count_le id es

-- CountMailboxEmails.
unfoldable pub count_mailbox_emails : ℕ → Database → ℕ
unfolding ids_of
count_mailbox_emails m db = length (ids_of m db.mailbox_emails)

-- GetSequence.
unfoldable pub get_sequence : ℕ → ℕ → Database → ℕ
unfolding ids_of count_le
get_sequence m id db = count_le id (ids_of m db.mailbox_emails)

-- FromSequence: none where there is no row. An offset below 0 is 0.
unfoldable pub from_sequence : ℕ → ℕ → Database → Option ℕ
unfolding ids_of descending
from_sequence m seq db = get_elem? (descending (ids_of m db.mailbox_emails)) (seq - 1)

-- AddMailboxEmail: none where the row is there already or the email is not.
unfoldable pub add_mailbox_email : ℕ → ℕ → Database → Option Database
unfolding has_row has_email
add_mailbox_email m id db =
    if has_row db.mailbox_emails m id || not (has_email db.emails id)
    then none
    else some (record db { mailbox_emails = db.mailbox_emails ++ (m, id) ∷ [] })

-- RemoveMailboxEmail.
unfoldable pub remove_mailbox_email : ℕ → ℕ → Database → Database
unfolding select_from
remove_mailbox_email m id db = record db {
  mailbox_emails = select_from db.mailbox_emails λ (x, e). not (x == m && e == id);
}

-- DeleteEmail, with the rows that refer to the email.
unfoldable pub delete_row : ℕ → Database → Database
unfolding select_from
delete_row id db = record {
  emails = select_from db.emails λ e. not (e.id == id);
  mailbox_emails = select_from db.mailbox_emails λ (m, e). not (e == id);
  emails_flags = select_from db.emails_flags λ (e, f). not (e == id);
}

-- RemoveEmailsWithFlag.
unfoldable pub remove_emails_with_flag : ℕ → Database → Database
unfolding select_from has_row
remove_emails_with_flag flag db = record {
  emails = select_from db.emails λ e. not (has_row db.emails_flags e.id flag);
  mailbox_emails = select_from db.mailbox_emails λ (m, e). not (has_row db.emails_flags e flag);
  emails_flags = select_from db.emails_flags λ (e, f). not (has_row db.emails_flags e flag);
}
