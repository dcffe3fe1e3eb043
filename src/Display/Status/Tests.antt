-- ===== src/Display/Status/Tests.antt =====
-- storage/mailbox.go: the theorems on concrete mailboxes.
use atmail.Prelude.{◌≤◌, ◌≡◌, refl, true, some, [], ◌∷◌, text, eq_text, arith}
use atmail.Storage.Files.{Email}
use atmail.Storage.Database.{Database, count_mailbox_emails}
use atmail.Display.Boxes.{Server}
use atmail.Display.Status.{
  StatusOptions, status_of, get_mailbox_attributes, has_no_children, count_with_flag, latest_email,
}
use atmail.Display.Status.Numbers.{Keyed, deleted_of, status_of-numbers}

-- One email, that is seen and deleted, and a later one in the same mailbox.
abbrev seven : Email
seven = record { id = 7; filename = text "f"; offset = 0 }

abbrev nine : Email
nine = record { id = 9; filename = text "f"; offset = 9 }

abbrev database : Database
database = record {
  emails = seven ∷ [];
  mailbox_emails = (1, 7) ∷ [];
  emails_flags = (7, 1) ∷ (7, 4) ∷ [];
}

abbrev everything : StatusOptions
everything = record {
  num_messages = true;
  uid_validity = true;
  num_deleted = true;
  num_recent = true;
  num_unseen = true;
  uid_next = true;
}

-- There are 4294967295 unseen messages.
status_of-numbers_example :
    (deleted_of everything 1 database ≤ count_mailbox_emails 1 database)
    × (status_of (text "INBOX") everything 1 database
        ≡ some (record {
          mailbox = text "INBOX";
          num_messages = some 0;
          uid_validity = 1;
          num_recent = some 0;
          num_unseen = some 4294967295;
          uid_next = 8;
        }))
unfolding Keyed count_mailbox_emails count_with_flag latest_email
status_of-numbers_example =
    status_of-numbers (text "INBOX") everything 1 database refl (((λ e. omega arith), tt), (tt, tt))
      (omega arith)

abbrev server : Server
server = record {
  mailboxes = (1, text "INBOX") ∷ (5, text "INBOX/a") ∷ [];
  tables = record {
    emails = seven ∷ nine ∷ [];
    mailbox_emails = (1, 7) ∷ (1, 9) ∷ [];
    emails_flags = [];
  };
  boxes = [];
}

-- A mailbox with one mailbox below it has no children, if LIKE finds that one only.
one_child :
    (get_mailbox_attributes (λ n p. eq_text n (text "INBOX/a")) (text "INBOX") server).1
    ≡ has_no_children ∷ []
unfolding get_mailbox_attributes eq_text
one_child = refl
