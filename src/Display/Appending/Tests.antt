-- ===== src/Display/Appending/Tests.antt =====
-- display/session_auth.go: the theorem on a concrete message.
use atmail.Prelude.{
  ◌≡◌, refl, arith, false, some, [], ◌∷◌, ◌++◌, leb, length, text, eq_text, lookup, Bool-cases, inl,
  inr,
}
use atmail.Storage.Format
use atmail.Storage.Format.{compress_bigger_than, flags}
use atmail.Storage.Files.{Email, read_email, is_free, has_place, open_file}
use atmail.Storage.Files.Keeping.{bytes_of}
use atmail.Storage.Files.Examples.{stored, file}
use atmail.Storage.Database.{list_mailbox_emails}
use atmail.Storage.Delivery.Examples.{account, Fresh-account}
use atmail.Display.Boxes.{find_id}
use atmail.Display.Boxes.Agreement.{Agrees, Unique}
use atmail.Display.Selected.{View}
use atmail.Display.Appending.{append, appended}
use atmail.Display.Appending.Accepted.{append-read_email}

abbrev inbox : View
inbox = record { id = 1; name = text "INBOX" }

Agrees-account : Agrees account.server
unfolding Unique lookup find_id
Agrees-account = record {
  unique = (tt, tt);
  same = λ name. elim (Bool-cases (eq_text (text "INBOX") name)) [
    | inl e ↦ rw e refl
    | inr e ↦ rw e refl
  ];
}

append-read_email_example :
    (e : Email) × (((append stored
          (text "3")
          3
          1000
          (text "me@a.org")
          (λ t. some (text "me@a.org"))
          (text "INBOX")
          (text "hello")
          account).1
        ≡ appended (record { uid = 3; uid_validity = 1 }))
      × (list_mailbox_emails 1
            (append stored
              (text "3")
              3
              1000
              (text "me@a.org")
              (λ t. some (text "me@a.org"))
              (text "INBOX")
              (text "hello")
              account).0.server.tables
          ≡ list_mailbox_emails 1 account.server.tables ++ e ∷ [])
      × (read_email stored
            (append stored
              (text "3")
              3
              1000
              (text "me@a.org")
              (λ t. some (text "me@a.org"))
              (text "INBOX")
              (text "hello")
              account).0.store
            e
          ≡ Format.email
              (text "hello")
              (flags (leb compress_bigger_than (length (text "hello"))) false)))
unfolding lookup bytes_of is_free has_place open_file
append-read_email_example =
    append-read_email stored (text "3") 3 1000 (text "me@a.org") (λ t. some (text "me@a.org"))
      (text "INBOX") (text "hello") inbox account Fresh-account refl Agrees-account refl refl refl
      (inr (file, refl)) (omega arith) refl (omega arith) refl (omega arith)
