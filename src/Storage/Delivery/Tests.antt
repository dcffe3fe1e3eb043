-- ===== src/Storage/Delivery/Tests.antt =====
-- storage/email.go: the theorem on a concrete email.
use atmail.Prelude.{◌≡◌, refl, arith, true, some, [], ◌∷◌, ◌++◌, leb, length, text, lookup, inr}
use atmail.Storage.Format
use atmail.Storage.Format.{Gzip, compress_bigger_than, flags}
use atmail.Storage.Files.{Email, read_email, is_free, has_place, open_file}
use atmail.Storage.Files.Keeping.{bytes_of}
use atmail.Storage.Files.Examples.{stored, file}
use atmail.Storage.Database.{list_mailbox_emails}
use atmail.Storage.Delivery.{store_email_inbox, has_box}
use atmail.Storage.Delivery.Examples.{account, Fresh-account}
use atmail.Storage.Delivery.Delivered.{store_email_inbox-read_email}

store_email_inbox-read_email_example :
    (e : Email) × (((store_email_inbox stored (text "3") 3 true (text "hello") [] account).1
        ≡ some 3)
      × ((list_mailbox_emails 1
              (store_email_inbox stored (text "3") 3 true (text "hello") [] account).0.server.tables
            ≡ list_mailbox_emails 1 account.server.tables ++ e ∷ [])
          × (read_email stored
                (store_email_inbox stored (text "3") 3 true (text "hello") [] account).0.store
                e
              ≡ Format.email
                  (text "hello")
                  (flags (leb compress_bigger_than (length (text "hello"))) true))))
unfolding lookup bytes_of is_free has_box has_place open_file
store_email_inbox-read_email_example =
    store_email_inbox-read_email stored (text "3") 3 true (text "hello") account Fresh-account refl
      [] (inr refl) (inr (file, refl)) (omega arith) refl (omega arith) refl (omega arith)
