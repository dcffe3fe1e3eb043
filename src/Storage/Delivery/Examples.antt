-- ===== src/Storage/Delivery/Examples.antt =====
-- storage/email.go: the account of a small directory.
use atmail.Prelude.{refl, [], ◌∷◌, text}
use atmail.Storage.Files.Examples.{store}
use atmail.Storage.Database.{has_email, has_mailbox}
use atmail.Storage.Delivery.{Account}
use atmail.Storage.Delivery.Delivered.{Fresh}

abbrev pub account : Account
account = record {
  store = store;
  server = record {
    mailboxes = (1, text "INBOX") ∷ [];
    tables = record {
      emails = store.emails;
      mailbox_emails = (1, 1) ∷ (1, 2) ∷ [];
      emails_flags = [];
    };
    boxes = (text "INBOX", record { id = 1; name = text "INBOX" }) ∷ [];
  };
}

pub Fresh-account : Fresh 3 account
unfolding has_email has_mailbox
Fresh-account = record { same = refl; no_email = refl; no_row = refl }
