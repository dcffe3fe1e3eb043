-- ===== src/Display/Storing/Tests.antt =====
-- display/session_selected.go: the theorem on a small database.
use atmail.Prelude.{ℕ, [], ◌∷◌, text}
use atmail.Storage.Files.{Email}
use atmail.Storage.Database.{Database}
use atmail.Storage.Flags.{FlagIds}
use atmail.Display.Selected.{View}

abbrev email : ℕ → Email
email n = record { id = n; filename = text "1"; offset = 0 }

abbrev db : Database
db = record {
  emails = email 1 ∷ email 2 ∷ [];
  mailbox_emails = (1, 1) ∷ (1, 2) ∷ [];
  emails_flags = (2, 4) ∷ [];
}

abbrev ids : FlagIds
ids = (text "Seen", 1) ∷ (text "Deleted", 4) ∷ []

abbrev inbox : View
inbox = record { id = 1; name = text "INBOX" }
