-- ===== src/Display/Fetching/Tests.antt =====
-- display/session_selected.go: the theorem on a fetch of the flags of one email.
use atmail.Prelude.{true, false, [], ◌∷◌, text}
use atmail.Storage.Files.{Email}
use atmail.Storage.Database.{Database}
use atmail.Display.Fetching.{FetchOptions}
use atmail.Display.Fetching.Examples.{env}

abbrev only_flags : FetchOptions env
only_flags = record {
  uid = false;
  flags = true;
  internal_date = false;
  envelope = false;
  rfc822_size = false;
  body_structure = false;
  body_section = [];
  binary_section = [];
  binary_section_size = [];
}

abbrev email : Email
email = record { id = 7; filename = text "f"; offset = 0 }

abbrev database : Database
database = record { emails = email ∷ []; mailbox_emails = (1, 7) ∷ []; emails_flags = [] }
