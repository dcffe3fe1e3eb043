-- ===== src/Display/Boxes/Examples.antt =====
-- display/session_auth.go: two mailboxes that sessions share.
use atmail.Prelude.{
  ◌≡◌, refl, false, none, [], ◌∷◌, Text, text, eq_text, lookup, arith, Bool-cases, inl, inr,
}
use atmail.Display.Selected.{View}
use atmail.Display.Boxes.{Server, Session, find_id}
use atmail.Display.Boxes.Agreement.{Unique, id_of, Agrees}

abbrev pub inbox : View
inbox = record { id = 1; name = text "INBOX" }

abbrev pub junk : View
junk = record { id = 2; name = text "Junk" }

abbrev pub server : Server
server = record {
  mailboxes = (1, text "INBOX") ∷ (2, text "Junk") ∷ [];
  tables = record { emails = []; mailbox_emails = []; emails_flags = [] };
  boxes = (text "INBOX", inbox) ∷ (text "Junk", junk) ∷ [];
}

abbrev pub session : Session
session = record { selected = none; read_only = false; subscribed = [] }

same : (name : Text) → id_of (lookup name server.boxes) ≡ find_id name server.mailboxes
unfolding lookup find_id
same name = elim (Bool-cases (eq_text (text "INBOX") name)) [
  | inl e ↦ rw e refl
  | inr e ↦ elim (Bool-cases (eq_text (text "Junk") name)) [
    | inl f ↦ rw (e, f) refl
    | inr f ↦ rw (e, f) refl
  ]
]

pub Agrees-server : Agrees server
unfolding Unique
Agrees-server = record {
  unique = ((((λ h. ground (arith, h)), λ h. ground (arith, h)), tt), (tt, tt));
  same = same;
}
