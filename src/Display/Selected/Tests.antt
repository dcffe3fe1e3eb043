-- ===== src/Display/Selected/Tests.antt =====
-- display/session_selected.go, storage/mailbox.go: the theorems on a small database.
use atmail.Prelude.{
  if◌then◌else◌, ℕ, ◌+◌, ◌≡◌, ◌≢◌, refl, true, not, ◌&&◌, none, some, List, [], ◌∷◌, map, suc,
  arith, Text, text, lookup,
}
use atmail.Storage.Files.{Email, wrap32}
use atmail.Storage.Database.{
  Database, has_mailbox, has_email, has_row, from_sequence, count_mailbox_emails,
  list_emails_with_flag, ids_of,
}
use atmail.Storage.Mailbox.{uids, to_sequence}
use atmail.Storage.Mailbox.Alive.{Alive}
use atmail.Storage.Mailbox.Sequences.{Distinct, to_sequence-from_sequence}
use atmail.Display.Selected.{View, done, unwritten, write_all, move, expunge}
use atmail.Display.Selected.Moves.{move-Alive}
use atmail.Display.Selected.Expunges.{expunge-has_email}

abbrev email : ℕ → Email
email n = record { id = n; filename = text "1"; offset = 0 }

-- Two emails in the inbox and one in the trash, which has the flag \Deleted.
abbrev db : Database
db = record {
  emails = email 1 ∷ email 2 ∷ email 5 ∷ [];
  mailbox_emails = (1, 1) ∷ (1, 5) ∷ (4, 2) ∷ [];
  emails_flags = (2, 4) ∷ [];
}

abbrev inbox : View
inbox = record { id = 1; name = text "INBOX" }

abbrev trash : View
trash = record { id = 4; name = text "Trash" }

abbrev boxes : List (Text × View)
boxes = (text "INBOX", inbox) ∷ (text "Trash", trash) ∷ []

Alive-five : Alive db 5
unfolding has_mailbox has_email
Alive-five = record { boxed = refl; kept = refl }

trash_id : (v : View) → lookup (text "Trash") boxes ≡ some v → v.id ≢ 1
unfolding lookup
trash_id v e = let i : trash ≡ v = cc in ground (arith, i)

move-Alive_example : Alive (move (λ e. true) boxes inbox (uids (5 ∷ [])) (text "Trash") db).0 5
move-Alive_example =
    move-Alive (λ e. true) boxes inbox (uids (5 ∷ [])) (text "Trash") db 5 trash_id Alive-five

to_sequence-from_sequence_example :
    (id : ℕ) × ((from_sequence 1 1 db ≡ some id)
      × (to_sequence 1 id db + 1 ≡ suc (count_mailbox_emails 1 db)))
unfolding Distinct ids_of count_mailbox_emails
to_sequence-from_sequence_example =
    to_sequence-from_sequence 1 1 db (((λ h. ground (arith, h)), tt), (tt, tt)) (omega arith)
      (omega arith) (omega arith)

expunge-has_email_example :
    ((id : ℕ)
      → has_email (expunge (λ e. true) (λ n. true) inbox none db).0.emails id
        ≡ has_email db.emails id && not (has_row db.emails_flags id 4))
    × ((expunge (λ e. true) (λ n. true) inbox none db).1 ≡ (
        if write_all
          (λ n. true)
          (map wrap32 (map (λ (e : Email). e.id) (list_emails_with_flag 4 db)))
        then done (map wrap32 (map (λ (e : Email). e.id) (list_emails_with_flag 4 db)))
        else unwritten))
expunge-has_email_example = expunge-has_email (λ e. true) (λ e. refl) (λ n. true) inbox db
