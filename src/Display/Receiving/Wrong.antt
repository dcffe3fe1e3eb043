-- ===== src/Display/Receiving/Wrong.antt =====
-- cmd/atmaild/main.go: an email to the inbox of a user whose sessions share his mailboxes.
use atmail.Prelude.{ℕ, ◌≡◌, ◌∙◌, refl, false, Option, none, some, [], lookup, insert, lookup-insert}
use atmail.Storage.Files.{wrap32}
use atmail.Display.Selected.{View}
use atmail.Display.Boxes.{Server, ok, find_id, delete, delete_id, clean}
use atmail.Display.Boxes.Agreement.{Agrees, id_of}
use atmail.Display.Receiving.{on_receive}

no_view : (o : Option View) → id_of o ≡ none → o ≡ none
no_view none h = refl
no_view (some v) h = cc

-- Where the shared mailboxes agree with the table, which has none with the empty name, an email to the
-- inbox of its user, whose folder is empty, is written to no session. The sessions share a mailbox
-- with the empty name, which the table does not have; and who deletes it deletes the mailbox that has
-- the id of the email, modulo 2 ^ 32, with its emails.
pub on_receive-delete :
    (id : ℕ) (s : Server)
    → Agrees s
    → find_id [] s.mailboxes ≡ none
    → ((on_receive [] id s).1 ≡ false)
      × ((lookup [] (on_receive [] id s).0.boxes ≡ some (record { id = wrap32 id; name = [] }))
          × ((delete [] (on_receive [] id s).0).1 ≡ ok)
          × ((delete [] (on_receive [] id s).0).0.mailboxes ≡ delete_id (wrap32 id) s.mailboxes)
          × ((delete [] (on_receive [] id s).0).0.tables ≡ clean (wrap32 id) s.tables))
unfolding on_receive delete
on_receive-delete id s a n =
    let l : lookup [] s.boxes ≡ none = no_view (lookup [] s.boxes) (a.same [] ∙ n) in
    let k : lookup [] (insert [] (record { id = wrap32 id; name = [] }) s.boxes)
        ≡ some (record { id = wrap32 id; name = [] }) =
      lookup-insert [] [] (record { id = wrap32 id; name = [] }) s.boxes in
    rw (l, k) (refl, (refl, refl, refl, refl))
