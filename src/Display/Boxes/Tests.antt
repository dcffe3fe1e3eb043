-- ===== src/Display/Boxes/Tests.antt =====
-- display/session_auth.go: the theorems on two mailboxes.
use atmail.Prelude.{◌≡◌, refl, none, some, text, lookup}
use atmail.Display.Boxes.{ok, find_id, rename}
use atmail.Display.Boxes.Examples.{junk, server, Agrees-server}
use atmail.Display.Boxes.Renames.{rename-disagrees}

rename-disagrees_example :
    ((rename (text "Junk") (text "Spam") server).1 ≡ ok)
    × (((find_id (text "Junk") (rename (text "Junk") (text "Spam") server).0.mailboxes ≡ none)
          × (find_id (text "Spam") (rename (text "Junk") (text "Spam") server).0.mailboxes
              ≡ some 2))
        × ((lookup (text "Junk") (rename (text "Junk") (text "Spam") server).0.boxes ≡ some junk)
            × (lookup (text "Spam") (rename (text "Junk") (text "Spam") server).0.boxes ≡ none)))
unfolding lookup
rename-disagrees_example =
    rename-disagrees (text "Junk") (text "Spam") server junk Agrees-server refl refl refl
