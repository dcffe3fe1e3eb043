-- ===== src/Display/Receiving.antt =====
-- cmd/atmaild/main.go: what a delivery does to the mailboxes that the sessions of its user share.
pub mod Wrong
mod Tests
use atmail.Prelude.{
  ℕ, Bool, true, false, Option, none, some, List, [], ◌∷◌, if◌then◌else◌, is_some, Text, lookup,
  insert,
}
use atmail.Storage.Files.{wrap32}
use atmail.Display.Selected.{View}
use atmail.Display.Boxes.{Server}

-- `OnReceive`, for a user whose mailboxes are shared: whether the new message is written to those that
-- wait.
unfoldable pub on_receive : Text → ℕ → Server → Server × Bool
unfolding lookup insert
on_receive box id s =
    if is_some (lookup box s.boxes)
    then (s, true)
    else (record s { boxes = insert box (record { id = wrap32 id; name = box }) s.boxes }, false)
