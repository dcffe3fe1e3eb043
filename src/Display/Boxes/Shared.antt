-- ===== src/Display/Boxes/Shared.antt =====
-- display/session_auth.go: the operations of the sessions of a user on the mailboxes that they share.
use atmail.Prelude.{Bool, Text}
use atmail.Display.Boxes.{Server, Session, create, delete, select}

-- What the sessions of a user do, in any order, while none renames a mailbox.
pub data Run (s : Server) : Server → Type 0 where
  start : Run s s
  by_create : {t : Server} (box : Text) → Run s t → Run s (create box t).0
  by_delete : {t : Server} (name : Text) → Run s t → Run s (delete name t).0
  by_select :
      {t : Server} (name : Text) (r : Bool) (u : Session) → Run s t → Run s (select name r t u).0
