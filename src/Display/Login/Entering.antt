-- ===== src/Display/Login/Entering.antt =====
-- display/session.go: a login gives a session mailboxes that agree with the table.
use atmail.Prelude.{ℕ, Option, none, some}
use atmail.Storage.Database.{Database}
use atmail.Display.Login.{Boxes}

-- The id of a name in the rows, or else in the map.
abbrev or_in : Option ℕ → Option ℕ → Option ℕ
or_in none o = o
or_in (some i) o = some i
