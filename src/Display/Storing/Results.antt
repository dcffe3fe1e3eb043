-- ===== src/Display/Storing/Results.antt =====
-- display/session_selected.go: the flags that STORE leaves.
use atmail.Prelude.{ℕ, ◌≡◌, Bool, true, not, ◌&&◌, ◌||◌, List, if◌then◌else◌, Text}
use atmail.Storage.Files.{Email}
use atmail.Storage.Database.{Database, has_row, has_email}
use atmail.Storage.Flags.{FlagIds}
use atmail.Storage.Flags.Rows.{given}
use atmail.Display.Fetching.{Fetching}
use atmail.Display.Storing.{Op, set_flags, add_flags, del_flags}

-- Whether an email has a flag after the operation, if the flag is given and if it had it.
unfoldable pub result : Op → Bool → Bool → Bool
result set_flags new old = new
result add_flags new old = old || new
result del_flags new old = old && not new

-- The emails of a list have the flags that the operation gives them, and the others what they had.
pub record Stored (ids : FlagIds) (op : Op) (flags : List Text) (es : List Email) (db : Database)
    (r : Database × Bool) : Type 0 where
  pub well : r.1 ≡ true
  pub shape : r.0 ≡ record db { emails_flags = r.0.emails_flags }
  pub rows :
      (a f : ℕ)
      → has_row r.0.emails_flags a f ≡ (
          if has_email es a
          then result op (given ids flags f) (has_row db.emails_flags a f)
          else has_row db.emails_flags a f)
