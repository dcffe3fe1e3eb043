-- ===== src/Storage/Flags.antt =====
-- storage/flags.go: the flags of emails, by their names.
pub mod Rows
use atmail.Prelude.{
  ℕ, ◌==◌, Bool, true, false, not, ◌&&◌, ◌||◌, Option, none, some, List, [], ◌∷◌, ◌++◌,
  if◌then◌else◌, Text, lookup,
}
use atmail.Storage.Files.{Email}
use atmail.Storage.Database.{Database, select_from, has_row, has_email}

-- The table of flags: the id of each name.
abbrev pub FlagIds : Type 0
FlagIds = List (Text × ℕ)

-- AddEmailFlag: none where the email is not there. A row that is there already stays.
unfoldable pub add_email_flag : ℕ → ℕ → Database → Option Database
unfolding has_row has_email
add_email_flag id flag db =
    if not (has_email db.emails id)
    then none
    else if has_row db.emails_flags id flag
    then some db
    else some (record db { emails_flags = db.emails_flags ++ (id, flag) ∷ [] })

-- AddEmailFlagName: none also where the name is not in the table.
unfoldable pub add_email_flag_name : FlagIds → ℕ → Text → Database → Option Database
unfolding add_email_flag lookup
add_email_flag_name ids id name db = elim (lookup name ids) [
  | none ↦ none
  | some flag ↦ add_email_flag id flag db
]

-- `AddEmailFlags`, in a transaction: none where it fails.
unfoldable pub add_email_flags : FlagIds → ℕ → List Text → Database → Option Database
unfolding add_email_flag_name
add_email_flags ids id [] db = some db
add_email_flags ids id (name ∷ names) db = elim (add_email_flag_name ids id name db) [
  | none ↦ none
  | some db' ↦ add_email_flags ids id names db'
]

-- RemoveEmailFlag.
unfoldable pub remove_email_flag : ℕ → ℕ → Database → Database
unfolding select_from
remove_email_flag id flag db = record db {
  emails_flags = select_from db.emails_flags λ (e, f). not (e == id && f == flag);
}

-- RemoveEmailFlagName: no row has the flag of a name that is not in the table.
unfoldable pub remove_email_flag_name : FlagIds → ℕ → Text → Database → Database
unfolding remove_email_flag lookup
remove_email_flag_name ids id name db = elim (lookup name ids) [
  | none ↦ db
  | some flag ↦ remove_email_flag id flag db
]

-- `RemoveEmailFlags`.
unfoldable pub remove_email_flags : FlagIds → ℕ → List Text → Database → Database
unfolding remove_email_flag_name
remove_email_flags ids id [] db = db
remove_email_flags ids id (name ∷ names) db =
    remove_email_flags ids id names (remove_email_flag_name ids id name db)

-- `RemoveEmailAllFlags`.
unfoldable pub remove_email_all_flags : ℕ → Database → Database
unfolding select_from
remove_email_all_flags id db = record db {
  emails_flags = select_from db.emails_flags λ (e, f). not (e == id);
}
