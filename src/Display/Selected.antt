-- ===== src/Display/Selected.antt =====
-- display/session_selected.go: what a session does to the emails of the selected mailbox.
pub mod Moves
pub mod Expunges
mod Tests
use atmail.Prelude.{
  ℕ, Bool, true, false, Option, none, some, List, [], ◌∷◌, map, if◌then◌else◌, Text, eq_text,
  lookup, ◌&&◌,
}
use atmail.Storage.Files.{Email, wrap32}
use atmail.Storage.Database.{Database}
use atmail.Storage.Mailbox.{
  NumSet, list_emails, get_ids, add_mailbox_emails, remove_mailbox_emails, delete_emails_with_flag,
}

-- `mailbox.View`, without its count and its writers.
pub record View : Type 0 where
  pub id : ℕ
  pub name : Text

-- What an operation ends with: a value, an error for the client, or a panic.
pub data Outcome {ℓ} (A : Type ℓ) : Type ℓ where
  done : A → Outcome A
  same_mailbox not_found internal unwritten panicked : Outcome A

abbrev pub copied :
    ℕ → Option (List Email) → Database → Option Database → Database × Outcome (List ℕ)
copied target none db after = (db, panicked)
copied target (some es) db none = (db, internal)
copied target (some es) db (some db') = (db', done (map (λ (e : Email). e.id) es))

abbrev pub copy_to : View → NumSet → Database → Option View → Database × Outcome (List ℕ)
copy_to selected set db none = (db, not_found)
copy_to selected set db (some target) =
    let es = list_emails selected.id set db in
    copied target.id es db (elim es [ none ↦ none | some es ↦ add_mailbox_emails target.id es db ])

-- `Session.Copy`: the UIDs. The mailboxes of the session are found by their names.
unfoldable pub copy :
    List (Text × View) → View → NumSet → Text → Database → Database × Outcome (List ℕ)
unfolding eq_text lookup list_emails add_mailbox_emails
copy boxes selected set dest db =
    if eq_text dest selected.name
    then (db, same_mailbox)
    else copy_to selected set db (lookup dest boxes)

abbrev pub removed : List ℕ → Database × Bool → Database × Outcome (List ℕ)
removed copies (db, true) = (db, done copies)
removed copies (db, false) = (db, internal)

abbrev pub remove_ids :
    (Email → Bool) → ℕ → List ℕ → Database → Option (List ℕ) → Database × Outcome (List ℕ)
remove_ids erase m copies db none = (db, panicked)
remove_ids erase m copies db (some ids) = removed copies (remove_mailbox_emails erase m ids db)

abbrev pub after_copy :
    (Email → Bool) → View → NumSet → Database × Outcome (List ℕ) → Database × Outcome (List ℕ)
after_copy erase selected set (db, done copies) =
    remove_ids erase selected.id copies db (get_ids selected.id set db)
after_copy erase selected set (db, o) = (db, o)

-- `Session.Move`, where the writing of the answer has no error.
unfoldable pub move :
    (Email → Bool)
    → List (Text × View)
    → View
    → NumSet
    → Text
    → Database
    → Database × Outcome (List ℕ)
unfolding copy get_ids remove_mailbox_emails
move erase boxes selected set dest db =
    after_copy erase selected set (copy boxes selected set dest db)

abbrev pub deleted_flag : ℕ
deleted_flag = 4

-- The numbers as uint32, and what the loop of `WriteExpunge` ends with.
unfoldable pub write_all : (ℕ → Bool) → List ℕ → Bool
write_all writes [] = true
write_all writes (n ∷ ns) = writes n && write_all writes ns

abbrev pub write_numbers : (ℕ → Bool) → List ℕ → Outcome (List ℕ)
unfolding write_all
write_numbers writes ids =
    let numbers = map wrap32 ids in if write_all writes numbers then done numbers else unwritten

abbrev pub written : (ℕ → Bool) → Database × Option (List Email) → Database × Outcome (List ℕ)
unfolding write_numbers
written writes (db, none) = (db, internal)
written writes (db, some es) = (db, write_numbers writes (map (λ (e : Email). e.id) es))

abbrev pub expunged : (ℕ → Bool) → List ℕ → Database × Bool → Database × Outcome (List ℕ)
unfolding write_numbers
expunged writes ids (db, true) = (db, write_numbers writes ids)
expunged writes ids (db, false) = (db, internal)

-- `Session.Expunge`: the numbers that are written, where `writes` is whether the writing of one has no
-- error.
unfoldable pub expunge :
    (Email → Bool) → (ℕ → Bool) → View → Option (List ℕ) → Database → Database × Outcome (List ℕ)
unfolding written expunged delete_emails_with_flag remove_mailbox_emails
expunge erase writes selected none db =
    written writes (delete_emails_with_flag erase deleted_flag db)
expunge erase writes selected (some ids) db =
    expunged writes ids (remove_mailbox_emails erase selected.id ids db)

abbrev pub closed : View → Database × Option (List Email) → Database × Option View × Bool
closed v (db, none) = (db, some v, false)
closed v (db, some es) = (db, none, true)

-- `Session.Close`: the mailbox that stays selected, and whether there was no error.
unfoldable pub close : (Email → Bool) → Option View → Database → Database × Option View × Bool
unfolding delete_emails_with_flag
close erase none db = (db, none, true)
close erase (some v) db = closed v (delete_emails_with_flag erase deleted_flag db)
