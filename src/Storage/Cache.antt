-- ===== src/Storage/Cache.antt =====
-- storage/meta.go: the place of the next email of each user, and its row in the database.
pub mod Restart
mod Tests
use atmail.Prelude.{
  ℕ, ◌%◌, Bool, true, false, Option, none, some, List, [], ◌∷◌, if◌then◌else◌, Text, lookup, insert,
}
use atmail.Storage.Files.{Meta}

-- The row of the table `meta`.
pub record Saved : Type 0 where
  pub last_file : Option Text
  pub offset : Option ℕ

abbrev pub text_or_zero : Option Text → Text
text_or_zero none = []
text_or_zero (some t) = t

abbrev pub number_or_zero : Option ℕ → ℕ
number_or_zero none = 0
number_or_zero (some n) = n

-- `meta.Sync`, where the row is none if there is none.
unfoldable pub sync : Option Saved → Meta → Meta
sync none m = m
sync (some row) m = record {
  last_file = text_or_zero row.last_file;
  offset = number_or_zero row.offset % 4294967296;
}

-- `meta.Save`: the row that is set.
unfoldable pub save : Meta → Saved
save m = record { last_file = some m.last_file; offset = some m.offset }

-- `Meta.subs`, or none for the nil map.
abbrev pub Subs : Type 0
Subs = Option (List (Text × Meta))

-- What `Meta.DB` gives: the meta of the user, an error, or the panic of a write to the nil map.
pub data Database : Type 0 where
  found : Meta → Database
  failed crashed : Database

abbrev pub new_meta : Meta
new_meta = record { last_file = []; offset = 0 }

abbrev pub opened : Text → Subs → Option (Option Saved) → Subs × Database
unfolding sync insert
opened user subs none = (subs, failed)
opened user none (some row) = (none, crashed)
opened user (some m) (some row) =
    (some (insert user (sync row new_meta) m), found (sync row new_meta))

abbrev pub cached : Text → Subs → Option Meta → (Text → Option (Option Saved)) → Subs × Database
unfolding opened
cached user subs (some m) open_row = (subs, found m)
cached user subs none open_row = opened user subs (open_row user)

abbrev pub sub_of : Text → Subs → Option Meta
unfolding lookup
sub_of user none = none
sub_of user (some m) = lookup user m

-- `Meta.DB`, where opening the database of a user gives its row, or none for an error.
unfoldable pub db : (Text → Option (Option Saved)) → Text → Subs → Subs × Database
unfolding cached sub_of
db open_row user subs = cached user subs (sub_of user subs) open_row

-- An error of a save, or those of several.
abbrev pub Errors : Type 0
Errors = Option (List Text)

-- The loop of `Meta.Close`, where a save gives none for no error: e = err, where err = e is meant.
unfoldable pub close_loop : (Text → Meta → Option Text) → List (Text × Meta) → Errors → Errors
close_loop error [] err = err
close_loop error ((user, m) ∷ subs) err = elim (error user m) [
  | none ↦ close_loop error subs err
  | some e ↦ elim err [
    | none ↦ close_loop error subs none
    | some es ↦ close_loop error subs (some (e ∷ es))
  ]
]

abbrev pub subs_of : Subs → List (Text × Meta)
subs_of none = []
subs_of (some m) = m

-- `Meta.Close`.
unfoldable pub close : (Text → Meta → Option Text) → Subs → Subs × Errors
unfolding close_loop
close error subs = (none, close_loop error (subs_of subs) none)
