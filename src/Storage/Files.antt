-- ===== src/Storage/Files.antt =====
-- storage/store/email.go, storage/email.go, storage/meta.go: the files of a user's emails, the place of
-- the next one, and the emails of the database.
pub mod Keeping
pub mod Reading
pub mod Runs
pub mod Losing
pub mod Editing
pub mod Examples
mod Tests
use atmail.Prelude.{
  ℕ, ◌+◌, ◌%◌, Bool, true, false, not, ◌&&◌, Option, none, some, List, [], ◌∷◌, ◌++◌, if◌then◌else◌,
  ◌==◌, ltb, leb, is_empty, length, Text, text, lookup, insert, ◌||◌, eq_text,
}
use atmail.Storage.Format
use atmail.Storage.Format.{Gzip, Read, max_file_size, read, write_email, delete_at}

-- What the rows of the table of emails say of their files.
pub record Email : Type 0 where
  pub id : ℕ
  pub filename : Text
  pub offset : ℕ

-- The file of the last email, empty where there is none, and the end of the emails in it.
pub record Meta : Type 0 where
  pub last_file : Text
  pub offset : ℕ

-- The directory of a user.
abbrev pub Files : Type 0
Files = List (Text × Text)

pub record Store : Type 0 where
  pub files : Files
  pub meta : Meta
  pub emails : List Email

abbrev pub max_email_size_in_file : ℕ
max_email_size_in_file = 5242880

abbrev pub wrap32 : ℕ → ℕ
wrap32 n = n % 4294967296

-- What `OpenFile` gives: a file and the place to write at, with what it has set lastFile and offset to.
pub record Opened : Type 0 where
  pub name : Text
  pub place : ℕ
  pub last_file : Text
  pub offset : ℕ

-- In the last file, unless that one is full or cannot be found.
abbrev pub open_last : Text → Text → ℕ → Option Text → Option Opened
open_last now last offset none = none
open_last now last offset (some content) =
    let file = if leb max_file_size (length content) then now else last in
    some (record { name = file; place = offset; last_file = file; offset = offset })

abbrev pub open_new : Text → Text → ℕ → Option Opened
open_new now last offset = some (record {
  name = now;
  place = 0;
  last_file = if is_empty last then now else last;
  offset = if is_empty last then 0 else offset;
})

-- `OpenFile`, where `now` is what `newFileName` gives.
unfoldable pub open_file : Text → Files → Text → ℕ → Text → Option Opened
unfolding lookup
open_file now files last offset b =
    if ltb (length b) max_email_size_in_file && not (is_empty last)
    then open_last now last offset (lookup last files)
    else open_new now last offset

-- What os.OpenFile with O_CREATE finds in the file.
abbrev pub content_of : Option Text → Text
content_of none = []
content_of (some c) = c

-- A file that was opened for the email, with the email or without.
pub record Writing : Type 0 where
  pub opened : Opened
  pub files : Files
  pub written : Option ℕ

abbrev pub written_to : Opened → Files → Text → Option (Text × ℕ) → Writing
written_to o files content none = record {
  opened = o;
  files = insert o.name content files;
  written = none;
}
written_to o files content (some (f, n)) = record {
  opened = o;
  files = insert o.name f files;
  written = some n;
}

abbrev pub write_in : Gzip → Bool → Text → Files → Option Opened → Option Writing
write_in gzip encrypted b files none = none
write_in gzip encrypted b files (some o) =
    let content = content_of (lookup o.name files) in
    some (written_to o files content (write_email gzip encrypted b o.place content))

-- The beginning of `StoreEmail` and of `EditEmail`: `OpenFile` and `WriteEmail`.
unfoldable pub open_and_write : Gzip → Text → Bool → Text → Store → Option Writing
unfolding open_file write_email lookup insert
open_and_write gzip now encrypted b s =
    write_in gzip encrypted b s.files (open_file now s.files s.meta.last_file s.meta.offset b)

-- cache.Update(lastFile, uint32(offset) + n).
abbrev pub updated : Opened → ℕ → Meta
updated o n = record { last_file = o.last_file; offset = wrap32 (o.offset + n) }

-- The rest of `StoreEmail`: the transaction gives the id of a new row, or an error.
abbrev pub recorded : Store → Opened → Files → ℕ → Option ℕ → Store × Option ℕ
recorded s o files n none = (record s { files = files }, none)
recorded s o files n (some id) = (
  record {
    files = files;
    meta = updated o n;
    emails = s.emails ++ record { id = id; filename = o.last_file; offset = o.offset } ∷ [];
  },
  some id,
)

abbrev pub record_email : Store → Option ℕ → Option Writing → Store × Option ℕ
record_email s commit none = (s, none)
record_email s commit (some w) = elim (w.written) [
  | none ↦ (record s { files = w.files }, none)
  | some n ↦ recorded s w.opened w.files n commit
]

-- `StoreEmail`: the id of the email, or none for an error. `commit` is what the transaction gives.
unfoldable pub store_email : Gzip → Text → Option ℕ → Bool → Text → Store → Store × Option ℕ
unfolding open_and_write
store_email gzip now commit encrypted b s =
    record_email s commit (open_and_write gzip now encrypted b s)

-- Whether a row has the place: the index of offsets and file names takes no second one.
unfoldable pub has_place : ℕ → Text → List Email → Bool
unfolding eq_text
has_place offset name [] = false
has_place offset name (e ∷ es) =
    (e.offset == offset && eq_text e.filename name) || has_place offset name es

abbrev pub free_at : List Email → Option Opened → Bool
unfolding has_place
free_at es none = true
free_at es (some o) = not (has_place o.offset o.last_file es)

-- No row has the place that `OpenFile` gives.
unfoldable pub is_free : Text → Text → Store → Bool
unfolding free_at open_file
is_free now b s = free_at s.emails (open_file now s.files s.meta.last_file s.meta.offset b)

-- `NewEmail`: the id of the row, or none where the index refuses it.
unfoldable pub new_email : Text → Text → ℕ → Store → Option ℕ
unfolding is_free
new_email now b id s = if is_free now b s then some id else none

-- `Email.Read`, read to its end, where a file that is not there is an error.
abbrev pub read_in : Gzip → ℕ → Option Text → Read
read_in gzip offset none = Format.failed
read_in gzip offset (some file) = read gzip file (wrap32 offset)

unfoldable pub read_email : Gzip → Store → Email → Read
unfolding lookup read
read_email gzip s e = read_in gzip e.offset (lookup e.filename s.files)

-- The file name in the row of an id.
unfoldable pub filename_of : ℕ → List Email → Option Text
filename_of id [] = none
filename_of id (e ∷ es) =
    let rest = filename_of id es in if e.id == id then some e.filename else rest

-- Whether the row of another id has the place.
unfoldable pub has_other : ℕ → Text → ℕ → List Email → Bool
unfolding eq_text
has_other offset name id [] = false
has_other offset name id (e ∷ es) =
    (e.offset == offset && eq_text e.filename name && not (e.id == id))
    || has_other offset name id es

-- Whether the index refuses a new offset for the row of an id.
unfoldable pub is_taken : ℕ → ℕ → List Email → Bool
unfolding filename_of has_other
is_taken offset id es = elim (filename_of id es) [
  | none ↦ false
  | some name ↦ has_other offset name id es
]

-- `UpdateOffset`, where the index allows it.
unfoldable pub update_offset : ℕ → ℕ → List Email → List Email
update_offset offset id [] = []
update_offset offset id (e ∷ es) =
    let rest = update_offset offset id es in
    if e.id == id then record e { offset = offset } ∷ rest else e ∷ rest

-- The rest of `EditEmail`: the email at the old place is deleted in the file that was opened, and the
-- row gets the new place, which is an error where another row has it in the file of the row.
abbrev pub edit_row : Store → Email → Opened → Files → ℕ → Option Text → Store × Bool
unfolding is_taken update_offset
edit_row s e o files n none = (record s { files = files }, false)
edit_row s e o files n (some f) =
    if is_taken o.offset e.id s.emails
    then (record s { files = insert o.name f files }, false)
    else (
      record {
        files = insert o.name f files;
        meta = updated o n;
        emails = update_offset o.offset e.id s.emails;
      },
      true,
    )

abbrev pub edit_written : Store → Email → Option Writing → Store × Bool
edit_written s e none = (s, false)
edit_written s e (some w) = elim (w.written) [
  | none ↦ (record s { files = w.files }, false)
  | some n ↦
      let file = content_of (lookup w.opened.name w.files) in
      edit_row s e w.opened w.files n (delete_at file (wrap32 e.offset))
]

-- `EditEmail`: whether there was no error.
unfoldable pub edit_email : Gzip → Text → Email → Bool → Text → Store → Store × Bool
unfolding open_and_write update_offset is_taken lookup insert delete_at
edit_email gzip now e encrypted content s =
    edit_written s e (open_and_write gzip now encrypted content s)
