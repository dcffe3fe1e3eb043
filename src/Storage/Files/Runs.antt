-- ===== src/Storage/Files/Runs.antt =====
-- storage/email.go: an email that is stored, and the calls of `StoreEmail` after it.
use atmail.Prelude.{
  ℕ, ◌+◌, ◌<◌, ◌≡◌, Bool, Option, none, some, List, [], ◌∷◌, ◌++◌, leb, length, Text, lookup, arith,
}
use atmail.Storage.Format
use atmail.Storage.Format.{
  Gzip, Read, max_file_size, compress_bigger_than, flags, header, read, read_header, read_body,
  write_email, write_at,
}
use atmail.Storage.Files.{
  Email, Store, max_email_size_in_file, open_file, open_and_write, store_email, read_email,
}
use atmail.Storage.Files.Keeping.{body_of, bytes_of, Kept, store_email-Kept}
use atmail.Storage.Files.Reading.{HasLast, Added, Added-record, Room-open_file, read_email-Kept}

-- A call of `StoreEmail`, with the name of a new file and what the transaction gives.
pub record Request : Type 0 where
  pub now : Text
  pub commit : Option ℕ
  pub encrypted : Bool
  pub content : Text

module _ (gzip : Gzip) where
  unfoldable pub run : Request → Store → Store
  unfolding store_email
  run r s = (store_email gzip r.now r.commit r.encrypted r.content s).0

  unfoldable pub run_all : List Request → Store → Store
  unfolding run
  run_all [] s = s
  run_all (r ∷ rs) s = run_all rs (run r s)

  -- Each call has the name of a file that is not there, and the files end before 4 GiB.
  unfoldable pub Runnable : List Request → Store → Type 0
  unfolding run bytes_of
  Runnable [] s = Unit
  Runnable (r ∷ rs) s =
      (lookup r.now s.files ≡ none)
      × ((s.meta.offset + length (bytes_of gzip r.encrypted r.content) < 4294967296)
          × Runnable rs (run r s))

  run_all-Kept :
      (rs : List Request) (s : Store) (e : Email) (bytes : Text)
      → Runnable rs s
      → Kept s e bytes
      → Kept (run_all rs s) e bytes
  unfolding run_all run Runnable
  run_all-Kept [] s e bytes h k = k
  run_all-Kept (r ∷ rs) s e bytes (f, (l, h)) k =
      run_all-Kept rs (run r s) e bytes h
        (store_email-Kept s r.now f e bytes k gzip r.encrypted r.content r.commit l)

  pub Added-store_email :
      (s : Store) (now : Text) (id : ℕ) (encrypted : Bool) (b : Text)
      → HasLast s
      → length b < max_email_size_in_file
      → lookup now s.files ≡ none
      → s.meta.offset + length (bytes_of gzip encrypted b) < 4294967296
      → Added s (bytes_of gzip encrypted b) id (store_email gzip now (some id) encrypted b s)
  unfolding store_email open_and_write
  Added-store_email s now id encrypted b h m f l =
      Added-record gzip encrypted b id s (open_file now s.files s.meta.last_file s.meta.offset b) l
        (Room-open_file s now b f m h)

  -- An email of less than 5 MiB is stored: the row is the last one, and it is read as it was, with its
  -- flags, after any further calls, whether these store their emails or fail; if the last file is there,
  -- each call has the name of a file that is not there, the files end before 4 GiB, and gzip unpacks
  -- what it packs of this email.
  pub read_email-run_all :
      (s : Store) (now : Text) (id : ℕ) (encrypted : Bool) (b : Text) (rs : List Request)
      → HasLast s
      → length b < max_email_size_in_file
      → Runnable (record { now = now; commit = some id; encrypted = encrypted; content = b } ∷ rs) s
      → gzip.unpack (gzip.pack b) ≡ some b
      → length (body_of gzip b) < 4294967296
      → (e : Email) × (((store_email gzip now (some id) encrypted b s).1 ≡ some id)
          × (((store_email gzip now (some id) encrypted b s).0.emails ≡ s.emails ++ e ∷ [])
              × (read_email gzip (run_all rs (store_email gzip now (some id) encrypted b s).0) e
                  ≡ Format.email b (flags (leb compress_bigger_than (length b)) encrypted))))
  unfolding Runnable run
  read_email-run_all s now id encrypted b rs h m (f, (l, r)) g u =
      let a = Added-store_email s now id encrypted b h m f l in
      (
        a.added,
        (
          a.accepted,
          (
            a.row,
            read_email-Kept gzip encrypted b
                (run_all rs (store_email gzip now (some id) encrypted b s).0) a.added
                (run_all-Kept rs (store_email gzip now (some id) encrypted b s).0 a.added
                  (bytes_of gzip encrypted b) r a.kept)
                (omega (arith, l, a.place)) g u,
          ),
        ),
      )
