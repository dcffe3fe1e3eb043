-- ===== src/Storage/Cache/Restart.antt =====
-- storage/meta.go, storage/email.go: what is saved, and what becomes of emails that were stored after
-- it.
use atmail.Prelude.{
  ℕ, ◌+◌, ◌<◌, ◌%◌, ◌≡◌, ◌∙◌, refl, ap, arith, Bool, true, false, Option, none, some, List, [], ◌∷◌,
  ◌++◌, not, sym, subst, is_empty, leb, ltb, length, take, drop, Text, lookup, insert, eq_text_self,
}
use atmail.Storage.Format
use atmail.Storage.Format.{Gzip, max_file_size, compress_bigger_than, flags, write_email, write_at}
use atmail.Storage.Files.{
  Email, has_place, is_free, new_email, Meta, Store, max_email_size_in_file, open_file,
  open_and_write, store_email, read_email, wrap32,
}
use atmail.Storage.Files.Keeping.{body_of, bytes_of}
use atmail.Storage.Files.Reading.{read-bytes_of}
use atmail.Storage.Files.Losing.{read_email-found, lookup-insert_same}
use atmail.Storage.Format.Cycle.{drop-write_at, take-length_append}
use atmail.Storage.Cache.{Saved, Subs, sync, save, db, close, close_loop, crashed, subs_of}

-- What is saved is read again.
sync-save : (m old : Meta) → m.offset < 4294967296 → sync (some (save m)) old ≡ m
unfolding sync save
sync-save m old h =
    let e : m.offset % 4294967296 ≡ m.offset = omega (arith, h) in
    ap (λ n. record { last_file = m.last_file; offset = n }) e

close_loop-none :
    (error : Text → Meta → Option Text) (subs : List (Text × Meta))
    → close_loop error subs none ≡ none
unfolding close_loop
close_loop-none error [] = refl
close_loop-none error ((user, m) ∷ subs) = ground (arith, close_loop-none error subs)

-- Whatever saves fail, `Close` has no error; and after it the next user whose database can be opened
-- crashes the program.
close-db :
    (error : Text → Meta → Option Text) (subs : Subs) (open_row : Text → Option (Option Saved))
    (user : Text) (row : Option Saved)
    → open_row user ≡ some row
    → ((close error subs).1 ≡ none) × ((db open_row user (close error subs).0).1 ≡ crashed)
unfolding close db
close-db error subs open_row user row h = (close_loop-none error (subs_of subs), rw h refl)

-- The program ends and starts again: the meta is the one that was saved.
abbrev pub restarted : Saved → Store → Store
restarted saved s = record s { meta = sync (some saved) s.meta }

has_place-last :
    (es : List Email) (id offset : ℕ) (name : Text)
    → has_place offset name (es ++ record { id = id; filename = name; offset = offset } ∷ []) ≡ true
unfolding has_place
has_place-last [] id offset name = rw (eq_text_self name) (ground arith)
has_place-last (e ∷ es) id offset name = ground (arith, has_place-last es id offset name)

module _ (gzip : Gzip) where
  -- An email is stored after the meta was saved, and the program ends and starts again.
  abbrev pub crashed_after : Store → Text → ℕ → Bool → Text → Store
  unfolding save
  crashed_after s now id encrypted b =
      restarted (save s.meta) (store_email gzip now (some id) encrypted b s).0

  -- `StoreEmail` of an email has an error, and yet the row at the place of the meta is read as this
  -- email.
  abbrev pub Overwritten : Meta → ℕ → Text → ℕ → Bool → Text → Store → Type 0
  Overwritten meta id later next encrypted b s =
      ((store_email gzip later (new_email later b next s) encrypted b s).1 ≡ none)
      × (read_email gzip (store_email gzip later (new_email later b next s) encrypted b s).0
            (record { id = id; filename = meta.last_file; offset = meta.offset })
          ≡ Format.email b (flags (leb compress_bigger_than (length b)) encrypted))

  -- An email in the last file, if that has room.
  store_email-last :
      (s : Store) (now : Text) (id : ℕ) (encrypted : Bool) (b c : Text)
      → is_empty s.meta.last_file ≡ false
      → lookup s.meta.last_file s.files ≡ some c
      → length b < max_email_size_in_file
      → length c < max_file_size
      → store_email gzip now (some id) encrypted b s ≡ (
        record {
          files =
              insert s.meta.last_file
                (write_at s.meta.offset (bytes_of gzip encrypted b) c)
                s.files;
          meta = record {
            last_file = s.meta.last_file;
            offset = wrap32 (s.meta.offset + length (bytes_of gzip encrypted b));
          };
          emails =
              s.emails
              ++ record { id = id; filename = s.meta.last_file; offset = s.meta.offset } ∷ [];
        },
        some id,
      )
  unfolding store_email open_and_write open_file write_email bytes_of
  store_email-last s now id encrypted b c n p l m =
      let small : ltb (length b) max_email_size_in_file ≡ true = ground (arith, l) in
      let room : leb max_file_size (length c) ≡ false = ground (arith, m) in
      rw (open_file, small, n, p, room, write_email, p, room) refl

  restarted-store_email :
      (s : Store) (now : Text) (id : ℕ) (encrypted : Bool) (b c : Text)
      → is_empty s.meta.last_file ≡ false
      → lookup s.meta.last_file s.files ≡ some c
      → length b < max_email_size_in_file
      → length c < max_file_size
      → s.meta.offset < 4294967296
      → restarted (save s.meta) (store_email gzip now (some id) encrypted b s).0 ≡ record {
        files =
            insert s.meta.last_file (write_at s.meta.offset (bytes_of gzip encrypted b) c) s.files;
        meta = s.meta;
        emails =
            s.emails
            ++ record { id = id; filename = s.meta.last_file; offset = s.meta.offset } ∷ [];
      }
  restarted-store_email s now id encrypted b c n p l m o =
      let r = (store_email gzip now (some id) encrypted b s).0 in
      ap (λ meta. record r { meta = meta }) (sync-save s.meta r.meta o)
      ∙ ap (λ r. record r.0 { meta = s.meta }) (store_email-last s now id encrypted b c n p l m)

  -- The index takes no second email at the place of the last row.
  is_free-last :
      (s : Store) (now : Text) (id : ℕ) (b c : Text)
      → is_empty s.meta.last_file ≡ false
      → lookup s.meta.last_file s.files ≡ some c
      → length b < max_email_size_in_file
      → length c < max_file_size
      → is_free now b (record s {
        emails =
            s.emails
            ++ record { id = id; filename = s.meta.last_file; offset = s.meta.offset } ∷ [];
      })
        ≡ false
  unfolding is_free open_file
  is_free-last s now id b c n p l m =
      let small : ltb (length b) max_email_size_in_file ≡ true = ground (arith, l) in
      let room : leb max_file_size (length c) ≡ false = ground (arith, m) in
      rw (is_free, open_file, small, n, p, room)
        (ap not (has_place-last s.emails id s.meta.offset s.meta.last_file))

  -- An email in the last file, of which the row is refused.
  store_email-refused :
      (s : Store) (now : Text) (encrypted : Bool) (b c : Text)
      → is_empty s.meta.last_file ≡ false
      → lookup s.meta.last_file s.files ≡ some c
      → length b < max_email_size_in_file
      → length c < max_file_size
      → store_email gzip now none encrypted b s ≡ (
        record s {
          files =
              insert s.meta.last_file
                (write_at s.meta.offset (bytes_of gzip encrypted b) c)
                s.files;
        },
        none,
      )
  unfolding store_email open_and_write open_file write_email bytes_of
  store_email-refused s now encrypted b c n p l m =
      let small : ltb (length b) max_email_size_in_file ≡ true = ground (arith, l) in
      let room : leb max_file_size (length c) ≡ false = ground (arith, m) in
      rw (open_file, small, n, p, room, write_email, p, room) refl

  -- An email is stored in the last file after the meta was saved, and the program ends without saving
  -- it again: then the next email is refused, since its row would have the place of the first, but it
  -- is written over that one, whose row is read as the next email; if the last file is there and not
  -- full, also with the first of the two, both are less than 5 MiB, the place is below 4 GiB, and gzip
  -- unpacks what it packs of the second one.
  pub store_email-restarted :
      (s : Store) (now later : Text) (id next : ℕ) (encrypted : Bool) (b b' c : Text)
      → is_empty s.meta.last_file ≡ false
      → lookup s.meta.last_file s.files ≡ some c
      → length b < max_email_size_in_file
      → length c < max_file_size
      → length (write_at s.meta.offset (bytes_of gzip encrypted b) c) < max_file_size
      → length b' < max_email_size_in_file
      → s.meta.offset < 4294967296
      → gzip.unpack (gzip.pack b') ≡ some b'
      → length (body_of gzip b') < 4294967296
      → Overwritten s.meta id later next encrypted b' (crashed_after s now id encrypted b)
  unfolding new_email crashed_after
  store_email-restarted s now later id next encrypted b b' c n p l m m' l' o g u =
      let file = write_at s.meta.offset (bytes_of gzip encrypted b) c in
      let file' = write_at s.meta.offset (bytes_of gzip encrypted b') file in
      let files = insert s.meta.last_file file s.files in
      let r : Store = record {
        files = files;
        meta = s.meta;
        emails =
            s.emails
            ++ record { id = id; filename = s.meta.last_file; offset = s.meta.offset } ∷ [];
      } in
      let q = lookup-insert_same s.meta.last_file file s.files in
      let none_new : new_email later b' next r ≡ none =
        rw (new_email, is_free-last (record s { files = files }) later id b' file n q l' m') refl in
      subst (Overwritten s.meta id later next encrypted b')
        (sym (restarted-store_email s now id encrypted b c n p l m o))
        (rw (none_new, store_email-refused r later encrypted b' file n q l' m')
          (
            refl,
            read_email-found gzip (record r { files = insert s.meta.last_file file' files })
                  (record { id = id; filename = s.meta.last_file; offset = s.meta.offset }) file'
                  (lookup-insert_same s.meta.last_file file' files) o
                ∙ read-bytes_of gzip encrypted b' file' s.meta.offset
                    (ap (take (length (bytes_of gzip encrypted b')))
                        (drop-write_at s.meta.offset (bytes_of gzip encrypted b') file)
                      ∙ take-length_append (bytes_of gzip encrypted b')
                          (drop (s.meta.offset + length (bytes_of gzip encrypted b')) file))
                    g u,
          ))
