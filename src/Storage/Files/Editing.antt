-- ===== src/Storage/Files/Editing.antt =====
-- storage/email.go: emails that are edited, in the last file and in another one.
use atmail.Prelude.{Bool, length, Text, insert}
use atmail.Storage.Format
use atmail.Storage.Format.{Gzip, write_at}
use atmail.Storage.Files.{Email, Store, updated, update_offset}
use atmail.Storage.Files.Keeping.{bytes_of}

module _ (gzip : Gzip) (s : Store) (now last : Text) (e : Email) (encrypted : Bool)
    (content : Text) where
  -- The last file after the write, and the store after the whole of `EditEmail`.
  written : Text
  unfolding bytes_of
  written = write_at s.meta.offset (bytes_of gzip encrypted content) last

  edited : Text → Store
  unfolding bytes_of
  edited f = record {
    files = insert s.meta.last_file f (insert s.meta.last_file written s.files);
    meta =
        updated
          (record {
            name = s.meta.last_file;
            place = s.meta.offset;
            last_file = s.meta.last_file;
            offset = s.meta.offset;
          })
          (length (bytes_of gzip encrypted content));
    emails = update_offset s.meta.offset e.id s.emails;
  }
