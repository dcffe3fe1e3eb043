-- ===== src/Display/Appending/Accepted.antt =====
-- display/session_auth.go: when a message is appended, and where it is then.
use atmail.Prelude.{
  ℕ, ◌+◌, ◌<◌, ◌≡◌, ◌∙◌, refl, sym, ap, arith, true, false, Option, none, some, [], ◌∷◌, ◌++◌, leb,
  length, Text, eq_text_self, lookup,
}
use atmail.Storage.Format
use atmail.Storage.Format.{Gzip, compress_bigger_than, flags}
use atmail.Storage.Files.{Email, max_email_size_in_file, is_free, store_email, read_email}
use atmail.Storage.Files.Keeping.{body_of, bytes_of}
use atmail.Storage.Files.Reading.{HasLast, read_email-Kept}
use atmail.Storage.Files.Runs.{Added-store_email}
use atmail.Storage.Database.{list_mailbox_emails}
use atmail.Storage.Delivery.{Account, has_box, add_to}
use atmail.Storage.Delivery.Delivered.{
  Fresh, with_email, with_mailbox_email, add_mailbox_email-last, no_row_of, find_id-has_box,
  store_with-added, listed,
}
use atmail.Display.Boxes.Agreement.{Agrees, id_of}
use atmail.Display.Selected.{View}
use atmail.Display.Appending.{
  AppendData, Reply, limit_reached, try_create, unreadable, authorization_failed, internal,
  appended, to_uint32, append_from, append_to, append,
}

-- The reply is that a message was appended, and the proposition holds; or it is another one.
data Only (P : Type 0) : Reply → Type 0 where
  allowed : {d : AppendData} → P → Only P (appended d)
  limited : Only P limit_reached
  missing : Only P try_create
  not_read : Only P unreadable
  not_allowed : Only P authorization_failed
  not_stored : Only P internal

module _ (gzip : Gzip) (now : Text) (id : ℕ) where
  add_to-email :
      (b : Text) (a : Account) (fresh : Fresh id a) (free : is_free now b a.store ≡ true)
      (box : View) (e : Email)
      → has_box box.id a.server.mailboxes ≡ true
      → e.id ≡ id
      → add_to box.id id (with_email gzip now id false b a fresh free e)
        ≡ some (record a.server { tables = with_mailbox_email box.id e a.server.tables })
  unfolding add_to
  add_to-email b a fresh free box e h q =
      ap (λ i. add_to box.id i (with_email gzip now id false b a fresh free e)) (sym q)
      ∙ rw
          (
            h,
            add_mailbox_email-last box.id e a.server.tables
                (no_row_of gzip now id false b a fresh free e q),
          )
          refl

  -- A message of less than 5 MiB and of less than the limit, that the user is the sender of, is
  -- appended to a mailbox that the sessions share: it is the last email of it, and it is read as it
  -- was, with its flags; if the shared mailboxes agree with the table, the rows of the emails are
  -- those of the files, none has its id or the place that it gets, the last file is there, the name of
  -- a new file is that of none that is there, the files end before 4 GiB, and gzip unpacks what it
  -- packs of this message.
  pub append-read_email :
      (max : ℕ) (username : Text) (sender_of : Text → Option Text) (mailbox b : Text) (box : View)
      (a : Account)
      → Fresh id a
      → is_free now b a.store ≡ true
      → Agrees a.server
      → leb max (to_uint32 (length b)) ≡ false
      → lookup mailbox a.server.boxes ≡ some box
      → sender_of b ≡ some username
      → HasLast a.store
      → length b < max_email_size_in_file
      → lookup now a.store.files ≡ none
      → a.store.meta.offset + length (bytes_of gzip false b) < 4294967296
      → gzip.unpack (gzip.pack b) ≡ some b
      → length (body_of gzip b) < 4294967296
      → (e : Email) × (((append gzip now id max username sender_of mailbox b a).1
            ≡ appended (record { uid = to_uint32 id; uid_validity = box.id }))
          × (list_mailbox_emails box.id
                (append gzip now id max username sender_of mailbox b a).0.server.tables
              ≡ list_mailbox_emails box.id a.server.tables ++ e ∷ [])
          × (read_email gzip (append gzip now id max username sender_of mailbox b a).0.store e
              ≡ Format.email b (flags (leb compress_bigger_than (length b)) false)))
  unfolding append append_to append_from
  append-read_email max username sender_of mailbox b box a fresh free agrees small there from h m f
        l g u =
      let x = Added-store_email gzip a.store now id false b h m f l in
      let known =
        find_id-has_box mailbox a.server.mailboxes box.id
          (sym (agrees.same mailbox) ∙ ap id_of there) in
      let s =
        store_with-added gzip now id false b a fresh free (add_to box.id id)
          (record a.server { tables = with_mailbox_email box.id x.added a.server.tables }) x
          (add_to-email b a fresh free box x.added known x.same) in
      (
        x.added,
        rw (small, there, from, eq_text_self username, s)
            (
              refl,
              listed gzip now id false b a fresh free box.id x.added x.same,
              read_email-Kept gzip false b (store_email gzip now (some id) false b a.store).0
                  x.added x.kept (omega (arith, l, x.place)) g u,
            ),
      )
