-- ===== src/Display/Selected/Expunges.antt =====
-- display/session_selected.go: the emails that an expunge removes.
use atmail.Prelude.{
  ℕ, ◌≡◌, refl, ap, ◌∙◌, Bool, true, false, not, ◌&&◌, none, some, List, [], ◌∷◌, map, ◌==◌, arith,
  if◌then◌else◌,
}
use atmail.Storage.Files.{Email, wrap32}
use atmail.Storage.Database.{
  Database, has_row, has_email, list_emails_with_flag, delete_row, remove_emails_with_flag,
}
use atmail.Storage.Mailbox.{delete_emails, after_deleting, delete_emails_with_flag}
use atmail.Storage.Mailbox.Alive.{has_row-delete, has_email-select}
use atmail.Display.Selected.{View, done, unwritten, write_all, expunge}

module _ (erase : Email → Bool) (erases : (e : Email) → erase e ≡ true) where
  has_email-delete_emails :
      (es : List Email) (db : Database) (id : ℕ)
      → has_email (delete_emails erase es db).0.emails id
        ≡ has_email db.emails id && not (has_email es id)
  unfolding delete_emails delete_row has_email
  has_email-delete_emails [] db id = ground arith
  has_email-delete_emails (e ∷ es) db id = rw (erases e) (
      has_email-delete_emails es (delete_row e.id db) id
      ∙ ap (λ b. b && not (has_email es id)) (has_email-select db.emails (λ i. not (i == e.id)) id)
      ∙ ground arith)

  flags-delete_emails :
      (es : List Email) (db : Database) (id f : ℕ)
      → has_row (delete_emails erase es db).0.emails_flags id f
        ≡ has_row db.emails_flags id f && not (has_email es id)
  unfolding delete_emails delete_row has_email
  flags-delete_emails [] db id f = ground arith
  flags-delete_emails (e ∷ es) db id f = rw (erases e) (
      ground (
        arith,
        flags-delete_emails es (delete_row e.id db) id f,
        has_row-delete db.emails_flags e.id id f,
      ))

  ends_well : (es : List Email) (db : Database) → (delete_emails erase es db).1 ≡ true
  unfolding delete_emails
  ends_well [] db = refl
  ends_well (e ∷ es) db = rw (erases e) (ends_well es (delete_row e.id db))

  completed :
      (f : ℕ) (es : List Email) (p : Database × Bool)
      → p.1 ≡ true
      → after_deleting f es p ≡ (remove_emails_with_flag f p.0, some es)
  completed f es (db, true) e = refl
  completed f es (db, false) e = cc

  -- Where no deletion in a file fails, an expunge without UIDs removes the emails with the flag
  -- \Deleted, those of other mailboxes too, and no others, whatever can be written; and if each number
  -- can be written, it writes the ids of those, modulo 2 ^ 32.
  pub expunge-has_email :
      (writes : ℕ → Bool) (selected : View) (db : Database)
      → ((id : ℕ)
          → has_email (expunge erase writes selected none db).0.emails id
            ≡ has_email db.emails id && not (has_row db.emails_flags id 4))
        × ((expunge erase writes selected none db).1 ≡ (
            if write_all writes
              (map wrap32 (map (λ (e : Email). e.id) (list_emails_with_flag 4 db)))
            then done (map wrap32 (map (λ (e : Email). e.id) (list_emails_with_flag 4 db)))
            else unwritten))
  unfolding expunge delete_emails_with_flag list_emails_with_flag remove_emails_with_flag
  expunge-has_email writes selected db =
      let es = list_emails_with_flag 4 db in
      rw
        (
          expunge,
          delete_emails_with_flag,
          completed 4 es (delete_emails erase es db) (ends_well es db),
        )
        (
          (λ id.
              has_email-select (delete_emails erase es db).0.emails
                (λ i. not (has_row (delete_emails erase es db).0.emails_flags i 4)) id
              ∙ ground (
                arith,
                has_email-delete_emails es db id,
                flags-delete_emails es db id 4,
                has_email-select db.emails (λ i. has_row db.emails_flags i 4) id,
              )),
          refl,
        )
