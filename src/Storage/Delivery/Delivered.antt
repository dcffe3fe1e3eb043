-- ===== src/Storage/Delivery/Delivered.antt =====
-- storage/email.go: a delivered email is in its mailbox, and can be read.
use atmail.Prelude.{
  ℕ, ◌+◌, ◌<◌, ◌≡◌, ◌∙◌, refl, sym, ap, arith, Bool, true, false, Option, none, some, List, [], ◌∷◌,
  ◌++◌, if◌then◌else◌, is_empty, leb, length, Text, lookup, eq_text, Bool-cases, Option-cases, ◌⊎◌,
  inl, inr,
}
use atmail.Storage.Format
use atmail.Storage.Format.{Gzip, compress_bigger_than, flags}
use atmail.Storage.Files.{
  Email, Store, max_email_size_in_file, is_free, new_email, store_email, read_email,
}
use atmail.Storage.Files.Keeping.{body_of, bytes_of}
use atmail.Storage.Files.Reading.{HasLast, Added, read_email-Kept}
use atmail.Storage.Files.Runs.{Added-store_email}
use atmail.Storage.Database.{
  Database, select_from, has_row, has_mailbox, has_email, list_mailbox_emails, add_mailbox_email,
}
use atmail.Storage.Mailbox.Alive.{has_row-append, has_row-mailbox}
use atmail.Display.Boxes.{Server, find_id, new_id, get_or_create}
use atmail.Storage.Delivery.{
  Account, store_with, has_box, add_to, add_inbox, inbox_mailbox, store_email_inbox, with_row,
  called, committed,
}

has_email-last : (es : List Email) (e : Email) → has_email (es ++ e ∷ []) e.id ≡ true
unfolding has_email
has_email-last [] e = ground arith
has_email-last (x ∷ es) e = ground (arith, has_email-last es e)

absent_row :
    (rows : List (ℕ × ℕ)) (m id : ℕ) → has_mailbox rows id ≡ false → has_row rows m id ≡ false
absent_row rows m id h = elim (Bool-cases (has_row rows m id)) [
  | inl e ↦ let k = has_row-mailbox rows m id e in cc
  | inr e ↦ e
]

if-append :
    (b : Bool) (x : Email) (r l : List Email)
    → (if b then x ∷ (r ++ l) else r ++ l) ≡ (if b then x ∷ r else r) ++ l
if-append true x r l = refl
if-append false x r l = refl

-- The emails of a mailbox with a row more for a new email.
select-last :
    (rows : List (ℕ × ℕ)) (m : ℕ) (es : List Email) (e : Email)
    → has_email es e.id ≡ false
    → (select_from (es ++ e ∷ []) λ x. has_row (rows ++ (m, e.id) ∷ []) m x.id)
      ≡ (select_from es λ x. has_row rows m x.id) ++ e ∷ []
unfolding select_from has_email
select-last rows m [] e h =
    let last : has_row (rows ++ (m, e.id) ∷ []) m e.id ≡ true =
      rw (has_row-append rows m e.id m e.id) (ground arith) in
    rw last refl
select-last rows m (x ∷ es) e h =
    let same : has_row (rows ++ (m, e.id) ∷ []) m x.id ≡ has_row rows m x.id =
      rw (has_row-append rows m x.id m e.id) (ground (arith, h)) in
    rw (same, select-last rows m es e (ground (arith, h)))
      (if-append (has_row rows m x.id) x (select_from es λ x. has_row rows m x.id) (e ∷ []))

-- The table of emails is the one that the rows of the files stand in, and has nothing of an id.
pub record Fresh (id : ℕ) (a : Account) : Type 0 where
  pub same : a.store.emails ≡ a.server.tables.emails
  pub no_email : has_email a.server.tables.emails id ≡ false
  pub no_row : has_mailbox a.server.tables.mailbox_emails id ≡ false

abbrev pub with_mailbox_email : ℕ → Email → Database → Database
with_mailbox_email m e db = record db {
  emails = db.emails ++ e ∷ [];
  mailbox_emails = db.mailbox_emails ++ (m, e.id) ∷ [];
}

pub add_mailbox_email-last :
    (m : ℕ) (e : Email) (db : Database)
    → has_mailbox db.mailbox_emails e.id ≡ false
    → add_mailbox_email m e.id (record db { emails = db.emails ++ e ∷ [] })
      ≡ some (with_mailbox_email m e db)
unfolding add_mailbox_email
add_mailbox_email-last m e db n =
    rw (absent_row db.mailbox_emails m e.id n, has_email-last db.emails e) refl

called-some :
    (callback : Server → Option Server) (a : Account) (not_stored : Store) (id : ℕ)
    (p : Store × Option ℕ)
    → p.1 ≡ some id
    → called callback a not_stored p
      ≡ committed a p.0 not_stored id (callback (with_row p.0 a.server))
called-some callback a not_stored id (s, none) h = cc
called-some callback a not_stored id (s, some j) h = let e : j ≡ id = cc in rw e refl

-- The mailbox of a folder, and the table with it.
abbrev pub box_of : Text → Server → ℕ
box_of folder s = if is_empty folder then inbox_mailbox else (get_or_create folder s.mailboxes).0

abbrev delivered_to : Text → Email → Server → Server
delivered_to folder e s = record s {
  mailboxes = if is_empty folder then s.mailboxes else (get_or_create folder s.mailboxes).1;
  tables = with_mailbox_email (box_of folder s) e s.tables;
}

has_box-last :
    (id : ℕ) (name : Text) (rows : List (ℕ × Text)) → has_box id (rows ++ (id, name) ∷ []) ≡ true
unfolding has_box
has_box-last id name [] = ground arith
has_box-last id name ((i, n) ∷ rows) = ground (arith, has_box-last id name rows)

-- The id that is found is in the table.
pub find_id-has_box :
    (name : Text) (rows : List (ℕ × Text)) (id : ℕ)
    → find_id name rows ≡ some id
    → has_box id rows ≡ true
unfolding find_id has_box
find_id-has_box name [] id h = cc
find_id-has_box name ((i, n) ∷ rows) id h = elim (Bool-cases (eq_text n name)) [
  | inl e ↦
      let p : some i ≡ some id = rw (find_id, e) at h in let q : i ≡ id = cc in rw q (ground arith)
  | inr e ↦
      let p : find_id name rows ≡ some id = rw (find_id, e) at h in
      ground (arith, find_id-has_box name rows id p)
]

get_or_create-has_box :
    (name : Text) (rows : List (ℕ × Text))
    → has_box (get_or_create name rows).0 (get_or_create name rows).1 ≡ true
unfolding get_or_create
get_or_create-has_box name rows = elim (Option-cases (find_id name rows)) [
  | inl e ↦ rw (get_or_create, e) (has_box-last (new_id rows) name rows)
  | inr (i, e) ↦ rw (get_or_create, e) (find_id-has_box name rows i e)
]

-- The inbox is in the table, where the folder is empty.
abbrev pub HasInbox : Text → Server → Type 0
HasInbox folder s = (is_empty folder ≡ false) ⊎ (has_box inbox_mailbox s.mailboxes ≡ true)

inbox_of :
    (folder : Text) (s : Server)
    → is_empty folder ≡ true
    → HasInbox folder s
    → has_box inbox_mailbox s.mailboxes ≡ true
inbox_of folder s e (inl f) = cc
inbox_of folder s e (inr h) = h

add_inbox-last :
    (folder : Text) (e : Email) (s : Server)
    → HasInbox folder s
    → has_mailbox s.tables.mailbox_emails e.id ≡ false
    → add_inbox folder e.id
        (record s { tables = record s.tables { emails = s.tables.emails ++ e ∷ [] } })
      ≡ some (delivered_to folder e s)
unfolding add_inbox add_to
add_inbox-last folder e s b n = elim (Bool-cases (is_empty folder)) [
  | inl f ↦
      rw (f, add_to, inbox_of folder s f b, add_mailbox_email-last inbox_mailbox e s.tables n) refl
  | inr f ↦
      rw
        (
          f,
          add_to,
          get_or_create-has_box folder s.mailboxes,
          add_mailbox_email-last (get_or_create folder s.mailboxes).0 e s.tables n,
        )
        refl
]

module _ (gzip : Gzip) (now : Text) (id : ℕ) (encrypted : Bool) (b : Text) (a : Account)
    (fresh : Fresh id a) (free : is_free now b a.store ≡ true) where
  abbrev stored : Store × Option ℕ
  stored = store_email gzip now (some id) encrypted b a.store

  -- The tables with the row of an email.
  abbrev pub with_email : Email → Server
  with_email e = record a.server {
    tables = record a.server.tables { emails = a.server.tables.emails ++ e ∷ [] };
  }

  pub store_with-added :
      (callback : Server → Option Server) (s : Server)
      (x : Added a.store (bytes_of gzip encrypted b) id stored)
      → callback (with_email x.added) ≡ some s
      → store_with gzip now id encrypted b callback a
        ≡ (record { store = stored.0; server = s }, some id)
  unfolding store_with new_email
  store_with-added callback s x c =
      let w : with_row stored.0 a.server ≡ with_email x.added =
        ap (λ es. record a.server { tables = record a.server.tables { emails = es } })
          (x.row ∙ ap (λ es. es ++ x.added ∷ []) fresh.same) in
      let y : new_email now b id a.store ≡ some id = rw (new_email, free) refl in
      ap
        (λ n.
          called callback a (store_email gzip now none encrypted b a.store).0
            (store_email gzip now n encrypted b a.store))
        y
      ∙ called-some callback a (store_email gzip now none encrypted b a.store).0 id stored
          x.accepted
      ∙ ap (committed a stored.0 (store_email gzip now none encrypted b a.store).0 id)
          (ap callback w ∙ c)

  pub no_row_of : (e : Email) → e.id ≡ id → has_mailbox a.server.tables.mailbox_emails e.id ≡ false
  no_row_of e q = ap (has_mailbox a.server.tables.mailbox_emails) q ∙ fresh.no_row

  store_email_inbox-added :
      (folder : Text) (x : Added a.store (bytes_of gzip encrypted b) id stored)
      → HasInbox folder a.server
      → store_email_inbox gzip now id encrypted b folder a
        ≡ (record { store = stored.0; server = delivered_to folder x.added a.server }, some id)
  unfolding store_email_inbox
  store_email_inbox-added folder x box =
      store_with-added (add_inbox folder id) (delivered_to folder x.added a.server) x (
        ap (λ i. add_inbox folder i (with_email x.added)) (sym x.same)
        ∙ add_inbox-last folder x.added a.server box (no_row_of x.added x.same))

  pub listed :
      (m : ℕ) (e : Email)
      → e.id ≡ id
      → list_mailbox_emails m (with_mailbox_email m e a.server.tables)
        ≡ list_mailbox_emails m a.server.tables ++ e ∷ []
  unfolding list_mailbox_emails
  listed m e q =
      select-last a.server.tables.mailbox_emails m a.server.tables.emails e
        (ap (has_email a.server.tables.emails) q ∙ fresh.no_email)

  -- An email of less than 5 MiB is delivered to the mailbox of its folder, or to the inbox: it is the
  -- last email of that mailbox, and it is read as it was, with its flags; if the inbox is in the table
  -- where the folder is empty, the rows of the emails are those of the files, none has its id or the
  -- place that it gets, the last file is there, the name of a new file is that of none that is there,
  -- the files end before 4 GiB, and gzip unpacks what it packs of this email.
  pub store_email_inbox-read_email :
      (folder : Text)
      → HasInbox folder a.server
      → HasLast a.store
      → length b < max_email_size_in_file
      → lookup now a.store.files ≡ none
      → a.store.meta.offset + length (bytes_of gzip encrypted b) < 4294967296
      → gzip.unpack (gzip.pack b) ≡ some b
      → length (body_of gzip b) < 4294967296
      → (e : Email) × (((store_email_inbox gzip now id encrypted b folder a).1 ≡ some id)
          × ((list_mailbox_emails
                  (box_of folder a.server)
                  (store_email_inbox gzip now id encrypted b folder a).0.server.tables
                ≡ list_mailbox_emails (box_of folder a.server) a.server.tables ++ e ∷ [])
              × (read_email gzip (store_email_inbox gzip now id encrypted b folder a).0.store e
                  ≡ Format.email b (flags (leb compress_bigger_than (length b)) encrypted))))
  store_email_inbox-read_email folder box h m f l g u =
      let x = Added-store_email gzip a.store now id encrypted b h m f l in
      (
        x.added,
        rw (store_email_inbox-added folder x box) (
          refl,
          (
            listed (box_of folder a.server) x.added x.same,
            read_email-Kept gzip encrypted b stored.0 x.added x.kept (omega (arith, l, x.place)) g
                u,
          ),
        ),
      )
