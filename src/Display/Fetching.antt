-- ===== src/Display/Fetching.antt =====
-- display/session_selected.go: Fetch.
pub mod Marking
pub mod Examples
mod Tests
use atmail.Prelude.{
  ℕ, Bool, true, false, not, ◌&&◌, ◌||◌, Option, none, some, List, [], ◌∷◌, ◌++◌, map,
  if◌then◌else◌, is_empty, length, Text,
}
use atmail.Storage.Files.{Email}
use atmail.Storage.Database.{Database, select_from, has_row}
use atmail.Storage.Mailbox.{NumSet, list_emails, to_sequence}
use atmail.Storage.Flags.{FlagIds, add_email_flag}

-- What `ReadEmail` gives: an error, that of an unexpected end or another one; no reader, of a deleted
-- email; or a reader with what it reads, and whether this ends without an error.
pub data Reading : Type 0 where
  unexpected_eof failed no_reader : Reading
  reader : Text → Bool → Reading

-- The sections of go-imap, what it extracts from an email, the date of an email, what can be read, and
-- whether writing a section or closing a message has no error.
pub record Fetching : Type 1 where
  pub Section : Type 0
  pub BinarySection : Type 0
  pub peek : Section → Bool
  pub binary_peek : BinarySection → Bool
  pub envelope : Text → Text
  pub body_structure : Text → Text
  pub extract_body : Text → Section → Text
  pub extract_binary : Text → BinarySection → Text
  pub binary_size : Text → BinarySection → ℕ
  pub internal_date : Email → ℕ
  pub read : Email → Reading
  pub writes_body : Section → Text → Bool
  pub writes_binary : BinarySection → Text → Bool
  pub closes : Email → Bool

-- `SeenFlag`.
abbrev pub seen_flag : ℕ
seen_flag = 1

-- ListEmailFlags, the names.
unfoldable pub list_email_flags : FlagIds → ℕ → Database → List Text
unfolding select_from has_row
list_email_flags ids id db =
    map (λ (n, f). n) (select_from ids λ (n, f). has_row db.emails_flags id f)

-- How Fetch goes on after a part of an email, or ends.
pub data End : Type 0 where
  goes_on skips done internal unwritten panicked : End

module _ (env : Fetching) where
  open env use {
    Section, BinarySection, peek, binary_peek, envelope, body_structure, extract_body,
    extract_binary, binary_size, internal_date, read, writes_body, writes_binary, closes,
  }

  pub record FetchOptions : Type 0 where
    pub uid : Bool
    pub flags : Bool
    pub internal_date : Bool
    pub envelope : Bool
    pub rfc822_size : Bool
    pub body_structure : Bool
    pub body_section : List Section
    pub binary_section : List BinarySection
    pub binary_section_size : List BinarySection

  -- What is written of an email.
  pub data Item : Type 0 where
    of_uid of_date of_size : ℕ → Item
    of_flags : List Text → Item
    of_envelope of_structure : Text → Item
    of_body : Section → Text → Item
    of_binary : BinarySection → Text → Item
    of_binary_size : BinarySection → ℕ → Item

  -- No section is peeked.
  unfoldable pub none_peeked : {S : Type 0} → (S → Bool) → List S → Bool
  none_peeked p [] = true
  none_peeked p (s ∷ ss) = not (p s) && none_peeked p ss

  unfoldable pub mark_seen : FetchOptions → Bool
  unfolding none_peeked
  mark_seen o = none_peeked binary_peek o.binary_section && none_peeked peek o.body_section

  abbrev pub item_if : Bool → Item → List Item
  item_if b i = if b then i ∷ [] else []

  -- What is written before the email is read.
  unfoldable pub first_items : FetchOptions → FlagIds → Email → Database → List Item
  unfolding list_email_flags
  first_items o ids e db =
      item_if o.uid (of_uid e.id)
      ++ item_if o.flags (of_flags (list_email_flags ids e.id db))
      ++ item_if o.internal_date (of_date (internal_date e))

  -- The email is read to its end.
  unfoldable pub reads_all : FetchOptions → Bool
  reads_all o =
      o.rfc822_size
      || (o.body_structure
          || (not (is_empty o.body_section)
              || (not (is_empty o.binary_section) || not (is_empty o.binary_section_size))))

  -- The loops over the sections.
  unfoldable pub write_bodies : List Section → Text → List Item × End
  write_bodies [] t = ([], goes_on)
  write_bodies (s ∷ ss) t =
      let (items, end) = write_bodies ss t in
      if writes_body s (extract_body t s)
      then (of_body s (extract_body t s) ∷ items, end)
      else (of_body s (extract_body t s) ∷ [], unwritten)

  unfoldable pub write_binaries : List BinarySection → Text → List Item × End
  write_binaries [] t = ([], goes_on)
  write_binaries (s ∷ ss) t =
      let (items, end) = write_binaries ss t in
      if writes_binary s (extract_binary t s)
      then (of_binary s (extract_binary t s) ∷ items, end)
      else (of_binary s (extract_binary t s) ∷ [], unwritten)

  abbrev pub and_then : List Item × End → List Item × End → List Item × End
  and_then (items, goes_on) (rest, end) = (items ++ rest, end)
  and_then (items, end) rest = (items, end)

  abbrev pub closing : Email → End
  closing e = if closes e then goes_on else unwritten

  -- What is written of an email that is read, up to the closing of its message.
  unfoldable pub last_items : FetchOptions → Email → Text → List Item × End
  unfolding write_bodies write_binaries
  last_items o e t =
      and_then
        (
          item_if o.envelope (of_envelope (envelope t))
              ++ item_if o.rfc822_size (of_size (length t))
              ++ item_if o.body_structure (of_structure (body_structure t)),
          goes_on,
        )
        (and_then (write_bodies o.body_section t) (
          and_then (write_binaries o.binary_section t)
            (map (λ s. of_binary_size s (binary_size t s)) o.binary_section_size, closing e)))

  abbrev pub read_items : FetchOptions → Email → Reading → List Item × End
  unfolding last_items reads_all
  read_items o e unexpected_eof = ([], skips)
  read_items o e failed = ([], internal)
  read_items o e no_reader = ([], panicked)
  read_items o e (reader t ok) = if reads_all o && not ok then ([], internal) else last_items o e t

  -- A message: its sequence number, and what is written of it.
  abbrev pub Message : Type 0
  Message = ℕ × List Item

  unfoldable pub message : FetchOptions → FlagIds → ℕ → Email → Database → Message × End
  unfolding first_items read_items to_sequence
  message o ids m e db =
      let (items, end) = read_items o e (read e) in
      ((to_sequence m e.id db, first_items o ids e db ++ items), end)

  -- The tables after an email is marked, or none for an error.
  unfoldable pub marked : Bool → Email → Database → Option Database
  unfolding add_email_flag
  marked mark e db = if mark then add_email_flag e.id seen_flag db else some db

  abbrev pub Fetched : Type 0
  Fetched = Database × List Message × End

  abbrev pub after_message : Database → Message × End → Fetched → Fetched
  after_message db (msg, goes_on) (db', msgs, end) = (db', msg ∷ msgs, end)
  after_message db (msg, skips) (db', msgs, end) = (db', msg ∷ msgs, end)
  after_message db (msg, end) rest = (db, msg ∷ [], end)

  -- The loop over the emails.
  unfoldable pub fetch_each : FetchOptions → FlagIds → ℕ → List Email → Database → Fetched
  unfolding marked message mark_seen
  fetch_each o ids m [] db = (db, [], done)
  fetch_each o ids m (e ∷ es) db = elim (marked (mark_seen o) e db) [
    | none ↦ (db, [], internal)
    | some db' ↦ after_message db' (message o ids m e db') (fetch_each o ids m es db')
  ]

  abbrev pub fetch_listed : FetchOptions → FlagIds → ℕ → Option (List Email) → Database → Fetched
  unfolding fetch_each
  fetch_listed o ids m none db = (db, [], panicked)
  fetch_listed o ids m (some es) db = fetch_each o ids m es db

  -- `Session.Fetch` in the mailbox of an id. After each mark the flag is written to those that wait for
  -- the mailbox.
  unfoldable pub fetch : FetchOptions → FlagIds → ℕ → NumSet → Database → Fetched
  unfolding fetch_listed list_emails
  fetch o ids m set db = fetch_listed o ids m (list_emails m set db) db
