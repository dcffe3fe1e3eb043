-- ===== src/Display/Appending.antt =====
-- display/session_auth.go: Append.
pub mod Accepted
mod Tests
use atmail.Prelude.{
  ℕ, ◌%◌, Bool, true, false, not, Option, none, some, List, [], ◌∷◌, if◌then◌else◌, leb, length,
  Text, eq_text, lookup,
}
use atmail.Storage.Format.{Gzip}
use atmail.Storage.Delivery.{Account, store_with, add_to}
use atmail.Display.Selected.{View}

-- The UID of the new email and the UIDVALIDITY of its mailbox.
pub record AppendData : Type 0 where
  pub uid : ℕ
  pub uid_validity : ℕ

-- What `Session.Append` gives.
pub data Reply : Type 0 where
  limit_reached try_create unreadable authorization_failed internal : Reply
  appended : AppendData → Reply

abbrev pub to_uint32 : ℕ → ℕ
to_uint32 n = n % 4294967296

abbrev pub append_stored : View → Account × Option ℕ → Account × Reply
append_stored box (a, none) = (a, internal)
append_stored box (a, some id) =
    (a, appended (record { uid = to_uint32 id; uid_validity = box.id }))

module _ (gzip : Gzip) (now : Text) (id : ℕ) where
  -- From the address of the sender on.
  abbrev pub append_from : Text → View → Text → Option Text → Account → Account × Reply
  unfolding eq_text store_with add_to
  append_from username box b none a = (a, unreadable)
  append_from username box b (some address) a =
      if not (eq_text address username)
      then (a, authorization_failed)
      else append_stored box (store_with gzip now id false b (add_to box.id id) a)

  abbrev pub append_to :
      Text → (Text → Option Text) → Text → Option View → Account → Account × Reply
  unfolding append_from
  append_to username sender_of b none a = (a, try_create)
  append_to username sender_of b (some box) a = append_from username box b (sender_of b) a

  -- `Session.Append` of a message that is read to its end, where `sender_of` is the address of its From
  -- field, if it is a message with one, and `id` is that of the row that is added. After `appended` it
  -- writes to those that wait for the mailbox that there is a new message.
  unfoldable pub append : ℕ → Text → (Text → Option Text) → Text → Text → Account → Account × Reply
  unfolding append_to lookup
  append max_email_size username sender_of mailbox b a =
      if leb max_email_size (to_uint32 (length b))
      then (a, limit_reached)
      else append_to username sender_of b (lookup mailbox a.server.boxes) a
