-- ===== src/Display/Listing.antt =====
-- display/session_auth.go: Status and List.
pub mod Complete
mod Tests
use atmail.Prelude.{
  ℕ, Bool, true, false, not, Option, none, some, List, [], ◌∷◌, map, if◌then◌else◌, is_some, Text,
  lookup, contains,
}
use atmail.Utils.Slices.{zip}
use atmail.Display.Selected.{View}
use atmail.Display.Boxes.{Server, Session}
use atmail.Display.Status.{
  StatusOptions, StatusData, status_mailbox, Attribute, subscribed, get_mailbox_attributes,
}

-- What `Session.Status` gives.
pub data Told : Type 0 where
  not_there panicked : Told
  told : StatusData → Told

abbrev pub told_of : Option StatusData → Told
told_of none = panicked
told_of (some d) = told d

abbrev pub told_by : Server × Option StatusData → Server × Told
told_by (s, d) = (s, told_of d)

-- `Session.Status`.
unfoldable pub status : Text → StatusOptions → Server → Server × Told
unfolding lookup status_mailbox
status mailbox opt s =
    if is_some (lookup mailbox s.boxes)
    then told_by (status_mailbox mailbox opt s)
    else (s, not_there)

-- `imap.ListData` without the delimiter, which is always the separator.
pub record ListData : Type 0 where
  pub mailbox : Text
  pub attrs : List Attribute
  pub status : Option StatusData

-- How a listing ends: with each mailbox written, with an error of its own or of a write, or with a
-- panic.
pub data End : Type 0 where
  done internal unwritten crashed : End

abbrev pub Listing : Type 0
Listing = Server × List ListData × End

-- The matching of go-imap, the LIKE of SQLite, and whether a write has no error.
pub record Listed : Type 0 where
  pub match_list : Text → Text → Text → Bool
  pub like : Text → Text → Bool
  pub writes : ListData → Bool

module _ (env : Listed) where
  open env use {match_list, like, writes}

  abbrev pub write_list : ListData → Server → (Server → Listing) → Listing
  write_list d s rest = elim (writes d) [
    | false ↦ (s, [], unwritten)
    | true ↦ let (s', ds, e) = rest s in (s', d ∷ ds, e)
  ]

  abbrev pub with_status : Text → List Attribute → Server × Told → (Server → Listing) → Listing
  with_status box attrs (s, not_there) rest = (s, [], internal)
  with_status box attrs (s, panicked) rest = (s, [], crashed)
  with_status box attrs (s, told d) rest =
      write_list (record { mailbox = box; attrs = attrs; status = some d }) s rest

  abbrev pub attributes_of : Session → Text → List Attribute → List Attribute
  attributes_of u box attrs = if contains u.subscribed box then subscribed ∷ attrs else attrs

  abbrev pub list_box :
      Option StatusOptions → Session → Text → Server × List Attribute → (Server → Listing) → Listing
  unfolding status contains
  list_box none u box (s, attrs) rest =
      write_list (record { mailbox = box; attrs = attributes_of u box attrs; status = none }) s rest
  list_box (some opt) u box (s, attrs) rest =
      with_status box (attributes_of u box attrs) (status box opt s) rest

  -- The loop of `List` over the patterns and mailboxes.
  unfoldable pub list_each :
      Text → Option StatusOptions → Session → List (Text × Text) → Server → Listing
  unfolding list_box get_mailbox_attributes
  list_each ref opt u [] s = (s, [], done)
  list_each ref opt u ((p, box) ∷ pairs) s = elim (match_list box ref p) [
    | false ↦ list_each ref opt u pairs s
    | true ↦
        list_box opt u box (get_mailbox_attributes like box s) λ s'. list_each ref opt u pairs s'
  ]

  -- `Session.List`.
  unfoldable pub list : Text → List Text → Bool → Option StatusOptions → Session → Server → Listing
  unfolding list_each zip
  list ref patterns return_subscribed opt u s =
      list_each ref opt u
        (zip patterns (if return_subscribed then u.subscribed else map (λ (k, v). k) s.boxes)) s
