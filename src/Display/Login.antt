-- ===== src/Display/Login.antt =====
-- display/session.go, display/server.go: Login.
pub mod Entering
mod Tests
use atmail.Prelude.{
  ℕ, ◌%◌, Bool, true, false, Option, none, some, List, [], ◌∷◌, if◌then◌else◌, is_empty, Text,
  lookup, insert,
}
use atmail.Auth.Domain.{Services, verify_user}
use atmail.Auth.Limiter.{RateLimiter, accept, limit}
use atmail.Relay.Session.{Domains}
use atmail.Display.Selected.{View}

abbrev pub Boxes : Type 0
Boxes = List (Text × View)

-- The fields that `Login` reads and writes: of the session, and those of the backend that sessions
-- share.
pub record Client : Type 0 where
  pub username : Text
  pub mailboxes : Option Boxes
  pub user_boxes : List (Text × Boxes)
  pub rate_limiter : RateLimiter

-- What `Login` returns: no error, one of its errors, or no error after a Bye.
pub data Outcome : Type 0 where
  logged_in auth_failed internal said_bye : Outcome

-- The map from the rows of ListMailbox, in their order.
unfoldable pub load_boxes : List (ℕ × Text) → Boxes → Boxes
unfolding insert
load_boxes [] mp = mp
load_boxes ((i, name) ∷ rows) mp = load_boxes rows (insert name (record { id = i; name = name }) mp)

module _ (services : Services) where
  open services use {Conn}

  -- The loop over the domains.
  unfoldable pub log_in_user : Domains services → Conn → Text → Text → Text → Text
  unfolding verify_user
  log_in_user [] conn username password u = u
  log_in_user ((d, cfg) ∷ ds) conn username password u =
      let rest = log_in_user ds conn username password u in
      if verify_user services cfg conn d username password then username else rest

  abbrev pub after_limit : Client → RateLimiter × Bool → Client × Outcome
  after_limit c (r, true) = (record c { rate_limiter = r }, said_bye)
  after_limit c (r, false) = (record c { rate_limiter = r }, auth_failed)

  -- The mailboxes that the sessions of the user share, or a new map of those of the table, where the
  -- table cannot be read, none.
  abbrev pub with_rows : Text → Client → Option (List (ℕ × Text)) → Client × Outcome
  unfolding load_boxes
  with_rows username c none = (c, internal)
  with_rows username c (some rows) = (
    record c {
      mailboxes = some (load_boxes rows []);
      user_boxes = insert username (load_boxes rows []) c.user_boxes;
    },
    logged_in,
  )

  abbrev pub with_boxes :
      Text → (Text → Option (List (ℕ × Text))) → Client → Option Boxes → Client × Outcome
  unfolding with_rows
  with_boxes username list_mailbox c none = with_rows username c (list_mailbox username)
  with_boxes username list_mailbox c (some boxes) = (record c { mailboxes = some boxes }, logged_in)

  unfoldable pub admit : Text → Text → (Text → Option (List (ℕ × Text))) → Client → Client × Outcome
  unfolding accept limit with_boxes lookup
  admit ip username list_mailbox c =
      if is_empty c.username
      then after_limit c (limit ip c.rate_limiter)
      else with_boxes username list_mailbox (record c { rate_limiter = accept ip c.rate_limiter })
          (lookup c.username c.user_boxes)

  -- `Session.Login`, for the address `ip` of the connection.
  unfoldable pub login :
      Domains services
      → Conn
      → Text
      → (Text → Option (List (ℕ × Text)))
      → Text
      → Text
      → Client
      → Client × Outcome
  unfolding log_in_user admit
  login ds conn ip list_mailbox username password c =
      admit ip username list_mailbox
        (record c { username = log_in_user ds conn username password c.username })
