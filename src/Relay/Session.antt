-- ===== src/Relay/Session.antt =====
-- relay/session.go, relay/server.go: who may send to whom.
pub mod Relaying
pub mod Commands
pub mod Examples
mod Tests
use atmail.Prelude.{
  ℕ, Bool, true, false, not, ◌&&◌, Option, none, some, List, [], ◌∷◌, ◌++◌, if◌then◌else◌, is_some,
  is_empty, Text, eq_text, contains, lookup, cut,
}
use atmail.Auth.Domain.{
  Group, Services, Config, UserData, Called, crashed, returned, Admin, admin_emails, exists,
  get_key, verify_user,
}
use atmail.Auth.Limiter.{RateLimiter, accept, limit}
use atmail.Filter.Context

-- An error for the client; `auth_required` is that of go-smtp.
pub data SmtpError : Type 0 where
  auth_required auth_failed internal : SmtpError
  smtp_error : ℕ → SmtpError

-- `relay.Rcpt`.
pub record Rcpt : Type 0 where
  pub user : Text
  pub domain : Text
  pub folder : Text
  pub address : Text
  pub key : Option Text
  pub is_local : Bool
  pub group : Option Group

-- `Rcpt.Rcpt`.
abbrev pub filter_rcpt : Rcpt → Context.Rcpt
filter_rcpt r = record { user = r.user; domain = r.domain; folder = r.folder; address = r.address }

-- `ParseAddress`.
unfoldable pub parse_address : Text → Text × Text
unfolding cut
parse_address address = let (mailbox, domain, found) = cut b'@' address in (mailbox, domain)

-- A recipient that has nothing but its address.
unfoldable pub bare_rcpt : Text → Rcpt
unfolding parse_address
bare_rcpt address = record {
  user = (parse_address address).0;
  domain = (parse_address address).1;
  folder = [];
  address = address;
  key = none;
  is_local = false;
  group = none;
}

pub record Session : Type 0 where
  pub username : Text
  pub from : Rcpt
  pub to : List Rcpt

-- What `rcpt` gives: a recipient, or an error; or the panic of a key file.
pub data Answer {ℓ} (A : Type ℓ) : Type ℓ where
  accepted : A → Answer A
  refused : SmtpError → Answer A
  panicked : Answer A

module _ (services : Services) where
  open services use {Conn}

  -- `Backend.Domains`.
  abbrev pub Domains : Type 0
  Domains = List (Text × Config services)

  -- The loop of `Auth` over the domains: s.username is set by the first that verifies.
  unfoldable pub log_in : Domains → Conn → Text → Text → Session → Session
  unfolding verify_user
  log_in [] conn username password s = s
  log_in ((d, cfg) ∷ ds) conn username password s =
      let rest = log_in ds conn username password s in
      if verify_user services cfg conn d username password
      then record s { username = username }
      else rest

  -- The rest of `Auth`: the session, the limiter and the error; `rejected` where the connection is.
  pub data Authenticated : Type 0 where
    rejected : Session → RateLimiter → Authenticated
    answered : Session → RateLimiter → Option SmtpError → Authenticated

  abbrev pub after_limit : Session → RateLimiter × Bool → Authenticated
  after_limit s (r, true) = rejected s r
  after_limit s (r, false) = answered s r (some auth_failed)

  unfoldable pub admit_session : Text → RateLimiter → Session → Authenticated
  unfolding accept limit
  admit_session ip r s =
      if is_empty s.username then after_limit s (limit ip r) else answered s (accept ip r) none

  -- `Session.Auth`, for the address `ip` of the connection.
  unfoldable pub auth : Domains → Conn → Text → Text → Text → RateLimiter → Session → Authenticated
  unfolding log_in admit_session
  auth ds conn ip username password r s = admit_session ip r (log_in ds conn username password s)

  -- `Session.Mail`.
  unfoldable pub mail : Domains → Text → Session → Session × Option SmtpError
  unfolding bare_rcpt eq_text lookup
  mail ds from s =
      let rcpt = record (bare_rcpt from) {
        is_local = is_some (lookup (bare_rcpt from).domain ds);
      } in
      let s' = record s { from = rcpt } in
      if rcpt.is_local && not (eq_text s.username from)
      then (s', some auth_required)
      else (s', none)

  abbrev pub with_admin : Rcpt → Admin → Called (Option Text) → Answer Rcpt
  with_admin r a crashed = panicked
  with_admin r a (returned k) =
      accepted (record r {
        user = a.user;
        folder = a.folder;
        key = k;
        address = a.user ++ b'@' ∷ r.domain;
      })

  abbrev pub with_data : Rcpt → UserData → Answer Rcpt
  with_data r d = elim (d.group) [
    | some g ↦ accepted (record r { group = some g })
    | none ↦ accepted (record r {
      user = d.username;
      folder = d.folder;
      key = d.key;
      address = d.username ++ b'@' ∷ r.domain;
    })
  ]

  -- The end of `rcpt`, on the answer of `Exists`.
  unfoldable pub settle : Rcpt → Config services → Called (Option UserData) → Answer Rcpt
  unfolding contains get_key
  settle r cfg crashed = panicked
  settle r cfg (returned none) = refused (smtp_error 550)
  settle r cfg (returned (some d)) =
      if contains admin_emails d.username
      then with_admin r cfg.admin (get_key services cfg.admin.crypto)
      else with_data r d

  unfoldable pub rcpt_at : Session → Rcpt → Option (Config services) → Answer Rcpt
  unfolding settle exists
  rcpt_at s r none = if s.from.is_local then accepted r else refused (smtp_error 551)
  rcpt_at s r (some cfg) =
      settle (record r { is_local = true }) cfg (exists services cfg s.from.address r.user)

  -- `Session.rcpt`.
  unfoldable pub rcpt : Domains → Text → Session → Answer Rcpt
  unfolding rcpt_at bare_rcpt lookup
  rcpt ds to s = rcpt_at s (bare_rcpt to) (lookup (bare_rcpt to).domain ds)

  abbrev pub add_rcpt : Session → Answer Rcpt → Answer Session
  add_rcpt s (accepted r) = accepted (record s { to = s.to ++ r ∷ [] })
  add_rcpt s (refused e) = refused e
  add_rcpt s panicked = panicked

  -- `Session.Rcpt`.
  unfoldable pub add_recipient : Domains → Text → Session → Answer Session
  unfolding rcpt
  add_recipient ds to s = add_rcpt s (rcpt ds to s)

  -- `Session.Reset`.
  abbrev pub reset : Session → Session
  reset s = record s { to = [] }
