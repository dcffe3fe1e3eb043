-- ===== src/Auth/Tests.antt =====
-- auth/: a domain to run the theorems on, and the theorems on it.
use atmail.Prelude.{
  ◌≤◌, ◌≡◌, refl, true, false, none, some, List, [], ◌∷◌, if◌then◌else◌, Text, text, eq_text,
  lookup, ◌++◌, cut,
}
use atmail.Auth.Domain.{
  Crypto, Admin, Group, StaticUser, Services, StaticConfig, Config, verify_user, verify_static,
}
use atmail.Auth.Domain.Logins.{Shown, verify_user-Shown}
use atmail.Auth.Limiter.{is_limited}
use atmail.Auth.Limiter.Trace.{
  Event, failure, happens, after, failures, next_entry, lookup-happens, limited_failed_twice,
}

-- Passwords in the clear, no files, and a den without users.
abbrev pub services : Services
services = record {
  Conn = Unit;
  SystemUser = Unit;
  DenClient = Unit;
  read_file = λ f. none;
  compare = eq_text;
  system_from = λ u c. true;
  den_authn = λ d u p. false;
  den_exists = λ d u. none;
}

abbrev no_crypto : Crypto
no_crypto = record { pgp_pub_key = none; pgp_pub_key_file = none }

abbrev team : Group
team = record { members = text "me@a.org" ∷ []; authorized_senders = text "boss@a.org" ∷ [] }

abbrev me : StaticUser
me = record { password = text "secret"; crypto = no_crypto }

abbrev static : StaticConfig services
static = record {
  users = (text "me", me) ∷ [];
  system_users = [];
  groups = (text "team", team) ∷ [];
}

abbrev admin : Admin
admin = record { user = text "me"; folder = text "admin"; crypto = no_crypto }

abbrev pub domain : Config services
domain = record {
  admin = admin;
  plus_subaddressing = false;
  create_folder_subaddressing = true;
  static = some static;
  catch_all = none;
  den = none;
}

abbrev address : Text
address = text "1.2.3.4"

abbrev events : List (Event × Text)
events = (failure, address) ∷ (failure, text "5.6.7.8") ∷ (failure, address) ∷ []

limited_failed_twice_example : 2 ≤ failures address events
unfolding after is_limited
limited_failed_twice_example =
    limited_failed_twice address events (record { limited = true; acc = 2 }) refl

lookup-happens_example : lookup address (happens failure address (after events)) ≡ (
    if eq_text address address
    then next_entry failure (lookup address (after events))
    else lookup address (after events))
lookup-happens_example = lookup-happens failure address address (after events)

verify_user-Shown_example :
    Shown services domain tt (text "a.org") (text "me" ++ b'@' ∷ text "a.org") (text "secret")
unfolding verify_user verify_static cut eq_text lookup
verify_user-Shown_example =
    verify_user-Shown services domain tt (text "a.org") (text "me" ++ b'@' ∷ text "a.org")
      (text "secret") (λ h. cc) refl
