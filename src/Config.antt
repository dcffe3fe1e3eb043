-- ===== src/Config.antt =====
-- config.go: the checks of the domains of a configuration.
pub mod Valid
pub mod Loading
mod Tests
use atmail.Prelude.{
  ℕ, ◌*◌, ◌%◌, Bool, true, false, not, ◌&&◌, ◌||◌, Option, none, some, List, [], ◌∷◌, if◌then◌else◌,
  is_some, Text, eq_text, contains, lookup,
}
use atmail.Auth.Domain.{
  Services, Config, Crypto, Admin, StaticUser, StaticConfig, CatchAll, Den, admin_emails,
}

-- The errors of `ParseConfig` for a domain.
pub data Invalid : Type 0 where
  no_auth several_auths two_keys : Invalid
  reserved defined_twice : Text → Invalid

-- Both of pgp_pub_key and pgp_pub_key_file.
unfoldable pub has_two_keys : Crypto → Bool
has_two_keys c = is_some c.pgp_pub_key && is_some c.pgp_pub_key_file

module _ (services : Services) where
  -- A turn of the loop over the static users.
  unfoldable pub check_user : Admin → StaticConfig services → Text → StaticUser → Option Invalid
  unfolding has_two_keys eq_text contains lookup
  check_user admin s u v =
      if not (eq_text u admin.user) && contains admin_emails u
      then some (reserved u)
      else if is_some (lookup u s.system_users)
      then some (defined_twice u)
      else if is_some (lookup u s.groups)
      then some (defined_twice u)
      else if has_two_keys v.crypto
      then some two_keys
      else none

  unfoldable pub check_users :
      Admin → StaticConfig services → List (Text × StaticUser) → Option Invalid
  unfolding check_user
  check_users admin s [] = none
  check_users admin s ((u, v) ∷ us) = elim (check_user admin s u v) [
    | some e ↦ some e
    | none ↦ check_users admin s us
  ]

  abbrev pub check_static : Admin → Option (StaticConfig services) → Option Invalid
  unfolding check_users
  check_static admin none = none
  check_static admin (some s) = check_users admin s s.users

  abbrev pub catch_all_keys : Option CatchAll → Bool
  unfolding has_two_keys
  catch_all_keys none = false
  catch_all_keys (some c) = has_two_keys c.crypto

  -- A turn of the loop over the domains.
  unfoldable pub check_domain : Config services → Option Invalid
  unfolding check_users has_two_keys
  check_domain d =
      if not (is_some d.den) && (not (is_some d.static) && not (is_some d.catch_all))
      then some no_auth
      else if (is_some d.den && is_some d.static)
          || ((is_some d.den && is_some d.catch_all) || (is_some d.catch_all && is_some d.static))
      then some several_auths
      else if catch_all_keys d.catch_all
      then some two_keys
      else check_static d.admin d.static

  -- The loop over the domains, in the order of an iteration: the first error.
  unfoldable pub check_domains : List (Text × Config services) → Option Invalid
  unfolding check_domain
  check_domains [] = none
  check_domains ((name, d) ∷ ds) = elim (check_domain d) [
    | some e ↦ some e
    | none ↦ check_domains ds
  ]
