-- ===== src/Config/Tests.antt =====
-- config.go: the theorem on a concrete configuration.
use atmail.Prelude.{◌≡◌, ◌↔◌, true, false, none, some, [], ◌∷◌, All, text, eq_text}
use atmail.Auth.Domain.{Services, Config, StaticUser}
use atmail.Config.{check_domains}
use atmail.Config.Valid.{ValidDomain, check_domains-ValidDomain}

abbrev services : Services
services = record {
  Conn = Unit;
  SystemUser = Unit;
  DenClient = Unit;
  read_file = λ f. none;
  compare = eq_text;
  system_from = λ u c. true;
  den_authn = λ d u p. false;
  den_exists = λ d u. none;
}

abbrev user : StaticUser
user = record {
  password = text "p";
  crypto = record { pgp_pub_key = none; pgp_pub_key_file = none };
}

abbrev config : Config services
config = record {
  admin = record {
    user = text "me";
    folder = [];
    crypto = record { pgp_pub_key = none; pgp_pub_key_file = none };
  };
  plus_subaddressing = false;
  create_folder_subaddressing = false;
  static = some (record {
    users = (text "me", user) ∷ (text "you", user) ∷ [];
    system_users = [];
    groups = [];
  });
  catch_all = none;
  den = none;
}

check_domains-ValidDomain_example :
    (check_domains services ((text "a.org", config) ∷ []) ≡ none)
    ↔ All (ValidDomain services) ((text "a.org", config) ∷ [])
check_domains-ValidDomain_example = check_domains-ValidDomain services ((text "a.org", config) ∷ [])
