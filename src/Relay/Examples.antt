-- ===== src/Relay/Examples.antt =====
-- relay/: the data of the tests.
use atmail.Prelude.{
  map, true, false, none, some, List, [], ◌∷◌, text, eq_text, Text, lookup, is_some,
}
use atmail.Auth.Domain.{Services, Config}
use atmail.Auth.Crypto.{Cryptography}
use atmail.Relay.Filtering.{Mailing}
use atmail.Relay.Session.{Rcpt, Domains}

abbrev pub services : Services
services = record {
  Conn = Unit;
  SystemUser = Unit;
  DenClient = Unit;
  read_file = λ f. none;
  compare = eq_text;
  system_from = λ u c. true;
  den_authn = λ d u p. false;
  den_exists = λ d u. none;
}

abbrev pub domain : Config services
domain = record {
  admin = record {
    user = text "me";
    folder = text "admin";
    crypto = record { pgp_pub_key = none; pgp_pub_key_file = none };
  };
  plus_subaddressing = false;
  create_folder_subaddressing = false;
  static = none;
  catch_all = none;
  den = none;
}

abbrev pub domains : Domains services
domains = (text "a.org", domain) ∷ []

abbrev pub sender : Rcpt
sender = record {
  user = text "me";
  domain = text "a.org";
  folder = [];
  address = text "me@a.org";
  key = none;
  is_local = true;
  group = none;
}

abbrev pub outside : Rcpt
outside = record {
  user = text "you";
  domain = text "b.org";
  folder = [];
  address = text "you@b.org";
  key = none;
  is_local = false;
  group = none;
}

-- Headers as lists, messages that begin with a dash, and an encryption that shows its text.
abbrev pub cryptography : Cryptography
cryptography = record {
  Header = List (Text × Text);
  field = λ k h. [];
  has_field = λ k h. is_some (lookup k h);
  set_field = λ k v h. (k, v) ∷ h;
  is_pgp = λ t. elim t [ [] ↦ false | b ∷ bs ↦ true ];
  encrypt = λ k t. some (text "b", t);
}

abbrev pub mailing : Mailing
mailing = record {
  Header = List (Text × Text);
  set_field = λ k v h. (k, v) ∷ h;
  fields = map λ (k, v). (k, v ∷ []);
  learn = λ f to h b. none;
}
