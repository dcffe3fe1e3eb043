-- ===== src/Relay/Session/Examples.antt =====
-- relay/: a domain whose one user logs in.
use atmail.Prelude.{some, [], ◌∷◌, text}
use atmail.Auth.Domain.{Config}
use atmail.Relay.Examples.{services, domain}
use atmail.Relay.Session.{Domains}

abbrev catch_all : Config services
catch_all = record domain {
  catch_all =
      some (record { user = text "me"; password = text "pw"; crypto = domain.admin.crypto });
}

abbrev pub domains : Domains services
domains = (text "a.org", catch_all) ∷ []
