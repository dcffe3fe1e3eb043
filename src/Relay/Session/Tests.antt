-- ===== src/Relay/Session/Tests.antt =====
-- relay/session.go: the theorems on concrete commands.
use atmail.Prelude.{◌≡◌, refl, [], ◌∷◌, text, lookup}
use atmail.Relay.Examples.{services, sender, outside}
use atmail.Relay.Session.Examples.{domains}
use atmail.Relay.Session.{Session, accepted, auth_required, bare_rcpt, mail, log_in, add_recipient}
use atmail.Relay.Session.Commands.{
  new_session, begin, after, authenticated, mailed, added, Identified, reach-Identified,
  mail-add_recipient,
}

abbrev logged_in : Session
logged_in = record new_session { username = text "me@a.org" }

abbrev from_me : Session
from_me = record logged_in { from = sender }

abbrev to_you : Session
to_you = record from_me { to = outside ∷ [] }

reach-Identified_example : Identified services domains tt (text "me@a.org")
unfolding lookup mail log_in add_recipient
reach-Identified_example =
    reach-Identified services domains tt refl to_you [] [] outside
      (after
        (after (after begin (authenticated (text "me@a.org") (text "pw") new_session))
          (mailed (text "me@a.org") logged_in from_me refl))
        (added (text "you@b.org") from_me to_you refl))
      refl refl

-- The sender of a session that is not logged in.
abbrev not_me : Session
not_me = record new_session { from = sender }

mail-add_recipient_example :
    add_recipient services domains (text "you@b.org") not_me
    ≡ accepted (record not_me { to = bare_rcpt (text "you@b.org") ∷ [] })
unfolding mail
mail-add_recipient_example =
    mail-add_recipient services domains tt (text "me@a.org") (text "you@b.org") new_session not_me
      auth_required refl refl
