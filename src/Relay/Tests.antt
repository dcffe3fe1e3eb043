-- ===== src/Relay/Tests.antt =====
-- relay/: the theorems on concrete sessions and emails.
use atmail.Prelude.{ℕ, ◌≡◌, refl, true, [], ◌∷◌, text, is_some, lookup}
use atmail.Filter.Examples.{library}
use atmail.Relay.Examples.{mailing, services, domains, sender, outside}
use atmail.Relay.Session.{Session, bare_rcpt, mail, rcpt}
use atmail.Relay.Session.Relaying.{mail-rcpt}
use atmail.Relay.Queue.{Relayed, smtp_error, live}
use atmail.Relay.Queue.Waits.{EndsWithin, live-ends}
use atmail.Relay.Filtering.{Mail, goes_on, filter_each}
use atmail.Relay.Filtering.Discarding.{only, filter_each-discard}

abbrev session : Session
session = record { username = text "me@a.org"; from = outside; to = [] }

abbrev sending : Session
sending = record session { from = sender }

mail-rcpt_example :
    (sending.username ≡ text "me@a.org")
    × (is_some (lookup (bare_rcpt (text "me@a.org")).domain domains) ≡ true)
unfolding mail rcpt
mail-rcpt_example =
    mail-rcpt services domains (text "me@a.org") (text "you@b.org") session sending outside refl
      refl refl

-- A server that is busy.
abbrev busy : ℕ → Relayed
busy i = smtp_error 450

live-ends_example : EndsWithin 15 (live 15 busy 0 0)
live-ends_example = live-ends busy

abbrev email : Mail library mailing
email = record {
  to = outside ∷ [];
  wait = 0;
  header = (text "Subject", text "hi") ∷ [];
  body = text "hello";
}

filter_each-discard_example :
    filter_each library mailing
      (only library mailing (text "discard"))
      sender
      0
      (outside ∷ outside ∷ [])
      email
    ≡ goes_on email
filter_each-discard_example =
    filter_each-discard library mailing sender 0 (outside ∷ outside ∷ []) email (refl, (refl, tt))
