-- ===== src/Relay/Dispatch/Tests.antt =====
-- relay/relay.go: the theorems on concrete deliveries.
use atmail.Prelude.{refl, List, [], ◌∷◌, Text, text}
use atmail.Relay.Examples.{services, domains, sender, outside, cryptography}
use atmail.Relay.Session.{Rcpt, Session}
use atmail.Utils.Slices.Groups.{tally}
use atmail.Relay.Dispatch.{send}
use atmail.Relay.Dispatch.Once.{Weighs, send-once}

abbrev session : Session
session = record { username = text "me@a.org"; from = sender; to = [] }

abbrev subject : List (Text × Text)
subject = (text "Subject", text "hi") ∷ []

abbrev both : List Rcpt
both = outside ∷ sender ∷ outside ∷ []

send-once_example :
    Weighs services domains session cryptography
      (λ r. 1)
      (tally (λ r. 1) both)
      (send services domains session cryptography 1 (text "hello") (text "me@a.org") both subject)
send-once_example =
    send-once services domains session cryptography (λ r. 1) 0 (text "hello") (text "me@a.org") both
      subject (refl, (refl, (refl, tt)))
