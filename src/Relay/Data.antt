-- ===== src/Relay/Data.antt =====
-- relay/session.go: the whole of `Data`, from the text of an email to its sending.
pub mod Sent
mod Tests
use atmail.Prelude.{ℕ, Bool, true, false, Option, none, some, List, [], ◌∷◌, Text}
use atmail.Filter.Library.{Library}
use atmail.Filter.Syntax.{Statement}
use atmail.Relay.Session.{Rcpt, Session}
use atmail.Relay.Filtering.{Mailing, Mail, Step, goes_on, refused, panicked, filter_each}
use atmail.Relay.Spam
use atmail.Relay.Spam.{Rspamd, Analyzed, passed, rejected, internal, analyze}

module _ (lib : Library) (mailing : Mailing) (rspamd : Rspamd mailing) where
  open lib use {Float}
  open mailing use {Header}
  open rspamd use {Score}

  -- What `Data` ends with: the email that its goroutine sends after the wait, with the sender and the
  -- score; or an error for the client, or a panic.
  pub data Answered : Type 0 where
    sending : Text → Option Score → Mail lib mailing → Answered
    answered : ℕ → Answered
    crashed : Answered

  abbrev pub after_filters : Text → Option Score → Step lib mailing → Answered
  after_filters from score (goes_on m) = sending from score m
  after_filters from score (refused c m) = answered c
  after_filters from score panicked = crashed

  unfoldable pub filtered :
      List (Text × List (Statement Float)) → Session → Option Score → ℕ → Header → Text → Answered
  unfolding filter_each
  filtered filters s score wait h body = after_filters s.from.address score (
      filter_each lib mailing filters s.from 0 s.to
        (record { to = s.to; wait = wait; header = h; body = body }))

  abbrev pub after_analysis :
      List (Text × List (Statement Float)) → Session → Analyzed mailing rspamd → Answered
  unfolding filtered
  after_analysis filters s (passed score wait h body) = filtered filters s (some score) wait h body
  after_analysis filters s (rejected c) = answered c
  after_analysis filters s internal = answered 451
  after_analysis filters s Spam.panicked = crashed

  -- The email as `message.Read` gives it, none for an error; with rspamd or without.
  abbrev pub received :
      List (Text × List (Statement Float))
      → Bool
      → Text
      → Session
      → Option (Header × Text)
      → Answered
  unfolding filtered analyze
  received filters spam ip s none = answered 451
  received filters true ip s (some (h, body)) =
      after_analysis filters s (analyze mailing rspamd ip s h body)
  received filters false ip s (some (h, body)) = filtered filters s none 0 h body

  -- `Data`, with the reading of a message as a parameter.
  unfoldable pub data_of :
      (Text → Option (Header × Text))
      → List (Text × List (Statement Float))
      → Bool
      → Text
      → Session
      → Text
      → Answered
  unfolding filtered analyze
  data_of read filters spam ip s t = received filters spam ip s (read t)
