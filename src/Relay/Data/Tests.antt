-- ===== src/Relay/Data/Tests.antt =====
-- relay/session.go: the theorem on a concrete email.
use atmail.Prelude.{
  ℕ, ◌≤◌, ◌≡◌, ◌⊎◌, refl, true, false, none, some, List, [], ◌∷◌, Text, text, eq_text,
}
use atmail.Filter.Examples.{library}
use atmail.Relay.Examples.{sender, outside, mailing}
use atmail.Relay.Session.{Session}
use atmail.Relay.Filtering.{Mail, quarter, filter_each}
use atmail.Relay.Spam.{Response, Rspamd, analyze, smtp_message}
use atmail.Relay.Data.{data_of, filtered, after_analysis}
use atmail.Relay.Data.Sent.{Accepted, data-Accepted}

-- A rspamd that greylists everything.
abbrev response : Response ℕ
response = record {
  skipped = false;
  score = 3;
  action = text "greylist";
  subject = [];
  messages = none;
  dkim_signature = none;
}

abbrev rspamd : Rspamd mailing
rspamd = record {
  Score = ℕ;
  no_score = 0;
  format_score = λ s. [];
  add_field = λ k v h. (k, v) ∷ h;
  del_field = λ k h. h;
  unfolded = λ t. t;
  verify = λ m h b. some (response, b);
}

abbrev session : Session
session = record { username = text "me@a.org"; from = sender; to = outside ∷ [] }

abbrev header : List (Text × Text)
header = (text "Subject", text "hi") ∷ []

abbrev sent : Mail library mailing
sent = record { to = outside ∷ []; wait = quarter; header = header; body = text "hello" }

data-Accepted_example :
    (sent.wait ≤ quarter)
    × ((true ≡ false) ⊎ Accepted library mailing rspamd (text "::1") session header (text "hello"))
unfolding data_of filtered after_analysis analyze filter_each smtp_message eq_text
data-Accepted_example =
    data-Accepted library mailing rspamd (λ t. some (header, t)) [] true (text "::1") session
      (text "hello") header (text "hello") (text "me@a.org") (some 3) sent refl refl
