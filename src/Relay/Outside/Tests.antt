-- ===== src/Relay/Outside/Tests.antt =====
-- relay/relay.go: the theorems on a concrete network.
use atmail.Prelude.{
  ◌≡◌, ◌↔◌, ℕ, refl, true, none, if◌then◌else◌, eq_text, List, [], ◌∷◌, map, All, text, lookup,
}
use atmail.Relay.Outside.{
  dns, Network, Mx, answer, no_answer, Candidate, host_at, failed, Try, relay_outside,
}
use atmail.Utils.Slices.Groups.{tally}
use atmail.Relay.Outside.Tried.{asked}
use atmail.Relay.Outside.Hosts.{Succeeded, relay_outside-hosts}

-- Two hosts without records, that take every email; a server reads all of the text.
abbrev net : Network
net = record {
  lookup_mx = λ d.
      answer (record { host = text "m1"; pref = 10 } ∷ record { host = text "m2"; pref = 5 } ∷ []);
  lookup_srv = λ h. no_answer (dns true);
  dial_tls = λ a. none;
  dial_starttls = λ a. none;
  dial = λ a. none;
  hello = λ a. none;
  send_mail = λ a from to t. (none, []);
}

abbrev mxs : List Mx
mxs = record { host = text "m1"; pref = 10 } ∷ record { host = text "m2"; pref = 5 } ∷ []

-- A weight that counts one try.
abbrev counts : Candidate → ℕ
counts (host_at r) = if eq_text r.address (text "m1:25") then 1 else 0
counts (failed e) = 0

relay_outside-hosts_example :
    (tally counts (
        map
          (λ (y : Try net). y.candidate)
          (relay_outside net (text "me@a.org") [] (text "b.org") (text "hello") []).0)
      ≡ tally (asked counts net) mxs)
    × (((relay_outside net (text "me@a.org") [] (text "b.org") (text "hello") []).1 ≡ none)
        ↔ All
            (Succeeded net)
            (relay_outside net (text "me@a.org") [] (text "b.org") (text "hello") []).0)
unfolding lookup
relay_outside-hosts_example =
    relay_outside-hosts net (text "me@a.org") [] (text "b.org") (text "hello") [] mxs counts refl
      refl
