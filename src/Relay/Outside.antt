-- ===== src/Relay/Outside.antt =====
-- relay/relay.go: the delivery of an email to the hosts of another domain.
pub mod Tried
pub mod Hosts
mod Tests
use atmail.Prelude.{
  ℕ, ◌-◌, Bool, true, false, Option, none, some, List, [], ◌∷◌, ◌++◌, map, if◌then◌else◌, ◌==◌, leb,
  Text, text, lookup, insert, eq_text, itoa, is_none,
}
use atmail.Utils.Slices.{group_by}
use atmail.Relay.Queue

-- An error: of DNS, with whether it is that nothing was found; of SMTP; another; or of errors.Join.
pub data Failure : Type 0 where
  dns : Bool → Failure
  smtp : ℕ → Failure
  other : Failure
  join : Failure → Failure
  join_both : Failure → Failure → Failure

-- `net.MX` and `net.SRV`, and what a lookup gives.
pub record Mx : Type 0 where
  pub host : Text
  pub pref : ℕ

pub record Srv : Type 0 where
  pub target : Text
  pub port : ℕ
  pub priority : ℕ
  pub weight : ℕ

pub data Looked (A : Type 0) : Type 0 where
  answer : List A → Looked A
  no_answer : Failure → Looked A

-- What the program takes from net and go-smtp: the lookups, the three ways to dial an address, the
-- greeting, and the sending, which reads of the text that it is given and leaves the rest.
pub record Network : Type 0 where
  pub lookup_mx : Text → Looked Mx
  pub lookup_srv : Text → Looked Srv
  pub dial_tls : Text → Option Failure
  pub dial_starttls : Text → Option Failure
  pub dial : Text → Option Failure
  pub hello : Text → Option Failure
  pub send_mail : Text → Text → List Text → Text → Option Failure × Text

-- `relay`.
pub record Relay : Type 0 where
  pub address : Text
  pub with_tls : Bool

-- slices.SortFunc, by insertion, with `less` for a negative comparison. The order of elements that
-- compare equal is not fixed by the source.
module _ {A : Type 0} (less : A → A → Bool) where
  unfoldable pub sort_in : A → List A → List A
  sort_in a [] = a ∷ []
  sort_in a (b ∷ xs) = let rest = sort_in a xs in if less b a then b ∷ rest else a ∷ b ∷ xs

  unfoldable pub sort : List A → List A
  unfolding sort_in
  sort [] = []
  sort (a ∷ xs) = sort_in a (sort xs)

-- b.Pref - a.Pref < 0, for the element `a` to come first.
unfoldable pub mx_less : Mx → Mx → Bool
mx_less a b = if leb a.pref b.pref then false else true

-- b.Priority - a.Priority, or b.Weight - a.Weight where it is 0.
unfoldable pub srv_less : Srv → Srv → Bool
srv_less a b =
    if a.priority == b.priority
    then (if leb a.weight b.weight then false else true)
    else (if leb a.priority b.priority then false else true)

-- The services of a host without records.
abbrev pub standard : Text → List Srv
standard host =
    map {A = ℕ} (λ p. record { target = host; port = p; priority = 0; weight = 0 })
      (465 ∷ 25 ∷ 587 ∷ 2525 ∷ [])

-- A pair that the iterator yields.
pub data Candidate : Type 0 where
  host_at : Relay → Candidate
  failed : Failure → Candidate

unfoldable pub relay_of : Text → Srv → Candidate
unfolding itoa
relay_of target s =
    host_at (record { address = target ++ (b':' ∷ itoa s.port); with_tls = s.port == 465 })

unfoldable pub of_groups : List (Text × List Srv) → List Candidate
unfolding relay_of
of_groups [] = []
of_groups ((target, srvs) ∷ groups) = map (relay_of target) srvs ++ of_groups groups

unfoldable pub of_srvs : List Srv → List Candidate
unfolding of_groups group_by
of_srvs srvs = of_groups (group_by srvs (λ s. s.target))

-- The records of a host: where there are none, the standard ports.
unfoldable pub of_lookup : Text → Looked Srv → List Candidate
unfolding of_srvs sort srv_less
of_lookup host (answer srvs) = of_srvs (sort srv_less srvs)
of_lookup host (no_answer (dns true)) = of_srvs (standard host)
of_lookup host (no_answer e) = failed e ∷ []

module _ (net : Network) where
  unfoldable pub candidates : List Mx → List Candidate
  unfolding of_lookup
  candidates [] = []
  candidates (mx ∷ mxs) = of_lookup mx.host (net.lookup_srv mx.host) ++ candidates mxs

  -- What `relaysOf` makes of the records.
  unfoldable pub relays_of : List Mx → List Candidate
  unfolding candidates sort mx_less
  relays_of mxs = candidates (sort mx_less mxs)

  -- `sendMail`: the error, and what is left of the text.
  abbrev pub after_dial : Option Failure → Relay → Text → List Text → Text → Option Failure × Text
  after_dial (some e) r from to t = (some e, t)
  after_dial none r from to t = elim (net.hello r.address) [
    | some e ↦ (some e, t)
    | none ↦ net.send_mail r.address from to t
  ]

  abbrev pub or_plain : Option Failure → Text → Option Failure
  or_plain none address = none
  or_plain (some e) address = net.dial address

  unfoldable pub send_mail : Relay → Text → List Text → Text → Option Failure × Text
  send_mail r from to t =
      let dialed =
        if r.with_tls
        then net.dial_tls r.address
        else or_plain (net.dial_starttls r.address) r.address in
      after_dial dialed r from to t

  -- A turn of the loop of `relayOutside`: the host, what it was sent, and the error.
  pub record Try : Type 0 where
    pub candidate : Candidate
    pub text_given : Text
    pub error : Option Failure

  abbrev pub accumulated : Option Failure → Option Failure → Option Failure
  accumulated none e = e
  accumulated (some a) none = some (join a)
  accumulated (some a) (some e) = some (join_both a e)

  unfoldable pub try_at : Candidate → Text → List Text → Text → Option Failure × Text
  unfolding send_mail
  try_at (failed e) from to t = (some e, t)
  try_at (host_at r) from to t = send_mail r from to t

  -- The loop: the turns, and accErr at its end.
  unfoldable pub relay_loop :
      Text → List Text → List Candidate → Text → Option Failure → List Try × Option Failure
  unfolding try_at
  relay_loop from to [] t acc = ([], acc)
  relay_loop from to (c ∷ cs) t acc =
      let (e, rest) = try_at c from to t in
      let (tries, end) = relay_loop from to cs rest (accumulated acc e) in
      (record { candidate = c; text_given = t; error = e } ∷ tries, end)

  -- The cache of the backend: nothing writes to it but the removal.
  abbrev pub Cache : Type 0
  Cache = List (Text × Relay)

  unfoldable pub forget : Text → Cache → Cache
  unfolding eq_text
  forget d [] = []
  forget d ((k, r) ∷ m) = let rest = forget d m in if eq_text k d then rest else (k, r) ∷ rest

  abbrev pub with_lookup :
      Text → List Text → Looked Mx → Text → Cache → List Try × Option Failure × Cache
  unfolding relays_of relay_loop
  with_lookup from to (no_answer e) t cache = ([], some e, cache)
  with_lookup from to (answer mxs) t cache =
      let (tries, end) = relay_loop from to (relays_of mxs) t none in (tries, end, cache)

  abbrev pub after_cached :
      Text → List Text → Text → Option Failure × Text → Cache → List Try × Option Failure × Cache
  unfolding relays_of relay_loop forget
  after_cached from to domain (none, rest) cache = ([], none, cache)
  after_cached from to domain (some e, rest) cache =
      with_lookup from to (net.lookup_mx domain) rest (forget domain cache)

  -- `relayOutside`, on the text of the email.
  unfoldable pub relay_outside :
      Text → List Text → Text → Text → Cache → List Try × Option Failure × Cache
  unfolding lookup send_mail relays_of relay_loop forget
  relay_outside from to domain t cache = elim (lookup domain cache) [
    | none ↦ with_lookup from to (net.lookup_mx domain) t cache
    | some r ↦ after_cached from to domain (send_mail r from to t) cache
  ]
