-- ===== src/Relay/Outside/Hosts.antt =====
-- relay/relay.go: which hosts get an email, and what is reported.
use atmail.Prelude.{
  ℕ, ◌≡◌, ◌↔◌, refl, ap, ◌∙◌, lookup, Option, none, some, List, [], ◌∷◌, map, All, Text,
}
use atmail.Relay.Outside.{
  Failure, Network, Candidate, Mx, answer, Try, relay_loop, relay_outside, try_at, accumulated,
  Cache, relays_of,
}
use atmail.Utils.Slices.Groups.{tally}
use atmail.Relay.Outside.Tried.{asked, tally-relays_of}

module _ (net : Network) where
  abbrev pub Succeeded : Try net → Type 0
  Succeeded t = t.error ≡ none

  accumulated-none :
      (a e : Option Failure) → (accumulated net a e ≡ none) ↔ ((a ≡ none) × (e ≡ none))
  accumulated-none none e = ((λ h. (refl, h)), λ h. h.1)
  accumulated-none (some a) none = ((λ h. cc), λ h. cc)
  accumulated-none (some a) (some e) = ((λ h. cc), λ h. cc)

  loop-error :
      (from : Text) (to : List Text) (cs : List Candidate) (t : Text) (acc : Option Failure)
      → ((relay_loop net from to cs t acc).1 ≡ none)
        ↔ ((acc ≡ none) × All Succeeded (relay_loop net from to cs t acc).0)
  unfolding relay_loop
  loop-error from to [] t acc = ((λ h. (h, tt)), λ h. h.0)
  loop-error from to (c ∷ cs) t acc =
      let (e, rest) = try_at net c from to t in
      let ih = loop-error from to cs rest (accumulated net acc e) in
      let a = accumulated-none acc e in
      (
        (λ h. let (p, q) = ih.0 h in let (x, y) = a.0 p in (x, (y, q))),
        λ (x, (y, q)). ih.1 (a.1 (x, y), q),
      )

  loop-candidates :
      (from : Text) (to : List Text) (cs : List Candidate) (t : Text) (acc : Option Failure)
      → map (λ (y : Try net). y.candidate) (relay_loop net from to cs t acc).0 ≡ cs
  unfolding relay_loop
  loop-candidates from to [] t acc = refl
  loop-candidates from to (c ∷ cs) t acc =
      ap (λ l. c ∷ l)
        (loop-candidates from to cs (try_at net c from to t).1
          (accumulated net acc (try_at net c from to t).0))

  -- With no host in the cache, where the lookup has an answer: for any weight of tries, the tries
  -- weigh what the hosts of the answer ask for: each service that a host names, port 465, 25, 587 and
  -- 2525 of a host that names none, and a failure for a host whose lookup fails, each as often; and
  -- there is no error exactly if every try has none.
  pub relay_outside-hosts :
      (from : Text) (to : List Text) (domain t : Text) (cache : Cache net) (mxs : List Mx)
      (w : Candidate → ℕ)
      → lookup domain cache ≡ none
      → net.lookup_mx domain ≡ answer mxs
      → (tally w (map (λ (y : Try net). y.candidate) (relay_outside net from to domain t cache).0)
          ≡ tally (asked w net) mxs)
        × (((relay_outside net from to domain t cache).1 ≡ none)
            ↔ All Succeeded (relay_outside net from to domain t cache).0)
  unfolding relay_outside
  relay_outside-hosts from to domain t cache mxs w c m =
      let l = loop-error from to (relays_of net mxs) t none in
      rw (relay_outside, c, m)
        (
          ap (tally w) (loop-candidates from to (relays_of net mxs) t none)
              ∙ tally-relays_of w net mxs,
          ((λ h. (l.0 h).1), λ h. l.1 (refl, h)),
        )
