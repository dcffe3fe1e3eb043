-- ===== src/Relay/Outside/Tried.antt =====
-- relay/relay.go: the hosts that an answer of the lookup asks for, against those of `relaysOf`.
use atmail.Prelude.{
  ℕ, ◌+◌, ◌≡◌, refl, sym, ap, ◌∙◌, arith, ◌==◌, Bool, true, false, Option, none, some, List, [],
  ◌∷◌, ◌++◌, map, All, Text, eq_text, eq_text_iff, lookup, insert, itoa, Bool-cases, inl, inr,
}
use atmail.Utils.Slices.{extended, group_loop, group_by}
use atmail.Utils.Slices.Groups.{tally, tally_groups, tally-append, tally_groups-group_by}
use atmail.Relay.Outside.{
  dns, smtp, other, join, join_both, Network, Mx, Srv, Looked, answer, no_answer, Candidate,
  host_at, failed, sort_in, sort, srv_less, standard, relay_of, of_groups, of_srvs, of_lookup,
  candidates, relays_of, mx_less,
}

-- The address of a host with a port, and TLS on port 465.
unfoldable pub at_port : Text → ℕ → Candidate
unfolding itoa
at_port host p = host_at (record { address = host ++ (b':' ∷ itoa p); with_tls = p == 465 })

-- The tries that a mail host asks for: each service that it names, the four ports where it names none,
-- and the error of a lookup that has failed.
unfoldable pub tries_of : Text → Looked Srv → List Candidate
unfolding at_port
tries_of host (answer srvs) = map (λ (s : Srv). at_port s.target s.port) srvs
tries_of host (no_answer (dns true)) = map (at_port host) (465 ∷ 25 ∷ 587 ∷ 2525 ∷ [])
tries_of host (no_answer e) = failed e ∷ []

-- Each element of a group has its key.
module _ {A : Type 0} (fn : A → Text) where
  abbrev Keyed : List (Text × List A) → Type 0
  Keyed [] = Unit
  Keyed ((k, xs) ∷ mp) = All (λ a. fn a ≡ k) xs × Keyed mp

  abbrev AllOf : Text → Option (List A) → Type 0
  AllOf k none = Unit
  AllOf k (some xs) = All (λ a. fn a ≡ k) xs

  All-snoc :
      (k : Text) (xs : List A) (a : A)
      → All (λ a. fn a ≡ k) xs
      → fn a ≡ k
      → All (λ a. fn a ≡ k) (xs ++ a ∷ [])
  All-snoc k [] a h p = (p, tt)
  All-snoc k (x ∷ xs) a (q, h) p = (q, All-snoc k xs a h p)

  All-key : (j k : Text) (xs : List A) → j ≡ k → All (λ a. fn a ≡ j) xs → All (λ a. fn a ≡ k) xs
  All-key j k [] e h = tt
  All-key j k (x ∷ xs) e (p, h) = (p ∙ e, All-key j k xs e h)

  lookup-AllOf : (k : Text) (mp : List (Text × List A)) → Keyed mp → AllOf k (lookup k mp)
  unfolding lookup
  lookup-AllOf k [] h = tt
  lookup-AllOf k ((j, xs) ∷ mp) (f, h) =
      elim (Bool-cases (eq_text j k)) as (λ _. AllOf k (lookup k ((j, xs) ∷ mp))) [
        | inl e ↦ rw e (All-key j k xs ((eq_text_iff j k).0 e) f)
        | inr e ↦ rw e (lookup-AllOf k mp h)
      ]

  extended-All :
      (k : Text) (o : Option (List A)) (a : A)
      → AllOf k o
      → fn a ≡ k
      → All (λ a. fn a ≡ k) (extended o a)
  unfolding extended
  extended-All k none a h p = (p, tt)
  extended-All k (some xs) a h p = All-snoc k xs a h p

  insert-Keyed :
      (k : Text) (v : List A) (mp : List (Text × List A))
      → All (λ a. fn a ≡ k) v
      → Keyed mp
      → Keyed (insert k v mp)
  unfolding insert
  insert-Keyed k v [] f h = (f, tt)
  insert-Keyed k v ((j, xs) ∷ mp) f (g, h) =
      elim (Bool-cases (eq_text j k)) as (λ _. Keyed (insert k v ((j, xs) ∷ mp))) [
        | inl e ↦ rw e (f, h)
        | inr e ↦ rw e (g, insert-Keyed k v mp f h)
      ]

  group_loop-Keyed :
      (mp : List (Text × List A)) (xs : List A) → Keyed mp → Keyed (group_loop fn mp xs)
  unfolding group_loop
  group_loop-Keyed mp [] h = h
  group_loop-Keyed mp (a ∷ xs) h =
      group_loop-Keyed (insert (fn a) (extended (lookup (fn a) mp) a) mp) xs (
        insert-Keyed (fn a) (extended (lookup (fn a) mp) a) mp
          (extended-All (fn a) (lookup (fn a) mp) a (lookup-AllOf (fn a) mp h) refl) h)

-- Sorting keeps each element.
tally-sort_in :
    {A : Type 0} (less : A → A → Bool) (w : A → ℕ) (a : A) (xs : List A)
    → tally w (sort_in less a xs) ≡ w a + tally w xs
unfolding sort_in tally
tally-sort_in less w a [] = refl
tally-sort_in less w a (b ∷ xs) = ground (arith, tally-sort_in less w a xs)

tally-sort :
    {A : Type 0} (less : A → A → Bool) (w : A → ℕ) (xs : List A)
    → tally w (sort less xs) ≡ tally w xs
unfolding sort tally
tally-sort less w [] = refl
tally-sort less w (a ∷ xs) =
    omega (arith, tally-sort_in less w a (sort less xs), tally-sort less w xs)

module _ (w : Candidate → ℕ) where
  abbrev weigh : Srv → ℕ
  weigh s = w (at_port s.target s.port)

  tally-group :
      (k : Text) (xs : List Srv)
      → All (λ (s : Srv). s.target ≡ k) xs
      → tally w (map (relay_of k) xs) ≡ tally weigh xs
  unfolding tally relay_of at_port
  tally-group k [] h = refl
  tally-group k (x ∷ xs) (e, h) =
      omega (arith, ap (λ t. w (at_port t x.port)) e, tally-group k xs h)

  tally-of_groups :
      (gs : List (Text × List Srv))
      → Keyed (λ (s : Srv). s.target) gs
      → tally w (of_groups gs) ≡ tally_groups weigh gs
  unfolding tally tally_groups of_groups
  tally-of_groups [] h = refl
  tally-of_groups ((k, xs) ∷ gs) (f, h) = omega (
    arith,
    tally-append w (map (relay_of k) xs) (of_groups gs),
    tally-group k xs f,
    tally-of_groups gs h,
  )

  tally-of_srvs : (srvs : List Srv) → tally w (of_srvs srvs) ≡ tally weigh srvs
  unfolding of_srvs group_by
  tally-of_srvs srvs =
      tally-of_groups (group_by srvs (λ (s : Srv). s.target))
        (group_loop-Keyed (λ (s : Srv). s.target) [] srvs tt)
      ∙ tally_groups-group_by weigh (λ (s : Srv). s.target) srvs

  tally-map :
      {A : Type 0} (f : A → Candidate) (xs : List A) → tally w (map f xs) ≡ tally (λ a. w (f a)) xs
  unfolding tally
  tally-map f [] = refl
  tally-map f (x ∷ xs) = omega (arith, tally-map f xs)

  tally-of_lookup :
      (host : Text) (l : Looked Srv) → tally w (of_lookup host l) ≡ tally w (tries_of host l)
  unfolding of_lookup tries_of tally
  tally-of_lookup host (answer srvs) =
      tally-of_srvs (sort srv_less srvs)
      ∙ tally-sort srv_less weigh srvs
      ∙ sym (tally-map (λ (s : Srv). at_port s.target s.port) srvs)
  tally-of_lookup host (no_answer (dns true)) = tally-of_srvs (standard host)
  tally-of_lookup host (no_answer (dns false)) = refl
  tally-of_lookup host (no_answer (smtp c)) = refl
  tally-of_lookup host (no_answer other) = refl
  tally-of_lookup host (no_answer (join e)) = refl
  tally-of_lookup host (no_answer (join_both e f)) = refl

  module _ (net : Network) where
    abbrev pub asked : Mx → ℕ
    asked mx = tally w (tries_of mx.host (net.lookup_srv mx.host))

    tally-candidates : (mxs : List Mx) → tally w (candidates net mxs) ≡ tally asked mxs
    unfolding candidates tally
    tally-candidates [] = refl
    tally-candidates (mx ∷ mxs) = omega (
      arith,
      tally-append w (of_lookup mx.host (net.lookup_srv mx.host)) (candidates net mxs),
      tally-of_lookup mx.host (net.lookup_srv mx.host),
      tally-candidates mxs,
    )

    -- The candidates of `relaysOf` are what the hosts ask for, each as often.
    pub tally-relays_of : (mxs : List Mx) → tally w (relays_of net mxs) ≡ tally asked mxs
    unfolding relays_of
    tally-relays_of mxs = tally-candidates (sort mx_less mxs) ∙ tally-sort mx_less asked mxs
