-- ===== src/Relay/Dispatch/Once.antt =====
-- relay/relay.go: every recipient gets the email once.
use atmail.Prelude.{
  ℕ, suc, ◌+◌, ◌≡◌, refl, false, Option, none, some, List, [], ◌∷◌, ◌++◌, All, Text, text,
  Bool-cases, inl, inr, arith, subst,
}
use atmail.Utils.Slices.{group_by}
use atmail.Utils.Slices.Groups.{tally, tally_groups, tally_groups-group_by}
use atmail.Utils.Slices.Full.{Full, AllFull, group_by-AllFull}
use atmail.Auth.Domain.{Services}
use atmail.Auth.Crypto.{Cryptography, Encrypted, encrypt_email}
use atmail.Relay.Session.{Rcpt, Session, Domains}
use atmail.Relay.Dispatch.{
  Delivery, queued, stored, Dispatched, dispatched, before, each, send_group, send_groups,
  send_with, store, store_encrypted, relay_inside, send, inside_group, then_dispatch,
}

module _ (services : Services) (ds : Domains services) (session : Session) (cr : Cryptography) where
  open cr use {Header, has_field}

  -- The weights of the recipients in deliveries.
  unfoldable pub tally_deliveries : (Rcpt → ℕ) → List (Delivery services ds session cr) → ℕ
  unfolding tally
  tally_deliveries w [] = 0
  tally_deliveries w (queued from rs d ∷ xs) = tally w rs + tally_deliveries w xs
  tally_deliveries w (stored r spam encrypted h body ∷ xs) = w r + tally_deliveries w xs

  tally_deliveries-append :
      (w : Rcpt → ℕ) (xs ys : List (Delivery services ds session cr))
      → tally_deliveries w (xs ++ ys) ≡ tally_deliveries w xs + tally_deliveries w ys
  unfolding tally_deliveries
  tally_deliveries-append w [] ys = omega arith
  tally_deliveries-append w (queued f rs d ∷ xs) ys = omega (arith, tally_deliveries-append w xs ys)
  tally_deliveries-append w (stored r s e h b ∷ xs) ys =
      omega (arith, tally_deliveries-append w xs ys)

  -- The deliveries are made, and their recipients weigh `n`.
  pub data Weighs (w : Rcpt → ℕ) (n : ℕ) : Dispatched services ds session cr → Type 0 where
    weighs :
        (xs : List (Delivery services ds session cr)) {h : Header}
        → tally_deliveries w xs ≡ n
        → Weighs w n (dispatched xs h)

  Weighs-before :
      {w : Rcpt → ℕ} {m n : ℕ} {d : Dispatched services ds session cr}
      (xs : List (Delivery services ds session cr))
      → tally_deliveries w xs ≡ m
      → Weighs w n d
      → Weighs w (m + n) (before services ds session cr xs d)
  Weighs-before {w} xs e (weighs ys f) =
      weighs (xs ++ ys) (omega (arith, e, f, tally_deliveries-append w xs ys))

  Weighs-then :
      {w : Rcpt → ℕ} {m n : ℕ} {d : Dispatched services ds session cr}
      {k : Header → Dispatched services ds session cr}
      → Weighs w m d
      → ((h : Header) → Weighs w n (k h))
      → Weighs w (m + n) (then_dispatch services ds session cr d k)
  Weighs-then (weighs xs {h} e) f = Weighs-before xs e (f h)

  module _ (inside : Rcpt → Header → Dispatched services ds session cr) (w : Rcpt → ℕ)
      (P : Rcpt → Type 0) (one : (r : Rcpt) (h : Header) → P r → Weighs w (w r) (inside r h)) where
    each-Weighs :
        (rs : List Rcpt) (h : Header)
        → All P rs
        → Weighs w (tally w rs) (each services ds session cr inside rs h)
    unfolding each tally
    each-Weighs [] h p = weighs [] (unfold tally_deliveries in refl)
    each-Weighs (r ∷ rs) h (p, q) = Weighs-then (one r h p) λ h'. each-Weighs rs h' q

    group-Weighs :
        (from k : Text) (rs : List Rcpt) (h : Header)
        → Full P rs
        → Weighs w (tally w rs) (send_group services ds session cr inside from (k, rs) h)
    unfolding send_group
    group-Weighs from k [] h f = absurd (omega (arith, f))
    group-Weighs from k (r ∷ rs) h f =
        elim (Bool-cases r.is_local)
          as (λ _.
            Weighs w (tally w (r ∷ rs))
              (send_group services ds session cr inside from (k, r ∷ rs) h)) [
                | inl e ↦ simp e (each-Weighs (r ∷ rs) h f)
                | inr e ↦
                    simp e (
                      weighs (queued from (r ∷ rs) k ∷ []) (unfold tally_deliveries in omega arith))
              ]

    groups-Weighs :
        (from : Text) (mp : List (Text × List Rcpt)) (h : Header)
        → AllFull P mp
        → Weighs w (tally_groups w mp) (send_groups services ds session cr inside from mp h)
    unfolding send_groups tally_groups
    groups-Weighs from [] h f = weighs [] (unfold tally_deliveries in refl)
    groups-Weighs from ((k, rs) ∷ mp) h (f, g) =
        Weighs-then (group-Weighs from k rs h f) λ h'. groups-Weighs from mp h' g

    send_with-Weighs :
        (from : Text) (to : List Rcpt) (h : Header)
        → All P to
        → Weighs w (tally w to) (send_with services ds session cr inside from to h)
    unfolding send_with
    send_with-Weighs from to h p =
        subst
          (λ n.
            Weighs w n
              (send_groups services ds session cr inside from (group_by to (λ r. r.domain)) h))
          (tally_groups-group_by w (λ r. r.domain) to)
          (groups-Weighs from (group_by to (λ r. r.domain)) h
            (group_by-AllFull P (λ r. r.domain) to p))

  stored-Weighs :
      (w : Rcpt → ℕ) (body : Text) (r : Rcpt) (o : Option Text) (h : Header)
      → Weighs w (w r) (store services ds session cr body r o h)
  unfolding store tally_deliveries
  stored-Weighs w body r none h =
      weighs (stored r (has_field (text "X-Spam-Score") h) false h body ∷ []) (omega arith)
  stored-Weighs w body r (some key) h = go (encrypt_email cr key h body)
    where
      go : (e : Encrypted cr) → Weighs w (w r) (store_encrypted services ds session cr r e)
      go (Encrypted.email ok h' b) =
          unfold store_encrypted in
          weighs (stored r (has_field (text "X-Spam-Score") h') ok h' b ∷ []) (omega arith)

  relay_inside-Weighs :
      (w : Rcpt → ℕ) (n : ℕ) (body : Text) (r : Rcpt) (h : Header)
      → r.group ≡ none
      → Weighs w (w r) (relay_inside services ds session cr (suc n) body r h)
  unfolding relay_inside inside_group
  relay_inside-Weighs w n body r h e = simp e (stored-Weighs w body r r.key h)

  -- An email to recipients that are no groups is delivered, with fuel for one call: whatever the
  -- recipients weigh, they weigh as much in the deliveries, so that each is in them as often as it is
  -- in the session.
  pub send-once :
      (w : Rcpt → ℕ) (n : ℕ) (body from : Text) (to : List Rcpt) (h : Header)
      → All (λ r. r.group ≡ none) to
      → Weighs w (tally w to) (send services ds session cr (suc n) body from to h)
  unfolding send
  send-once w n body from to h p =
      send_with-Weighs (relay_inside services ds session cr (suc n) body) w (λ r. r.group ≡ none)
        (λ r h' e. relay_inside-Weighs w n body r h' e) from to h p
