-- ===== src/Relay/Dispatch.antt =====
-- relay/relay.go: where an accepted email goes.
pub mod Once
pub mod Cycles
mod Tests
use atmail.Prelude.{
  ℕ, zero, suc, Bool, true, false, Option, none, some, List, [], ◌∷◌, ◌++◌, map, if◌then◌else◌,
  Text, text,
}
use atmail.Utils.Slices.{group_by}
use atmail.Auth.Domain.{Group, Services}
use atmail.Auth.Crypto
use atmail.Auth.Crypto.{Cryptography, Encrypted, encrypt_email}
use atmail.Relay.Session.{Rcpt, Session, Domains, Answer, accepted, refused, panicked, rcpt}

module _ (services : Services) (ds : Domains services) (session : Session) (cr : Cryptography) where
  open cr use {Header, has_field}

  -- What the program does with the email: it gives it to the queue, for recipients of a domain, or
  -- stores it, as spam or not, encrypted or not, with this header and body.
  pub data Delivery : Type 0 where
    queued : Text → List Rcpt → Text → Delivery
    stored : Rcpt → Bool → Bool → Header → Text → Delivery

  -- The deliveries and the header that they leave; or the fuel is spent, or a key file is missing.
  pub data Dispatched : Type 0 where
    dispatched : List Delivery → Header → Dispatched
    starved crashed : Dispatched

  abbrev pub before : List Delivery → Dispatched → Dispatched
  before xs (dispatched ys h) = dispatched (xs ++ ys) h
  before xs starved = starved
  before xs crashed = crashed

  abbrev pub then_dispatch : Dispatched → (Header → Dispatched) → Dispatched
  then_dispatch (dispatched xs h) k = before xs (k h)
  then_dispatch starved k = starved
  then_dispatch crashed k = crashed

  -- The loop over the recipients of a local domain.
  unfoldable pub each : (Rcpt → Header → Dispatched) → List Rcpt → Header → Dispatched
  each inside [] h = dispatched [] h
  each inside (r ∷ rs) h = then_dispatch (inside r h) λ h'. each inside rs h'

  -- A turn of the loop of `send`, for a group of recipients.
  unfoldable pub send_group :
      (Rcpt → Header → Dispatched) → Text → Text × List Rcpt → Header → Dispatched
  unfolding each
  send_group inside from (d, []) h = crashed
  send_group inside from (d, r ∷ rs) h =
      if r.is_local then each inside (r ∷ rs) h else dispatched (queued from (r ∷ rs) d ∷ []) h

  unfoldable pub send_groups :
      (Rcpt → Header → Dispatched) → Text → List (Text × List Rcpt) → Header → Dispatched
  unfolding send_group
  send_groups inside from [] h = dispatched [] h
  send_groups inside from (g ∷ gs) h =
      then_dispatch (send_group inside from g h) λ h'. send_groups inside from gs h'

  -- `Session.send`, with `relayInside` for the local recipients. The body is read once, and every
  -- recipient gets it anew; the header is one for all.
  unfoldable pub send_with : (Rcpt → Header → Dispatched) → Text → List Rcpt → Header → Dispatched
  unfolding send_groups group_by
  send_with inside from to h = send_groups inside from (group_by to (λ r. r.domain)) h

  -- The members of a group that `rcpt` accepts, or the panic of a key file.
  unfoldable pub add_member : Answer Rcpt → Option (List Rcpt) → Option (List Rcpt)
  add_member (accepted r) none = none
  add_member (accepted r) (some rs) = some (r ∷ rs)
  add_member (refused e) rs = rs
  add_member panicked rs = none

  unfoldable pub members_of : List Text → Option (List Rcpt)
  unfolding rcpt add_member
  members_of [] = some []
  members_of (m ∷ ms) = add_member (rcpt services ds m session) (members_of ms)

  -- The rest of `relayInside`: the email, encrypted or not, goes to the spam or to the inbox.
  unfoldable pub store_encrypted : Rcpt → Encrypted cr → Dispatched
  store_encrypted r (Encrypted.email ok h body) =
      dispatched (stored r (has_field (text "X-Spam-Score") h) ok h body ∷ []) h

  unfoldable pub store : Text → Rcpt → Option Text → Header → Dispatched
  unfolding encrypt_email store_encrypted
  store body r none h =
      dispatched (stored r (has_field (text "X-Spam-Score") h) false h body ∷ []) h
  store body r (some key) h = store_encrypted r (encrypt_email cr key h body)

  abbrev pub to_members :
      (List Rcpt → Header → Dispatched) → Option (List Rcpt) → Header → Dispatched
  to_members k none h = crashed
  to_members k (some rs) h = k rs h

  -- The cases of `relayInside`.
  unfoldable pub inside_group :
      (Text → List Rcpt → Header → Dispatched) → Text → Rcpt → Option Group → Header → Dispatched
  unfolding store members_of
  inside_group again body r none h = store body r r.key h
  inside_group again body r (some g) h = to_members (again r.address) (members_of g.members) h

  -- `relayInside`; a unit of fuel is a group within a group.
  unfoldable pub relay_inside : ℕ → Text → Rcpt → Header → Dispatched
  unfolding inside_group send_with
  relay_inside zero body r h = starved
  relay_inside (suc n) body r h = inside_group (send_with (relay_inside n body)) body r r.group h

  unfoldable pub send : ℕ → Text → Text → List Rcpt → Header → Dispatched
  unfolding send_with relay_inside
  send n body from to h = send_with (relay_inside n body) from to h
