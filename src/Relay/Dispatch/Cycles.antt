-- ===== src/Relay/Dispatch/Cycles.antt =====
-- relay/relay.go, auth/crypto.go: groups that hold themselves, and emails that are encrypted already.
use atmail.Prelude.{ℕ, zero, suc, ◌≡◌, refl, true, none, some, [], ◌∷◌, Text, text, lookup, insert}
use atmail.Utils.Slices.{group_by, extended}
use atmail.Auth.Domain.{Group, Services}
use atmail.Auth.Crypto.{Cryptography, encrypt_email}
use atmail.Relay.Session.{Rcpt, Session, Domains, accepted, rcpt}
use atmail.Relay.Dispatch.{
  stored, dispatched, starved, each, send_group, send_groups, send_with, members_of, add_member,
  store, store_encrypted, relay_inside, inside_group,
}

module _ (services : Services) (ds : Domains services) (session : Session) (cr : Cryptography) where
  open cr use {Header, is_pgp, has_field}

  -- The delivery to a local group whose one member is the group itself never ends: no fuel is enough.
  pub relay_inside-cycle :
      (n : ℕ) (body : Text) (r : Rcpt) (g : Group) (h : Header)
      → r.group ≡ some g
      → g.members ≡ r.address ∷ []
      → rcpt services ds r.address session ≡ accepted r
      → r.is_local ≡ true
      → relay_inside services ds session cr n body r h ≡ starved
  unfolding relay_inside inside_group members_of add_member send_with group_by send_groups
      send_group each extended lookup insert
  relay_inside-cycle zero body r g h e m a l = refl
  relay_inside-cycle (suc n) body r g h e m a l =
      simp (e, m, a, l, relay_inside-cycle n body r g h e m a l)

  -- For a recipient with a key, an email that is an OpenPGP message is stored as encrypted, with
  -- nothing of its body.
  pub relay_inside-pgp :
      (n : ℕ) (body key : Text) (r : Rcpt) (h : Header)
      → r.group ≡ none
      → r.key ≡ some key
      → is_pgp body ≡ true
      → relay_inside services ds session cr (suc n) body r h
        ≡ dispatched (stored r (has_field (text "X-Spam-Score") h) true h [] ∷ []) h
  unfolding relay_inside inside_group store encrypt_email store_encrypted
  relay_inside-pgp n body key r h e k p = simp (e, k, p)
