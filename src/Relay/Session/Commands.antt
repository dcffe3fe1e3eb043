-- ===== src/Relay/Session/Commands.antt =====
-- relay/session.go: the commands of a client between two emails, in any order.
use atmail.Prelude.{
  ◌≡◌, refl, sym, ap, subst, ◌∙◌, arith, Bool, true, false, not, ◌&&◌, ◌||◌, Option, none, some, [],
  ◌∷◌, ◌++◌, if◌then◌else◌, All, is_some, Text, eq_text, eq_text_iff, lookup, cut, inl, inr, ◌⊎◌,
  List,
}
use atmail.Auth.Domain.{Services, verify_user}
use atmail.Relay.Session.{
  SmtpError, auth_required, Rcpt, bare_rcpt, parse_address, Session, Answer, accepted, refused,
  panicked, Domains, log_in, mail, rcpt, rcpt_at, add_rcpt, add_recipient, reset,
}
use atmail.Relay.Session.Relaying.{
  Granted, held, none_refused, none_panicked, rcpt_at-Authorized, took, Authorized,
}

-- `Backend.NewSession`.
abbrev pub new_session : Session
new_session = record {
  username = [];
  from = record {
    user = [];
    domain = [];
    folder = [];
    address = [];
    key = none;
    is_local = false;
    group = none;
  };
  to = [];
}

All-append :
    {A : Type 0} (P : A → Type 0) (xs : List A) {x : A} → All P xs → P x → All P (xs ++ x ∷ [])
All-append P [] h k = (k, tt)
All-append P (y ∷ ys) (p, h) k = (p, All-append P ys h k)

session_of : Answer Session → Session
session_of (accepted s) = s
session_of (refused e) = new_session
session_of panicked = new_session

kept :
    (l b : Bool) (x y : Session) (e : SmtpError)
    → ◌≡◌ {A = Session × Option SmtpError}
        (if l && b then (x, some auth_required) else (x, none))
        (y, some e)
    → (l ≡ true) × (x ≡ y)
kept true true x y e h = (refl, ap (λ p. p.0) h)
kept true false x y e h = cc
kept false b x y e h = cc

module _ (services : Services) where
  open services use {Conn}

  -- Some domain verifies the user.
  unfoldable pub verifies : Domains services → Conn → Text → Text → Bool
  unfolding verify_user
  verifies [] conn u p = false
  verifies ((d, cfg) ∷ ds) conn u p = verify_user services cfg conn d u p || verifies ds conn u p

  log_in-cases :
      (ds : Domains services) (conn : Conn) (u p : Text) (s : Session)
      → (log_in services ds conn u p s ≡ s)
        ⊎ ((log_in services ds conn u p s ≡ record s { username = u })
            × (verifies ds conn u p ≡ true))
  unfolding log_in verifies
  log_in-cases [] conn u p s = inl refl
  log_in-cases ((d, cfg) ∷ ds) conn u p s = ground (arith, log_in-cases ds conn u p s)

  -- A command that is carried out.
  pub data Step (ds : Domains services) (conn : Conn) : Session → Session → Type 0 where
    authenticated : (u p : Text) (s : Session) → Step ds conn s (log_in services ds conn u p s)
    mailed :
        (from : Text) (s s' : Session) → mail services ds from s ≡ (s', none) → Step ds conn s s'
    added :
        (to : Text) (s s' : Session)
        → add_recipient services ds to s ≡ accepted s'
        → Step ds conn s s'
    was_reset : (s : Session) → Step ds conn s (reset services s)

  pub data Reach (ds : Domains services) (conn : Conn) : Session → Type 0 where
    begin : Reach ds conn new_session
    after : {s s' : Session} → Reach ds conn s → Step ds conn s s' → Reach ds conn s'

All-at : {A : Type 0} (P : A → Type 0) (xs ys : List A) {x : A} → All P (xs ++ x ∷ ys) → P x
All-at P [] ys (p, h) = p
All-at P (y ∷ xs) ys (p, h) = All-at P xs ys h

nowhere :
    {services : Services} (ds : Domains services) {from : Text}
    → lookup [] ds ≡ none
    → from ≡ []
    → is_some (lookup (bare_rcpt from).domain ds) ≡ true
    → ⊥
unfolding bare_rcpt parse_address cut
nowhere ds n e h = let k = rw (e, n) at h in cc

module _ (services : Services) (ds : Domains services) (conn : services.Conn) where
  -- Some domain verifies the user with some password.
  abbrev pub Identified : Text → Type 0
  Identified u = (p : Text) × (verifies services ds conn u p ≡ true)

  -- The user has none or a verified name; a sender in the domains is the user, and none of the
  -- recipients is outside but for a verified user.
  record Trusted (s : Session) : Type 0 where
    user : (s.username ≡ []) ⊎ Identified s.username
    sender : s.from.is_local ≡ true → Identified s.username
    outsiders : All (λ r. r.is_local ≡ false → Identified s.username) s.to

  always : {P : Rcpt → Type 0} → ((r : Rcpt) → P r) → (rs : List Rcpt) → All P rs
  always h [] = tt
  always h (r ∷ rs) = (h r, always h rs)

  log_in-Trusted : (u p : Text) (s : Session) → Trusted s → Trusted (log_in services ds conn u p s)
  log_in-Trusted u p s h = elim (log_in-cases services ds conn u p s) [
    | inl e ↦ subst Trusted (sym e) h
    | inr (e, v) ↦ subst Trusted (sym e) (record {
      user = inr (p, v);
      sender = λ _. (p, v);
      outsiders = always (λ r _. (p, v)) s.to;
    })
  ]

  -- The session that `Mail` keeps.
  abbrev from_of : Text → Session → Session
  from_of from s = record s {
    from = record (bare_rcpt from) { is_local = is_some (lookup (bare_rcpt from).domain ds) };
  }

  from_of-Trusted :
      lookup [] ds ≡ none
      → (from : Text) (s : Session)
      → is_some (lookup (bare_rcpt from).domain ds) && not (eq_text s.username from) ≡ false
      → Trusted s
      → Trusted (from_of from s)
  from_of-Trusted n from s b h = record {
    user = h.user;
    sender = λ l. elim h.user [
      | inr i ↦ i
      | inl e ↦
          let same : s.username ≡ from = (eq_text_iff s.username from).0 (ground (arith, b, l)) in
          absurd (nowhere ds n (sym same ∙ e) l)
    ];
    outsiders = h.outsiders;
  }

  added-Trusted :
      (s s' : Session) (o : Answer Rcpt)
      → Granted (Authorized services s) o
      → add_rcpt services s o ≡ accepted s'
      → Trusted s
      → Trusted s'
  unfolding session_of
  added-Trusted s s' o (held {a} g) e h = subst Trusted (ap session_of e) (record {
    user = h.user;
    sender = h.sender;
    outsiders =
        All-append (λ r. r.is_local ≡ false → Identified s.username) s.to h.outsiders
          λ l. h.sender (g l);
  })
  added-Trusted s s' o none_refused e h = cc
  added-Trusted s s' o none_panicked e h = cc

  step-Trusted :
      lookup [] ds ≡ none → (s s' : Session) → Step services ds conn s s' → Trusted s → Trusted s'
  unfolding mail add_recipient rcpt
  step-Trusted n s s' (authenticated u p _) h = log_in-Trusted u p s h
  step-Trusted n s s' (mailed from _ _ e) h =
      let (b, x) =
        took services (is_some (lookup (bare_rcpt from).domain ds) && not (eq_text s.username from))
          (from_of from s) s' e in
      subst Trusted x (from_of-Trusted n from s b h)
  step-Trusted n s s' (added to _ _ e) h =
      added-Trusted s s' (rcpt services ds to s)
        (rcpt_at-Authorized services s (bare_rcpt to) (lookup (bare_rcpt to).domain ds)) e h
  step-Trusted n s s' (was_reset _) h = record { user = h.user; sender = h.sender; outsiders = tt }

  reach-Trusted : lookup [] ds ≡ none → (s : Session) → Reach services ds conn s → Trusted s
  reach-Trusted n s begin = record { user = inl refl; sender = λ e. cc; outsiders = tt }
  reach-Trusted n s' (after {s} r k) = step-Trusted n s s' k (reach-Trusted n s r)

  -- In every session that the commands of a client reach in any order, logins, senders that are
  -- accepted, recipients and resets, a recipient is outside the domains only if some domain has
  -- verified the user of the session; where no domain has the empty name.
  pub reach-Identified :
      lookup [] ds ≡ none
      → (s : Session) (front back : List Rcpt) (r : Rcpt) → Reach services ds conn s
      → s.to ≡ front ++ r ∷ back
      → r.is_local ≡ false
      → Identified s.username
  reach-Identified n s front back r h e =
      All-at (λ r. r.is_local ≡ false → Identified s.username) front back
        (subst (All λ r. r.is_local ≡ false → Identified s.username) e
          (reach-Trusted n s h).outsiders)

  -- A sender in the domains that `Mail` refuses, since the session is not logged in as it, is kept as
  -- the sender all the same: after that, a recipient outside the domains is accepted.
  pub mail-add_recipient :
      (from to : Text) (s s' : Session) (e : SmtpError)
      → mail services ds from s ≡ (s', some e)
      → lookup (parse_address to).1 ds ≡ none
      → add_recipient services ds to s' ≡ accepted (record s' { to = s'.to ++ bare_rcpt to ∷ [] })
  unfolding mail add_recipient rcpt rcpt_at bare_rcpt
  mail-add_recipient from to s s' e m n =
      let (l, x) =
        kept (is_some (lookup (bare_rcpt from).domain ds)) (not (eq_text s.username from))
          (from_of from s) s' e m in
      rw (n, sym (ap (λ s. s.from.is_local) x), l) refl
