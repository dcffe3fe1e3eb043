-- ===== src/Relay/Session/Relaying.antt =====
-- relay/session.go: what a session may send, and to whom.
use atmail.Prelude.{
  ◌≡◌, ◌≢◌, refl, sym, ap, subst, ◌∙◌, arith, Bool, true, false, not, ◌&&◌, Option, none, some, ◌∷◌,
  ◌++◌, if◌then◌else◌, All, is_some, Text, eq_text, eq_text_iff, contains, lookup, cut-append,
  Bool-cases, inl, inr, Option-cases,
}
use atmail.Auth.Domain.{
  Services, Config, UserData, Called, crashed, returned, admin_emails, get_key, Admin, exists,
}
use atmail.Relay.Session.{
  SmtpError, auth_required, Rcpt, parse_address, bare_rcpt, Session, Answer, accepted, refused,
  panicked, Domains, mail, settle, rcpt_at, rcpt, with_admin, with_data,
}

-- The parts of an address: what stands before its first `@` is the mailbox.
pub parse_address-join :
    (mailbox domain : Text)
    → All (λ b. b ≢ b'@') mailbox
    → parse_address (mailbox ++ b'@' ∷ domain) ≡ (mailbox, domain)
unfolding parse_address
parse_address-join mailbox domain n = rw (cut-append b'@' mailbox domain n)

-- If the answer is a value, `P` holds of it.
pub data Granted {A : Type 0} (P : A → Type 0) : Answer A → Type 0 where
  held : {a : A} → P a → Granted P (accepted a)
  none_refused : {e : SmtpError} → Granted P (refused e)
  none_panicked : Granted P panicked

pub granted : {A : Type 0} {P : A → Type 0} {a : A} → Granted P (accepted a) → P a
granted (held h) = h

Granted-imp :
    {A : Type 0} {P Q : A → Type 0} {o : Answer A}
    → Granted P o
    → ((a : A) → P a → Q a)
    → Granted Q o
Granted-imp (held {a} h) k = held (k a h)
Granted-imp none_refused k = none_refused
Granted-imp none_panicked k = none_panicked

module _ (services : Services) where
  -- The recipient is of a domain, as `r` is.
  abbrev Like : Rcpt → Rcpt → Type 0
  Like r t = t.is_local ≡ r.is_local

  with_admin-Like :
      (r : Rcpt) (a : Admin) (k : Called (Option Text))
      → Granted (Like r) (with_admin services r a k)
  with_admin-Like r a crashed = none_panicked
  with_admin-Like r a (returned k) = held refl

  with_data-Like : (r : Rcpt) (d : UserData) → Granted (Like r) (with_data services r d)
  with_data-Like r d =
      elim (Option-cases d.group) as (λ _. Granted (Like r) (with_data services r d)) [
        | inl e ↦ rw e (held refl)
        | inr (g, e) ↦ rw e (held refl)
      ]

  settle-Like :
      (r : Rcpt) (cfg : Config services) (d : Called (Option UserData))
      → Granted (Like r) (settle services r cfg d)
  unfolding settle
  settle-Like r cfg crashed = none_panicked
  settle-Like r cfg (returned none) = none_refused
  settle-Like r cfg (returned (some d)) =
      elim (Bool-cases (contains admin_emails d.username))
        as (λ _. Granted (Like r) (settle services r cfg (returned (some d)))) [
          | inl e ↦ rw e (with_admin-Like r cfg.admin (get_key services cfg.admin.crypto))
          | inr e ↦ rw e (with_data-Like r d)
        ]

  -- The recipient is outside the domains only for a sender in them.
  abbrev pub Authorized : Session → Rcpt → Type 0
  Authorized s t = (t.is_local ≡ false) → s.from.is_local ≡ true

  pub rcpt_at-Authorized :
      (s : Session) (r : Rcpt) (o : Option (Config services))
      → Granted (Authorized s) (rcpt_at services s r o)
  unfolding rcpt_at
  rcpt_at-Authorized s r none =
      elim (Bool-cases s.from.is_local)
        as (λ _. Granted (Authorized s) (rcpt_at services s r none)) [
          | inl e ↦ rw e (held λ _. refl)
          | inr e ↦ rw e none_refused
        ]
  rcpt_at-Authorized s r (some cfg) =
      Granted-imp
        (settle-Like (record r { is_local = true }) cfg (exists services cfg s.from.address r.user))
        λ t h l. cc

  pub took :
      (b : Bool) (x y : Session)
      → ◌≡◌ {A = Session × Option SmtpError}
          (if b then (x, some auth_required) else (x, none))
          (y, none)
      → (b ≡ false) × (x ≡ y)
  took true x y h = cc
  took false x y h = (refl, ap (λ p. p.0) h)

  -- Where Mail takes the sender `from` and the next command is a recipient outside the domains, which
  -- is accepted: then the domain of `from` is one of the domains, and `from` is the user name of the
  -- session, the one of its login, or the empty one of a session without one.
  pub mail-rcpt :
      (ds : Domains services) (from to : Text) (s s' : Session) (t : Rcpt)
      → mail services ds from s ≡ (s', none)
      → rcpt services ds to s' ≡ accepted t
      → t.is_local ≡ false
      → (s'.username ≡ from) × (is_some (lookup (bare_rcpt from).domain ds) ≡ true)
  unfolding mail rcpt
  mail-rcpt ds from to s s' t m h l =
      let (b, x) =
        took (is_some (lookup (bare_rcpt from).domain ds) && not (eq_text s.username from))
          (record s {
            from = record (bare_rcpt from) {
              is_local = is_some (lookup (bare_rcpt from).domain ds);
            };
          })
          s' m in
      let e : s'.from.is_local ≡ true =
        granted
          (subst (Granted (Authorized s')) h
            (rcpt_at-Authorized s' (bare_rcpt to) (lookup (bare_rcpt to).domain ds)))
          l in
      let i : is_some (lookup (bare_rcpt from).domain ds) ≡ true =
        ap (λ s. s.from.is_local) x ∙ e in
      (sym (ap (λ s. s.username) x) ∙ (eq_text_iff s.username from).0 (ground (arith, b, i)), i)
