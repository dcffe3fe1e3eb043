-- ===== src/Auth/Domain/Logins.antt =====
-- auth/domain.go: what a login that is verified has shown.
use atmail.Prelude.{
  ℕ, ◌≡◌, ◌≢◌, refl, sym, ap, ◌∙◌, Bool, true, false, not, Option, none, some, [], ◌∷◌, ◌++◌, ◌==◌,
  ==_iff, if◌then◌else◌, Text, eq_text, eq_text_iff, lookup, cut, Bool-cases, inl, inr,
}
use atmail.Auth.Domain.{
  StaticUser, Services, Config, StaticConfig, CatchAll, Den, verify_catch_all, verify_static,
  verify_den, verify_by, verify_user_or_system, verify_user,
}

-- What is cut at a byte, where something is behind it.
cut-whole : (c : ℕ) (t : Text) → (cut c t).1 ≢ [] → t ≡ (cut c t).0 ++ c ∷ (cut c t).1
unfolding cut
cut-whole c [] n = absurd (n refl)
cut-whole c (b ∷ t) n = elim (Bool-cases (b == c)) [
  | inl e ↦ rw (cut, e) (ap (λ d. d ∷ t) ((==_iff b c).0 e))
  | inr e ↦
      let m : (cut c t).1 ≢ [] = λ q. n (rw (cut, e) q) in
      rw (cut, e) (ap (λ u. b ∷ u) (cut-whole c t m))
]

-- The user name is cut into a user and the domain, which is not empty.
cut-domain :
    (username domain : Text)
    → domain ≢ []
    → eq_text (cut b'@' username).1 domain ≡ true
    → username ≡ (cut b'@' username).0 ++ b'@' ∷ domain
cut-domain username domain n e =
    let d : (cut b'@' username).1 ≡ domain = (eq_text_iff (cut b'@' username).1 domain).0 e in
    cut-whole b'@' username (λ q. n (sym d ∙ q)) ∙ ap (λ d. (cut b'@' username).0 ++ b'@' ∷ d) d

guarded : (b x : Bool) → (if not b then false else x) ≡ true → (b ≡ true) × (x ≡ true)
guarded true x h = (refl, h)
guarded false x h = cc

module _ (services : Services) where
  open services use {Conn, SystemUser, compare, system_from, den_authn}

  -- What a login to a domain has shown: the name of the catch-all user, and his password; that of a
  -- static user, and his; that of a system user who is no static user, and his connection; what den
  -- says; or, where no way to log in is configured, a password that compares with the empty one.
  pub data Shown (cfg : Config services) (conn : Conn) (domain username password : Text)
      : Type 0 where
    catch_all_user :
        (c : CatchAll)
        → cfg.catch_all ≡ some c
        → username ≡ c.user ++ b'@' ∷ domain
        → compare c.password password ≡ true
        → Shown cfg conn domain username password
    static_user :
        (s : StaticConfig services) (u : Text) (x : StaticUser)
        → cfg.static ≡ some s
        → username ≡ u ++ b'@' ∷ domain
        → lookup u s.users ≡ some x
        → compare x.password password ≡ true
        → Shown cfg conn domain username password
    system_user :
        (s : StaticConfig services) (u : Text) (x : SystemUser)
        → cfg.static ≡ some s
        → username ≡ u ++ b'@' ∷ domain
        → lookup u s.users ≡ none
        → lookup u s.system_users ≡ some x
        → system_from x conn ≡ true
        → Shown cfg conn domain username password
    den_user :
        (n : Den services) (u : Text)
        → cfg.den ≡ some n
        → username ≡ u ++ b'@' ∷ domain
        → den_authn n.client u password ≡ true
        → Shown cfg conn domain username password
    no_way :
        cfg.catch_all ≡ none
        → cfg.static ≡ none
        → cfg.den ≡ none
        → compare [] password ≡ true
        → Shown cfg conn domain username password

  module _ (cfg : Config services) (conn : Conn) (domain username password : Text)
      (n : domain ≢ []) where
    static-Shown :
        (s : StaticConfig services) (u : Text) (x : Option StaticUser) (y : Option SystemUser)
        → cfg.static ≡ some s
        → username ≡ u ++ b'@' ∷ domain
        → lookup u s.users ≡ x
        → lookup u s.system_users ≡ y
        → verify_user_or_system services x y conn password ≡ true
        → Shown cfg conn domain username password
    static-Shown s u (some x) y c e l k h = static_user s u x c e l h
    static-Shown s u none (some y) c e l k h = system_user s u y c e l k h
    static-Shown s u none none c e l k h = cc

    by-Shown :
        (c : Option CatchAll) (s : Option (StaticConfig services)) (d : Option (Den services))
        → cfg.catch_all ≡ c
        → cfg.static ≡ s
        → cfg.den ≡ d
        → verify_by services c s d conn domain username password ≡ true
        → Shown cfg conn domain username password
    unfolding verify_catch_all verify_static verify_den
    by-Shown (some c) s d p q r h =
        let (e, k) = guarded _ _ h in
        catch_all_user c p (sym ((eq_text_iff (c.user ++ b'@' ∷ domain) username).0 e)) k
    by-Shown none (some s) d p q r h =
        let (e, k) = guarded _ _ h in
        static-Shown s (cut b'@' username).0 (lookup (cut b'@' username).0 s.users)
          (lookup (cut b'@' username).0 s.system_users) q (cut-domain username domain n e) refl refl
          k
    by-Shown none none (some d) p q r h =
        let (e, k) = guarded _ _ h in
        den_user d (cut b'@' username).0 r (cut-domain username domain n e) k
    by-Shown none none none p q r h = no_way p q r h

    -- A login that a domain with a name verifies is that of a user of this domain, who has shown the
    -- password, the connection or what den asks for; unless no way to log in is configured, and the
    -- password compares with the empty one.
    pub verify_user-Shown :
        verify_user services cfg conn domain username password ≡ true
        → Shown cfg conn domain username password
    unfolding verify_user
    verify_user-Shown h = by-Shown cfg.catch_all cfg.static cfg.den refl refl refl h
