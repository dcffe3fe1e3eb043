-- ===== src/Config/Valid.antt =====
-- config.go: the configurations that are accepted.
use atmail.Prelude.{
  ◌≡◌, refl, sym, ◌⊎◌, inl, inr, ◌↔◌, Bool, true, false, not, ◌&&◌, ◌||◌, Option, none, some, List,
  [], ◌∷◌, if◌then◌else◌, is_some, Text, eq_text, contains, lookup, All, Bool-cases, Option-cases,
}
use atmail.Auth.Domain.{
  Services, Config, Crypto, Admin, StaticUser, StaticConfig, CatchAll, Den, admin_emails,
}
use atmail.Config.{
  Invalid, has_two_keys, check_user, check_users, check_static, catch_all_keys, check_domain,
  check_domains,
}

-- At most one of the two ways to give a key.
abbrev pub OneKey : Crypto → Type 0
OneKey c = has_two_keys c ≡ false

module _ (services : Services) where
  -- A static user that is no reserved name, but for the admin, and neither a system user nor a group.
  abbrev pub ValidUser : Admin → StaticConfig services → Text × StaticUser → Type 0
  ValidUser admin s (u, v) =
      ((eq_text u admin.user ≡ true) ⊎ (contains admin_emails u ≡ false))
      × ((lookup u s.system_users ≡ none) × ((lookup u s.groups ≡ none) × OneKey v.crypto))

  -- One way to log in: static users, a catch-all user or den.
  pub data ValidAuth (admin : Admin)
      : Option (StaticConfig services) → Option CatchAll → Option (Den services) → Type 0 where
    static_users :
        (s : StaticConfig services)
        → All (ValidUser admin s) s.users
        → ValidAuth admin (some s) none none
    catch_all_user : (c : CatchAll) → OneKey c.crypto → ValidAuth admin none (some c) none
    den_users : (d : Den services) → ValidAuth admin none none (some d)

  abbrev pub ValidDomain : Text × Config services → Type 0
  ValidDomain (name, d) = ValidAuth d.admin d.static d.catch_all d.den

  is_some-none : {A : Type 0} (o : Option A) → (is_some o ≡ false) ↔ (o ≡ none)
  is_some-none none = ((λ h. refl), λ h. refl)
  is_some-none (some a) = ((λ h. cc), λ h. cc)

  not-and : (a b : Bool) → ((not a && b) ≡ false) ↔ ((a ≡ true) ⊎ (b ≡ false))
  not-and true b = ((λ h. inl refl), λ h. refl)
  not-and false true = ((λ h. inr h), λ h. elim h [ inl x ↦ sym x | inr x ↦ x ])
  not-and false false = ((λ h. inr refl), λ h. refl)

  -- A chain of tests has no error if no test holds.
  tests :
      (w x y z : Invalid) (p q r t : Bool)
      → ((if p
            then some w
            else if q
            then some x
            else if r
            then some y
            else if t
            then some z
            else none)
          ≡ none)
        ↔ ((p ≡ false) × ((q ≡ false) × ((r ≡ false) × (t ≡ false))))
  tests w x y z true q r t = ((λ h. cc), λ h. cc)
  tests w x y z false true r t = ((λ h. cc), λ h. cc)
  tests w x y z false false true t = ((λ h. cc), λ h. cc)
  tests w x y z false false false true = ((λ h. cc), λ h. cc)
  tests w x y z false false false false = ((λ h. (refl, (refl, (refl, refl)))), λ h. refl)

  check_user-ValidUser :
      (admin : Admin) (s : StaticConfig services) (u : Text) (v : StaticUser)
      → (check_user services admin s u v ≡ none) ↔ ValidUser admin s (u, v)
  unfolding check_user
  check_user-ValidUser admin s u v =
      let p = not (eq_text u admin.user) && contains admin_emails u in
      let c =
        tests (Invalid.reserved u) (Invalid.defined_twice u) (Invalid.defined_twice u)
          Invalid.two_keys p (is_some (lookup u s.system_users)) (is_some (lookup u s.groups))
          (has_two_keys v.crypto) in
      let n = is_some-none (lookup u s.system_users) in
      let m = is_some-none (lookup u s.groups) in
      let r = not-and (eq_text u admin.user) (contains admin_emails u) in
      (
        (λ h. let (x, (y, (z, t))) = c.0 h in (r.0 x, (n.0 y, (m.0 z, t)))),
        λ (x, (y, (z, t))). c.1 (r.1 x, (n.1 y, (m.1 z, t))),
      )

  check_users-ValidUser :
      (admin : Admin) (s : StaticConfig services) (us : List (Text × StaticUser))
      → (check_users services admin s us ≡ none) ↔ All (ValidUser admin s) us
  unfolding check_users
  check_users-ValidUser admin s [] = ((λ h. tt), λ h. refl)
  check_users-ValidUser admin s ((u, v) ∷ us) =
      let c = check_user-ValidUser admin s u v in
      let r = check_users-ValidUser admin s us in
      elim (Option-cases (check_user services admin s u v)) [
        | inl e ↦ rw (check_users, e) ((λ h. (c.0 e, r.0 h)), λ (x, y). r.1 y)
        | inr (i, e) ↦ rw (check_users, e) ((λ h. cc), λ (x, y). let z = c.1 x in cc)
      ]

  -- The checks of a domain by its three ways to log in.
  ways :
      Admin
      → Option (StaticConfig services)
      → Option CatchAll
      → Option (Den services)
      → Option Invalid
  unfolding check_users has_two_keys
  ways admin s c d =
      if not (is_some d) && (not (is_some s) && not (is_some c))
      then some Invalid.no_auth
      else if (is_some d && is_some s) || ((is_some d && is_some c) || (is_some c && is_some s))
      then some Invalid.several_auths
      else if catch_all_keys services c
      then some Invalid.two_keys
      else check_static services admin s

  users_of :
      {admin : Admin} {s : StaticConfig services}
      → ValidAuth admin (some s) none none
      → All (ValidUser admin s) s.users
  users_of (static_users _ h) = h

  key_of : {admin : Admin} {c : CatchAll} → ValidAuth admin none (some c) none → OneKey c.crypto
  key_of (catch_all_user _ h) = h

  ways-ValidAuth :
      (admin : Admin) (s : Option (StaticConfig services)) (c : Option CatchAll)
      (d : Option (Den services))
      → (ways admin s c d ≡ none) ↔ ValidAuth admin s c d
  unfolding ways
  ways-ValidAuth admin none none none = ((λ h. cc), λ v. elim v [ ])
  ways-ValidAuth admin (some s) none none =
      let u = check_users-ValidUser admin s s.users in
      ((λ h. static_users s (u.0 h)), λ v. u.1 (users_of v))
  ways-ValidAuth admin none (some c) none = elim (Bool-cases (has_two_keys c.crypto)) [
    | inl e ↦ ((λ h. let x = rw e at h in cc), λ v. let x = key_of v in cc)
    | inr e ↦ ((λ h. catch_all_user c e), λ v. rw e refl)
  ]
  ways-ValidAuth admin none none (some d) = ((λ h. den_users d), λ v. refl)
  ways-ValidAuth admin (some s) (some c) none = ((λ h. cc), λ v. elim v [ ])
  ways-ValidAuth admin (some s) (some c) (some d) = ((λ h. cc), λ v. elim v [ ])
  ways-ValidAuth admin (some s) none (some d) = ((λ h. cc), λ v. elim v [ ])
  ways-ValidAuth admin none (some c) (some d) = ((λ h. cc), λ v. elim v [ ])

  -- A configuration is accepted exactly if each domain has one way to log in: static users, of which
  -- none has a reserved name, but for the admin, or the name of a system user or a group; a catch-all
  -- user; or den; and each of these users has at most one of the two ways to give a key.
  pub check_domains-ValidDomain :
      (ds : List (Text × Config services)) → (check_domains services ds ≡ none) ↔ All ValidDomain ds
  unfolding check_domains check_domain ways
  check_domains-ValidDomain [] = ((λ h. tt), λ h. refl)
  check_domains-ValidDomain ((name, d) ∷ ds) =
      let c = ways-ValidAuth d.admin d.static d.catch_all d.den in
      let r = check_domains-ValidDomain ds in
      elim (Option-cases (check_domain services d)) [
        | inl e ↦ rw (check_domains, e) ((λ h. (c.0 e, r.0 h)), λ (x, y). r.1 y)
        | inr (i, e) ↦ rw (check_domains, e) ((λ h. cc), λ (x, y). let z = c.1 x in cc)
      ]
