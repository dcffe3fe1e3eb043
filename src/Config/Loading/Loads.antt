-- ===== src/Config/Loading/Loads.antt =====
-- config.go: what is loaded.
use atmail.Prelude.{
  ◌<◌, ◌≡◌, ◌≢◌, subst, arith, Option, none, some, List, [], ◌∷◌, Text, All, Bool-cases,
  Option-cases, inl, inr, insert,
}
use atmail.Auth.Domain.{Services, Config}
use atmail.Config.{check_domains}
use atmail.Config.Valid.{ValidDomain, check_domains-ValidDomain}
use atmail.Config.Loading.{
  Entry, Loaded, loaded, failed, exited, stuck, Configuration, Disk, finished, checked,
  with_domains, domains_in, decoded, parse_config, Trees, with_tree, parse_each, parse_filters,
}
use atmail.Filter.Floats.{Floats}
use atmail.Filter.Lexer.{Lexer}
use atmail.Filter.Outcome.{ok}
use atmail.Filter.Statements.{Parsed}
use atmail.Filter.Statements.Total.{parse-ends}

-- If something is loaded, `P` holds of it; and nothing is stuck.
data Loads {A : Type 0} (P : A → Type 0) : Loaded A → Type 0 where
  yes : {a : A} → P a → Loads P (loaded a)
  not_loaded : Loads P failed
  ended : Loads P exited

of_loaded : {A : Type 0} {P : A → Type 0} {a : A} → Loads P (loaded a) → P a
of_loaded (yes p) = p

module _ (services : Services) (disk : Disk services) where
  -- Each domain has one way to log in, with the rest of `ValidDomain`, and the limit is an uint32.
  pub record ValidConfiguration (cfg : Configuration services) : Type 0 where
    pub domains : All (ValidDomain services) cfg.domains
    pub limit : cfg.max_email_size < 4294967296

  finished-Loads :
      (cfg : Configuration services) (base : Option Text)
      → All (ValidDomain services) cfg.domains
      → Loads ValidConfiguration (finished services disk cfg base)
  unfolding finished
  finished-Loads cfg none v = not_loaded
  finished-Loads cfg (some b) v = yes (record { domains = v; limit = omega arith })

  checked-Loads :
      (cfg : Configuration services) → Loads ValidConfiguration (checked services disk cfg)
  unfolding checked
  checked-Loads cfg =
      elim (Option-cases (check_domains services cfg.domains))
        as (λ _. Loads ValidConfiguration (checked services disk cfg)) [
          | inl e ↦
              rw (checked, e)
                (finished-Loads cfg disk.base
                  ((check_domains-ValidDomain services cfg.domains).0 e))
          | inr (i, e) ↦ rw (checked, e) not_loaded
        ]

  with_domains-Loads :
      (cfg : Configuration services) (ds : Option (List (Text × Config services)))
      → Loads ValidConfiguration (with_domains services disk cfg ds)
  unfolding with_domains
  with_domains-Loads cfg none = not_loaded
  with_domains-Loads cfg (some ds) = checked-Loads (record cfg { domains = ds })

  decoded-Loads :
      (o : Option (Option (Configuration services)))
      → Loads ValidConfiguration (decoded services disk o)
  unfolding decoded
  decoded-Loads none = ended
  decoded-Loads (some none) = not_loaded
  decoded-Loads (some (some cfg)) =
      with_domains-Loads cfg (domains_in services disk cfg.domains_folder cfg.domains)

  -- A configuration that is loaded from the disk, also from the files of its folder of domains, has
  -- valid domains.
  pub parse_config-ValidConfiguration :
      (p : Text) (cfg : Configuration services)
      → parse_config services disk p ≡ loaded cfg
      → ValidConfiguration cfg
  unfolding parse_config
  parse_config-ValidConfiguration p cfg h =
      of_loaded (subst (Loads ValidConfiguration) h (decoded-Loads (disk.decode p)))

  module _ (fl : Floats) where
    with_tree-Loads :
        (name : Text) (p : Parsed fl.Float) (lx : Lexer) (acc : Trees services disk fl)
        (rest : Trees services disk fl → Loaded (Trees services disk fl))
        → ((acc : Trees services disk fl) → Loads (λ t. Unit) (rest acc))
        → Loads (λ t. Unit) (with_tree services disk fl name (ok p lx) acc rest)
    unfolding with_tree
    with_tree-Loads name (tree, none) lx acc rest h = h (insert name tree acc)
    with_tree-Loads name (tree, some e) lx acc rest h = not_loaded

    parse_each-Loads :
        (folder : Text) (entries : List Entry) (acc : Trees services disk fl)
        → Loads (λ t. Unit) (parse_each services disk fl folder entries acc)
    unfolding parse_each
    parse_each-Loads folder [] acc = yes tt
    parse_each-Loads folder ((name, is_dir) ∷ entries) acc =
        elim (Bool-cases is_dir)
          as (λ _.
            Loads (λ t. Unit) (parse_each services disk fl folder ((name, is_dir) ∷ entries) acc)) [
              | inl e ↦ rw (parse_each, e) (parse_each-Loads folder entries acc)
              | inr e ↦
                  elim (Option-cases (disk.read_file folder name))
                    as (λ _.
                      Loads (λ t. Unit)
                        (parse_each services disk fl folder ((name, is_dir) ∷ entries) acc)) [
                          | inl r ↦ rw (parse_each, e, r) not_loaded
                          | inr (b, r) ↦
                              let (p, (lx, q)) = parse-ends fl b in
                              rw (parse_each, e, r, q)
                                (with_tree-Loads name p lx acc
                                  (λ acc. parse_each services disk fl folder entries acc)
                                  λ acc. parse_each-Loads folder entries acc)
                        ]
            ]

    not_stuck : {A : Type 0} {P : A → Type 0} (o : Loaded A) → Loads P o → o ≢ stuck
    not_stuck (loaded a) h e = cc
    not_stuck failed h e = cc
    not_stuck exited h e = cc
    not_stuck stuck h e = elim h [ ]

    -- Whatever the files of a folder hold, ParseFilters returns: it does not get stuck in the parser.
    pub parse_filters-stuck : (folder : Text) → parse_filters services disk fl folder ≢ stuck
    unfolding parse_filters
    parse_filters-stuck folder = elim (Option-cases (disk.read_dir folder)) [
      | inl e ↦ rw (parse_filters, e) (λ h. cc)
      | inr (entries, e) ↦
          rw (parse_filters, e)
            (not_stuck (parse_each services disk fl folder entries [])
              (parse_each-Loads folder entries []))
    ]
