-- ===== src/Config/Loading.antt =====
-- config.go: the files of a configuration.
pub mod Loads
use atmail.Prelude.{
  ℕ, ◌*◌, ◌%◌, Bool, true, false, not, ◌||◌, Option, none, some, List, [], ◌∷◌, if◌then◌else◌,
  is_empty, is_none, is_some, length, drop, Text, text, lookup, insert,
}
use atmail.Auth.Domain.{Services, Config}
use atmail.Config.{check_domains}
use atmail.Filter.Floats.{Floats}
use atmail.Filter.Outcome.{Outcome, ok, fail, starved, panicked}
use atmail.Filter.Strings.{has_prefix}
use atmail.Filter.Statements.{Parsed, parse}
use atmail.Filter.Syntax.{Statement}

-- An entry of a directory, and whether it is one itself.
abbrev pub Entry : Type 0
Entry = Text × Bool

-- What a step of the loading gives: a value, an error, the end of the program, or a parser that does
-- not return.
pub data Loaded (A : Type 0) : Type 0 where
  loaded : A → Loaded A
  failed exited stuck : Loaded A

-- strings.Cut with a text that is not empty.
unfoldable pub cut_text : Text → Text → Text × Text × Bool
unfolding has_prefix
cut_text sep [] = ([], [], false)
cut_text sep (c ∷ t) =
    let (before, after, found) = cut_text sep t in
    if has_prefix sep (c ∷ t)
    then ([], drop (length sep) (c ∷ t), true)
    else (c ∷ before, after, found)

-- The name of the domain of a file, or none for one that is passed over.
unfoldable pub domain_of : Entry → Option Text
unfolding cut_text
domain_of (name, is_dir) =
    let (d, rest, found) = cut_text (text ".toml") name in
    if not found || (is_dir || not (is_empty rest)) then none else some d

-- What `ParseConfig` reads and sets of a `Config`.
pub record Configuration (services : Services) : Type 0 where
  pub directory : Text
  pub domains_folder : Option Text
  pub filters_folder : Text
  pub max_email_size : ℕ
  pub domains : List (Text × Config services)

module _ (services : Services) where
  -- The files: a directory, the configuration of a path, with none inside for one that cannot be
  -- decoded, and of a domain in a folder, and path.Join.
  pub record Disk : Type 0 where
    pub read_dir : Text → Option (List Entry)
    pub decode : Text → Option (Option (Configuration services))
    pub decode_domain : Text → Text → Option (Config services)
    pub read_file : Text → Text → Option Text
    pub join : Text → Text → Text
    pub base : Option Text

  module _ (disk : Disk) where
    open disk use {read_dir, decode, decode_domain, read_file, join, base}

    -- The loop over the files of the domains.
    unfoldable pub add_domains :
        Text → List Entry → List (Text × Config services) → Option (List (Text × Config services))
    unfolding domain_of insert
    add_domains folder [] domains = some domains
    add_domains folder ((name, is_dir) ∷ entries) domains = elim (domain_of (name, is_dir)) [
      | none ↦ add_domains folder entries domains
      | some d ↦ elim (decode_domain folder name) [
        | none ↦ none
        | some c ↦ add_domains folder entries (insert d c domains)
      ]
    ]

    abbrev pub domains_in :
        Option Text → List (Text × Config services) → Option (List (Text × Config services))
    unfolding add_domains
    domains_in none domains = some domains
    domains_in (some folder) domains = elim (read_dir folder) [
      | none ↦ none
      | some entries ↦ add_domains folder entries domains
    ]

    unfoldable pub absolute : Text → Text → Text
    unfolding has_prefix
    absolute base p = if has_prefix (text "/") p then p else join base p

    -- The end of `ParseConfig`.
    abbrev pub finished : Configuration services → Option Text → Loaded (Configuration services)
    unfolding absolute
    finished cfg none = failed
    finished cfg (some base) = loaded (record cfg {
      max_email_size = cfg.max_email_size * 1024 % 4294967296;
      directory = absolute base cfg.directory;
      filters_folder =
          if is_empty cfg.filters_folder
          then cfg.filters_folder
          else absolute base cfg.filters_folder;
    })

    unfoldable pub checked : Configuration services → Loaded (Configuration services)
    unfolding finished check_domains
    checked cfg = elim (check_domains services cfg.domains) [
      | some e ↦ failed
      | none ↦ finished cfg base
    ]

    abbrev pub with_domains :
        Configuration services
        → Option (List (Text × Config services))
        → Loaded (Configuration services)
    unfolding checked
    with_domains cfg none = failed
    with_domains cfg (some domains) = checked (record cfg { domains = domains })

    abbrev pub decoded : Option (Option (Configuration services)) → Loaded (Configuration services)
    unfolding with_domains domains_in
    decoded none = exited
    decoded (some none) = failed
    decoded (some (some cfg)) = with_domains cfg (domains_in cfg.domains_folder cfg.domains)

    -- `ParseConfig`: where there is no file, it writes one and exits.
    unfoldable pub parse_config : Text → Loaded (Configuration services)
    unfolding decoded
    parse_config p = decoded (decode p)

    module _ (fl : Floats) where
      abbrev pub Trees : Type 0
      Trees = List (Text × List (Statement fl.Float))

      abbrev pub with_tree :
          Text → Outcome (Parsed fl.Float) → Trees → (Trees → Loaded Trees) → Loaded Trees
      unfolding insert
      with_tree name (ok (tree, none) lx) acc rest = rest (insert name tree acc)
      with_tree name (ok (tree, some e) lx) acc rest = failed
      with_tree name (fail e lx) acc rest = failed
      with_tree name starved acc rest = stuck
      with_tree name panicked acc rest = stuck

      -- The loop of `ParseFilters`.
      unfoldable pub parse_each : Text → List Entry → Trees → Loaded Trees
      unfolding with_tree parse
      parse_each folder [] acc = loaded acc
      parse_each folder ((name, is_dir) ∷ entries) acc =
          if is_dir then parse_each folder entries acc else elim (read_file folder name) [
            | none ↦ failed
            | some b ↦ with_tree name (parse fl b) acc λ acc'. parse_each folder entries acc'
          ]

      -- `ParseFilters`.
      unfoldable pub parse_filters : Text → Loaded Trees
      unfolding parse_each
      parse_filters folder = elim (read_dir folder) [
        | none ↦ failed
        | some entries ↦ parse_each folder entries []
      ]
