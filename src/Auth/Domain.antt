-- ===== src/Auth/Domain.antt =====
-- auth/domain.go: the users and groups of a domain, and who may log in as them.
pub mod Logins
use atmail.Prelude.{
  ℕ, Bool, true, false, not, ◌&&◌, ◌||◌, Option, none, some, List, [], ◌∷◌, ◌++◌, if◌then◌else◌,
  is_empty, is_some, Text, text, eq_text, contains, lookup, cut,
}

pub record Crypto : Type 0 where
  pub pgp_pub_key : Option Text
  pub pgp_pub_key_file : Option Text

pub record Admin : Type 0 where
  pub user : Text
  pub folder : Text
  pub crypto : Crypto

pub record Group : Type 0 where
  pub members : List Text
  pub authorized_senders : List Text

pub record StaticUser : Type 0 where
  pub password : Text
  pub crypto : Crypto

pub record CatchAll : Type 0 where
  pub user : Text
  pub password : Text
  pub crypto : Crypto

-- `UserData` without Address, which nothing sets.
pub record UserData : Type 0 where
  pub username : Text
  pub folder : Text
  pub key : Option Text
  pub group : Option Group

abbrev pub admin_emails : List Text
admin_emails =
    text "root"
    ∷ text "postmaster"
    ∷ text "operator"
    ∷ text "mail-daemon"
    ∷ text "daemon"
    ∷ text "uucp"
    ∷ text "abuse"
    ∷ text "security"
    ∷ []

-- `Group.Verify`.
unfoldable pub verify : Group → Text → Bool
unfolding contains
verify g from = not (is_empty g.authorized_senders) && contains g.authorized_senders from

-- The services that the program asks: the file system (none where reading fails), the comparison of
-- a password with a stored one, the listening connection of a system user, and den, whose answer to
-- `Authn` is whether it has a response and to `Exists` the key of the user.
pub record Services : Type 1 where
  pub Conn : Type 0
  pub SystemUser : Type 0
  pub DenClient : Type 0
  pub read_file : Text → Option Text
  pub compare : Text → Text → Bool
  pub system_from : SystemUser → Conn → Bool
  pub den_authn : DenClient → Text → Text → Bool
  pub den_exists : DenClient → Text → Option (Option Text)

-- What a call gives: a value, or the panic of `GetKey` on a file that cannot be read.
pub data Called {ℓ} (A : Type ℓ) : Type ℓ where
  crashed : Called A
  returned : A → Called A

abbrev pub with_key : Called (Option Text) → UserData → Called (Option UserData)
with_key crashed d = crashed
with_key (returned k) d = returned (some (record d { key = k }))

abbrev pub zero_data : UserData
zero_data = record { username = []; folder = []; key = none; group = none }

-- data.Group = &g, or nil where there is none.
abbrev pub group_data : Option Group → Called (Option UserData)
group_data none = returned none
group_data (some g) = returned (some (record zero_data { group = some g }))

module _ (services : Services) where
  open services use {
    Conn, SystemUser, DenClient, read_file, compare, system_from, den_authn, den_exists,
  }

  pub record StaticConfig : Type 0 where
    pub users : List (Text × StaticUser)
    pub system_users : List (Text × SystemUser)
    pub groups : List (Text × Group)

  pub record Den : Type 0 where
    pub groups : List (Text × Group)
    pub client : DenClient

  pub record Config : Type 0 where
    pub admin : Admin
    pub plus_subaddressing : Bool
    pub create_folder_subaddressing : Bool
    pub static : Option StaticConfig
    pub catch_all : Option CatchAll
    pub den : Option Den

  -- The content of the file, or the panic.
  abbrev pub key_of_file : Option Text → Called (Option Text)
  key_of_file none = crashed
  key_of_file (some b) = returned (some b)

  abbrev pub get_key_from : Option Text → Option Text → Called (Option Text)
  get_key_from (some k) file = returned (some k)
  get_key_from none (some path) = key_of_file (read_file path)
  get_key_from none none = returned none

  -- `Crypto.GetKey`.
  unfoldable pub get_key : Crypto → Called (Option Text)
  get_key c = get_key_from c.pgp_pub_key c.pgp_pub_key_file

  -- The cases of `VerifyUser`.
  unfoldable pub verify_catch_all : CatchAll → Text → Text → Text → Bool
  unfolding eq_text
  verify_catch_all c domain username password =
      if not (eq_text (c.user ++ b'@' ∷ domain) username)
      then false
      else compare c.password password

  abbrev pub verify_system : Option SystemUser → Conn → Bool
  verify_system none conn = false
  verify_system (some u) conn = system_from u conn

  abbrev pub verify_user_or_system : Option StaticUser → Option SystemUser → Conn → Text → Bool
  verify_user_or_system none u conn password = verify_system u conn
  verify_user_or_system (some user) u conn password = compare user.password password

  unfoldable pub verify_static : StaticConfig → Conn → Text → Text → Text → Bool
  unfolding eq_text lookup cut
  verify_static s conn domain username password =
      let (u, d, found) = cut b'@' username in
      if not (eq_text d domain)
      then false
      else verify_user_or_system (lookup u s.users) (lookup u s.system_users) conn password

  unfoldable pub verify_den : Den → Text → Text → Text → Bool
  unfolding eq_text cut
  verify_den n domain username password =
      let (u, d, found) = cut b'@' username in
      if not (eq_text d domain) then false else den_authn n.client u password

  abbrev pub verify_by :
      Option CatchAll → Option StaticConfig → Option Den → Conn → Text → Text → Text → Bool
  verify_by (some c) s n conn domain username password = verify_catch_all c domain username password
  verify_by none (some s) n conn domain username password =
      verify_static s conn domain username password
  verify_by none none (some n) conn domain username password = verify_den n domain username password
  verify_by none none none conn domain username password = compare [] password

  -- `Config.VerifyUser`.
  unfoldable pub verify_user : Config → Conn → Text → Text → Text → Bool
  unfolding verify_catch_all verify_static verify_den
  verify_user cfg conn domain username password =
      verify_by cfg.catch_all cfg.static cfg.den conn domain username password

  -- strings.Cut(username, "+") under PlusSubaddressing.
  unfoldable pub subaddress : Bool → Text → Text × Text
  unfolding cut
  subaddress false username = (username, [])
  subaddress true username = let (u, sub, found) = cut b'+' username in (u, sub)

  -- The cases of `Exists`.
  unfoldable pub exists_catch_all : Bool → CatchAll → Text → Called (Option UserData)
  unfolding get_key eq_text
  exists_catch_all folders c username = with_key (get_key c.crypto) (record zero_data {
    username = c.user;
    folder = if folders && not (eq_text username c.user) then username else [];
  })

  -- `!ok || g.Verify(from)`.
  abbrev pub static_group : Option Group → Text → Called (Option UserData)
  unfolding verify
  static_group none from = returned none
  static_group (some g) from = if verify g from then returned none else group_data (some g)

  abbrev pub static_user :
      Bool → Text × Text → Option StaticUser → Option Group → Text → Called (Option UserData)
  unfolding get_key verify
  static_user folders (username, sub) none g from = static_group g from
  static_user folders (username, sub) (some u) g from =
      with_key (get_key u.crypto)
        (record zero_data { username = username; folder = if folders then sub else [] })

  unfoldable pub exists_static : Bool → Bool → StaticConfig → Text → Text → Called (Option UserData)
  unfolding subaddress lookup get_key verify
  exists_static plus folders s from username =
      let name = subaddress plus username in
      static_user folders name (lookup (name.0) s.users) (lookup (name.0) s.groups) from

  -- `ok && g.Verify(from)`.
  abbrev pub den_group : Option Group → Text → Called (Option UserData)
  unfolding verify
  den_group none from = returned none
  den_group (some g) from = if verify g from then group_data (some g) else returned none

  -- The user name is not set.
  abbrev pub den_user :
      Bool → Text → Option (Option Text) → Option Group → Text → Called (Option UserData)
  unfolding verify
  den_user folders sub none g from = den_group g from
  den_user folders sub (some k) g from =
      returned (some (record zero_data { folder = if folders then sub else []; key = k }))

  unfoldable pub exists_den : Bool → Bool → Den → Text → Text → Called (Option UserData)
  unfolding subaddress lookup verify
  exists_den plus folders n from username =
      let name = subaddress plus username in
      den_user folders (name.1) (den_exists n.client (name.0)) (lookup (name.0) n.groups) from

  abbrev pub exists_by :
      Bool
      → Bool
      → Option CatchAll
      → Option StaticConfig
      → Option Den
      → Text
      → Text
      → Called (Option UserData)
  unfolding exists_catch_all exists_static exists_den
  exists_by plus folders (some c) s n from username = exists_catch_all folders c username
  exists_by plus folders none (some s) n from username = exists_static plus folders s from username
  exists_by plus folders none none (some n) from username = exists_den plus folders n from username
  exists_by plus folders none none none from username = returned (some zero_data)

  -- `Config.Exists`: none for nil.
  unfoldable pub exists : Config → Text → Text → Called (Option UserData)
  unfolding exists_catch_all exists_static exists_den contains
  exists cfg from username =
      if contains admin_emails username
      then returned (some (record zero_data { username = username }))
      else exists_by cfg.plus_subaddressing cfg.create_folder_subaddressing cfg.catch_all cfg.static
          cfg.den from username
