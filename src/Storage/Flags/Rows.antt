-- ===== src/Storage/Flags/Rows.antt =====
-- storage/flags.go: the rows that the operations on flags leave.
use atmail.Prelude.{
  ℕ, ◌≡◌, refl, sym, ap, ◌∙◌, ◌==◌, ==_iff, Bool, true, false, not, ◌&&◌, ◌||◌, none, some, List,
  [], ◌∷◌, ◌++◌, All, Text, lookup, Bool-cases, Option-cases, inl, inr, arith,
}
use atmail.Storage.Database.{Database, has_row, has_email}
use atmail.Storage.Mailbox.Alive.{has_row-append, has_row-remove}
use atmail.Storage.Flags.{
  FlagIds, add_email_flag, add_email_flag_name, add_email_flags, remove_email_flag,
  remove_email_flag_name, remove_email_flags,
}

-- One of the names has this id.
unfoldable pub given : FlagIds → List Text → ℕ → Bool
unfolding lookup
given ids [] f = false
given ids (name ∷ names) f =
    (elim (lookup name ids) [ none ↦ false | some g ↦ g == f ]) || given ids names f

-- The name is in the table.
abbrev pub Known : FlagIds → Text → Type 0
Known ids name = (f : ℕ) × (lookup name ids ≡ some f)

-- The rows after flags of an email were added.
pub record Flagged (id : ℕ) (new : ℕ → Bool) (db db' : Database) : Type 0 where
  pub shape : db' ≡ record db { emails_flags = db'.emails_flags }
  pub rows :
      (a b : ℕ) → has_row db'.emails_flags a b ≡ has_row db.emails_flags a b || (id == a && new b)

known :
    (rows : List (ℕ × ℕ)) (id f a b : ℕ)
    → has_row rows id f ≡ true
    → has_row rows a b ≡ has_row rows a b || (id == a && f == b)
known rows id f a b e = elim (Bool-cases (id == a && f == b)) [
  | inl x ↦
      let i : id ≡ a = (==_iff id a).0 (ground (arith, x)) in
      let j : f ≡ b = (==_iff f b).0 (ground (arith, x)) in
      let r : has_row rows a b ≡ true =
        ap (λ k. has_row rows k b) (sym i) ∙ ap (has_row rows id) (sym j) ∙ e in
      ground (arith, x, r)
  | inr x ↦ ground (arith, x)
]

add_one :
    (id f : ℕ) (db : Database)
    → has_email db.emails id ≡ true
    → (db' : Database) × ((add_email_flag id f db ≡ some db') × Flagged id (λ b. f == b) db db')
unfolding add_email_flag
add_one id f db h = elim (Bool-cases (has_row db.emails_flags id f)) [
  | inl e ↦ (
    db,
    (rw (h, e) refl, record { shape = refl; rows = λ a b. known db.emails_flags id f a b e }),
  )
  | inr e ↦ (
    record db { emails_flags = db.emails_flags ++ (id, f) ∷ [] },
    (
      rw (h, e) refl,
      record { shape = refl; rows = λ a b. has_row-append db.emails_flags a b id f },
    ),
  )
]

pub add_email_flags-Flagged :
    (ids : FlagIds) (id : ℕ) (names : List Text) (db : Database)
    → All (Known ids) names
    → has_email db.emails id ≡ true
    → (db' : Database) × ((add_email_flags ids id names db ≡ some db')
        × Flagged id (given ids names) db db')
unfolding add_email_flags add_email_flag_name given
add_email_flags-Flagged ids id [] db k h =
    (db, (refl, record { shape = refl; rows = λ a b. ground arith }))
add_email_flags-Flagged ids id (name ∷ names) db ((f, l), k) h =
    let (d, (e, x)) = add_one id f db h in
    let (d', (e', y)) =
      add_email_flags-Flagged ids id names d k (ap (λ d. has_email d.emails id) x.shape ∙ h) in
    (
      d',
      (
        rw (add_email_flags, add_email_flag_name, l, e) e',
        record {
          shape =
              y.shape ∙ ap (λ (d : Database). record d { emails_flags = d'.emails_flags }) x.shape;
          rows = λ a b. rw (given, l) (ground (arith, y.rows a b, x.rows a b));
        },
      ),
    )

remove_email_flag_name-rows :
    (ids : FlagIds) (id : ℕ) (name : Text) (db : Database) (a b : ℕ)
    → has_row (remove_email_flag_name ids id name db).emails_flags a b
      ≡ has_row db.emails_flags a b && not (id == a && given ids (name ∷ []) b)
unfolding remove_email_flag_name remove_email_flag given
remove_email_flag_name-rows ids id name db a b = elim (Option-cases (lookup name ids)) [
  | inl e ↦ rw (remove_email_flag_name, given, e) (ground arith)
  | inr (f, e) ↦
      rw (remove_email_flag_name, given, e) (has_row-remove db.emails_flags id f a b ∙ ground arith)
]

pub remove_email_flags-rows :
    (ids : FlagIds) (id : ℕ) (names : List Text) (db : Database) (a b : ℕ)
    → has_row (remove_email_flags ids id names db).emails_flags a b
      ≡ has_row db.emails_flags a b && not (id == a && given ids names b)
unfolding remove_email_flags given
remove_email_flags-rows ids id [] db a b = ground arith
remove_email_flags-rows ids id (name ∷ names) db a b =
    remove_email_flags-rows ids id names (remove_email_flag_name ids id name db) a b
    ∙ ap (λ r. r && not (id == a && given ids names b))
        (remove_email_flag_name-rows ids id name db a b)
    ∙ ground arith

pub remove_email_flags-shape :
    (ids : FlagIds) (id : ℕ) (names : List Text) (db : Database)
    → remove_email_flags ids id names db
      ≡ record db { emails_flags = (remove_email_flags ids id names db).emails_flags }
unfolding remove_email_flags remove_email_flag_name remove_email_flag
remove_email_flags-shape ids id [] db = refl
remove_email_flags-shape ids id (name ∷ names) db =
    let d' = remove_email_flags ids id (name ∷ names) db in
    let d = remove_email_flag_name ids id name db in
    let s : d ≡ record db { emails_flags = d.emails_flags } =
      elim (Option-cases (lookup name ids)) [
        | inl e ↦ rw (remove_email_flag_name, e) refl
        | inr (f, e) ↦ rw (remove_email_flag_name, e) refl
      ] in
    remove_email_flags-shape ids id names d
    ∙ ap (λ (z : Database). record z { emails_flags = d'.emails_flags }) s
