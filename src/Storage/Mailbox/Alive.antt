-- ===== src/Storage/Mailbox/Alive.antt =====
-- storage/mailbox.go: emails that are in a mailbox, and stay in one.
use atmail.Prelude.{
  ℕ, ◌≡◌, refl, sym, ap, ◌∙◌, ◌≢◌, ◌⊎◌, inl, inr, Bool, true, false, not, ◌&&◌, ◌||◌, some, List,
  [], ◌∷◌, ◌++◌, ◌==◌, ==_iff, All, Bool-cases, Option-cases, arith, subst,
}
use atmail.Storage.Files.{Email}
use atmail.Storage.Database.{
  Database, select_from, has_row, has_mailbox, has_id, has_email, list_emails_no_mailbox,
  add_mailbox_email, remove_mailbox_email, delete_row, ids_of,
}
use atmail.Storage.Mailbox.{add_mailbox_emails, delete_emails, remove_all, remove_mailbox_emails}

pub has_row-append :
    (rows : List (ℕ × ℕ)) (a b x y : ℕ)
    → has_row (rows ++ (x, y) ∷ []) a b ≡ has_row rows a b || (x == a && y == b)
unfolding has_row
has_row-append [] a b x y = ground arith
has_row-append ((p, q) ∷ rows) a b x y = ground (arith, has_row-append rows a b x y)

pub has_row-mailbox :
    (rows : List (ℕ × ℕ)) (a b : ℕ) → has_row rows a b ≡ true → has_mailbox rows b ≡ true
unfolding has_row has_mailbox
has_row-mailbox [] a b h = cc
has_row-mailbox ((p, q) ∷ rows) a b h = ground (arith, has_row-mailbox rows a b, h)

pub mailbox-has_row :
    (rows : List (ℕ × ℕ)) (b : ℕ) → has_mailbox rows b ≡ true → (a : ℕ) × (has_row rows a b ≡ true)
unfolding has_row has_mailbox
mailbox-has_row [] b h = cc
mailbox-has_row ((p, q) ∷ rows) b h = elim (Bool-cases (q == b)) [
  | inl e ↦ (p, ground (arith, e))
  | inr e ↦ let (a, r) = mailbox-has_row rows b (rw e at h) in (a, ground (arith, r))
]

pub has_row-remove :
    (rows : List (ℕ × ℕ)) (m id a b : ℕ)
    → has_row (select_from rows λ (x, e). not (x == m && e == id)) a b
      ≡ has_row rows a b && not (a == m && b == id)
unfolding has_row select_from
has_row-remove [] m id a b = refl
has_row-remove ((p, q) ∷ rows) m id a b = ground (arith, has_row-remove rows m id a b)

pub has_row-delete :
    (rows : List (ℕ × ℕ)) (id a f : ℕ)
    → has_row (select_from rows λ (e, g). not (e == id)) a f ≡ has_row rows a f && not (id == a)
unfolding has_row select_from
has_row-delete [] id a f = refl
has_row-delete ((p, q) ∷ rows) id a f = ground (arith, has_row-delete rows id a f)

has_mailbox-delete :
    (rows : List (ℕ × ℕ)) (id b : ℕ)
    → id ≢ b
    → has_mailbox (select_from rows λ (x, e). not (e == id)) b ≡ has_mailbox rows b
unfolding has_mailbox select_from
has_mailbox-delete [] id b n = refl
has_mailbox-delete ((p, q) ∷ rows) id b n = ground (arith, has_mailbox-delete rows id b n, n)

has_email-delete :
    (es : List Email) (id b : ℕ)
    → id ≢ b
    → has_email (select_from es λ e. not (e.id == id)) b ≡ has_email es b
unfolding has_email select_from
has_email-delete [] id b n = refl
has_email-delete (e ∷ es) id b n = ground (arith, has_email-delete es id b n, n)

-- The email is there and in a mailbox.
pub record Alive (db : Database) (id : ℕ) : Type 0 where
  pub boxed : has_mailbox db.mailbox_emails id ≡ true
  pub kept : has_email db.emails id ≡ true

delete_row-Alive : (db : Database) (i id : ℕ) → i ≢ id → Alive db id → Alive (delete_row i db) id
unfolding delete_row
delete_row-Alive db i id n a = record {
  boxed = has_mailbox-delete db.mailbox_emails i id n ∙ a.boxed;
  kept = has_email-delete db.emails i id n ∙ a.kept;
}

delete_emails-Alive :
    (erase : Email → Bool) (es : List Email) (db : Database) (id : ℕ)
    → All (λ e. e.id ≢ id) es
    → Alive db id
    → Alive (delete_emails erase es db).0 id
unfolding delete_emails
delete_emails-Alive erase [] db id h a = a
delete_emails-Alive erase (e ∷ es) db id (n, h) a = elim (Bool-cases (erase e)) [
  | inl x ↦
      rw x
        (delete_emails-Alive erase es (delete_row e.id db) id h (delete_row-Alive db e.id id n a))
  | inr x ↦ rw x (delete_row-Alive db e.id id n a)
]

others :
    (rows : List (ℕ × ℕ)) (es : List Email) (id : ℕ)
    → has_mailbox rows id ≡ true
    → All (λ e. e.id ≢ id) (select_from es λ e. not (has_mailbox rows e.id))
unfolding select_from
others rows [] id h = tt
others rows (e ∷ es) id h = elim (Bool-cases (has_mailbox rows e.id)) [
  | inl x ↦ rw x (others rows es id h)
  | inr x ↦ rw x ((λ q. let r = ap (has_mailbox rows) q in cc), others rows es id h)
]

-- An email that another mailbox holds.
Held : Database → ℕ → ℕ → Type 0
Held db m id = (x : ℕ) × ((x ≢ m) × (has_row db.mailbox_emails x id ≡ true))

remove_all-row :
    (m : ℕ) (ids : List ℕ) (db : Database) (a b : ℕ)
    → has_row (remove_all m ids db).mailbox_emails a b
      ≡ has_row db.mailbox_emails a b && not (a == m && has_id ids b)
unfolding remove_all remove_mailbox_email has_id
remove_all-row m [] db a b = ground arith
remove_all-row m (id ∷ ids) db a b = ground (
  arith,
  remove_all-row m ids (remove_mailbox_email m id db) a b,
  has_row-remove db.mailbox_emails m id a b,
)

remove_all-emails :
    (m : ℕ) (ids : List ℕ) (db : Database) → (remove_all m ids db).emails ≡ db.emails
unfolding remove_all remove_mailbox_email
remove_all-emails m [] db = refl
remove_all-emails m (id ∷ ids) db = remove_all-emails m ids (remove_mailbox_email m id db)

-- An email stays if it is in another mailbox, or is not among those that are removed.
pub remove_mailbox_emails-Alive :
    (erase : Email → Bool) (m : ℕ) (ids : List ℕ) (db : Database) (id x : ℕ)
    → has_email db.emails id ≡ true
    → has_row db.mailbox_emails x id ≡ true
    → (x ≢ m) ⊎ (has_id ids id ≡ false)
    → Alive (remove_mailbox_emails erase m ids db).0 id
unfolding remove_mailbox_emails list_emails_no_mailbox
remove_mailbox_emails-Alive erase m ids db id x e r o =
    let row : has_row (remove_all m ids db).mailbox_emails x id ≡ true =
      remove_all-row m ids db x id
      ∙ elim o [ inl n ↦ ground (arith, n, r) | inr n ↦ ground (arith, n, r) ] in
    let boxed = has_row-mailbox (remove_all m ids db).mailbox_emails x id row in
    let kept : has_email (remove_all m ids db).emails id ≡ true =
      ap (λ es. has_email es id) (remove_all-emails m ids db) ∙ e in
    delete_emails-Alive erase (list_emails_no_mailbox (remove_all m ids db)) (remove_all m ids db)
      id (others (remove_all m ids db).mailbox_emails (remove_all m ids db).emails id boxed)
      (record { boxed = boxed; kept = kept })

ids_of-append :
    (x m id : ℕ) (rows : List (ℕ × ℕ)) → x ≢ m → ids_of x (rows ++ (m, id) ∷ []) ≡ ids_of x rows
unfolding ids_of
ids_of-append x m id [] n = ground (arith, n)
ids_of-append x m id ((p, q) ∷ rows) n = ground (arith, ids_of-append x m id rows n)

-- What `AddMailboxEmails` leaves: nothing else changes.
pub record Added (m : ℕ) (es : List Email) (db db' : Database) : Type 0 where
  pub same_emails : db'.emails ≡ db.emails
  pub old_rows :
      (a b : ℕ) → has_row db.mailbox_emails a b ≡ true → has_row db'.mailbox_emails a b ≡ true
  pub new_rows : (b : ℕ) → has_email es b ≡ true → has_row db'.mailbox_emails m b ≡ true
  pub other_ids : (x : ℕ) → x ≢ m → ids_of x db'.mailbox_emails ≡ ids_of x db.mailbox_emails

add_one :
    (m id : ℕ) (db db' : Database)
    → add_mailbox_email m id db ≡ some db'
    → record db { mailbox_emails = db.mailbox_emails ++ (m, id) ∷ [] } ≡ db'
unfolding add_mailbox_email
add_one m id db db' h =
    elim (Bool-cases (has_row db.mailbox_emails m id || not (has_email db.emails id))) [
      | inl e ↦ let k = rw e at h in cc
      | inr e ↦ let k = rw e at h in cc
    ]

pub add_mailbox_emails-Added :
    (m : ℕ) (es : List Email) (db db' : Database)
    → add_mailbox_emails m es db ≡ some db'
    → Added m es db db'
unfolding add_mailbox_emails has_email
add_mailbox_emails-Added m [] db db' h =
    let e : db ≡ db' = cc in
    subst (λ d. Added m [] db d) e
      (record {
        same_emails = refl;
        old_rows = λ a b r. r;
        new_rows = λ b r. cc;
        other_ids = λ x n. refl;
      })
add_mailbox_emails-Added m (e ∷ es) db db' h = elim (Option-cases (add_mailbox_email m e.id db)) [
  | inl n ↦ let k = rw (add_mailbox_emails, n) at h in cc
  | inr (d, n) ↦
      let ih = add_mailbox_emails-Added m es d db' (rw (add_mailbox_emails, n) at h) in
      let same = add_one m e.id db d n in
      let rows : db.mailbox_emails ++ (m, e.id) ∷ [] ≡ d.mailbox_emails =
        ap (λ d. d.mailbox_emails) same in
      let row = λ (a : ℕ) (b : ℕ).
        ap (λ r. has_row r a b) (sym rows) ∙ has_row-append db.mailbox_emails a b m e.id in
      record {
        same_emails = ih.same_emails ∙ ap (λ d. d.emails) (sym same);
        old_rows = λ a b r. ih.old_rows a b (ground (arith, row a b, r));
        new_rows = λ b r. elim (Bool-cases (e.id == b)) [
          | inl q ↦ ih.old_rows m b (ground (arith, row m b, q))
          | inr q ↦ ih.new_rows b (ground (arith, q, r))
        ];
        other_ids = λ x n.
            ih.other_ids x n
            ∙ ap (ids_of x) (sym rows)
            ∙ ids_of-append x m e.id db.mailbox_emails n;
      }
]

pub has_email-select :
    (es : List Email) (p : ℕ → Bool) (b : ℕ)
    → has_email (select_from es λ e. p e.id) b ≡ has_email es b && p b
unfolding has_email select_from
has_email-select [] p b = refl
has_email-select (e ∷ es) p b = elim (Bool-cases (e.id == b)) [
  | inl q ↦
      let s : e.id ≡ b = (==_iff e.id b).0 q in
      elim (Bool-cases (p e.id)) [
        | inl x ↦ let y : p b ≡ true = ap p (sym s) ∙ x in rw (x, q, y) refl
        | inr x ↦
            let y : p b ≡ false = ap p (sym s) ∙ x in
            rw (x, q, y) (has_email-select es p b ∙ ground (arith, y))
      ]
  | inr q ↦ elim (Bool-cases (p e.id)) [
    | inl x ↦ rw (x, q) (has_email-select es p b)
    | inr x ↦ rw (x, q) (has_email-select es p b)
  ]
]
