-- ===== src/Display/Fetching/Marking.antt =====
-- display/session_selected.go: which emails Fetch marks as seen.
use atmail.Prelude.{
  ℕ, ◌≡◌, ◌∙◌, refl, sym, ap, arith, Bool, true, false, ◌&&◌, ◌||◌, ◌==◌, some, List, Text, All,
}
use atmail.Storage.Files.{Email}
use atmail.Storage.Database.{Database, has_row}
use atmail.Display.Fetching.{Fetching, reader, FetchOptions, seen_flag, marked}

absorbed : (a b : Bool) → (b ≡ true → a ≡ true) → a ≡ a || b
absorbed a true h = ground (arith, h refl)
absorbed a false h = ground arith

present :
    (rows : List (ℕ × ℕ)) (id x f : ℕ)
    → has_row rows id seen_flag ≡ true
    → has_row rows x f ≡ has_row rows x f || (f == seen_flag && id == x)
present rows id x f r = absorbed (has_row rows x f) (f == seen_flag && id == x) λ e.
    let p : f ≡ seen_flag = ground (arith, e) in
    let q : id ≡ x = ground (arith, e) in
    ap (has_row rows x) p ∙ ap (λ i. has_row rows i seen_flag) (sym q) ∙ r

module _ (env : Fetching) where
  open env use {read, writes_body, writes_binary, closes}

  -- The tables with an email that may be marked.
  record Marked (mark : Bool) (e : Email) (db : Database) : Type 0 where
    after : Database
    result : marked env mark e db ≡ some after
    emails : after.emails ≡ db.emails
    rows :
        (x f : ℕ)
        → has_row after.emails_flags x f
          ≡ has_row db.emails_flags x f || (mark && (f == seen_flag && e.id == x))

  -- Every email can be read to its end, and every write has no error.
  pub record Smooth : Type 0 where
    pub reads : (e : Email) → (t : Text) × (read e ≡ reader t true)
    pub bodies : (s : env.Section) (t : Text) → writes_body s t ≡ true
    pub binaries : (s : env.BinarySection) (t : Text) → writes_binary s t ≡ true
    pub closed : (e : Email) → closes e ≡ true

  -- No section that is asked for is peeked.
  pub record Unpeeked (o : FetchOptions env) : Type 0 where
    pub in_bodies : All (λ s. env.peek s ≡ false) o.body_section
    pub in_binaries : All (λ s. env.binary_peek s ≡ false) o.binary_section
