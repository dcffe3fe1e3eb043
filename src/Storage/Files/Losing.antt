-- ===== src/Storage/Files/Losing.antt =====
-- storage/store/email.go, storage/email.go: emails that are written to one file and looked for in
-- another.
use atmail.Prelude.{
  ℕ, zero, suc, ◌≤◌, ◌<◌, ◌≡◌, refl, ap, sym, ◌∙◌, Bool, false, none, some, List, [], ◌∷◌, ◌++◌,
  ltb, is_empty, length, drop, Text, eq_text, eq_text_iff, eq_text_self, lookup, insert,
  lookup-insert, Bool-cases, inl, inr, arith,
}
use atmail.Storage.Format
use atmail.Storage.Format.{
  Gzip, max_file_size, flags, header, read, read_header, write_email, write_at, delete_at,
  mark_first,
}
use atmail.Storage.Files.{
  Email, Store, max_email_size_in_file, wrap32, open_file, open_and_write, updated, store_email,
  read_email,
}
use atmail.Storage.Files.Keeping.{bytes_of}

drop-all : (n : ℕ) (xs : Text) → length xs ≤ n → drop n xs ≡ []
drop-all zero [] h = refl
drop-all (suc n) [] h = refl
drop-all zero (x ∷ xs) h = ground (arith, h)
drop-all (suc n) (x ∷ xs) h = drop-all n xs (omega (arith, h))

-- Nothing is read past the end of a file.
pub read-end :
    (gzip : Gzip) (file : Text) (place : ℕ)
    → length file ≤ place
    → read gzip file place ≡ Format.failed
unfolding read read_header
read-end gzip file place h = rw (drop-all place file h) refl

pub eq_text-other : (s t : Text) → ¬ (s ≡ t) → eq_text s t ≡ false
eq_text-other s t n = elim (Bool-cases (eq_text s t)) [
  | inl e ↦ absurd (n ((eq_text_iff s t).0 e))
  | inr e ↦ e
]

pub read_email-found :
    (gzip : Gzip) (s : Store) (e : Email) (file : Text)
    → lookup e.filename s.files ≡ some file
    → e.offset < 4294967296
    → read_email gzip s e ≡ read gzip file e.offset
unfolding read_email
read_email-found gzip s e file p l =
    let w : wrap32 e.offset ≡ e.offset = omega (arith, l) in rw (p, w) refl

pub lookup-insert_same :
    (name c : Text) (files : List (Text × Text)) → lookup name (insert name c files) ≡ some c
lookup-insert_same name c files = rw (lookup-insert name name c files, eq_text_self name) refl

-- A file under another name is found as before.
lookup-insert_other :
    (now name : Text) (c : Text) (files : List (Text × Text))
    → lookup now files ≡ none
    → ¬ (lookup name files ≡ none)
    → lookup name (insert now c files) ≡ lookup name files
lookup-insert_other now name c files f n =
    rw
      (
        lookup-insert now name c files,
        eq_text-other now name λ q. n (ap (λ k. lookup k files) (sym q) ∙ f),
      )
      refl

-- The store after a large email.
large_stored : Gzip → Text → ℕ → Bool → Text → Store → Store
large_stored gzip now id encrypted b s = record {
  files = insert now (write_at 0 (bytes_of gzip encrypted b) []) s.files;
  meta =
      updated
        (record { name = now; place = 0; last_file = s.meta.last_file; offset = s.meta.offset })
        (length (bytes_of gzip encrypted b));
  emails = s.emails ++ record { id = id; filename = s.meta.last_file; offset = s.meta.offset } ∷ [];
}

store_email-large :
    (gzip : Gzip) (s : Store) (now : Text) (id : ℕ) (encrypted : Bool) (b : Text)
    → is_empty s.meta.last_file ≡ false
    → lookup now s.files ≡ none
    → max_email_size_in_file ≤ length b
    → store_email gzip now (some id) encrypted b s
      ≡ (large_stored gzip now id encrypted b s, some id)
unfolding store_email open_and_write open_file write_email bytes_of large_stored
store_email-large gzip s now id encrypted b v f l =
    let large : ltb (length b) max_email_size_in_file ≡ false = ground (arith, l) in
    rw (large, v, f) refl

-- Where the last file ends at the end of the emails, an email of 5 MiB or more is stored without an
-- error, and its row is one that cannot be read.
pub read_email-large :
    (gzip : Gzip) (s : Store) (now last : Text) (id : ℕ) (encrypted : Bool) (b : Text)
    → is_empty s.meta.last_file ≡ false
    → lookup s.meta.last_file s.files ≡ some last
    → length last ≤ s.meta.offset
    → s.meta.offset < 4294967296
    → lookup now s.files ≡ none
    → max_email_size_in_file ≤ length b
    → (e : Email) × (((store_email gzip now (some id) encrypted b s).1 ≡ some id)
        × (((store_email gzip now (some id) encrypted b s).0.emails ≡ s.emails ++ e ∷ [])
            × (read_email gzip (store_email gzip now (some id) encrypted b s).0 e ≡ Format.failed)))
unfolding large_stored
read_email-large gzip s now last id encrypted b v p m w f l =
    let e : Email = record { id = id; filename = s.meta.last_file; offset = s.meta.offset } in
    let c = write_at 0 (bytes_of gzip encrypted b) [] in
    let found = lookup-insert_other now s.meta.last_file c s.files f (λ q. cc) ∙ p in
    rw (store_email-large gzip s now id encrypted b v f l) (
      e,
      (
        refl,
        (
          refl,
          read_email-found gzip (large_stored gzip now id encrypted b s) e last found w
              ∙ read-end gzip last s.meta.offset m,
        ),
      ),
    )
