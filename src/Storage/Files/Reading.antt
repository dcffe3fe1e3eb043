-- ===== src/Storage/Files/Reading.antt =====
-- storage/email.go: an email that is stored is read, also after more emails.
use atmail.Prelude.{
  ℕ, zero, suc, ◌+◌, ◌≤◌, ◌<◌, ◌≡◌, refl, ap, sym, ◌∙◌, ◌⊎◌, Bool, true, false, Option, none, some,
  [], ◌∷◌, ◌++◌, append_assoc, leb, ltb, is_empty, length, take, drop, Text, eq_text_self, lookup,
  lookup-insert, Bool-cases, inl, inr, arith, not, ◌&&◌,
}
use atmail.Storage.Format
use atmail.Storage.Format.{
  Gzip, Read, max_file_size, compress_bigger_than, flags, header, read, read_header, read_body,
  write_email, write_at,
}
use atmail.Storage.Format.Cycle.{
  drop-write_at, take-length_append, read_header-header, read_body-pack,
}
use atmail.Storage.Files.{
  Email, Store, Opened, max_email_size_in_file, wrap32, open_last, open_new, open_file, content_of,
  write_in, record_email, read_email,
}
use atmail.Storage.Files.Keeping.{body_of, bytes_of, Kept}

take-append-drop : (n : ℕ) (xs : Text) → xs ≡ take n xs ++ drop n xs
take-append-drop zero xs = refl
take-append-drop (suc n) [] = refl
take-append-drop (suc n) (x ∷ xs) = ap (λ t. x ∷ t) (take-append-drop n xs)

cut_out : (n : ℕ) (xs ys : Text) → take n xs ≡ ys → xs ≡ ys ++ drop n xs
cut_out n xs ys e = take-append-drop n xs ∙ ap (λ t. t ++ drop n xs) e

-- The bytes of an email are read as the email.
pub read-bytes_of :
    (gzip : Gzip) (encrypted : Bool) (b file : Text) (place : ℕ)
    → take (length (bytes_of gzip encrypted b)) (drop place file) ≡ bytes_of gzip encrypted b
    → gzip.unpack (gzip.pack b) ≡ some b
    → length (body_of gzip b) < 4294967296
    → read gzip file place ≡ Format.email b (flags (leb compress_bigger_than (length b)) encrypted)
unfolding read bytes_of
read-bytes_of gzip encrypted b file place t g l =
    let c = leb compress_bigger_than (length b) in
    let body = body_of gzip b in
    let bytes = bytes_of gzip encrypted b in
    let rest = drop (length bytes) (drop place file) in
    ap (read_header gzip) (
      cut_out (length bytes) (drop place file) bytes t
      ∙ append_assoc (header (flags c encrypted) (length body)) body rest)
    ∙ read_header-header gzip c encrypted body rest l
    ∙ read_body-pack gzip c encrypted b g

-- What was stored at the place of a row and is kept there is read.
pub read_email-Kept :
    (gzip : Gzip) (encrypted : Bool) (b : Text) (s : Store) (e : Email)
    → Kept s e (bytes_of gzip encrypted b)
    → e.offset < 4294967296
    → gzip.unpack (gzip.pack b) ≡ some b
    → length (body_of gzip b) < 4294967296
    → read_email gzip s e ≡ Format.email b (flags (leb compress_bigger_than (length b)) encrypted)
unfolding read_email
read_email-Kept gzip encrypted b s e k o g l =
    let w : wrap32 e.offset ≡ e.offset = omega (arith, o) in
    rw (k.found, w) (read-bytes_of gzip encrypted b k.file e.offset k.there g l)

-- A file with room is opened, under the name and at the place that are recorded.
pub data Room (s : Store) : Option Opened → Type 0 where
  room :
      (o : Opened)
      → o.name ≡ o.last_file
      → o.place ≡ o.offset
      → o.offset ≤ s.meta.offset
      → leb max_file_size (length (content_of (lookup o.name s.files))) ≡ false
      → Room s (some o)

Room-last :
    (s : Store) (now c : Text)
    → lookup now s.files ≡ none
    → lookup s.meta.last_file s.files ≡ some c
    → Room s (open_last now s.meta.last_file s.meta.offset (some c))
Room-last s now c f p = elim (Bool-cases (leb max_file_size (length c))) [
  | inl e ↦ room _ refl refl (omega arith) (rw (e, f) refl)
  | inr e ↦ room _ refl refl (omega arith) (rw (e, p) e)
]

Room-new :
    (s : Store) (now : Text)
    → lookup now s.files ≡ none
    → s.meta.last_file ≡ []
    → Room s (open_new now s.meta.last_file s.meta.offset)
Room-new s now f e = room _ (rw e refl) (rw e refl) (rw e (omega arith)) (rw f refl)

-- The last file is there, if there is one.
abbrev pub HasLast : Store → Type 0
HasLast s = (s.meta.last_file ≡ []) ⊎ ((c : Text) × (lookup s.meta.last_file s.files ≡ some c))

no_last : (t : Text) → is_empty t ≡ true → t ≡ []
no_last [] e = refl
no_last (x ∷ t) e = cc

Room-empty :
    (s : Store) (now b : Text)
    → lookup now s.files ≡ none
    → s.meta.last_file ≡ []
    → Room s (open_file now s.files s.meta.last_file s.meta.offset b)
unfolding open_file
Room-empty s now b f e =
    let t : (ltb (length b) max_email_size_in_file && not (is_empty s.meta.last_file)) ≡ false =
      rw e (ground arith) in
    rw (open_file, t) (Room-new s now f e)

Room-present :
    (s : Store) (now b : Text)
    → lookup now s.files ≡ none
    → length b < max_email_size_in_file
    → is_empty s.meta.last_file ≡ false
    → HasLast s
    → Room s (open_file now s.files s.meta.last_file s.meta.offset b)
unfolding open_file
Room-present s now b f l e (inl h) = let x : is_empty s.meta.last_file ≡ true = rw h refl in cc
Room-present s now b f l e (inr (c, p)) =
    let small : ltb (length b) max_email_size_in_file ≡ true = ground (arith, l) in
    rw (open_file, small, e, p) (Room-last s now c f p)

pub Room-open_file :
    (s : Store) (now b : Text)
    → lookup now s.files ≡ none
    → length b < max_email_size_in_file
    → HasLast s
    → Room s (open_file now s.files s.meta.last_file s.meta.offset b)
unfolding open_file
Room-open_file s now b f l h =
    elim (Bool-cases (is_empty s.meta.last_file))
      as (λ _. Room s (open_file now s.files s.meta.last_file s.meta.offset b)) [
        | inl e ↦ Room-empty s now b f (no_last s.meta.last_file e)
        | inr e ↦ Room-present s now b f l e h
      ]

-- The last email of the store, of which the bytes are kept.
pub record Added (s : Store) (bytes : Text) (id : ℕ) (r : Store × Option ℕ) : Type 0 where
  pub added : Email
  pub same : added.id ≡ id
  pub accepted : r.1 ≡ some id
  pub row : r.0.emails ≡ s.emails ++ added ∷ []
  pub place : added.offset ≤ s.meta.offset
  pub kept : Kept r.0 added bytes

pub Added-record :
    (gzip : Gzip) (encrypted : Bool) (b : Text) (id : ℕ) (s : Store) (o : Option Opened)
    → s.meta.offset + length (bytes_of gzip encrypted b) < 4294967296
    → Room s o
    → Added s
        (bytes_of gzip encrypted b)
        id
        (record_email s (some id) (write_in gzip encrypted b s.files o))
unfolding write_email bytes_of
Added-record gzip encrypted b id s none l r = elim r [ ]
Added-record gzip encrypted b id s (some o) l (room _ n p q x) =
    let bytes = bytes_of gzip encrypted b in
    let file = content_of (lookup o.name s.files) in
    rw (write_email, x)
      (record {
        added = record { id = id; filename = o.last_file; offset = o.offset };
        same = refl;
        accepted = refl;
        row = refl;
        place = q;
        kept = record {
          file = write_at o.place bytes file;
          found =
              rw
                (
                  lookup-insert o.name o.last_file (write_at o.place bytes file) s.files,
                  n,
                  eq_text_self o.last_file,
                )
                refl;
          there =
              ap (λ i. take (length bytes) (drop i (write_at o.place bytes file))) (sym p)
              ∙ ap (take (length bytes)) (drop-write_at o.place bytes file)
              ∙ take-length_append bytes (drop (o.place + length bytes) file);
          ends = λ _. omega (arith, l, q);
        };
      })
