-- ===== src/Storage/Files/Keeping.antt =====
-- storage/email.go: what is stored stays where it is while more is stored.
use atmail.Prelude.{
  ℕ, zero, suc, ◌+◌, ◌≤◌, ◌<◌, ◌≡◌, refl, ap, sym, ◌∙◌, ◌⊎◌, Bool, Option, none, some, List, [],
  ◌∷◌, ◌++◌, if◌then◌else◌, leb, ltb, is_empty, length, take, drop, Text, eq_text, eq_text_iff,
  lookup, insert, lookup-insert, Bool-cases, inl, inr, arith, not, ◌&&◌,
}
use atmail.Storage.Format.{
  Gzip, max_file_size, compress_bigger_than, flags, header, write_email, write_at,
}
use atmail.Storage.Format.Cycle.{take-drop-write_at}
use atmail.Storage.Files.{
  Email, Meta, Files, Store, Opened, max_email_size_in_file, open_last, open_new, open_file,
  content_of, write_in, open_and_write, updated, recorded, record_email, store_email,
}

-- The bytes of an email in a file, and what they hold after the header.
abbrev pub body_of : Gzip → Text → Text
body_of gzip b = if leb compress_bigger_than (length b) then gzip.pack b else b

unfoldable pub bytes_of : Gzip → Bool → Text → Text
unfolding flags header
bytes_of gzip encrypted b =
    header (flags (leb compress_bigger_than (length b)) encrypted) (length (body_of gzip b))
    ++ body_of gzip b

-- The bytes stand at the place of the email's row, and in the last file they stand before the end.
pub record Kept (s : Store) (e : Email) (bytes : Text) : Type 0 where
  pub file : Text
  pub found : lookup e.filename s.files ≡ some file
  pub there : take (length bytes) (drop e.offset file) ≡ bytes
  pub ends : e.filename ≡ s.meta.last_file → e.offset + length bytes ≤ s.meta.offset

-- What is opened is a new file, or the last one at its end, and so is what is recorded.
pub data Opening (s : Store) (now : Text) : Option Opened → Type 0 where
  refused : Opening s now none
  opened :
      (o : Opened)
      → (o.name ≡ now) ⊎ ((o.name ≡ s.meta.last_file) × (o.place ≡ s.meta.offset))
      → (o.last_file ≡ now) ⊎ ((o.last_file ≡ s.meta.last_file) × (o.offset ≡ s.meta.offset))
      → Opening s now (some o)

Opening-last :
    (s : Store) (now : Text) (o : Option Text)
    → Opening s now (open_last now s.meta.last_file s.meta.offset o)
Opening-last s now none = refused
Opening-last s now (some c) = elim (Bool-cases (leb max_file_size (length c))) [
  | inl e ↦ opened _ (inl (rw e refl)) (inl (rw e refl))
  | inr e ↦ opened _ (inr (rw e refl, refl)) (inr (rw e refl, refl))
]

Opening-new : (s : Store) (now : Text) → Opening s now (open_new now s.meta.last_file s.meta.offset)
Opening-new s now = elim (Bool-cases (is_empty s.meta.last_file)) [
  | inl e ↦ opened _ (inl refl) (inl (rw e refl))
  | inr e ↦ opened _ (inl refl) (inr (rw e refl, rw e refl))
]

pub Opening-open_file :
    (s : Store) (now b : Text)
    → Opening s now (open_file now s.files s.meta.last_file s.meta.offset b)
unfolding open_file
Opening-open_file s now b =
    elim (Bool-cases (ltb (length b) max_email_size_in_file && not (is_empty s.meta.last_file)))
      as (λ _. Opening s now (open_file now s.files s.meta.last_file s.meta.offset b)) [
        | inl e ↦ rw (open_file, e) (Opening-last s now (lookup s.meta.last_file s.files))
        | inr e ↦ rw (open_file, e) (Opening-new s now)
      ]

found-insert :
    (e : Email) (bytes name c : Text) (files : Files) (file : Text)
    → lookup e.filename files ≡ some file
    → take (length bytes) (drop e.offset file) ≡ bytes
    → (name ≡ e.filename → take (length bytes) (drop e.offset c) ≡ bytes)
    → (f : Text) × ((lookup e.filename (insert name c files) ≡ some f)
        × (take (length bytes) (drop e.offset f) ≡ bytes))
found-insert e bytes name c files file l t h = elim (Bool-cases (eq_text name e.filename)) [
  | inl q ↦ (
    c,
    (rw (lookup-insert name e.filename c files, q) refl, h ((eq_text_iff name e.filename).0 q)),
  )
  | inr q ↦ (file, (rw (lookup-insert name e.filename c files, q) l, t))
]

length-take_le : (n : ℕ) (xs : Text) → length (take n xs) ≤ length xs
length-take_le zero xs = omega arith
length-take_le (suc n) [] = omega arith
length-take_le (suc n) (x ∷ xs) = omega (arith, length-take_le n xs)

-- What is cut out of a file and is not short stands in it.
pub long : (n o : ℕ) (xs : Text) → 1 ≤ n → length (take n (drop o xs)) ≡ n → o + n ≤ length xs
long n zero xs h e = omega (arith, length-take_le n xs, e)
long (suc n) (suc o) [] h e = ground (arith, e)
long (suc n) (suc o) (x ∷ xs) h e = omega (arith, long (suc n) o xs h e)
long zero (suc o) xs h e = ground (arith, h)

-- Bytes before the place of a write stay.
pub stays :
    (bytes new file : Text) (o place : ℕ)
    → take (length bytes) (drop o file) ≡ bytes
    → o + length bytes ≤ place
    → take (length bytes) (drop o (write_at place new file)) ≡ bytes
stays [] new file o place t h = refl
stays (x ∷ bytes) new file o place t h =
    take-drop-write_at o (length (x ∷ bytes)) place new file h
      (long (length (x ∷ bytes)) o file (omega arith) (ap length t))
    ∙ t

-- A file that holds the bytes where they were, after a write to what was opened or without one.
module _ (s : Store) (now : Text) (fresh : lookup now s.files ≡ none) (e : Email) (bytes : Text)
    (k : Kept s e bytes) where
  elsewhere : (name : Text) → name ≡ now → ¬ (name ≡ e.filename)
  elsewhere name p q =
      let r : lookup e.filename s.files ≡ none = ap (λ n. lookup n s.files) (sym q ∙ p) ∙ fresh in
      let f = k.found in cc

  in_place :
      (o : Opened)
      → (o.name ≡ now) ⊎ ((o.name ≡ s.meta.last_file) × (o.place ≡ s.meta.offset))
      → o.name ≡ e.filename
      → e.offset + length bytes ≤ o.place
  in_place o (inl p) q = absurd (elsewhere o.name p q)
  in_place o (inr (p, r)) q = omega (arith, k.ends (sym q ∙ p), r)

  -- What the file is when it is opened.
  content : (o : Opened) → o.name ≡ e.filename → content_of (lookup o.name s.files) ≡ k.file
  content o q = ap (λ n. content_of (lookup n s.files)) q ∙ ap content_of k.found

  untouched :
      (o : Opened)
      → o.name ≡ e.filename
      → take (length bytes) (drop e.offset (content_of (lookup o.name s.files))) ≡ bytes
  untouched o q = ap (λ f. take (length bytes) (drop e.offset f)) (content o q) ∙ k.there

  -- The end of the emails, where there is a new one of this length.
  ends_after :
      (o : Opened) (n : ℕ)
      → (o.last_file ≡ now) ⊎ ((o.last_file ≡ s.meta.last_file) × (o.offset ≡ s.meta.offset))
      → s.meta.offset + n < 4294967296
      → e.filename ≡ (updated o n).last_file
      → e.offset + length bytes ≤ (updated o n).offset
  ends_after o n (inl p) l q = absurd (elsewhere o.last_file p (sym q))
  ends_after o n (inr (p, r)) l q = omega (arith, k.ends (q ∙ p), r, l)

  -- The bytes in the files after a write, of which the end of the emails is given.
  Kept-insert :
      (name c : Text) (m : Meta) (es : List Email)
      → (name ≡ e.filename → take (length bytes) (drop e.offset c) ≡ bytes)
      → (e.filename ≡ m.last_file → e.offset + length bytes ≤ m.offset)
      → Kept (record { files = insert name c s.files; meta = m; emails = es }) e bytes
  Kept-insert name c m es h d =
      let (f, (l, t)) = found-insert e bytes name c s.files k.file k.found k.there h in
      record { file = f; found = l; there = t; ends = d }

  Kept-recorded :
      (o : Opened) (c : Text) (n : ℕ) (commit : Option ℕ)
      → (o.name ≡ e.filename → take (length bytes) (drop e.offset c) ≡ bytes)
      → (e.filename ≡ (updated o n).last_file → e.offset + length bytes ≤ (updated o n).offset)
      → Kept (recorded s o (insert o.name c s.files) n commit).0 e bytes
  Kept-recorded o c n none h d = Kept-insert o.name c s.meta s.emails h k.ends
  Kept-recorded o c n (some id) h d =
      Kept-insert o.name c (updated o n)
        (s.emails ++ record { id = id; filename = o.last_file; offset = o.offset } ∷ []) h d

  Kept-record :
      (gzip : Gzip) (encrypted : Bool) (b : Text) (commit : Option ℕ) (o : Option Opened)
      → s.meta.offset + length (bytes_of gzip encrypted b) < 4294967296
      → Opening s now o
      → Kept (record_email s commit (write_in gzip encrypted b s.files o)).0 e bytes
  unfolding write_email bytes_of
  Kept-record gzip encrypted b commit none l refused = k
  Kept-record gzip encrypted b commit (some o) l (opened _ p q) =
      let file = content_of (lookup o.name s.files) in
      elim (Bool-cases (leb max_file_size (length file))) [
        | inl x ↦ rw (write_email, x) (Kept-insert o.name file s.meta s.emails (untouched o) k.ends)
        | inr x ↦
            let new = bytes_of gzip encrypted b in
            rw (write_email, x)
              (Kept-recorded o (write_at o.place new file) (length new) commit
                (λ r. stays bytes new file e.offset o.place (untouched o r) (in_place o p r))
                (ends_after o (length new) q l))
      ]

  -- Whatever becomes of an email that is stored, the bytes of another one are kept.
  pub store_email-Kept :
      (gzip : Gzip) (encrypted : Bool) (b : Text) (commit : Option ℕ)
      → s.meta.offset + length (bytes_of gzip encrypted b) < 4294967296
      → Kept (store_email gzip now commit encrypted b s).0 e bytes
  unfolding store_email open_and_write
  store_email-Kept gzip encrypted b commit l =
      Kept-record gzip encrypted b commit (open_file now s.files s.meta.last_file s.meta.offset b) l
        (Opening-open_file s now b)
