-- ===== src/Storage/Format/Cycle.antt =====
-- storage/store/format.go: emails that are written, read and deleted.
use atmail.Prelude.{
  ℕ, zero, suc, ◌+◌, ◌-◌, ◌/◌, ◌%◌, ◌≤◌, ◌<◌, ◌≡◌, refl, ap, sym, ◌∙◌, Bool, true, false, none,
  some, List, [], ◌∷◌, ◌++◌, leb, if◌then◌else◌, length, take, drop, arith, Text,
}
use native.Mathlib.Numerals.{unary_clauses}
use atmail.Storage.Format.{
  zeros, Gzip, max_file_size, compress_bigger_than, is_deleted, is_compressed, flags, header,
  uint32, deleted, email, read_body, read_header, read, write_at, write_email, mark, delete_at,
  mark_first,
}

module _ {A : Type 0} where
  drop-take_append : (n : ℕ) (xs ys : List A) → n ≤ length xs → drop n (take n xs ++ ys) ≡ ys
  drop-take_append zero xs ys h = refl
  drop-take_append (suc n) [] ys h = ground (arith, h)
  drop-take_append (suc n) (x ∷ xs) ys h = drop-take_append n xs ys (omega (arith, h))

  pub take-length_append : (xs ys : List A) → take (length xs) (xs ++ ys) ≡ xs
  take-length_append [] ys = refl
  take-length_append (x ∷ xs) ys = ap (λ l. x ∷ l) (take-length_append xs ys)

drop-zeros : (n : ℕ) (ys : Text) → drop n (zeros n ++ ys) ≡ ys
unfolding zeros
drop-zeros zero ys = refl
drop-zeros (suc n) ys = drop-zeros n ys

-- Less is read of a file in front of a write.
take-drop-padded :
    (o n p : ℕ) (xs ys : Text)
    → o + n ≤ p
    → o + n ≤ length xs
    → take n (drop o (take p xs ++ ys)) ≡ take n (drop o xs)
take-drop-padded zero zero p xs ys h l = refl
take-drop-padded zero (suc n) zero xs ys h l = ground (arith, h)
take-drop-padded zero (suc n) (suc p) [] ys h l = ground (arith, l)
take-drop-padded zero (suc n) (suc p) (x ∷ xs) ys h l =
    ap (λ t. x ∷ t) (take-drop-padded zero n p xs ys (omega (arith, h)) (omega (arith, l)))
take-drop-padded (suc o) n zero xs ys h l = ground (arith, h)
take-drop-padded (suc o) n (suc p) [] ys h l = ground (arith, l)
take-drop-padded (suc o) n (suc p) (x ∷ xs) ys h l =
    take-drop-padded o n p xs ys (omega (arith, h)) (omega (arith, l))

-- What stands before the place of a write stays.
pub take-drop-write_at :
    (o n place : ℕ) (bytes file : Text)
    → o + n ≤ place
    → o + n ≤ length file
    → take n (drop o (write_at place bytes file)) ≡ take n (drop o file)
unfolding write_at
take-drop-write_at o n place bytes file h l =
    take-drop-padded o n place file
      (zeros (place - length file) ++ (bytes ++ drop (place + length bytes) file)) h l

drop-padded : (n : ℕ) (xs ys : Text) → drop n (take n xs ++ (zeros (n - length xs) ++ ys)) ≡ ys
unfolding zeros
drop-padded zero xs ys = let z : 0 - length xs ≡ 0 = omega arith in rw z refl
drop-padded (suc n) [] ys = simp unary_clauses (drop-zeros n ys)
drop-padded (suc n) (x ∷ xs) ys = simp unary_clauses (drop-padded n xs ys)

-- At a place that a write is at stand its bytes, and then what stood behind them.
pub drop-write_at :
    (place : ℕ) (bytes file : Text)
    → drop place (write_at place bytes file) ≡ bytes ++ drop (place + length bytes) file
unfolding write_at
drop-write_at place bytes file = drop-padded place file (bytes ++ drop (place + length bytes) file)

uint32-bytes :
    (n : ℕ)
    → n < 4294967296
    → uint32 (n / 16777216 % 256) (n / 65536 % 256) (n / 256 % 256) (n % 256) ≡ n
unfolding uint32
uint32-bytes n h = omega (arith, h)

is_deleted-flags : (c e : Bool) → is_deleted (flags c e) ≡ false
unfolding is_deleted flags
is_deleted-flags true true = refl
is_deleted-flags true false = refl
is_deleted-flags false true = refl
is_deleted-flags false false = refl

is_compressed-flags : (c e : Bool) → is_compressed (flags c e) ≡ c
unfolding is_compressed flags
is_compressed-flags true true = refl
is_compressed-flags true false = refl
is_compressed-flags false true = refl
is_compressed-flags false false = refl

-- What stands behind a header is read as the header says.
pub read_header-header :
    (gzip : Gzip) (c e : Bool) (body rest : Text)
    → length body < 4294967296
    → read_header gzip (header (flags c e) (length body) ++ body ++ rest)
      ≡ read_body gzip (flags c e) body
unfolding read_header header
read_header-header gzip c e body rest h =
    rw (is_deleted-flags c e, uint32-bytes (length body) h, take-length_append body rest) refl

pub read_body-pack :
    (gzip : Gzip) (c e : Bool) (b : Text)
    → gzip.unpack (gzip.pack b) ≡ some b
    → read_body gzip (flags c e) (if c then gzip.pack b else b) ≡ email b (flags c e)
unfolding read_body
read_body-pack gzip true e b g = rw (is_compressed-flags true e, g) refl
read_body-pack gzip false e b g = rw (is_compressed-flags false e) refl

-- An email that is written at a place of a file that is not full is written, and is read at that place
-- as it was, with its flags, also where the place is past the end of the file; gzip unpacks what it
-- packs of this email, and what is stored is shorter than 4 GiB.
pub read-write_email :
    (gzip : Gzip) (e : Bool) (b : Text) (place : ℕ) (file : Text)
    → length file < max_file_size
    → gzip.unpack (gzip.pack b) ≡ some b
    → length (if leb compress_bigger_than (length b) then gzip.pack b else b) < 4294967296
    → (r : Text × ℕ) × ((write_email gzip e b place file ≡ some r)
        × (read gzip (r.0) place ≡ email b (flags (leb compress_bigger_than (length b)) e)))
unfolding write_email read header
read-write_email gzip e b place file s g l =
    let c : Bool = leb compress_bigger_than (length b) in
    let body : Text = if c then gzip.pack b else b in
    let bytes : Text = header (flags c e) (length body) ++ body in
    let rest : Text = drop (place + length bytes) file in
    let room : leb max_file_size (length file) ≡ false = ground (arith, s) in
    (
      (write_at place bytes file, length bytes),
      (
        rw room refl,
        ap (read_header gzip) (drop-write_at place bytes file)
            ∙ read_header-header gzip c e body rest l
            ∙ read_body-pack gzip c e b g,
      ),
    )

is_deleted-mark : (h : ℕ) → is_deleted (mark h) ≡ true
unfolding is_deleted mark
is_deleted-mark h = ground arith

marked :
    (gzip : Gzip) (xs b : Text) (h : ℕ)
    → read_header gzip xs ≡ email b h
    → (ys : Text) × ((mark_first xs ≡ some ys) × (read_header gzip ys ≡ deleted))
unfolding read_header mark_first
marked gzip [] b h e = cc
marked gzip (_ ∷ []) b h e = cc
marked gzip (_ ∷ _ ∷ []) b h e = cc
marked gzip (_ ∷ _ ∷ _ ∷ []) b h e = cc
marked gzip (_ ∷ _ ∷ _ ∷ _ ∷ []) b h e = cc
marked gzip (f ∷ a ∷ i ∷ c ∷ d ∷ xs) b h e =
    (mark f ∷ a ∷ i ∷ c ∷ d ∷ xs, (refl, rw (is_deleted-mark f) refl))

-- An email that can be read at a place of a file is deleted there: then it is read as deleted.
pub read-delete_at :
    (gzip : Gzip) (file b : Text) (h place : ℕ)
    → place ≤ length file
    → read gzip file place ≡ email b h
    → (f : Text) × ((delete_at file place ≡ some f) × (read gzip f place ≡ deleted))
unfolding read delete_at
read-delete_at gzip file b h place p e =
    let (ys, (m, d)) = marked gzip (drop place file) b h e in
    (
      take place file ++ ys,
      (rw (delete_at, m) refl, ap (read_header gzip) (drop-take_append place file ys p) ∙ d),
    )

behind-drop :
    (n q : ℕ) (x y : ℕ) (xs ys : Text)
    → drop n xs ≡ x ∷ ys
    → n < q
    → drop q (take n xs ++ y ∷ ys) ≡ drop q xs
behind-drop zero zero x y xs ys h l = ground (arith, l)
behind-drop zero (suc q) x y xs ys h l = rw h refl
behind-drop (suc n) q x y [] ys h l = cc
behind-drop (suc n) zero x y (z ∷ xs) ys h l = ground (arith, l)
behind-drop (suc n) (suc q) x y (z ∷ xs) ys h l = behind-drop n q x y xs ys h (omega (arith, l))

behind :
    (file f : Text) (place q : ℕ) (xs : Text)
    → drop place file ≡ xs
    → (elim (mark_first xs) [ none ↦ none | some rest ↦ some (take place file ++ rest) ]) ≡ some f
    → place < q
    → drop q f ≡ drop q file
unfolding mark_first
behind file f place q [] h e l = cc
behind file f place q (x ∷ ys) h e l =
    let i : take place file ++ mark x ∷ ys ≡ f = cc in
    sym (ap (drop q) i) ∙ behind-drop place q x (mark x) file ys h l

-- What is read behind the place of a deletion is what was read there before.
pub read_behind-delete_at :
    (gzip : Gzip) (file f : Text) (place q : ℕ)
    → delete_at file place ≡ some f
    → place < q
    → read gzip f q ≡ read gzip file q
unfolding read delete_at
read_behind-delete_at gzip file f place q e l =
    ap (read_header gzip) (behind file f place q (drop place file) refl e l)
