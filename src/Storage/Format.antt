-- ===== src/Storage/Format.antt =====
-- storage/store/format.go: the format of the emails in a file.
pub mod Cycle
use atmail.Prelude.{
  ℕ, zero, suc, ◌+◌, ◌-◌, ◌*◌, ◌/◌, ◌%◌, Bool, Option, none, some, List, [], ◌∷◌, ◌++◌, ◌==◌, leb,
  if◌then◌else◌, length, take, drop, Text,
}

-- gzip: `pack` is what a writer of level 5 makes of a text, and `unpack` is what a reader gives, none
-- for an error.
pub record Gzip : Type 0 where
  pub pack : Text → Text
  pub unpack : Text → Option Text

abbrev pub max_file_size : ℕ
max_file_size = 20971520

abbrev pub compress_bigger_than : ℕ
compress_bigger_than = 1024

-- The tests of the bits EmailDeleted and EmailCompressed of the first byte.
unfoldable pub is_deleted : ℕ → Bool
is_deleted h = h % 2 == 1

unfoldable pub is_compressed : ℕ → Bool
is_compressed h = h / 2 % 2 == 1

-- The first byte: the bits of the compression and of EmailEncrypted.
unfoldable pub flags : Bool → Bool → ℕ
flags compressed encrypted = (if compressed then 2 else 0) + (if encrypted then 4 else 0)

-- binary.BigEndian.AppendUint32 after the first byte, on uint32(n).
unfoldable pub header : ℕ → ℕ → Text
header h n = h ∷ n / 16777216 % 256 ∷ n / 65536 % 256 ∷ n / 256 % 256 ∷ n % 256 ∷ []

-- binary.BigEndian.Uint32.
unfoldable pub uint32 : ℕ → ℕ → ℕ → ℕ → ℕ
uint32 a b c d = a * 16777216 + b * 65536 + c * 256 + d

-- What is read at a place: an error where there is no whole header, no reader for a deleted email, the
-- email with its first byte, or an error of gzip.
pub data Read : Type 0 where
  failed deleted broken : Read
  email : Text → ℕ → Read

abbrev pub unpacked : ℕ → Option Text → Read
unpacked h none = broken
unpacked h (some t) = email t h

unfoldable pub read_body : Gzip → ℕ → Text → Read
unfolding is_compressed
read_body gzip h body = if is_compressed h then unpacked h (gzip.unpack body) else email body h

unfoldable pub read_header : Gzip → Text → Read
unfolding is_deleted uint32 read_body
read_header gzip (h ∷ a ∷ b ∷ c ∷ d ∷ rest) =
    if is_deleted h then deleted else read_body gzip h (take (uint32 a b c d) rest)
read_header gzip _ = failed

-- `Reader` at an offset, read to its end.
unfoldable pub read : Gzip → Text → ℕ → Read
unfolding read_header
read gzip file offset = read_header gzip (drop offset file)

-- The bytes of a hole.
unfoldable pub zeros : ℕ → Text
zeros zero = []
zeros (suc n) = 0 ∷ zeros n

-- Writing over what stands at a place of a file, and past its end, where a hole is left before the
-- place.
unfoldable pub write_at : ℕ → Text → Text → Text
unfolding zeros
write_at place bytes file =
    take place file ++ (zeros (place - length file) ++ (bytes ++ drop (place + length bytes) file))

-- `WriteEmail` at the place of the file: the file and the number of bytes, or none for a full file.
unfoldable pub write_email : Gzip → Bool → Text → ℕ → Text → Option (Text × ℕ)
unfolding flags header write_at
write_email gzip encrypted b place file =
    let compressed = leb compress_bigger_than (length b) in
    let body = if compressed then gzip.pack b else b in
    let bytes = header (flags compressed encrypted) (length body) ++ body in
    if leb max_file_size (length file) then none else some (write_at place bytes file, length bytes)

-- data[0] |= EmailDeleted.
unfoldable pub mark : ℕ → ℕ
unfolding is_deleted
mark h = if is_deleted h then h else h + 1

abbrev pub mark_first : Text → Option Text
unfolding mark
mark_first [] = none
mark_first (h ∷ rest) = some (mark h ∷ rest)

-- `DeleteEmailAt`: none where there is no byte to read.
unfoldable pub delete_at : Text → ℕ → Option Text
unfolding mark
delete_at file offset = elim (mark_first (drop offset file)) [
  | none ↦ none
  | some rest ↦ some (take offset file ++ rest)
]
