-- ===== src/Storage/Files/Examples.antt =====
-- storage/email.go: a small directory.
use atmail.Prelude.{some, [], ◌∷◌, Text, text}
use atmail.Storage.Format.{Gzip}
use atmail.Storage.Files.{Email, Store}

-- A compression that stores.
abbrev pub stored : Gzip
stored = record { pack = λ t. t; unpack = some }

-- A file with one encrypted email, and another one like it, that is the last.
abbrev pub file : Text
file = 4 ∷ 0 ∷ 0 ∷ 0 ∷ 2 ∷ 104 ∷ 105 ∷ []

abbrev pub one : Email
one = record { id = 1; filename = text "1"; offset = 0 }

abbrev pub two : Email
two = record { id = 2; filename = text "2"; offset = 0 }

abbrev pub store : Store
store = record {
  files = (text "1", file) ∷ (text "2", file) ∷ [];
  meta = record { last_file = text "2"; offset = 7 };
  emails = one ∷ two ∷ [];
}
