-- ===== src/Storage/Tests.antt =====
-- storage/: the theorems on a small file.
use atmail.Prelude.{ℕ, ◌≡◌, refl, true, some, [], ◌∷◌, arith, Text, text}
use atmail.Storage.Format.{Gzip, email, flags, read, write_email}
use atmail.Storage.Format.Cycle.{read-write_email}

-- A compression that stores.
abbrev stored : Gzip
stored = record { pack = λ t. t; unpack = some }

-- A file with one email.
abbrev file : Text
file = 4 ∷ 0 ∷ 0 ∷ 0 ∷ 2 ∷ 104 ∷ 105 ∷ []

read-write_email_example :
    (r : Text × ℕ) × ((write_email stored true (text "hello") 7 file ≡ some r)
      × (read stored (r.0) 7 ≡ email (text "hello") 4))
unfolding flags
read-write_email_example =
    read-write_email stored true (text "hello") 7 file (omega arith) refl (omega arith)

-- A file with two emails, and the same with the first one deleted.
abbrev two : Text
two = 4 ∷ 0 ∷ 0 ∷ 0 ∷ 0 ∷ 0 ∷ 0 ∷ 0 ∷ 0 ∷ 1 ∷ 104 ∷ []

abbrev one : Text
one = 5 ∷ 0 ∷ 0 ∷ 0 ∷ 0 ∷ 0 ∷ 0 ∷ 0 ∷ 0 ∷ 1 ∷ 104 ∷ []
