-- ===== src/Storage/Files/Tests.antt =====
-- storage/email.go: the theorems on a small directory.
use atmail.Prelude.{◌≡◌, refl, true, false, none, some, [], ◌∷◌, ◌++◌, arith, text, lookup, inr}
use atmail.Storage.Format
use atmail.Storage.Format.{Gzip, flags, header, zeros, compress_bigger_than}
use atmail.Storage.Files.{Email, store_email, read_email}
use atmail.Storage.Files.Examples.{stored, file, store}
use atmail.Storage.Files.Keeping.{bytes_of}
use atmail.Storage.Files.Runs.{Request, run, run_all, Runnable, read_email-run_all}

-- A call that fails after the write.
abbrev failing : Request
failing = record { now = text "4"; commit = none; encrypted = false; content = text "bye" }

read_email-run_all_example :
    (e : Email) × (((store_email stored (text "3") (some 3) true (text "hello") store).1 ≡ some 3)
      × (((store_email stored (text "3") (some 3) true (text "hello") store).0.emails
            ≡ store.emails ++ e ∷ [])
          × (read_email stored
                (run_all stored
                  (failing ∷ [])
                  (store_email stored (text "3") (some 3) true (text "hello") store).0)
                e
              ≡ Format.email (text "hello") (flags false true))))
unfolding Runnable run store_email bytes_of lookup
read_email-run_all_example =
    read_email-run_all stored store (text "3") 3 true (text "hello") (failing ∷ [])
      (inr (file, refl)) (omega arith) (refl, (omega arith, (refl, (omega arith, tt)))) refl
      (omega arith)
