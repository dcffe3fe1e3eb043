-- ===== src/Storage/Cache/Tests.antt =====
-- storage/meta.go: the theorem on concrete emails.
use atmail.Prelude.{refl, arith, false, text, lookup}
use atmail.Storage.Format.{write_at}
use atmail.Storage.Files.Keeping.{bytes_of}
use atmail.Storage.Files.Examples.{stored, file, store}
use atmail.Storage.Cache.Restart.{Overwritten, crashed_after, store_email-restarted}

store_email-restarted_example :
    Overwritten stored store.meta 3
      (text "5")
      4
      false
      (text "bye")
      (crashed_after stored store (text "3") 3 false (text "hello"))
unfolding lookup bytes_of write_at
store_email-restarted_example =
    store_email-restarted stored store (text "3") (text "5") 3 4 false (text "hello") (text "bye")
      file refl refl (omega arith) (omega arith) (omega arith) (omega arith) (omega arith) refl
      (omega arith)
