-- ===== src/Mailbox.antt =====
-- mailbox/view.go: a mailbox with those that wait for its changes.
pub mod Counts
mod Tests
use atmail.Prelude.{
  ℕ, ◌+◌, ◌%◌, ◌==◌, Bool, true, false, Option, none, some, List, [], ◌∷◌, if◌then◌else◌, Text,
}

-- What is written to a client.
pub data Update : Type 0 where
  num_messages expunge : ℕ → Update
  mailbox_flags : List Text → Update
  message_flags : ℕ → ℕ → List Text → Update

-- `View`, with its writers by numbers, in the order of an iteration over them.
pub record View : Type 0 where
  pub id : ℕ
  pub name : Text
  pub count : ℕ
  pub writers : List ℕ

-- `NewView`.
unfoldable pub new_view : ℕ → Text → ℕ → View
new_view id name count = record { id = id; name = name; count = count; writers = [] }

unfoldable pub delete : ℕ → List ℕ → List ℕ
delete w [] = []
delete w (v ∷ vs) = let rest = delete w vs in if v == w then rest else v ∷ rest

-- The beginning and the end of `Idle`.
unfoldable pub enter : ℕ → View → View
unfolding delete
enter w v = record v { writers = w ∷ delete w v.writers }

unfoldable pub leave : ℕ → View → View
unfolding delete
leave w v = record v { writers = delete w v.writers }

-- Who was written to and what, and the writer that failed, which gets its error.
pub record Written : Type 0 where
  pub updates : List (ℕ × Update)
  pub failed : Option ℕ

-- Whether writing to a writer fails, and what comes before the rest.
module _ (fails : ℕ → Update → Bool) where
  abbrev pub before : ℕ → Update → Written → Written
  before w u r = record r { updates = (w, u) ∷ r.updates }

  -- The loop of `WriteExpunge`, `WriteMailboxFlags` and `WriteMessageFlags`.
  unfoldable pub write_each : Update → List ℕ → Written
  write_each u [] = record { updates = []; failed = none }
  write_each u (w ∷ ws) =
      let rest = write_each u ws in
      if fails w u then record { updates = []; failed = some w } else before w u rest

  unfoldable pub write_expunge : ℕ → View → Written
  unfolding write_each
  write_expunge seq v = write_each (expunge seq) v.writers

  unfoldable pub write_mailbox_flags : List Text → View → Written
  unfolding write_each
  write_mailbox_flags flags v = write_each (mailbox_flags flags) v.writers

  unfoldable pub write_message_flags : ℕ → ℕ → List Text → View → Written
  unfolding write_each
  write_message_flags id seq flags v = write_each (message_flags seq id flags) v.writers

  -- The loop of `WriteNewMessages`: v.Count.Add(n) stands in it.
  unfoldable pub write_counts : ℕ → ℕ → List ℕ → ℕ × Written
  write_counts n count [] = (count, record { updates = []; failed = none })
  write_counts n count (w ∷ ws) =
      let next = (count + n) % 4294967296 in
      let (last, rest) = write_counts n next ws in
      if fails w (num_messages next)
      then (next, record { updates = []; failed = some w })
      else (last, before w (num_messages next) rest)

  -- `WriteNewMessages`.
  unfoldable pub write_new_messages : ℕ → View → View × Written
  unfolding write_counts
  write_new_messages n v =
      let (count, r) = write_counts n v.count v.writers in (record v { count = count }, r)
