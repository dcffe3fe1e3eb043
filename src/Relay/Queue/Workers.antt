-- ===== src/Relay/Queue/Workers.antt =====
-- relay/queue.go: the loop that starts a sender for each email, and the goroutines around it.
pub mod Tokens
pub mod Draining
mod Tests
use atmail.Prelude.{ℕ, zero, suc, ◌+◌, ◌<◌, ◌≡◌, Bool, true, false, List, [], ◌∷◌, ◌++◌, length}
use atmail.Relay.Queue.{Relayed, After, delivered, given_up, retry, send}

-- An email in the queue: the model keeps its number, and MustWait.
pub record Enqueued : Type 0 where
  pub number : ℕ
  pub must_wait : ℕ

-- The channel `ok` by its tokens and the channel `sender` by its content; whether the loop holds a
-- token; and the emails of the goroutines: those that wait to write to `sender`, those in `send`, and
-- those that sleep before a retry.
pub record Queue : Type 0 where
  pub tokens : ℕ
  pub holding : Bool
  pub buffer : List Enqueued
  pub writers : List Enqueued
  pub running : List Enqueued
  pub sleeping : List Enqueued

-- The capacity of the channel `sender`.
abbrev pub capacity : ℕ
capacity = 2

-- `NewQueue`.
unfoldable pub new_queue : ℕ → Queue
new_queue concurrent = record {
  tokens = concurrent;
  holding = false;
  buffer = [];
  writers = [];
  running = [];
  sleeping = [];
}

-- `Enqueue`: a goroutine that writes the email.
unfoldable pub enqueue : ℕ → Queue → Queue
enqueue n q = record q { writers = record { number = n; must_wait = 0 } ∷ q.writers }

-- The element is taken out of the list.
pub data Taken {A : Type 0} (a : A) : List A → List A → Type 0 where
  here : {xs : List A} → Taken a (a ∷ xs) xs
  there : {b : A} {xs ys : List A} → Taken a xs ys → Taken a (b ∷ xs) (b ∷ ys)

-- The end of `send`, with the deferred write of the token: the email is done with, or sleeps.
unfoldable pub after_send : Enqueued → After → Queue → Queue
after_send e delivered q = record q { tokens = suc q.tokens }
after_send e given_up q = record q { tokens = suc q.tokens }
after_send e (retry w) q = record q {
  tokens = suc q.tokens;
  sleeping = record e { must_wait = w } ∷ q.sleeping;
}

-- A step of the queue's goroutines, in any order, while the context is not done.
pub data Step (q : Queue) : Queue → Type 0 where
  write :
      (e : Enqueued) (es : List Enqueued)
      → Taken e q.writers es
      → length q.buffer < capacity
      → Step q (record q { writers = es; buffer = q.buffer ++ e ∷ [] })
  take_token :
      (n : ℕ)
      → q.holding ≡ false
      → q.tokens ≡ suc n
      → Step q (record q { tokens = n; holding = true })
  take_email :
      (e : Enqueued) (es : List Enqueued)
      → q.holding ≡ true
      → q.buffer ≡ e ∷ es
      → Step q (record q { holding = false; buffer = es; running = e ∷ q.running })
  finish :
      (e : Enqueued) (es : List Enqueued) (r : Relayed)
      → Taken e q.running es
      → Step q (after_send e (send r e.must_wait) (record q { running = es }))
  wake :
      (e : Enqueued) (es : List Enqueued)
      → Taken e q.sleeping es
      → Step q (record q { sleeping = es; writers = e ∷ q.writers })

-- A run: the calls of `Enqueue`, and steps.
pub data Reach (concurrent : ℕ) : Queue → Type 0 where
  start : Reach concurrent (new_queue concurrent)
  called : {q : Queue} (n : ℕ) → Reach concurrent q → Reach concurrent (enqueue n q)
  stepped : {q r : Queue} → Reach concurrent q → Step q r → Reach concurrent r
