-- ===== src/Relay/Queue.antt =====
-- relay/queue.go: when an email that could not be sent is tried again.
pub mod Waits
pub mod Workers
use atmail.Prelude.{
  ℕ, zero, suc, ◌+◌, ◌/◌, max, Bool, true, false, Option, none, some, List, [], ◌∷◌, if◌then◌else◌,
  ltb, leb,
}

-- What `relayOutside` gives.
pub data Relayed : Type 0 where
  sent : Relayed
  dns_error : Bool → Relayed
  smtp_error : ℕ → Relayed
  unknown_error : Relayed

-- What `send` does after that: the email is done with, lost, or waits so many seconds for its next try.
pub data After : Type 0 where
  delivered given_up : After
  retry : ℕ → After

abbrev pub max_duration : ℕ
max_duration = 900

-- email.MustWait = max(email.MustWait, 3); email.MustWait += email.MustWait / 2.
unfoldable pub next_wait : ℕ → ℕ
next_wait w = max w 3 + max w 3 / 2

-- The goroutine at the end of `send`; MustWait is never negative.
unfoldable pub back_off : ℕ → After
unfolding next_wait
back_off w = if ltb max_duration w then given_up else retry (next_wait w)

-- `Queue.send`, for an email with this MustWait.
unfoldable pub send : Relayed → ℕ → After
unfolding back_off
send sent w = delivered
send (dns_error is_not_found) w = if is_not_found then given_up else back_off w
send (smtp_error code) w = if leb 500 code then given_up else back_off w
send unknown_error w = given_up

-- The life of an email in the queue, whose try `i` gives `attempt i`: how it ends and what it waited,
-- as far as the fuel goes.
pub data Fate : Type 0 where
  ended : After → List ℕ → Fate
  unfinished : Fate

abbrev pub waited : ℕ → Fate → Fate
waited w (ended a ws) = ended a (w ∷ ws)
waited w unfinished = unfinished

abbrev pub last : After → Fate
last delivered = ended delivered []
last given_up = ended given_up []
last (retry w) = unfinished

unfoldable pub live : ℕ → (ℕ → Relayed) → ℕ → ℕ → Fate
unfolding send
live zero attempt i w = last (send (attempt i) w)
live (suc fuel) attempt i w = elim (send (attempt i) w) [
  | delivered ↦ ended delivered []
  | given_up ↦ ended given_up []
  | retry v ↦ waited v (live fuel attempt (suc i) v)
]
