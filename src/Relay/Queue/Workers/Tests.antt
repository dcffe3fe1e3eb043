-- ===== src/Relay/Queue/Workers/Tests.antt =====
-- relay/queue.go: the theorems on a concrete queue.
use atmail.Prelude.{ℕ, ◌≤◌, ◌≡◌, refl, true, false, [], ◌∷◌, length, arith}
use atmail.Relay.Queue.{send, sent}
use atmail.Relay.Queue.Workers.{
  Enqueued, Queue, here, new_queue, enqueue, Step, write, take_token, take_email, finish, Reach,
  start, called, stepped, after_send,
}
use atmail.Relay.Queue.Workers.Tokens.{running-bound}
use atmail.Relay.Queue.Workers.Draining.{
  measure, IsIdle, Run, times_in, all_ended, occurrences, drains,
}

abbrev email : Enqueued
email = record { number = 7; must_wait = 0 }

-- One sender, that has taken the email.
abbrev written : Queue
written = record {
  tokens = 1;
  holding = false;
  buffer = email ∷ [];
  writers = [];
  running = [];
  sleeping = [];
}

abbrev holding : Queue
holding = record {
  tokens = 0;
  holding = true;
  buffer = email ∷ [];
  writers = [];
  running = [];
  sleeping = [];
}

abbrev busy : Queue
busy = record {
  tokens = 0;
  holding = false;
  buffer = [];
  writers = [];
  running = email ∷ [];
  sleeping = [];
}

Reach-written : Reach 1 written
unfolding new_queue enqueue
Reach-written = stepped (called 7 start) (write email [] here (ground arith))

Reach-busy : Reach 1 busy
Reach-busy =
    stepped (stepped Reach-written (take_token 0 refl refl)) (take_email email [] refl refl)

running-bound_example : (length busy.running ≤ 1) × (length busy.buffer ≤ 2)
running-bound_example = running-bound 1 busy Reach-busy

-- The queue after the email was sent and the loop has taken the token back.
abbrev waiting : Queue
waiting = record {
  tokens = 0;
  holding = true;
  buffer = [];
  writers = [];
  running = [];
  sleeping = [];
}

abbrev freed : Queue
freed = record {
  tokens = 1;
  holding = false;
  buffer = [];
  writers = [];
  running = [];
  sleeping = [];
}

sends : Step busy freed
unfolding send after_send
sends = finish email [] sent here

run : Run 2 busy waiting
unfolding send after_send
run = Run.more sends (Run.more (take_token 0 refl refl) Run.none)

drains_example :
    (2 ≤ measure busy)
    × (((t : Queue) → ¬ Step waiting t)
        → IsIdle waiting × ((m : ℕ) → occurrences m (all_ended run) ≡ times_in m busy))
drains_example = drains 1 2 busy waiting run (ground arith) Reach-busy
