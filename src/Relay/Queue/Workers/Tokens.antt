-- ===== src/Relay/Queue/Workers/Tokens.antt =====
-- relay/queue.go: the tokens bound the senders.
use atmail.Prelude.{
  ℕ, suc, ◌+◌, ◌≤◌, ◌≡◌, refl, ap, Bool, true, false, List, [], ◌∷◌, length, length-append, arith,
}
use atmail.Relay.Queue.{After, delivered, given_up, retry, send}
use atmail.Relay.Queue.Workers.{
  Enqueued, Queue, capacity, new_queue, enqueue, Taken, here, there, after_send, Step, write,
  take_token, take_email, finish, wake, Reach, start, called, stepped,
}

abbrev pub held : Bool → ℕ
held true = 1
held false = 0

-- Each token is in its channel, with the loop, or with a sender; and the channel of emails is within
-- its capacity.
pub record Inv (concurrent : ℕ) (q : Queue) : Type 0 where
  pub kept : q.tokens + held q.holding + length q.running ≡ concurrent
  pub fits : length q.buffer ≤ capacity

length-Taken : {e : Enqueued} {es fs : List Enqueued} → Taken e es fs → length es ≡ suc (length fs)
length-Taken here = refl
length-Taken (there t) = omega (arith, length-Taken t)

finished-Inv :
    (n : ℕ) (e : Enqueued) (a : After) (q : Queue)
    → suc (q.tokens + held q.holding + length q.running) ≡ n
    → length q.buffer ≤ capacity
    → Inv n (after_send e a q)
unfolding after_send
finished-Inv n e delivered q h f = record { kept = omega (arith, h); fits = f }
finished-Inv n e given_up q h f = record { kept = omega (arith, h); fits = f }
finished-Inv n e (retry w) q h f = record { kept = omega (arith, h); fits = f }

pub Step-Inv : {n : ℕ} {q r : Queue} → Inv n q → Step q r → Inv n r
Step-Inv {q = q} i (write e es t h) = record {
  kept = i.kept;
  fits = omega (arith, length-append q.buffer (e ∷ []), h);
}
Step-Inv {q = q} i (take_token n h k) = record {
  kept = ground (arith, i.kept, h, k);
  fits = i.fits;
}
Step-Inv {q = q} i (take_email e es h b) = record {
  kept = ground (arith, i.kept, h);
  fits = omega (arith, i.fits, ap length b);
}
Step-Inv {n} {q} i (finish e es r t) =
    finished-Inv n e (send r e.must_wait) (record q { running = es })
      (omega (arith, i.kept, length-Taken t)) i.fits
Step-Inv i (wake e es t) = record { kept = i.kept; fits = i.fits }

pub Reach-Inv : {n : ℕ} {q : Queue} → Reach n q → Inv n q
unfolding new_queue enqueue
Reach-Inv start = record { kept = omega arith; fits = omega arith }
Reach-Inv (called n r) = let i = Reach-Inv r in record { kept = i.kept; fits = i.fits }
Reach-Inv (stepped r s) = Step-Inv (Reach-Inv r) s

-- In every reachable state, the emails that are being sent at a time are at most as many as the
-- queue was made for, and no more than two wait in its channel.
pub running-bound : (n : ℕ) (q : Queue) → Reach n q → (length q.running ≤ n) × (length q.buffer ≤ 2)
running-bound n q r = let i = Reach-Inv r in (omega (arith, i.kept), i.fits)
