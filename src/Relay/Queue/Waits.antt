-- ===== src/Relay/Queue/Waits.antt =====
-- relay/queue.go: how long an email stays in the queue.
use atmail.Prelude.{
  ℕ, zero, suc, ◌≤◌, ◌<◌, true, false, List, [], All, arith, length, leb, ltb, Bool-cases, inl, inr,
}
use atmail.Relay.Queue.{
  Relayed, sent, dns_error, smtp_error, unknown_error, After, delivered, given_up, retry, next_wait,
  back_off, send, Fate, ended, live, last, waited,
}

-- A wait of 4 to 1350 seconds.
abbrev pub InRange : ℕ → Type 0
InRange w = (4 ≤ w) × (w ≤ 1350)

-- The fate is an end, after at most `n` waits, each in the range.
pub data EndsWithin (n : ℕ) : Fate → Type 0 where
  with_delivery : {ws : List ℕ} → length ws ≤ n → All InRange ws → EndsWithin n (ended delivered ws)
  without : {ws : List ℕ} → length ws ≤ n → All InRange ws → EndsWithin n (ended given_up ws)

-- What `send` gives is an end, or a wait that is the next one.
pub data Follows (w : ℕ) : After → Type 0 where
  is_delivered : Follows w delivered
  is_given_up : Follows w given_up
  is_retry : w ≤ 900 → Follows w (retry (next_wait w))

back_off-Follows : (w : ℕ) → Follows w (back_off w)
unfolding back_off
back_off-Follows w = elim (Bool-cases (ltb 900 w)) as (λ _. Follows w (back_off w)) [
  | inl e ↦ rw e is_given_up
  | inr e ↦ rw e (is_retry (ground (arith, e)))
]

pub send-Follows : (r : Relayed) (w : ℕ) → Follows w (send r w)
unfolding send
send-Follows sent w = is_delivered
send-Follows (dns_error true) w = is_given_up
send-Follows (dns_error false) w = back_off-Follows w
send-Follows (smtp_error c) w =
    elim (Bool-cases (leb 500 c)) as (λ _. Follows w (send (smtp_error c) w)) [
      | inl e ↦ rw e is_given_up
      | inr e ↦ rw e (back_off-Follows w)
    ]
send-Follows unknown_error w = is_given_up

next_wait-InRange : (w : ℕ) → w ≤ 900 → InRange (next_wait w)
unfolding next_wait
next_wait-InRange w h = (omega (arith, h), omega (arith, h))

-- The wait after `n` more retries.
abbrev later : ℕ → ℕ → ℕ
unfolding next_wait
later zero w = w
later (suc n) w = later n (next_wait w)

waited-EndsWithin :
    (n w : ℕ) (f : Fate) → InRange w → EndsWithin n f → EndsWithin (suc n) (waited w f)
waited-EndsWithin n w _ r (with_delivery h a) = with_delivery (omega (arith, h)) (r, a)
waited-EndsWithin n w _ r (without h a) = without (omega (arith, h)) (r, a)

last-EndsWithin : (n w : ℕ) (a : After) → Follows w a → 900 < w → EndsWithin n (last a)
last-EndsWithin n w _ is_delivered h = with_delivery (omega arith) tt
last-EndsWithin n w _ is_given_up h = without (omega arith) tt
last-EndsWithin n w _ (is_retry l) h = ground (arith, l, h)

on_after :
    (n w : ℕ) (next : ℕ → Fate) (a : After)
    → Follows w a
    → ((w ≤ 900) → EndsWithin n (next (next_wait w)))
    → EndsWithin (suc n) (elim a [
      | delivered ↦ ended delivered []
      | given_up ↦ ended given_up []
      | retry v ↦ waited v (next v)
    ])
on_after n w next _ is_delivered k = with_delivery (omega arith) tt
on_after n w next _ is_given_up k = without (omega arith) tt
on_after n w next _ (is_retry l) k =
    waited-EndsWithin n (next_wait w) (next (next_wait w)) (next_wait-InRange w l) (k l)

-- An email whose wait grows past the limit within `n` retries ends within them.
live-EndsWithin :
    (n : ℕ) (attempt : ℕ → Relayed) (i w : ℕ) → 900 < later n w → EndsWithin n (live n attempt i w)
unfolding live
live-EndsWithin zero attempt i w h =
    last-EndsWithin 0 w (send (attempt i) w) (send-Follows (attempt i) w) h
live-EndsWithin (suc n) attempt i w h =
    on_after n w (live n attempt (suc i)) (send (attempt i) w) (send-Follows (attempt i) w)
      λ l. live-EndsWithin n attempt (suc i) (next_wait w) h

-- An email that is put in the queue, whatever its tries give, ends after at most 15 retries: it is
-- delivered or given up, and each retry waits from 4 to 1350 seconds.
pub live-ends : (attempt : ℕ → Relayed) → EndsWithin 15 (live 15 attempt 0 0)
unfolding later
live-ends attempt = live-EndsWithin 15 attempt 0 0 (omega arith)
