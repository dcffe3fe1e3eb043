-- ===== src/Relay/Queue/Workers/Draining.antt =====
-- relay/queue.go: the queue works every email off.
use atmail.Prelude.{
  ℕ, zero, suc, ◌+◌, ◌*◌, ◌-◌, ◌≤◌, ◌<◌, ◌≡◌, refl, ap, sym, subst, Bool, true, false, List, [],
  ◌∷◌, ◌++◌, length, arith, ◌⊎◌, ◌==◌, if◌then◌else◌, inl, inr,
}
use atmail.Relay.Queue.{sent, After, delivered, given_up, retry, send, next_wait}
use atmail.Relay.Queue.Waits.{Follows, is_delivered, is_given_up, is_retry, send-Follows}
use atmail.Relay.Queue.Workers.{
  Enqueued, Queue, Taken, here, there, after_send, Step, write, take_token, take_email, finish,
  wake, Reach,
}
use atmail.Relay.Queue.Workers.Tokens.{held, Inv, Step-Inv, Reach-Inv}

-- What is left to do for an email, by the retries that it may have and its place.
abbrev weight : ℕ → Enqueued → ℕ
weight place e = (901 - e.must_wait) * 6 + place

abbrev total : ℕ → List Enqueued → ℕ
total place [] = 0
total place (e ∷ es) = weight place e + total place es

abbrev free : Bool → ℕ
free true = 0
free false = 1

abbrev pub measure : Queue → ℕ
measure q =
    total 3 q.buffer + total 4 q.writers + total 1 q.running + total 5 q.sleeping + free q.holding

total-Taken :
    (p : ℕ) {e : Enqueued} {es fs : List Enqueued}
    → Taken e es fs
    → total p es ≡ weight p e + total p fs
total-Taken p here = refl
total-Taken p (there t) = omega (arith, total-Taken p t)

total-append : (p : ℕ) (es fs : List Enqueued) → total p (es ++ fs) ≡ total p es + total p fs
total-append p [] fs = omega arith
total-append p (e ∷ es) fs = omega (arith, total-append p es fs)

next_wait-lt : (w : ℕ) → w < next_wait w
unfolding next_wait
next_wait-lt w = omega arith

after_send-lt :
    (e : Enqueued) (a : After) (q : Queue)
    → Follows e.must_wait a
    → measure (after_send e a q) < measure q + weight 1 e
unfolding after_send
after_send-lt e _ q is_delivered = omega arith
after_send-lt e _ q is_given_up = omega arith
after_send-lt e _ q (is_retry l) = omega (arith, l, next_wait-lt e.must_wait)

-- Each step of the queue leaves less to do.
Step-lt : {q r : Queue} → Step q r → measure r < measure q
Step-lt {q = q} (write e es t h) = omega (arith, total-append 3 q.buffer (e ∷ []), total-Taken 4 t)
Step-lt (take_token n h k) = ground (arith, h)
Step-lt {q = q} (take_email e es h b) = ground (arith, h, ap (total 3) b)
Step-lt {q = q} (finish e es r t) = omega (
  arith,
  total-Taken 1 t,
  after_send-lt e (send r e.must_wait) (record q { running = es }) (send-Follows r e.must_wait),
)
Step-lt {q = q} (wake e es t) = omega (arith, total-Taken 5 t)

-- Nothing is left in the queue.
pub record IsIdle (q : Queue) : Type 0 where
  pub no_buffer : q.buffer ≡ []
  pub no_writers : q.writers ≡ []
  pub no_running : q.running ≡ []
  pub no_sleeping : q.sleeping ≡ []

-- `k` steps of the queue.
pub data Run : ℕ → Queue → Queue → Type 0 where
  none : {q : Queue} → Run 0 q q
  more : {k : ℕ} {q r t : Queue} → Step q r → Run k r t → Run (suc k) q t

Run-Inv : {n k : ℕ} {q r : Queue} → Inv n q → Run k q r → Inv n r
Run-Inv i none = i
Run-Inv i (more s r) = Run-Inv (Step-Inv i s) r

Run-le : {k : ℕ} {q r : Queue} → Run k q r → k + measure r ≤ measure q
Run-le none = omega arith
Run-le (more s r) = omega (arith, Step-lt s, Run-le r)

-- With a token there is a step for an email that waits to be read or written.
moves_email :
    (q : Queue) (t : ℕ) (h : Bool) (b w : List Enqueued)
    → q.tokens ≡ t
    → q.holding ≡ h
    → q.buffer ≡ b
    → q.writers ≡ w
    → 1 ≤ t + held h
    → (b ≡ []) × (w ≡ []) ⊎ ((r : Queue) × Step q r)
moves_email q t true (e ∷ es) w tk hd bf wr l = inr (_, take_email e es hd bf)
moves_email q (suc t) false (e ∷ es) w tk hd bf wr l = inr (_, take_token t hd tk)
moves_email q zero false (e ∷ es) w tk hd bf wr l = absurd (omega (arith, l))
moves_email q t h [] [] tk hd bf wr l = inl (refl, refl)
moves_email q t h [] (e ∷ es) tk hd bf wr l =
    inr (_, write e es (subst (λ l. Taken e l es) (sym wr) here) (omega (arith, ap length bf)))

-- With a token in it, a queue that is not idle has a step.
pub progress : {n : ℕ} (q : Queue) → 1 ≤ n → Inv n q → IsIdle q ⊎ ((r : Queue) × Step q r)
progress q l i = go q.running q.sleeping refl refl
  where
    go :
        (a b : List Enqueued) → q.running ≡ a → q.sleeping ≡ b → IsIdle q ⊎ ((r : Queue) × Step q r)
    go (e ∷ es) b ra sb = inr (_, finish e es sent (subst (λ l. Taken e l es) (sym ra) here))
    go [] (e ∷ es) ra sb = inr (_, wake e es (subst (λ l. Taken e l es) (sym sb) here))
    go [] [] ra sb =
        elim (moves_email q q.tokens q.holding q.buffer q.writers refl refl refl refl
          (omega (arith, l, i.kept, ap length ra))) [
            | inl (b, w) ↦
                inl (record { no_buffer = b; no_writers = w; no_running = ra; no_sleeping = sb })
            | inr s ↦ inr s
          ]

-- How often a number is among emails, and in all of the queue.
abbrev times : ℕ → List Enqueued → ℕ
times n [] = 0
times n (e ∷ es) = (if e.number == n then 1 else 0) + times n es

abbrev pub times_in : ℕ → Queue → ℕ
times_in n q = times n q.buffer + times n q.writers + times n q.running + times n q.sleeping

times-Taken :
    (n : ℕ) {e : Enqueued} {es fs : List Enqueued}
    → Taken e es fs
    → times n es ≡ (if e.number == n then 1 else 0) + times n fs
times-Taken n here = refl
times-Taken n (there t) = omega (arith, times-Taken n t)

times-append : (n : ℕ) (es fs : List Enqueued) → times n (es ++ fs) ≡ times n es + times n fs
times-append n [] fs = omega arith
times-append n (e ∷ es) fs = omega (arith, times-append n es fs)

-- The email that is done with after a try: it is delivered or given up.
abbrev ended_by : Enqueued → After → List ℕ
ended_by e delivered = e.number ∷ []
ended_by e given_up = e.number ∷ []
ended_by e (retry w) = []

abbrev ended : {q r : Queue} → Step q r → List ℕ
ended (write e es t h) = []
ended (take_token n h k) = []
ended (take_email e es h b) = []
ended (finish e es r t) = ended_by e (send r e.must_wait)
ended (wake e es t) = []

-- The numbers of the emails that a run delivers or gives up.
abbrev pub all_ended : {k : ℕ} {q r : Queue} → Run k q r → List ℕ
all_ended none = []
all_ended (more s run) = ended s ++ all_ended run

abbrev pub occurrences : ℕ → List ℕ → ℕ
occurrences n [] = 0
occurrences n (m ∷ ms) = (if m == n then 1 else 0) + occurrences n ms

occurrences-append :
    (n : ℕ) (ms ns : List ℕ) → occurrences n (ms ++ ns) ≡ occurrences n ms + occurrences n ns
occurrences-append n [] ns = omega arith
occurrences-append n (m ∷ ms) ns = omega (arith, occurrences-append n ms ns)

after_send-times :
    (n : ℕ) (e : Enqueued) (a : After) (q : Queue)
    → times_in n (after_send e a q) + occurrences n (ended_by e a)
      ≡ times_in n q + (if e.number == n then 1 else 0)
unfolding after_send
after_send-times n e delivered q = omega arith
after_send-times n e given_up q = omega arith
after_send-times n e (retry w) q = omega arith

-- A step keeps every email in the queue, but for those that it ends.
Step-times :
    {q r : Queue} (n : ℕ) (s : Step q r) → times_in n q ≡ occurrences n (ended s) + times_in n r
Step-times {q = q} n (write e es t h) =
    omega (arith, times-append n q.buffer (e ∷ []), times-Taken n t)
Step-times n (take_token m h k) = omega arith
Step-times n (take_email e es h b) = omega (arith, ap (times n) b)
Step-times {q = q} n (finish e es r t) =
    omega (
      arith,
      times-Taken n t,
      after_send-times n e (send r e.must_wait) (record q { running = es }),
    )
Step-times n (wake e es t) = omega (arith, times-Taken n t)

Run-times :
    {k : ℕ} {q r : Queue} (n : ℕ) (run : Run k q r)
    → times_in n q ≡ occurrences n (all_ended run) + times_in n r
Run-times n none = omega arith
Run-times n (more s run) =
    omega (arith, Step-times n s, Run-times n run, occurrences-append n (ended s) (all_ended run))

idle-times : (n : ℕ) (q : Queue) → IsIdle q → times_in n q ≡ 0
idle-times n q i = omega (
  arith,
  ap (times n) i.no_buffer,
  ap (times n) i.no_writers,
  ap (times n) i.no_running,
  ap (times n) i.no_sleeping,
)

-- From every reachable state of a queue with a token, and whatever the tries give: the queue makes no
-- more steps by itself than `measure` says, and where it can make none, no email is left in it, and the
-- run has delivered or given up each email as often as it was in the queue.
pub drains :
    (n k : ℕ) (q r : Queue) (run : Run k q r)
    → 1 ≤ n
    → Reach n q
    → (k ≤ measure q)
      × (((t : Queue) → ¬ Step r t)
          → IsIdle r × ((m : ℕ) → occurrences m (all_ended run) ≡ times_in m q))
drains n k q r run l c = (
  omega (arith, Run-le run),
  λ stuck. elim (progress r l (Run-Inv (Reach-Inv c) run)) [
    | inl i ↦ (i, λ m. omega (arith, Run-times m run, idle-times m r i))
    | inr (t, s) ↦ absurd (stuck t s)
  ],
)
