-- ===== src/Auth/Limiter/Trace.antt =====
-- auth/ratelimit.go: the limiter over a sequence of events.
use atmail.Prelude.{
  ℕ, suc, ◌≤◌, ◌≡◌, refl, sym, subst, true, false, Option, none, some, List, [], ◌∷◌, if◌then◌else◌,
  arith, Text, eq_text, eq_text_iff, eq_text_self, lookup, lookup-insert, inl, inr, Bool-cases,
}
use atmail.Auth.Limiter.{
  limited_entry, Limited, RateLimiter, delete, is_limited, accept, limit, admit, relax, forget,
  increase, new_rate_limiter,
}

-- A read after a removal.
pub lookup-delete :
    (k j : Text) (m : RateLimiter)
    → lookup j (delete k m) ≡ (if eq_text k j then none else lookup j m)
unfolding lookup delete
lookup-delete k j [] = ground arith
lookup-delete k j ((i, w) ∷ m) =
    ground (arith, eq_text_iff k j, eq_text_iff i k, eq_text_iff i j, lookup-delete k j m)

-- What happens to an address: a failed login, a login, a connection, and the two timers.
pub data Event : Type 0 where
  failure success connection calm clean : Event

-- An event at an address. The goroutines of `increase` take part by their timers, in any order.
unfoldable pub happens : Event → Text → RateLimiter → RateLimiter
unfolding limit accept admit relax forget
happens failure ip r = (limit ip r).0
happens success ip r = accept ip r
happens connection ip r = (admit ip r).0
happens calm ip r = relax ip r
happens clean ip r = forget ip r

-- The limiter after events, the latest first.
unfoldable pub after : List (Event × Text) → RateLimiter
unfolding happens
after [] = new_rate_limiter
after ((e, ip) ∷ es) = happens e ip (after es)

-- The count of failures after an event.
abbrev counted : Event → ℕ → ℕ
counted e n = elim e [ failure ↦ suc n | success ↦ 0 | connection ↦ n | calm ↦ n | clean ↦ 0 ]

-- The failed logins of an address since it was last forgotten.
unfoldable pub failures : Text → List (Event × Text) → ℕ
unfolding eq_text
failures ip [] = 0
failures ip ((e, jp) ∷ es) = let n = failures ip es in if eq_text jp ip then counted e n else n

-- What the entry of an address says of its failures.
abbrev Fits : ℕ → Option Limited → Type 0
Fits n none = n ≡ 0
Fits n (some v) = (1 ≤ n) × ((v.limited ≡ true) → 2 ≤ n)

-- The next entry of an address, from its entry.
unfoldable pub next_entry : Event → Option Limited → Option Limited
unfolding increase
next_entry failure none = some (increase (record { limited = false; acc = 0 }))
next_entry failure (some v) = some (increase (record v { limited = true }))
next_entry connection (some v) =
    if v.limited then some (increase (record v { limited = true })) else some v
next_entry calm (some v) = some (record v { limited = false })
next_entry success o = none
next_entry clean o = none
next_entry _ none = none

same_entry :
    (e : Event) (ip : Text) (r : RateLimiter) (o : Option Limited)
    → lookup ip r ≡ o
    → lookup ip (happens e ip r) ≡ next_entry e o
unfolding happens next_entry is_limited limit admit
same_entry failure ip r none h = rw (happens, limit, h, lookup-insert ip ip, eq_text_self ip)
same_entry failure ip r (some v) h = rw (happens, limit, h, lookup-insert ip ip, eq_text_self ip)
same_entry success ip r none h = rw (happens, accept, h) h
same_entry success ip r (some v) h = rw (happens, accept, h, lookup-delete ip ip r, eq_text_self ip)
same_entry connection ip r none h = rw (happens, admit, is_limited, h) h
same_entry connection ip r (some v) h = elim (Bool-cases v.limited) [
  | inl l ↦ rw (happens, admit, is_limited, h, l, lookup-insert ip ip, eq_text_self ip)
  | inr l ↦
      rw (happens, admit, is_limited, h, l)
        (subst (λ b. lookup ip r ≡ some (record v { limited = b })) l h)
]
same_entry calm ip r none h = rw (happens, relax, h) h
same_entry calm ip r (some v) h = rw (happens, relax, h, lookup-insert ip ip, eq_text_self ip)
same_entry clean ip r o h = rw (happens, forget, lookup-delete ip ip r, eq_text_self ip)

other_entry :
    (e : Event) (jp ip : Text) (r : RateLimiter) (o : Option Limited)
    → eq_text jp ip ≡ false
    → lookup jp r ≡ o
    → lookup ip (happens e jp r) ≡ lookup ip r
unfolding happens is_limited limit admit
other_entry failure jp ip r none n h = rw (happens, limit, h, lookup-insert jp ip, n)
other_entry failure jp ip r (some v) n h = rw (happens, limit, h, lookup-insert jp ip, n)
other_entry success jp ip r none n h = rw (happens, accept, h)
other_entry success jp ip r (some v) n h = rw (happens, accept, h, lookup-delete jp ip r, n)
other_entry connection jp ip r none n h = rw (happens, admit, is_limited, h)
other_entry connection jp ip r (some v) n h = elim (Bool-cases v.limited) [
  | inl l ↦ rw (happens, admit, is_limited, h, l, lookup-insert jp ip, n)
  | inr l ↦ rw (happens, admit, is_limited, h, l)
]
other_entry calm jp ip r none n h = rw (happens, relax, h)
other_entry calm jp ip r (some v) n h = rw (happens, relax, h, lookup-insert jp ip, n)
other_entry clean jp ip r o n h = rw (happens, forget, lookup-delete jp ip r, n)

-- Each event moves the entry of its own address, and of no other.
pub lookup-happens :
    (e : Event) (jp ip : Text) (r : RateLimiter)
    → lookup ip (happens e jp r)
      ≡ (if eq_text jp ip then next_entry e (lookup ip r) else lookup ip r)
lookup-happens e jp ip r = elim (Bool-cases (eq_text jp ip)) [
  | inl h ↦ rw h (
      subst (λ jp. lookup ip (happens e jp r) ≡ next_entry e (lookup ip r))
        (sym ((eq_text_iff jp ip).0 h)) (same_entry e ip r (lookup ip r) refl))
  | inr h ↦ rw h (other_entry e jp ip r (lookup jp r) h refl)
]

next_entry-Fits :
    (e : Event) (n : ℕ) (o : Option Limited) → Fits n o → Fits (counted e n) (next_entry e o)
unfolding next_entry
next_entry-Fits failure n none h = (omega (arith, h), λ l. cc)
next_entry-Fits failure n (some v) (h, k) = (omega (arith, h), λ l. omega (arith, h))
next_entry-Fits success n o h = refl
next_entry-Fits connection n none h = h
next_entry-Fits connection n (some v) (h, k) =
    elim (Bool-cases v.limited) as (λ _. Fits n (next_entry connection (some v))) [
      | inl l ↦ rw l (h, λ _. k l)
      | inr l ↦ rw l (h, λ e. cc)
    ]
next_entry-Fits calm n none h = h
next_entry-Fits calm n (some v) (h, k) = (h, λ l. cc)
next_entry-Fits clean n o h = refl

after-Fits : (ip : Text) (es : List (Event × Text)) → Fits (failures ip es) (lookup ip (after es))
unfolding after failures lookup
after-Fits ip [] = refl
after-Fits ip ((e, jp) ∷ es) =
    elim (Bool-cases (eq_text jp ip))
      as (λ _. Fits (failures ip ((e, jp) ∷ es)) (lookup ip (after ((e, jp) ∷ es)))) [
        | inl h ↦
            rw (lookup-happens e jp ip (after es), h)
              (next_entry-Fits e (failures ip es) (lookup ip (after es)) (after-Fits ip es))
        | inr h ↦ rw (lookup-happens e jp ip (after es), h) (after-Fits ip es)
      ]

of_limited :
    (n : ℕ) (o : Option Limited) (v : Limited)
    → Fits n o
    → (elim o [ none ↦ none | some w ↦ if w.limited then some w else none ]) ≡ some v
    → 2 ≤ n
of_limited n none v h e = cc
of_limited n (some w) v (h, k) e = elim (Bool-cases w.limited) [ inl l ↦ k l | inr l ↦ cc ]

-- After any sequence of events, an address that is limited has failed to log in at least twice since
-- it was last forgotten.
pub limited_failed_twice :
    (ip : Text) (es : List (Event × Text)) (v : Limited)
    → is_limited ip (after es) ≡ some v
    → 2 ≤ failures ip es
unfolding is_limited
limited_failed_twice ip es v h =
    of_limited (failures ip es) (lookup ip (after es)) v (after-Fits ip es) h

failed_entry :
    (n : ℕ) (o : Option Limited)
    → Fits n o
    → 1 ≤ n
    → (v : Limited) × (limited_entry (next_entry failure o) ≡ some v)
unfolding next_entry
failed_entry n none h l = absurd (omega (arith, h, l))
failed_entry n (some v) h l = (increase (record v { limited = true }), unfold increase in refl)

-- After any sequence of events, a failed login at an address that has failed to log in since it was
-- last forgotten leaves it limited.
pub failure_limits :
    (ip : Text) (es : List (Event × Text))
    → 1 ≤ failures ip es
    → (v : Limited) × (is_limited ip (after ((failure, ip) ∷ es)) ≡ some v)
unfolding is_limited after
failure_limits ip es h =
    rw (same_entry failure ip (after es) (lookup ip (after es)) refl)
      (failed_entry (failures ip es) (lookup ip (after es)) (after-Fits ip es) h)
