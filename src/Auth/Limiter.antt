-- ===== src/Auth/Limiter.antt =====
-- auth/ratelimit.go: the addresses that are monitored and limited.
pub mod Trace
use atmail.Prelude.{
  ℕ, suc, ◌+◌, ◌%◌, Bool, true, false, Option, none, some, List, [], ◌∷◌, if◌then◌else◌, Text,
  eq_text, lookup, insert,
}

-- `Limited`: its address is its key in the map. Each failure starts a goroutine of `increase`, which
-- cancels the ones before; `acc` counts them.
pub record Limited : Type 0 where
  pub limited : Bool
  pub acc : ℕ

-- `RateLimiter`, by the text of the address.
abbrev pub RateLimiter : Type 0
RateLimiter = List (Text × Limited)

abbrev pub new_rate_limiter : RateLimiter
new_rate_limiter = []

-- delete(m, k).
unfoldable pub delete : Text → RateLimiter → RateLimiter
unfolding eq_text
delete k [] = []
delete k ((j, v) ∷ m) = let rest = delete k m in if eq_text j k then rest else (j, v) ∷ rest

abbrev pub limited_entry : Option Limited → Option Limited
limited_entry none = none
limited_entry (some v) = if v.limited then some v else none

-- `IsLimited`.
unfoldable pub is_limited : Text → RateLimiter → Option Limited
unfolding lookup
is_limited ip r = limited_entry (lookup ip r)

-- `RateLimiter.Accept`.
unfoldable pub accept : Text → RateLimiter → RateLimiter
unfolding lookup delete
accept ip r = elim (lookup ip r) [ none ↦ r | some v ↦ delete ip r ]

-- The first step of `increase`: acc.Add(1), on a uint32.
unfoldable pub increase : Limited → Limited
increase v = record v { acc = (v.acc + 1) % 4294967296 }

abbrev pub limit_at : Text → RateLimiter → Option Limited → RateLimiter × Bool
unfolding insert increase
limit_at ip r none = (insert ip (increase (record { limited = false; acc = 0 })) r, false)
limit_at ip r (some v) = (insert ip (increase (record v { limited = true })) r, true)

-- `Limit`, with the start of its `increase`: the map after it, and whether the address is limited.
unfoldable pub limit : Text → RateLimiter → RateLimiter × Bool
unfolding lookup insert increase
limit ip r = limit_at ip r (lookup ip r)

abbrev pub admit_at : Text → RateLimiter → Option Limited → RateLimiter × Bool
unfolding insert increase
admit_at ip r none = (r, true)
admit_at ip r (some v) = (insert ip (increase (record v { limited = true })) r, false)

-- `LimiterListener.Accept` on one connection: whether it is handed over.
unfoldable pub admit : Text → RateLimiter → RateLimiter × Bool
unfolding is_limited insert increase
admit ip r = admit_at ip r (is_limited ip r)

-- The timers of `increase`: after the first, the address is no longer limited, and after the second it
-- is forgotten.
unfoldable pub relax : Text → RateLimiter → RateLimiter
unfolding lookup insert
relax ip r = elim (lookup ip r) [ none ↦ r | some v ↦ insert ip (record v { limited = false }) r ]

unfoldable pub forget : Text → RateLimiter → RateLimiter
unfolding delete
forget ip r = delete ip r
