-- ===== src/Filter/Outcome/Ends.antt =====
-- Runs that end: they return or fail, and neither starve nor panic. Rules for the monad, and the
-- lexer's methods as parsers.
use atmail.Prelude.{
  ℕ, suc, ◌≤◌, ◌<◌, ◌≡◌, refl, Bool, true, false, Option, none, some, arith, if◌then◌else◌,
}
use atmail.Filter.Lexer.{Lexem, Lexer}
use atmail.Filter.Lexer.Weight.{
  weight, Took, ended, took, next-Took, Saw, blind, saw, peek-Saw, weight-skip_sep, weight-next_lt,
}
use atmail.Filter.Outcome.{
  Err, is_block_ended, Outcome, ok, fail, bind_outcome, Parser, next, peek, skip_sep, or_expecting,
  next_or_err, peek_or_err, add_line, set_line, present,
}

-- The run fails, and not for the end of a block, or returns a value and a lexer for which `P` holds.
pub data Ends {A : Type 0} (P : A → Lexer → Type 0) : Outcome A → Type 0 where
  returned : {a : A} {lx : Lexer} → P a lx → Ends P (ok a lx)
  failed : {e : Err} {lx : Lexer} → is_block_ended e ≡ false → Ends P (fail e lx)

-- Less than `b` is left to read.
abbrev pub Under : {A : Type 0} → ℕ → A → Lexer → Type 0
Under b _ lx = weight lx < b

pub Ends-bind :
    {A B : Type 0} {P : A → Lexer → Type 0} {Q : B → Lexer → Type 0} {o : Outcome A}
    {f : A → Parser B}
    → Ends P o
    → ((a : A) (lx : Lexer) → P a lx → Ends Q (f a lx))
    → Ends Q (bind_outcome o f)
Ends-bind (returned {a} {lx} h) k = k a lx h
Ends-bind (failed h) k = failed h

pub Ends-imp :
    {A : Type 0} {P Q : A → Lexer → Type 0} {o : Outcome A}
    → Ends P o
    → ((a : A) (lx : Lexer) → P a lx → Q a lx)
    → Ends Q o
Ends-imp (returned {a} {lx} h) k = returned (k a lx h)
Ends-imp (failed h) k = failed h

pub Ends-if :
    {A : Type 0} {P : A → Lexer → Type 0} (b : Bool) (p q : Parser A) (lx : Lexer)
    → Ends P (p lx)
    → Ends P (q lx)
    → Ends P ((if b then p else q) lx)
Ends-if true p q lx hp hq = hp
Ends-if false p q lx hp hq = hq

pub add_line-Ends :
    {A : Type 0} {P : A → Lexer → Type 0} {o : Outcome A} → Ends P o → Ends P (add_line o)
unfolding add_line
add_line-Ends (returned h) = returned h
add_line-Ends (failed h) = failed h

pub set_line-Ends :
    {A : Type 0} {P : A → Lexer → Type 0} (n : ℕ) {o : Outcome A} → Ends P o → Ends P (set_line n o)
unfolding set_line
set_line-Ends n (returned h) = returned h
set_line-Ends n (failed h) = failed h

-- A lexem that `Peek` has answered is stored.
abbrev pub Held : Option Lexem → Lexer → Type 0
Held none lx = Unit
Held (some lm) lx = lx.current ≡ some lm

abbrev pub Peeked : ℕ → Option Lexem → Lexer → Type 0
Peeked n o lx = (weight lx ≤ n) × Held o lx

pub peek-Ends : (lx : Lexer) → Ends (Peeked (weight lx)) (peek lx)
unfolding peek
peek-Ends lx = go (peek-Saw lx)
  where
    go : {r : Option Lexem × Lexer} → Saw lx r → Ends (Peeked (weight lx)) (ok r.0 r.1)
    go (blind lx' h) = returned (h, tt)
    go (saw lm lx' h e) = returned (h, e)

-- What `Next` leaves, by its answer.
abbrev pub Fewer : ℕ → Option Lexem → Lexer → Type 0
Fewer n none lx = weight lx ≤ n
Fewer n (some lm) lx = weight lx < n

pub next-Ends : (lx : Lexer) → Ends (Fewer (weight lx)) (next lx)
unfolding next
next-Ends lx = go (next-Took lx)
  where
    go : {r : Option Lexem × Lexer} → Took lx r → Ends (Fewer (weight lx)) (ok r.0 r.1)
    go (ended _ _) = returned (omega arith)
    go (took lm lx' h e) = returned h

-- Taking what is stored.
pub next_held-Ends :
    (lx : Lexer) {lm : Lexem} → lx.current ≡ some lm → Ends (Under (weight lx)) (next lx)
unfolding next
next_held-Ends lx e = returned (weight-next_lt lx e)

pub next_present-Ends :
    (lx : Lexer) {lm : Lexem}
    → lx.current ≡ some lm
    → Ends (Under (weight lx)) (bind_outcome (next lx) present)
unfolding next present
next_present-Ends lx e = go (next-Took lx)
  where
    go : {r : Option Lexem × Lexer} → Took lx r → Ends (Under (weight lx)) (present r.0 r.1)
    go (ended q _) = cc
    go (took lm lx' h _) = returned h

pub skip_sep-Ends : (lx : Lexer) → Ends (Under (suc (weight lx))) (skip_sep lx)
unfolding skip_sep
skip_sep-Ends lx = returned (omega (arith, weight-skip_sep lx))

pub next_or_err-Ends : (lx : Lexer) → Ends (Under (weight lx)) (next_or_err lx)
unfolding next_or_err
next_or_err-Ends lx = Ends-bind (next-Ends lx) go
  where
    go :
        (o : Option Lexem) (lx' : Lexer)
        → Fewer (weight lx) o lx'
        → Ends (Under (weight lx)) (or_expecting o lx')
    go none lx' h = failed refl
    go (some lm) lx' h = returned h

pub peek_or_err-Ends :
    (lx : Lexer)
    → Ends (λ lm lx'. (weight lx' ≤ weight lx) × (lx'.current ≡ some lm)) (peek_or_err lx)
unfolding peek_or_err
peek_or_err-Ends lx = Ends-bind (peek-Ends lx) go
  where
    go :
        (o : Option Lexem) (lx' : Lexer)
        → Peeked (weight lx) o lx'
        → Ends (λ lm lx'. (weight lx' ≤ weight lx) × (lx'.current ≡ some lm)) (or_expecting o lx')
    go none lx' h = failed refl
    go (some lm) lx' h = returned h

-- A larger bound.
pub Ends-widen :
    {A : Type 0} {b c : ℕ} {o : Outcome A} → Ends (Under b) o → b ≤ c → Ends (Under c) o
Ends-widen h le = Ends-imp h λ a lx k. omega arith
