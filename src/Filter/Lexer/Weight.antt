-- ===== src/Filter/Lexer/Weight.antt =====
-- What is left to read: `Next` takes from it, `Peek` and `SkipSep` never add to it.
use atmail.Prelude.{
  ℕ, suc, ◌+◌, ◌≤◌, ◌<◌, ◌≡◌, ◌↔◌, refl, ap, inl, inr, Option, none, some, [], ◌∷◌, ◌∙◌, arith,
  length, Bool-cases, Yields, yields, Text, sym,
}
use atmail.Filter.Kind.{separator, kind_eq}
use atmail.Filter.Lexer.{
  Lexem, Lexer, Scanned, finish, next_from, next, keep_current, peek_from, peek, skip_peeked,
  skip_sep,
}
use atmail.Filter.Lexer.Progress.{Scanning, scan-Yields}

-- The bytes that are left, and the stored lexem.
abbrev pub weight : Lexer → ℕ
weight lx = length lx.content + (elim lx.current [ none ↦ 0 | some _ ↦ 1 ])

pub data Took (lx : Lexer) : Option Lexem × Lexer → Type 0 where
  ended : lx.current ≡ none → lx.content ≡ [] → Took lx (none, lx)
  took :
      (lm : Lexem) (lx' : Lexer)
      → weight lx' < weight lx
      → lx'.current ≡ none
      → Took lx (some lm, lx')

length-zero : (t : Text) → length t ≡ 0 → t ≡ []
length-zero [] h = refl
length-zero (c ∷ t) h = absurd (omega arith)

finish-Took :
    (lx : Lexer) {o : Option Scanned}
    → lx.current ≡ none
    → Yields (Scanning none [] lx) o
    → Took lx (finish lx.line lx o)
unfolding finish
finish-Took lx e (yields {a = s} h) = elim (h.started refl refl) [
  | inl (p, q, r) ↦ rw p (rw r (ended e q))
  | inr (p, q) ↦ rw (q.1) (took _ s.rest (rw (h.kept ∙ e) (omega arith)) (h.kept ∙ e))
]

next_from-Took : (o : Option Lexem) (lx : Lexer) → lx.current ≡ o → Took lx (next_from o lx)
unfolding next_from
next_from-Took none lx e =
    finish-Took lx e (scan-Yields (suc (length lx.content)) none [] lx (omega arith))
next_from-Took (some lm) lx e = took lm _ (ground arith) refl

-- `Next` answers nil exactly at the end of the input, and otherwise takes from what is left.
pub next-Took : (lx : Lexer) → Took lx (next lx)
unfolding next
next-Took lx = next_from-Took lx.current lx refl

-- What `Peek` leaves: the lexem is stored, and nothing is added.
pub data Saw (lx : Lexer) : Option Lexem × Lexer → Type 0 where
  blind : (lx' : Lexer) → weight lx' ≤ weight lx → Saw lx (none, lx')
  saw :
      (lm : Lexem) (lx' : Lexer)
      → weight lx' ≤ weight lx
      → lx'.current ≡ some lm
      → Saw lx (some lm, lx')

keep_current-Saw : (lx : Lexer) {r : Option Lexem × Lexer} → Took lx r → Saw lx (keep_current r)
unfolding keep_current
keep_current-Saw lx (ended e q) = blind _ (omega arith)
keep_current-Saw lx (took lm lx' q e) = saw lm _ (omega arith) refl

peek_from-Saw : (o : Option Lexem) (lx : Lexer) → lx.current ≡ o → Saw lx (peek_from o lx)
unfolding peek_from
peek_from-Saw none lx e = keep_current-Saw lx (next-Took lx)
peek_from-Saw (some lm) lx e = saw lm lx (omega arith) e

pub peek-Saw : (lx : Lexer) → Saw lx (peek lx)
unfolding peek
peek-Saw lx = peek_from-Saw lx.current lx refl

pub weight-next : (lx : Lexer) → weight (next lx).1 ≤ weight lx
weight-next lx = go (next-Took lx)
  where
    go : {r : Option Lexem × Lexer} → Took lx r → weight r.1 ≤ weight lx
    go (ended _ _) = omega arith
    go (took lm lx' h _) = omega arith

pub weight-next_lt :
    (lx : Lexer) {lm : Lexem} → lx.current ≡ some lm → weight (next lx).1 < weight lx
weight-next_lt lx e = go (next-Took lx)
  where
    go : {r : Option Lexem × Lexer} → Took lx r → weight r.1 < weight lx
    go (ended q _) = cc
    go (took lm lx' h _) = h

skip_peeked-le :
    (lx : Lexer) {r : Option Lexem × Lexer} → Saw lx r → weight (skip_peeked r).1 ≤ weight lx
unfolding skip_peeked
skip_peeked-le lx (blind lx' h) = h
skip_peeked-le lx (saw lm lx' h e) = elim (Bool-cases (kind_eq lm.kind separator)) [
  | inl s ↦ rw s (omega (arith, weight-next lx', h))
  | inr s ↦ rw s h
]

pub weight-skip_sep : (lx : Lexer) → weight (skip_sep lx).1 ≤ weight lx
unfolding skip_sep
weight-skip_sep lx = skip_peeked-le lx (peek-Saw lx)

no_current : (lx : Lexer) → lx.current ≡ none → record lx { current = none } ≡ lx
no_current lx e = λ i. record lx { current = sym e i }

next-keep_current :
    (lx : Lexer) {r : Option Lexem × Lexer} → Took lx r → next lx ≡ r → next (keep_current r).1 ≡ r
unfolding next keep_current
next-keep_current lx (ended e q) p = ap next (no_current lx e) ∙ p
next-keep_current lx (took lm lx' h e) p = λ i. (some lm, no_current lx' e i)

next-peek_from :
    (o : Option Lexem) (lx : Lexer) → lx.current ≡ o → next (peek_from o lx).1 ≡ next lx
unfolding peek_from
next-peek_from none lx e = next-keep_current lx (next-Took lx) refl
next-peek_from (some lm) lx e = refl

-- Taking after a peek is taking: `Peek` loses no lexem and reads none twice.
pub next-peek : (lx : Lexer) → next (peek lx).1 ≡ next lx
unfolding peek
next-peek lx = next-peek_from lx.current lx refl

-- `Next` answers nil exactly when nothing is stored and no byte is left.
pub next-nil_iff : (lx : Lexer) → ((next lx).0 ≡ none) ↔ ((lx.current ≡ none) × (lx.content ≡ []))
next-nil_iff lx = go (next-Took lx)
  where
    go :
        {r : Option Lexem × Lexer}
        → Took lx r
        → (r.0 ≡ none) ↔ ((lx.current ≡ none) × (lx.content ≡ []))
    go (ended e q) = ((λ _. (e, q)), λ _. refl)
    go (took lm lx' h e) = ((λ p. cc), λ p. absurd (omega (arith, spent p)))
      where
        spent : (lx.current ≡ none) × (lx.content ≡ []) → weight lx ≡ 0
        spent p = rw (p.0, p.1)
