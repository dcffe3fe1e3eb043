-- ===== src/Filter/Lexer/Progress.antt =====
-- The loops of `Next` end, and each lexem takes bytes off the input.
use atmail.Prelude.{
  ℕ, zero, suc, ◌+◌, ◌≤◌, ◌<◌, ◌≡◌, refl, ◌⊎◌, inl, inr, true, false, Option, none, some, [], ◌∷◌,
  arith, length, Text, Bool-cases, Option-cases, Yields, yields, Yields-imp, Yields-bind, ◌++◌,
  write_rune, ◌∙◌,
}
use atmail.Filter.Kind.{Kind, comment, kind_eq}
use atmail.Filter.Lexer.{
  Lexer, Look, Scanned, look, peek_next, read_line, read_byte, skip_comments, breaks, consume,
  advance, scan,
}

length-read_line : (t : Text) → length (read_line t) ≤ length t
unfolding read_line
length-read_line [] = omega arith
length-read_line (c ∷ t) = ground (arith, length-read_line t)

length-read_line_lt : (t : Text) → 0 < length t → length (read_line t) < length t
unfolding read_line
length-read_line_lt [] h = absurd (omega arith)
length-read_line_lt (c ∷ t) h = ground (arith, length-read_line t)

length-read_byte_lt : (t : Text) (n : ℕ) → length t ≤ n → 0 < n → length (read_byte t) < n
unfolding read_byte
length-read_byte_lt [] n h p = omega arith
length-read_byte_lt (c ∷ t) n h p = omega arith

peek_next-none : (t : Text) → peek_next t ≡ none → t ≡ []
unfolding peek_next
peek_next-none [] h = refl
peek_next-none (c ∷ []) h = cc
peek_next-none (c ∷ d ∷ t) h = cc

peek_next-some : (t : Text) {p : ℕ × Option ℕ} → peek_next t ≡ some p → 0 < length t
unfolding peek_next
peek_next-some [] h = cc
peek_next-some (c ∷ []) h = omega arith
peek_next-some (c ∷ d ∷ t) h = omega arith

-- What skipping comments leaves: no more bytes than there were, and the same stored lexem.
abbrev Skipped : Lexer → Lexer × Look → Type 0
Skipped lx r = (length (r.0).content ≤ length lx.content) × ((r.0).current ≡ lx.current)

skip_comments-Yields :
    (f : ℕ) (before : Option Kind) (lx : Lexer) (k : Look)
    → length lx.content < f
    → Yields (Skipped lx) (skip_comments f before lx k)
unfolding skip_comments
skip_comments-Yields zero before lx k h = absurd (omega arith)
skip_comments-Yields (suc f) before lx k h = elim (Bool-cases (kind_eq k.ckind comment)) [
  | inr plain ↦ rw plain (yields (omega arith, refl))
  | inl is ↦ rw is (elim (Option-cases (peek_next (read_line lx.content))) [
    | inl e ↦ rw e (yields (length-read_line lx.content, refl))
    | inr (p, e) ↦ rw e (
        Yields-imp
          (skip_comments-Yields f before
            (record lx { content = read_line lx.content; line = lx.line + 1; char = 0 })
            (look before p.0 p.1) (omega (arith, shorter p e)))
          (λ r q. (omega (arith, q.0, length-read_line lx.content), q.1)))
  ])
]
  where
    shorter :
        (p : ℕ × Option ℕ)
        → peek_next (read_line lx.content) ≡ some p
        → length (read_line lx.content) < length lx.content
    shorter p e =
        length-read_line_lt lx.content
          (omega (arith, length-read_line lx.content, peek_next-some (read_line lx.content) e))

-- What the loop of `Next` leaves. From an empty value it ends at once, at the end of the input,
-- or has a kind and has taken bytes off the input.
pub record Scanning (kind : Option Kind) (sb : Text) (lx : Lexer) (s : Scanned) : Type 0 where
  pub shorter : length s.rest.content ≤ length lx.content
  pub kept : s.rest.current ≡ lx.current
  pub started :
      kind ≡ none
      → sb ≡ []
      → (s.kind ≡ none) × (lx.content ≡ []) × (s.rest ≡ lx)
        ⊎ (length s.rest.content < length lx.content) × ((k : Kind) × (s.kind ≡ some k))
  pub typed : (k : Kind) → kind ≡ some k → (k' : Kind) × (s.kind ≡ some k')

content-consume_lt :
    (k : Look) (lx : Lexer) (n : ℕ)
    → length lx.content ≤ n
    → 0 < n
    → length (consume k lx).content < n
unfolding consume
content-consume_lt k lx n h p = ground (arith, length-read_byte_lt lx.content n h p)

current-consume : (k : Look) (lx : Lexer) → (consume k lx).current ≡ lx.current
unfolding consume
current-consume k lx = ground arith

-- The first byte never ends a lexem.
breaks-start : (k : Look) → breaks none [] k ≡ false
unfolding breaks
breaks-start k = ground arith

module _ (loop : Option Kind → Text → Lexer → Option Scanned) (n : ℕ)
    (loop-Yields : (kind : Option Kind) (sb : Text) (lx : Lexer)
      → length lx.content < n
      → Yields (Scanning kind sb lx) (loop kind sb lx))
    (kind : Option Kind) (sb : Text) (lx : Lexer) (small : length lx.content < suc n)
    (left : 0 < length lx.content) where
  taken-Yields :
      (k : Look) (lx' : Lexer)
      → Skipped lx (lx', k)
      → breaks kind sb k ≡ false
      → Yields (Scanning kind sb lx) (advance loop kind sb (lx', k))
  unfolding advance
  taken-Yields k lx' h e = rw e (elim (Option-cases k.next) [
    | inl p ↦ rw p (
        yields (record {
          shorter = omega (arith, fewer);
          kept = kept;
          started = λ _ _. inr (fewer, (k.ckind, refl));
          typed = λ _ _. (k.ckind, refl);
        }))
    | inr (d, p) ↦ rw p (
        Yields-imp
          (loop-Yields (some k.ckind) (sb ++ write_rune k.current) (consume k lx')
            (omega (arith, fewer)))
          λ s q. record {
            shorter = omega (arith, fewer, q.shorter);
            kept = q.kept ∙ kept;
            started = λ _ _. inr (omega (arith, fewer, q.shorter), q.typed k.ckind refl);
            typed = λ _ _. q.typed k.ckind refl;
          })
  ])
    where
      fewer : length (consume k lx').content < length lx.content
      fewer = content-consume_lt k lx' (length lx.content) h.0 left

      kept : (consume k lx').current ≡ lx.current
      kept = current-consume k lx' ∙ h.1

  left-Yields :
      (k : Look) (lx' : Lexer)
      → Skipped lx (lx', k)
      → breaks kind sb k ≡ true
      → Yields (Scanning kind sb lx) (advance loop kind sb (lx', k))
  unfolding advance
  left-Yields k lx' h e = rw e (
      yields (record {
        shorter = h.0;
        kept = h.1;
        started = λ p q. cc (breaks-start k, e, p, q);
        typed = λ k p. (k, p);
      }))

  advance-Yields :
      (r : Lexer × Look) → Skipped lx r → Yields (Scanning kind sb lx) (advance loop kind sb r)
  advance-Yields (lx', k) h = elim (Bool-cases (breaks kind sb k)) [
    | inl e ↦ left-Yields k lx' h e
    | inr e ↦ taken-Yields k lx' h e
  ]

pub scan-Yields :
    (f : ℕ) (kind : Option Kind) (sb : Text) (lx : Lexer)
    → length lx.content < f
    → Yields (Scanning kind sb lx) (scan f kind sb lx)
unfolding scan
scan-Yields zero kind sb lx h = absurd (omega arith)
scan-Yields (suc f) kind sb lx h = elim (Option-cases (peek_next lx.content)) [
  | inl e ↦
      rw (e, scan)
        (yields (record {
          shorter = omega arith;
          kept = refl;
          started = λ p q. inl (p, peek_next-none lx.content e, refl);
          typed = λ k p. (k, p);
        }))
  | inr (p, e) ↦
      rw (e, scan)
        (Yields-bind (skip_comments-Yields (suc f) kind lx (look kind p.0 p.1) h)
          (advance-Yields (scan f) f (scan-Yields f) kind sb lx h (peek_next-some lx.content e)))
]
