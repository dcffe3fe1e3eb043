-- ===== src/Filter/Lexer/Lossless.antt =====
-- On ASCII text with no `#`, the lexems are the text cut into pieces.
use atmail.Prelude.{
  ℕ, zero, suc, ◌+◌, ◌<◌, ◌≡◌, ◌≢◌, refl, ap, sym, ◌∙◌, subst, true, false, Option, none, some,
  List, [], ◌∷◌, ◌++◌, ◌==◌, arith, length, All, Text, Bool-cases, Option-cases, Yields, yields,
  Whenever, held, vacuous, Whenever-imp, write_rune, append_assoc, inl, inr, if◌then◌else◌,
}
use atmail.Filter.Kind.{Kind, comment, kind_eq, kind_of_word}
use atmail.Filter.Lexer.{
  Lexem, Lexer, Look, Scanned, look, peek_next, skip_comments, breaks, consume, advance, scan,
  finish, next_from, next,
}
use atmail.Filter.Lexer.Progress.{Scanning, scan-Yields}
use atmail.Filter.Lexer.Weight.{weight, Took, ended, took, next-Took, next-nil_iff}

-- A byte of ASCII other than `#`.
abbrev pub IsPlain : ℕ → Type 0
IsPlain b = (b ≢ 35) × (b < 128)

-- The line breaks of a text.
unfoldable pub newlines : Text → ℕ
newlines [] = 0
newlines (c ∷ t) = if c == 10 then suc (newlines t) else newlines t

kind_of_word-ne_comment :
    (before : Option Kind) (c : ℕ) (n : Option ℕ)
    → kind_eq (kind_of_word before c n) comment ≡ false
unfolding kind_of_word kind_eq
kind_of_word-ne_comment before c n = ground arith

kind_of-ne_comment :
    (before : Option Kind) (c : ℕ) (n : Option ℕ)
    → c ≢ 35
    → kind_eq (look before c n).ckind comment ≡ false
unfolding look kind_eq
kind_of-ne_comment before c n h = ground arith

skip_comments-plain :
    (f : ℕ) (before : Option Kind) (lx : Lexer) (k : Look)
    → kind_eq k.ckind comment ≡ false
    → skip_comments (suc f) before lx k ≡ some (lx, k)
unfolding skip_comments
skip_comments-plain f before lx k h = rw h

-- `value` is cut off the front of `before`, and the line breaks in it are counted.
pub record Cut (start : Text) (before : Lexer) (value : Text) (after : Lexer) : Type 0 where
  pub joined : value ++ after.content ≡ start ++ before.content
  pub lines : after.line + newlines after.content ≡ before.line + newlines before.content
  pub plain : All IsPlain after.content

Cut-refl : (sb : Text) (lx : Lexer) → All IsPlain lx.content → Cut sb lx sb lx
Cut-refl sb lx p = record { joined = refl; lines = refl; plain = p }

write_rune-ascii : (b : ℕ) → b < 128 → write_rune b ≡ b ∷ []
unfolding write_rune
write_rune-ascii b h = ground arith

module _ (sb : Text) (lx : Lexer) (k : Look) (t : Text) (e : lx.content ≡ k.current ∷ t)
    (p : All IsPlain lx.content) where
  content-consume : (consume k lx).content ≡ t
  unfolding consume
  content-consume = ground (arith, e)

  line-consume : (consume k lx).line ≡ (if k.current == 10 then suc lx.line else lx.line)
  unfolding consume
  line-consume = ground arith

  consume-Cut : Cut sb lx (sb ++ write_rune k.current) (consume k lx)
  unfolding newlines
  consume-Cut =
      let q : All IsPlain (k.current ∷ t) = subst (All IsPlain) e p in
      record {
        joined =
            rw (content-consume, e, write_rune-ascii k.current q.0.1)
              (append_assoc sb (k.current ∷ []) t);
        lines = rw (content-consume, line-consume, e) (ground arith);
        plain = rw content-consume q.1;
      }

Cut-trans :
    {sb sb' v : Text} {lx lx' after : Lexer}
    → Cut sb lx sb' lx'
    → Cut sb' lx' v after
    → Cut sb lx v after
Cut-trans a b = record { joined = b.joined ∙ a.joined; lines = b.lines ∙ a.lines; plain = b.plain }

abbrev Cuts : Text → Lexer → Option Scanned → Type 0
Cuts sb lx = Whenever (λ (s : Scanned). Cut sb lx s.value s.rest)

module _ (loop : Option Kind → Text → Lexer → Option Scanned)
    (loop-Cuts : (kind : Option Kind) (sb : Text) (lx : Lexer)
      → All IsPlain lx.content
      → Cuts sb lx (loop kind sb lx))
    (kind : Option Kind) (sb : Text) (lx : Lexer) (k : Look) (t : Text)
    (e : lx.content ≡ k.current ∷ t) (p : All IsPlain lx.content) where
  taken-Cuts : breaks kind sb k ≡ false → Cuts sb lx (advance loop kind sb (lx, k))
  unfolding advance
  taken-Cuts b = rw b (elim (Option-cases k.next) [
    | inl n ↦ rw n (held (consume-Cut sb lx k t e p))
    | inr (d, n) ↦ rw n (
        Whenever-imp
          (loop-Cuts (some k.ckind) (sb ++ write_rune k.current) (consume k lx)
            (consume-Cut sb lx k t e p).plain)
          λ s. Cut-trans (consume-Cut sb lx k t e p))
  ])

  left-Cuts : breaks kind sb k ≡ true → Cuts sb lx (advance loop kind sb (lx, k))
  unfolding advance
  left-Cuts b = rw b (held (Cut-refl sb lx p))

  advance-Cuts : Cuts sb lx (advance loop kind sb (lx, k))
  advance-Cuts = elim (Bool-cases (breaks kind sb k)) [ inl b ↦ left-Cuts b | inr b ↦ taken-Cuts b ]

-- The byte at hand of a text that is not empty.
peek_next-head : (t : Text) {p : ℕ × Option ℕ} → peek_next t ≡ some p → (r : Text) × (t ≡ p.0 ∷ r)
unfolding peek_next
peek_next-head [] h = cc
peek_next-head (c ∷ []) h = ([], cc)
peek_next-head (c ∷ d ∷ t) h = (d ∷ t, cc)

scan-Cuts :
    (f : ℕ) (kind : Option Kind) (sb : Text) (lx : Lexer)
    → All IsPlain lx.content
    → Cuts sb lx (scan f kind sb lx)
unfolding scan
scan-Cuts zero kind sb lx p = vacuous
scan-Cuts (suc f) kind sb lx p = elim (Option-cases (peek_next lx.content)) [
  | inl e ↦ rw (e, scan) (held (Cut-refl sb lx p))
  | inr ((c, n), e) ↦
      let (r, q) = peek_next-head lx.content e in
      let k = look kind c n in
      let q' : All IsPlain (c ∷ r) = subst (All IsPlain) q p in
      rw (e, scan)
        (rw (skip_comments-plain f kind lx k (kind_of-ne_comment kind c n q'.0.0))
          (advance-Cuts (scan f) (scan-Cuts f) kind sb lx k r q p))
]

-- The lexem is a piece off the front of the input, and carries the line that it begins on.
data Piece (lx : Lexer) : Option Lexem × Lexer → Type 0 where
  nothing : lx.content ≡ [] → Piece lx (none, lx)
  piece :
      (lm : Lexem) (lx' : Lexer)
      → Cut [] lx lm.value lx'
      → lm.line ≡ lx.line
      → Piece lx (some lm, lx')

finish-Piece :
    (lx : Lexer) {o : Option Scanned}
    → Yields (Scanning none [] lx) o
    → Cuts [] lx o
    → Piece lx (finish lx.line lx o)
unfolding finish
finish-Piece lx (yields {a = s} h) (held c) = elim (h.started refl refl) [
  | inl (p, q, r) ↦ rw p (rw r (nothing q))
  | inr (p, q) ↦ rw (q.1) (piece _ s.rest c refl)
]

next_from-Piece :
    (o : Option Lexem) (lx : Lexer)
    → lx.current ≡ o
    → o ≡ none
    → All IsPlain lx.content
    → Piece lx (next_from o lx)
unfolding next_from
next_from-Piece none lx e q p =
    finish-Piece lx (scan-Yields (suc (length lx.content)) none [] lx (omega arith))
      (scan-Cuts (suc (length lx.content)) none [] lx p)
next_from-Piece (some lm) lx e q p = cc

next-Piece : (lx : Lexer) → lx.current ≡ none → All IsPlain lx.content → Piece lx (next lx)
unfolding next
next-Piece lx e p = next_from-Piece lx.current lx refl e p

-- Where nothing is stored and the input is ASCII with no `#`, a lexem of `Next` is a piece off the
-- front of the input, it carries the line at its beginning, and the lexer's line grows by the line
-- breaks in it.
pub next_piece :
    (lx : Lexer) {lm : Lexem}
    → lx.current ≡ none
    → All IsPlain lx.content
    → (next lx).0 ≡ some lm
    → (lm.value ++ (next lx).1.content ≡ lx.content)
      × (lm.line ≡ lx.line)
      × ((next lx).1.line + newlines (next lx).1.content ≡ lx.line + newlines lx.content)
next_piece lx {lm} e p h = go (next-Piece lx e p) h
  where
    go :
        {r : Option Lexem × Lexer}
        → Piece lx r
        → r.0 ≡ some lm
        → (lm.value ++ r.1.content ≡ lx.content)
          × (lm.line ≡ lx.line)
          × (r.1.line + newlines r.1.content ≡ lx.line + newlines lx.content)
    go (nothing q) h = cc
    go (piece lm' lx' c l) h = (
      cc (ap (λ v. v ++ lx'.content) (same h), c.joined),
      cc (l, ap (λ (m : Lexem). m.line) (got h)),
      c.lines,
    )
      where
        got : some lm' ≡ some lm → lm' ≡ lm
        got h = cc

        same : some lm' ≡ some lm → lm'.value ≡ lm.value
        same h = ap (λ (m : Lexem). m.value) (got h)

-- Every lexem up to the end of the input.
unfoldable pub lexems : ℕ → Lexer → List Lexem
unfolding next
lexems zero lx = []
lexems (suc f) lx = let (o, lx') = next lx in elim o [ none ↦ [] | some lm ↦ lm ∷ lexems f lx' ]

unfoldable pub joined_values : List Lexem → Text
joined_values [] = []
joined_values (lm ∷ lms) = lm.value ++ joined_values lms

IsPlain-next :
    (lx : Lexer) → lx.current ≡ none → All IsPlain lx.content → All IsPlain (next lx).1.content
IsPlain-next lx e p = go (next-Piece lx e p)
  where
    go : {r : Option Lexem × Lexer} → Piece lx r → All IsPlain r.1.content
    go (nothing q) = p
    go (piece _ _ c _) = c.plain

current-next : (lx : Lexer) → lx.current ≡ none → (next lx).1.current ≡ none
current-next lx e = go (next-Took lx)
  where
    go : {r : Option Lexem × Lexer} → Took lx r → r.1.current ≡ none
    go (ended q _) = q
    go (took _ _ _ q) = q

fewer-next : (lx : Lexer) {lm : Lexem} → (next lx).0 ≡ some lm → weight (next lx).1 < weight lx
fewer-next lx e = go (next-Took lx) e
  where
    go :
        {r : Option Lexem × Lexer} {lm : Lexem} → Took lx r → r.0 ≡ some lm → weight r.1 < weight lx
    go (ended _ _) h = cc
    go (took _ _ q _) h = q

-- The values of the lexems of an ASCII text with no `#`, put together, are the text, if the fuel is
-- above what the lexer has left.
pub joined_values-lexems :
    (f : ℕ) (lx : Lexer)
    → lx.current ≡ none
    → All IsPlain lx.content
    → weight lx < f
    → joined_values (lexems f lx) ≡ lx.content
unfolding joined_values lexems
joined_values-lexems zero lx e p h = absurd (omega arith)
joined_values-lexems (suc f) lx e p h = elim (Option-cases (next lx).0) [
  | inl q ↦ rw (q, lexems) (sym ((next-nil_iff lx).0 q).1)
  | inr (lm, q) ↦
      let rest =
        joined_values-lexems f (next lx).1 (current-next lx e) (IsPlain-next lx e p)
          (omega (arith, fewer-next lx q)) in
      rw (q, lexems) (rw rest (next_piece lx e p q).0)
]
