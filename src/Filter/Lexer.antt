-- ===== src/Filter/Lexer.antt =====
-- filter/lexer.go: bytes into lexems.
mod Progress
pub mod Weight
pub mod Lossless
use atmail.Prelude.{
  bind, ℕ, zero, suc, ◌+◌, Bool, true, false, not, ◌&&◌, ◌||◌, Option, none, some, List, [], ◌∷◌,
  ◌++◌, ◌==◌, if◌then◌else◌, is_empty, length, Text, text, eq_text, contains, write_rune,
}
use atmail.Filter.Kind.{
  Kind, identifier, separator, operator_low, operator_high, block_beg, block_end, block_filter,
  let_assign, comment, generic, kind_eq, valid_ops, contains_byte, kind_of,
}

pub record Lexem : Type 0 where
  pub kind : Kind
  pub value : Text
  pub line : ℕ

-- The reader of the source is the bytes that are left.
pub record Lexer : Type 0 where
  pub content : Text
  pub current : Option Lexem
  pub line : ℕ
  pub char : ℕ

unfoldable pub new_lexer : Text → Lexer
new_lexer t = record { content = t; current = none; line = 1; char = 0 }

unfoldable pub is_hard_sep : Lexem → Bool
unfolding kind_eq contains_byte
is_hard_sep lm = kind_eq lm.kind separator && contains_byte lm.value 10

-- The byte at hand and the one after it; `none` at the end of the input.
unfoldable pub peek_next : Text → Option (ℕ × Option ℕ)
peek_next [] = none
peek_next (c ∷ []) = some (c, none)
peek_next (c ∷ d ∷ t) = some (c, some d)

-- content.ReadBytes('\n').
unfoldable pub read_line : Text → Text
read_line [] = []
read_line (c ∷ t) = if c == 10 then t else read_line t

-- content.ReadByte().
unfoldable pub read_byte : Text → Text
read_byte [] = []
read_byte (c ∷ t) = t

-- The variables of the loop in `Next`: current, next, ckind and unique.
pub record Look : Type 0 where
  pub current : ℕ
  pub next : Option ℕ
  pub ckind : Kind
  pub unique : Bool

unfoldable pub look : Option Kind → ℕ → Option ℕ → Look
unfolding kind_of
look before c n =
    let (k, u) = kind_of before c n in record { current = c; next = n; ckind = k; unique = u }

-- What the loop sees once `peekNext` has answered inside the loop over comments: at the end of the
-- input the answer is (0, nil, false), and the kind stays that of the comment.
abbrev pub at_end : Look → Look
at_end k = record k { current = 0; next = none }

-- `for ckind == comment`. `none` is the end of the fuel.
unfoldable pub skip_comments : ℕ → Option Kind → Lexer → Look → Option (Lexer × Look)
unfolding kind_eq look peek_next read_line
skip_comments zero before lx k = none
skip_comments (suc f) before lx k =
    let t = read_line lx.content in
    let again : Option (Lexer × Look) = elim (peek_next t) [
      | none ↦ some (record lx { content = t }, at_end k)
      | some (c, n) ↦
          skip_comments f before (record lx { content = t; line = lx.line + 1; char = 0 })
            (look before c n)
    ] in
    if kind_eq k.ckind comment then again else some (lx, k)

-- The two `break`s on a lexem that ends before the byte at hand.
unfoldable pub breaks : Option Kind → Text → Look → Bool
unfolding kind_eq
breaks none sb k = k.unique && not (is_empty sb)
breaks (some kind) sb k = not (kind_eq kind k.ckind) || (k.unique && not (is_empty sb))

-- `ReadByte`, and the position after it.
unfoldable pub consume : Look → Lexer → Lexer
unfolding read_byte
consume k lx =
    if k.current == 10
    then record lx { content = read_byte lx.content; line = lx.line + 1; char = 0 }
    else record lx { content = read_byte lx.content; char = lx.char + 1 }

-- The variables of the loop when it ends: kind, the value that was built, and the lexer.
pub record Scanned : Type 0 where
  pub kind : Option Kind
  pub value : Text
  pub rest : Lexer

-- The rest of a round, after the loop over comments: leave, or take the byte and go on with `loop`.
unfoldable pub advance :
    (Option Kind → Text → Lexer → Option Scanned)
    → Option Kind
    → Text
    → Lexer × Look
    → Option Scanned
unfolding breaks consume write_rune
advance loop kind sb (lx, k) =
    let sb' = sb ++ write_rune k.current in
    let taken : Option Scanned = elim k.next [
      | none ↦ some (record { kind = some k.ckind; value = sb'; rest = consume k lx })
      | some _ ↦ loop (some k.ckind) sb' (consume k lx)
    ] in
    if breaks kind sb k then some (record { kind = kind; value = sb; rest = lx }) else taken

-- The loop of `Next`. `none` is the end of the fuel.
unfoldable pub scan : ℕ → Option Kind → Text → Lexer → Option Scanned
unfolding peek_next look skip_comments advance
scan zero kind sb lx = none
scan (suc f) kind sb lx = elim (peek_next lx.content) [
  | none ↦ some (record { kind = kind; value = sb; rest = lx })
  | some (c, n) ↦ bind (skip_comments (suc f) kind lx (look kind c n)) (advance (scan f) kind sb)
]

-- The switch at the end of `Next`.
unfoldable pub classify : Kind → Text → Kind
unfolding eq_text contains
classify identifier v =
    if eq_text v (text "do")
    then block_beg
    else if eq_text v (text "end")
    then block_end
    else if eq_text v (text "filter")
    then block_filter
    else if eq_text v (text "or")
    then operator_high
    else if eq_text v (text "let")
    then let_assign
    else identifier
classify operator_low v = if contains valid_ops v then operator_low else generic
classify kind v = kind

unfoldable pub finish : ℕ → Lexer → Option Scanned → Option Lexem × Lexer
unfolding classify
finish line lx none = (none, lx)
finish line lx (some s) = elim s.kind [
  | none ↦ (none, s.rest)
  | some k ↦ (some (record { kind = classify k s.value; value = s.value; line = line }), s.rest)
]

unfoldable pub next_from : Option Lexem → Lexer → Option Lexem × Lexer
unfolding scan finish
next_from (some lm) lx = (some lm, record lx { current = none })
next_from none lx = finish lx.line lx (scan (suc (length lx.content)) none [] lx)

-- The lexem and the lexer after it. One unit of fuel for each byte and one more are enough.
unfoldable pub next : Lexer → Option Lexem × Lexer
unfolding next_from
next lx = next_from lx.current lx

unfoldable pub keep_current : Option Lexem × Lexer → Option Lexem × Lexer
keep_current (lm, lx) = (lm, record lx { current = lm })

unfoldable pub peek_from : Option Lexem → Lexer → Option Lexem × Lexer
unfolding next keep_current
peek_from (some lm) lx = (some lm, lx)
peek_from none lx = keep_current (next lx)

unfoldable pub peek : Lexer → Option Lexem × Lexer
unfolding peek_from
peek lx = peek_from lx.current lx

unfoldable pub skip_peeked : Option Lexem × Lexer → Bool × Lexer
unfolding kind_eq next
skip_peeked (none, lx) = (false, lx)
skip_peeked (some lm, lx) = if kind_eq lm.kind separator then (true, (next lx).1) else (false, lx)

unfoldable pub skip_sep : Lexer → Bool × Lexer
unfolding peek skip_peeked
skip_sep lx = skip_peeked (peek lx)
