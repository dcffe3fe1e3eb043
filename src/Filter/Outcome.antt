-- ===== src/Filter/Outcome.antt =====
-- filter/ast.go, filter/lexer.go: the errors of the parser, and its functions as a monad.
-- A loop or a recursion takes fuel; `starved` is the end of it and has no counterpart in the code.
-- `panicked` is a nil dereference.
pub mod Ends
use atmail.Prelude.{ℕ, Bool, true, false, Option, none, some, Text}
use atmail.Filter.Kind.{Kind, kind_eq}
use atmail.Filter.Lexer
use atmail.Filter.Lexer.{Lexem, Lexer}

-- `parsing` is `ParsingError`, `not_a_number` the error of strconv.
pub data Err : Type 0 where
  expecting_token : ℕ → Err
  expected_statement invalid_expression invalid_statement block_ended block_not_ended not_a_number :
      Err
  parsing : ℕ → Err → Err

-- errors.Is(err, ErrBlockEnded), through `Unwrap`.
abbrev pub is_block_ended : Err → Bool
is_block_ended block_ended = true
is_block_ended (parsing _ e) = is_block_ended e
is_block_ended _ = false

-- An error leaves the lexer where it stood.
pub data Outcome (A : Type 0) : Type 0 where
  ok : A → Lexer → Outcome A
  fail : Err → Lexer → Outcome A
  starved : Outcome A
  panicked : Outcome A

abbrev pub Parser : Type 0 → Type 0
Parser A = Lexer → Outcome A

abbrev pub bind_outcome : {A B : Type 0} → Outcome A → (A → Parser B) → Outcome B
bind_outcome (ok a lx) f = f a lx
bind_outcome (fail e lx) f = fail e lx
bind_outcome starved f = starved
bind_outcome panicked f = panicked

infixl 1 ◌>>=◌ ◌>>◌
abbrev pub ◌>>=◌ : {A B : Type 0} → Parser A → (A → Parser B) → Parser B
p >>= f = λ lx. bind_outcome (p lx) f

abbrev pub ◌>>◌ : {A B : Type 0} → Parser A → Parser B → Parser B
p >> q = p >>= λ _. q

abbrev pub pure : {A : Type 0} → A → Parser A
pure a lx = ok a lx

abbrev pub raise : {A : Type 0} → Err → Parser A
raise e lx = fail e lx

-- The lexer's methods as parsers.
unfoldable pub next : Parser (Option Lexem)
next lx = let (o, lx') = Lexer.next lx in ok o lx'

unfoldable pub peek : Parser (Option Lexem)
peek lx = let (o, lx') = Lexer.peek lx in ok o lx'

unfoldable pub skip_sep : Parser Bool
skip_sep lx = let (b, lx') = Lexer.skip_sep lx in ok b lx'

-- The value of a lexem, or `ExpectingTokenError` with the position of the lexer.
unfoldable pub or_expecting : Option Lexem → Parser Lexem
or_expecting none lx = fail (expecting_token lx.char) lx
or_expecting (some lm) lx = ok lm lx

unfoldable pub next_or_err : Parser Lexem
unfolding next or_expecting
next_or_err = next >>= or_expecting

unfoldable pub peek_or_err : Parser Lexem
unfolding peek or_expecting
peek_or_err = peek >>= or_expecting

-- The deferred `err = ParsingError{lx.line, err}`.
unfoldable pub add_line : {A : Type 0} → Outcome A → Outcome A
add_line (ok a lx) = ok a lx
add_line (fail e lx) = fail (parsing lx.line e) lx
add_line starved = starved
add_line panicked = panicked

unfoldable pub with_line : {A : Type 0} → Parser A → Parser A
unfolding add_line
with_line p lx = add_line (p lx)

-- ParsingError{line, err} for an error of `p`.
unfoldable pub set_line : {A : Type 0} → ℕ → Outcome A → Outcome A
set_line n (ok a lx) = ok a lx
set_line n (fail e lx) = fail (parsing n e) lx
set_line n starved = starved
set_line n panicked = panicked

abbrev pub is_kind : Kind → Lexem → Bool
is_kind k lm = kind_eq lm.kind k

-- The lexem that a caller has peeked at: `lx.Next().Value` dereferences nil where there is none.
unfoldable pub present : Option Lexem → Parser Lexem
present none lx = panicked
present (some lm) lx = ok lm lx
