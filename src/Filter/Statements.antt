-- ===== src/Filter/Statements.antt =====
-- filter/ast.go, filter/filter.go: the recursive descent on statements, and `Parse`.
pub mod Total
use atmail.Prelude.{
  ℕ, zero, suc, Bool, Option, none, some, List, [], ◌∷◌, ◌++◌, if◌then◌else◌, length, Text, text,
  eq_text, not, ◌||◌,
}
use atmail.Filter.Kind.{
  Kind, identifier, identifier_param_beg, string_del, number, operator_low, block_beg, block_end,
  block_filter, let_assign,
}
use atmail.Filter.Lexer.{Lexem, Lexer, is_hard_sep, new_lexer}
use atmail.Filter.Outcome.{
  Err, expected_statement, invalid_statement, block_ended, block_not_ended, is_block_ended, parsing,
  Outcome, ok, fail, starved, panicked, Parser, ◌>>=◌, ◌>>◌, pure, raise, next, peek, skip_sep,
  next_or_err, peek_or_err, with_line, set_line, is_kind,
}
use atmail.Filter.Floats.{Floats}
use atmail.Filter.Syntax.{
  Expression, Statement, expressions, expression_statement, action_statement, let_statement,
  filter_statement, statements,
}
use atmail.Filter.Parser.{parse_string, parse_expression, parse_params}

-- The statements and the error of `ParseStatements`: at the `end` of a block it answers both.
abbrev pub Parsed : Type 0 → Type 0
Parsed F = List (Statement F) × Option Err

-- A call whose error the caller looks at.
unfoldable pub attempt : {F : Type 0} → Outcome (Parsed F) → Outcome (Parsed F)
attempt (fail e lx) = ok ([], some e) lx
attempt o = o

module _ (fl : Floats) where
  open fl use {Float}

  abbrev pub Stmt : Type 0
  Stmt = Statement Float

  -- A lexem of the wanted kind, or `ErrInvalidStatement`.
  unfoldable pub want : Kind → Lexem → Parser Text
  want k lm = if is_kind k lm then pure lm.value else raise invalid_statement

  unfoldable pub end_expr : Expression Float → Option Lexem → Parser Stmt
  unfolding is_hard_sep
  end_expr e none = pure (expression_statement e)
  end_expr e (some lm) =
      if is_hard_sep lm then pure (expression_statement e) else raise invalid_statement

  unfoldable pub parse_expr_statement : ℕ → Parser Stmt
  unfolding with_line parse_expression next end_expr
  parse_expr_statement n = with_line do e ← parse_expression fl n; o ← next; end_expr e o

  unfoldable pub parse_action_statement : ℕ → Parser Stmt
  unfolding with_line skip_sep next_or_err want parse_params parse_expression
  parse_action_statement n = with_line do
    skip_sep
    name ← (next_or_err >>= want identifier)
    next_or_err >>= want identifier_param_beg
    params ← parse_params fl n (parse_expression fl n)
    pure (action_statement name (expressions params))

  unfoldable pub want_equal : Lexem → Parser (Unit {0})
  unfolding eq_text
  want_equal lm =
      if not (is_kind operator_low lm) || not (eq_text lm.value (text "="))
      then raise invalid_statement
      else pure tt

  unfoldable pub parse_let_statement : ℕ → Parser Stmt
  unfolding with_line skip_sep next_or_err want want_equal parse_expression
  parse_let_statement n = with_line do
    skip_sep
    name ← (next_or_err >>= want identifier)
    skip_sep
    next_or_err >>= want_equal
    skip_sep
    e ← parse_expression fl n
    pure (let_statement name e)

  -- The name in the head of a filter, by the kind of the lexem that was peeked at.
  unfoldable pub filter_name : ℕ → Kind → ℕ → Parser Text
  unfolding parse_string skip_sep set_line
  filter_name n block_beg line = pure []
  filter_name n string_del line = do
    name ← (λ lx. set_line line (parse_string n lx))
    skip_sep
    pure name
  filter_name n _ line = raise (parsing line invalid_statement)

  -- The lexem of `do`. `NextOrErr` answers the zero Lexem beside its error, so the line is 0.
  unfoldable pub want_block : Lexem → Parser (Unit {0})
  want_block lm =
      if is_kind block_beg lm then pure tt else raise (parsing lm.line invalid_statement)

  -- The end of `parseFilter`, from what `ParseStatements` answered.
  unfoldable pub end_filter : Text → Parsed Float → Parser Stmt
  unfolding skip_sep
  end_filter name (stmts, none) = raise block_not_ended
  end_filter name (stmts, some e) =
      if is_block_ended e
      then (do skip_sep; pure (filter_statement name (statements stmts)))
      else raise e

  -- `body` is `ParseStatements`.
  unfoldable pub parse_filter : ℕ → Parser (Parsed Float) → Parser Stmt
  unfolding skip_sep peek_or_err filter_name next_or_err set_line want_block attempt end_filter
  parse_filter n body = do
    skip_sep
    lm ← peek_or_err
    name ← filter_name n lm.kind lm.line
    (λ lx. set_line 0 (next_or_err lx)) >>= want_block
    skip_sep
    parsed ← (λ lx. attempt (body lx))
    end_filter name parsed

  -- What the switch of `ParseStatements` chooses.
  pub data Choice : Type 0 where
    statement : Parser Stmt → Choice
    ended unexpected : Choice

  unfoldable pub choose : ℕ → Parser (Parsed Float) → Kind → Choice
  unfolding next parse_expr_statement parse_filter parse_action_statement parse_let_statement
  choose n body identifier = statement (parse_expr_statement n)
  choose n body number = statement (parse_expr_statement n)
  choose n body string_del = statement (parse_expr_statement n)
  choose n body block_filter = statement (next >> parse_filter n body)
  choose n body block_beg = statement (next >> parse_action_statement n)
  choose n body let_assign = statement (next >> parse_let_statement n)
  choose n body block_end = ended
  choose n body _ = unexpected

  unfoldable pub raise_here : Err → Parser (Parsed Float)
  raise_here e lx = fail (parsing lx.line e) lx

  unfoldable pub stop_here : List Stmt → Parser (Parsed Float)
  stop_here stmts lx = ok (stmts, some (parsing lx.line block_ended)) lx

  -- A round of the loop, after the switch. `loop` is the next one.
  unfoldable pub round :
      (List Stmt → Parser (Parsed Float)) → List Stmt → Choice → Parser (Parsed Float)
  unfolding skip_sep next raise_here stop_here
  round loop stmts (statement p) = do stmt ← p; skip_sep; loop (stmts ++ stmt ∷ [])
  round loop stmts ended = do next; stop_here stmts
  round loop stmts unexpected = raise_here expected_statement

  unfoldable pub round_at :
      (List Stmt → Parser (Parsed Float))
      → ℕ
      → Parser (Parsed Float)
      → List Stmt
      → Option Lexem
      → Parser (Parsed Float)
  unfolding choose round
  round_at loop n body stmts none = pure (stmts, none)
  round_at loop n body stmts (some lm) = round loop stmts (choose n body lm.kind)

  -- `ParseStatements` from the statements that it has. A unit of fuel is a statement, or a block.
  unfoldable pub parse_statements : ℕ → List Stmt → Parser (Parsed Float)
  unfolding peek round_at
  parse_statements zero stmts = λ _. starved
  parse_statements (suc f) stmts = do
    lm ← peek
    round_at (parse_statements f) (suc f) (parse_statements f []) stmts lm

  -- `Parse`: the tree and the error. One unit of fuel for each byte and one more are enough.
  unfoldable pub parse : Text → Outcome (Parsed Float)
  unfolding attempt parse_statements new_lexer
  parse t = attempt (parse_statements (suc (length t)) [] (new_lexer t))
