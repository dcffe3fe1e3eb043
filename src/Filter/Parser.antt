-- ===== src/Filter/Parser.antt =====
-- filter/expression.go, filter/literal.go: the recursive descent on expressions.
pub mod Total
use atmail.Prelude.{
  ℕ, zero, suc, Bool, Option, none, some, List, [], ◌∷◌, ◌++◌, if◌then◌else◌, Text,
}
use atmail.Filter.Kind.{
  Kind, identifier, identifier_compose, identifier_execute, identifier_param_beg,
  identifier_param_end, identifier_param_sep, string_del, number, operator_low, operator_high,
  separator,
}
use atmail.Filter.Lexer.{Lexem, is_hard_sep}
use atmail.Filter.Outcome.{
  expected_statement, invalid_expression, not_a_number, Parser, ok, starved, ◌>>=◌, ◌>>◌, pure,
  raise, next, peek, skip_sep, next_or_err, peek_or_err, is_kind, present,
}
use atmail.Filter.Floats.{Floats}
use atmail.Filter.Syntax.{
  Expression, literal_number, literal_string, operator_expression, variable, field, method,
  expressions,
}

unfoldable pub string_loop : ℕ → Text → Parser Text
unfolding next_or_err
string_loop zero sb = λ _. starved
string_loop (suc f) sb = do
  cur ← next_or_err
  let more = string_loop f (sb ++ cur.value)
  if is_kind string_del cur then pure sb else more

unfoldable pub parse_string : ℕ → Parser Text
unfolding next string_loop
parse_string n = do next; string_loop n []

module _ (fl : Floats) where
  open fl use {Float, parse_float}

  abbrev pub Expr : Type 0
  Expr = Expression Float

  unfoldable pub float_of : Option Float → Parser Float
  float_of none = raise not_a_number
  float_of (some x) = pure x

  unfoldable pub parse_number : Parser Float
  unfolding next present float_of
  parse_number = do lm ← (next >>= present); float_of (parse_float lm.value)

  -- The loop of `parseOperator`. `loop` is the next round.
  unfoldable pub after_operator : (Expr → Parser Expr) → Parser Expr → Expr → Lexem → Parser Expr
  unfolding next skip_sep peek_or_err
  after_operator loop next_op left op = do
    next
    skip_sep
    peek_or_err
    right ← next_op
    loop (operator_expression op.value left right)

  unfoldable pub operator_at :
      (Expr → Parser Expr) → Kind → Parser Expr → Expr → Option Lexem → Parser Expr
  unfolding after_operator
  operator_at loop kind next_op left none = pure left
  operator_at loop kind next_op left (some op) =
      if is_kind kind op then after_operator loop next_op left op else pure left

  unfoldable pub drop_separator : Lexem → Parser (Unit {0})
  unfolding next
  drop_separator lm = if is_kind separator lm then next >> pure tt else pure tt

  unfoldable pub operator_round :
      (Expr → Parser Expr) → Kind → Parser Expr → Expr → Option Lexem → Parser Expr
  unfolding is_hard_sep drop_separator peek operator_at
  operator_round loop kind next_op left none = pure left
  operator_round loop kind next_op left (some lm) =
      if is_hard_sep lm
      then pure left
      else do drop_separator lm; op ← peek; operator_at loop kind next_op left op

  unfoldable pub operator_loop : ℕ → Kind → Parser Expr → Expr → Parser Expr
  unfolding peek operator_round
  operator_loop zero kind next_op left = λ _. starved
  operator_loop (suc f) kind next_op left = do
    lm ← peek
    operator_round (operator_loop f kind next_op) kind next_op left lm

  unfoldable pub parse_operator : ℕ → Kind → Parser Expr → Parser Expr
  unfolding operator_loop
  parse_operator n kind next_op = do left ← next_op; operator_loop n kind next_op left

  -- What stands after a parameter. `parse_expr` is `parseExpression`.
  unfoldable pub after_param : Option Lexem → Parser (Unit {0})
  unfolding next skip_sep
  after_param none = raise invalid_expression
  after_param (some lm) =
      if is_kind identifier_param_end lm
      then pure tt
      else if is_kind identifier_param_sep lm
      then (next >> skip_sep >> pure tt)
      else raise invalid_expression

  unfoldable pub params_loop : ℕ → Parser Expr → List Expr → Parser (List Expr)
  unfolding peek_or_err next skip_sep peek after_param
  params_loop zero parse_expr params = λ _. starved
  params_loop (suc f) parse_expr params = do
    cur ← peek_or_err
    let more = do
      e ← parse_expr
      skip_sep
      o ← peek
      after_param o
      params_loop f parse_expr (params ++ e ∷ [])
    if is_kind identifier_param_end cur then next >> pure params else more

  unfoldable pub parse_params : ℕ → Parser Expr → Parser (List Expr)
  unfolding skip_sep params_loop
  parse_params n parse_expr = do skip_sep; params_loop n parse_expr []

  -- A lexem of the wanted kind, or `ErrInvalidExpression`.
  unfoldable pub want : Kind → Lexem → Parser Text
  want k lm = if is_kind k lm then pure lm.value else raise invalid_expression

  -- The switch of `parseEval`. `loop` is the next round.
  unfoldable pub eval_at : Kind → (Expr → Parser Expr) → Parser (List Expr) → Expr → Parser Expr
  unfolding next next_or_err want
  eval_at identifier_compose loop params before = do
    next
    name ← (next_or_err >>= want identifier)
    loop (field name before)
  eval_at identifier_execute loop params before = do
    next
    name ← (next_or_err >>= want identifier)
    next_or_err >>= want identifier_param_beg
    ps ← params
    loop (method name before (expressions ps))
  eval_at _ loop params before = pure before

  unfoldable pub eval_round :
      (Expr → Parser Expr) → Parser (List Expr) → Expr → Option Lexem → Parser Expr
  unfolding is_hard_sep eval_at
  eval_round loop params before none = pure before
  eval_round loop params before (some cur) =
      if is_hard_sep cur then pure before else eval_at cur.kind loop params before

  unfoldable pub eval_loop : ℕ → Parser (List Expr) → Expr → Parser Expr
  unfolding peek eval_round
  eval_loop zero params before = λ _. starved
  eval_loop (suc f) params before = do cur ← peek; eval_round (eval_loop f params) params before cur

  unfoldable pub parse_eval : ℕ → Parser Expr → Parser Expr
  unfolding next present eval_loop parse_params
  parse_eval n parse_expr = do
    lm ← (next >>= present)
    eval_loop n (parse_params n parse_expr) (variable lm.value)

  unfoldable pub close_param : Expr → Option Lexem → Parser Expr
  close_param expr none = raise invalid_expression
  close_param expr (some lm) =
      if is_kind identifier_param_end lm then pure expr else raise invalid_expression

  -- The switch of `parseExpressionLiteral`.
  unfoldable pub literal_at : Kind → ℕ → Parser Expr → Parser Expr
  unfolding next skip_sep close_param parse_eval parse_number parse_string
  literal_at identifier_param_beg n parse_expr = do
    next
    skip_sep
    expr ← parse_expr
    skip_sep
    o ← next
    close_param expr o
  literal_at identifier n parse_expr = parse_eval n parse_expr
  literal_at number n parse_expr = do x ← parse_number; pure (literal_number x)
  literal_at string_del n parse_expr = do s ← parse_string n; pure (literal_string s)
  literal_at _ n parse_expr = raise invalid_expression

  unfoldable pub literal_of : ℕ → Parser Expr → Option Lexem → Parser Expr
  unfolding literal_at
  literal_of n parse_expr none = raise expected_statement
  literal_of n parse_expr (some cur) = literal_at cur.kind n parse_expr

  unfoldable pub parse_expression_literal : ℕ → Parser Expr → Parser Expr
  unfolding peek literal_of
  parse_expression_literal n parse_expr = do cur ← peek; literal_of n parse_expr cur

  unfoldable pub parse_expression_low : ℕ → Parser Expr → Parser Expr
  unfolding parse_operator parse_expression_literal
  parse_expression_low n parse_expr =
      parse_operator n operator_low (parse_expression_literal n parse_expr)

  unfoldable pub parse_expression_high : ℕ → Parser Expr → Parser Expr
  unfolding parse_operator parse_expression_low
  parse_expression_high n parse_expr =
      parse_operator n operator_high (parse_expression_low n parse_expr)

  -- `parseExpression`. A unit of fuel is one level of brackets or parameters; the loops have it too.
  unfoldable pub parse_expression : ℕ → Parser Expr
  unfolding parse_expression_high
  parse_expression zero = λ _. starved
  parse_expression (suc f) = parse_expression_high (suc f) (parse_expression f)
