-- ===== src/Filter/Parser/Total.antt =====
-- The parser of expressions ends, and takes from the input.
use atmail.Prelude.{
  ℕ, zero, suc, ◌≤◌, ◌<◌, ◌≡◌, refl, Option, none, some, List, [], ◌∷◌, ◌++◌, arith, Text,
}
use atmail.Filter.Kind.{
  Kind, identifier, identifier_compose, identifier_execute, identifier_param_beg,
  identifier_param_end, identifier_param_sep, string_del, number, operator_low, operator_high,
  separator,
}
use atmail.Filter.Lexer.{Lexem, Lexer, is_hard_sep}
use atmail.Filter.Lexer.Weight.{weight}
use atmail.Filter.Outcome.{Parser, next_or_err, is_kind, bind_outcome}
use atmail.Filter.Outcome.Ends.{
  Ends, returned, failed, Under, Ends-bind, Ends-widen, Ends-if, Held, Fewer, peek-Ends, next-Ends,
  next_held-Ends, next_present-Ends, skip_sep-Ends, next_or_err-Ends, peek_or_err-Ends,
}
use atmail.Filter.Floats.{Floats}
use atmail.Filter.Syntax.{
  operator_expression, literal_number, literal_string, variable, field, method, expressions,
}
use atmail.Filter.Parser.{
  string_loop, parse_string, Expr, float_of, parse_number, after_operator, operator_at,
  drop_separator, operator_round, operator_loop, parse_operator, after_param, params_loop,
  parse_params, want, eval_at, eval_round, eval_loop, parse_eval, close_param, literal_at,
  literal_of, parse_expression_literal, parse_expression_low, parse_expression_high,
  parse_expression,
}

string_loop-Ends :
    (f : ℕ) (sb : Text) (lx : Lexer)
    → weight lx < f
    → Ends (Under (suc (weight lx))) (string_loop f sb lx)
unfolding string_loop
string_loop-Ends zero sb lx h = absurd (omega arith)
string_loop-Ends (suc f) sb lx h = Ends-bind (next_or_err-Ends lx) λ cur lx₁ h₁.
    Ends-if (is_kind string_del cur) _ _ lx₁ (returned (omega arith))
      (Ends-widen (string_loop-Ends f (sb ++ cur.value) lx₁ (omega arith)) (omega arith))

-- From a stored quote: the text is taken.
pub parse_string-Ends :
    (n : ℕ) (lx : Lexer) {lm : Lexem}
    → weight lx ≤ n
    → lx.current ≡ some lm
    → Ends (Under (weight lx)) (parse_string n lx)
unfolding parse_string
parse_string-Ends n lx h e =
    Ends-bind (next_held-Ends lx e)
      λ _ lx₁ h₁. Ends-widen (string_loop-Ends n [] lx₁ (omega arith)) (omega arith)

pub Fewer-le : (n : ℕ) (o : Option Lexem) (lx : Lexer) → Fewer n o lx → weight lx ≤ n
Fewer-le n none lx h = h
Fewer-le n (some lm) lx h = omega arith

module _ (fl : Floats) where
  open fl use {Float, parse_float}

  float_of-Ends :
      (o : Option Float) (lx : Lexer) → Ends (Under (suc (weight lx))) (float_of fl o lx)
  unfolding float_of
  float_of-Ends none lx = failed refl
  float_of-Ends (some x) lx = returned (omega arith)

  parse_number-Ends :
      (lx : Lexer) {lm : Lexem}
      → lx.current ≡ some lm
      → Ends (Under (weight lx)) (parse_number fl lx)
  unfolding parse_number
  parse_number-Ends lx e =
      Ends-bind (next_present-Ends lx e)
        λ lm lx₁ h₁. Ends-widen (float_of-Ends (parse_float lm.value) lx₁) (omega arith)

  drop_separator-Ends :
      (lm : Lexem) (lx : Lexer)
      → lx.current ≡ some lm
      → Ends (Under (suc (weight lx))) (drop_separator fl lm lx)
  unfolding drop_separator
  drop_separator-Ends lm lx e =
      Ends-if (is_kind separator lm) _ _ lx
        (Ends-bind (next_held-Ends lx e) λ _ lx₁ h₁. returned {lx = lx₁} (omega arith))
        (returned {lx = lx} (omega arith))

  -- A parser that ends below fuel `n` and takes from the input.
  abbrev pub Takes : {A : Type 0} → ℕ → Parser A → Type 0
  Takes n p = (lx : Lexer) → weight lx < n → Ends (Under (weight lx)) (p lx)

  module _ (n : ℕ) (kind : Kind) (next_op : Parser (Expr fl))
      (next_op-Takes : Takes n next_op) where
    after_operator-Ends :
        (loop : Expr fl → Parser (Expr fl)) (left : Expr fl) (op : Lexem) (lx : Lexer)
        → weight lx < n
        → lx.current ≡ some op
        → ((e : Expr fl) (lx' : Lexer)
            → weight lx' < weight lx
            → Ends (Under (suc (weight lx'))) (loop e lx'))
        → Ends (Under (suc (weight lx))) (after_operator fl loop next_op left op lx)
    unfolding after_operator
    after_operator-Ends loop left op lx h e hloop = Ends-bind (next_held-Ends lx e) λ _ lx₁ h₁.
        Ends-bind (skip_sep-Ends lx₁) λ _ lx₂ h₂. Ends-bind (peek_or_err-Ends lx₂) λ _ lx₃ h₃.
          Ends-bind (next_op-Takes lx₃ (omega arith)) λ right lx₄ h₄.
            Ends-widen (hloop (operator_expression op.value left right) lx₄ (omega arith))
              (omega arith)

    operator_at-Ends :
        (loop : Expr fl → Parser (Expr fl)) (left : Expr fl) (o : Option Lexem) (lx : Lexer)
        → weight lx < n
        → Held o lx
        → ((e : Expr fl) (lx' : Lexer)
            → weight lx' < weight lx
            → Ends (Under (suc (weight lx'))) (loop e lx'))
        → Ends (Under (suc (weight lx))) (operator_at fl loop kind next_op left o lx)
    unfolding operator_at
    operator_at-Ends loop left none lx h e hloop = returned (omega arith)
    operator_at-Ends loop left (some op) lx h e hloop =
        Ends-if (is_kind kind op) _ _ lx (after_operator-Ends loop left op lx h e hloop)
          (returned (omega arith))

    operator_round-Ends :
        (loop : Expr fl → Parser (Expr fl)) (left : Expr fl) (o : Option Lexem) (lx : Lexer)
        → weight lx < n
        → Held o lx
        → ((e : Expr fl) (lx' : Lexer)
            → weight lx' < weight lx
            → Ends (Under (suc (weight lx'))) (loop e lx'))
        → Ends (Under (suc (weight lx))) (operator_round fl loop kind next_op left o lx)
    unfolding operator_round
    operator_round-Ends loop left none lx h e hloop = returned (omega arith)
    operator_round-Ends loop left (some lm) lx h e hloop =
        Ends-if (is_hard_sep lm) _ _ lx (returned (omega arith)) (
          Ends-bind (drop_separator-Ends lm lx e) λ _ lx₁ h₁. Ends-bind (peek-Ends lx₁) λ op lx₂ h₂.
            Ends-widen
              (operator_at-Ends loop left op lx₂ (omega arith) h₂.1
                λ e' lx' h'. hloop e' lx' (omega arith))
              (omega arith))

    operator_loop-Ends :
        (f : ℕ) (left : Expr fl) (lx : Lexer)
        → weight lx < f
        → weight lx < n
        → Ends (Under (suc (weight lx))) (operator_loop fl f kind next_op left lx)
    unfolding operator_loop
    operator_loop-Ends zero left lx h g = absurd (omega arith)
    operator_loop-Ends (suc f) left lx h g = Ends-bind (peek-Ends lx) λ o lx₁ h₁.
        Ends-widen
          (operator_round-Ends (operator_loop fl f kind next_op) left o lx₁ (omega arith) h₁.1
            λ e lx' h'. operator_loop-Ends f e lx' (omega arith) (omega arith))
          (omega arith)

    parse_operator-Takes : Takes n (parse_operator fl n kind next_op)
    unfolding parse_operator
    parse_operator-Takes lx h = Ends-bind (next_op-Takes lx h) λ left lx₁ h₁.
        Ends-widen (operator_loop-Ends n left lx₁ (omega arith) (omega arith)) (omega arith)

  after_param-Ends :
      (o : Option Lexem) (lx : Lexer)
      → Held o lx
      → Ends (Under (suc (weight lx))) (after_param fl o lx)
  unfolding after_param
  after_param-Ends none lx e = failed refl
  after_param-Ends (some lm) lx e =
      Ends-if (is_kind identifier_param_end lm) _ _ lx (returned {lx = lx} (omega arith)) (
        Ends-if (is_kind identifier_param_sep lm) _ _ lx
          (Ends-bind
            (Ends-bind (next_held-Ends lx e)
              λ _ lx₁ h₁. Ends-widen (skip_sep-Ends lx₁) (omega arith))
            λ _ lx₂ h₂. returned {lx = lx₂} h₂)
          (failed refl))

  want-Ends :
      (k : Kind) (lm : Lexem) (lx : Lexer) → Ends (Under (suc (weight lx))) (want fl k lm lx)
  unfolding want
  want-Ends k lm lx = Ends-if (is_kind k lm) _ _ lx (returned {lx = lx} (omega arith)) (failed refl)

  wanted-Ends :
      (k : Kind) (lx : Lexer) → Ends (Under (weight lx)) (bind_outcome (next_or_err lx) (want fl k))
  wanted-Ends k lx =
      Ends-bind (next_or_err-Ends lx) λ lm lx₁ h₁. Ends-widen (want-Ends k lm lx₁) (omega arith)

  -- `parse_expr` is `parseExpression` one level down, where less than `m` is left; `n` is the fuel of
  -- the loops.
  module _ (n m : ℕ) (fits : m ≤ n) (parse_expr : Parser (Expr fl))
      (parse_expr-Takes : Takes m parse_expr) where
    params_loop-Ends :
        (f : ℕ) (params : List (Expr fl)) (lx : Lexer)
        → weight lx < f
        → weight lx < m
        → Ends (Under (weight lx)) (params_loop fl f parse_expr params lx)
    unfolding params_loop
    params_loop-Ends zero params lx h g = absurd (omega arith)
    params_loop-Ends (suc f) params lx h g = Ends-bind (peek_or_err-Ends lx) λ cur lx₁ h₁.
        Ends-if (is_kind identifier_param_end cur) _ _ lx₁
          (Ends-bind (next_held-Ends lx₁ h₁.1)
            λ _ lx₂ h₂. returned {a = params} {lx = lx₂} (omega arith))
          (Ends-bind (parse_expr-Takes lx₁ (omega arith)) λ e lx₂ h₂.
            Ends-bind (skip_sep-Ends lx₂) λ _ lx₃ h₃. Ends-bind (peek-Ends lx₃) λ o lx₄ h₄.
              Ends-bind (after_param-Ends o lx₄ h₄.1) λ _ lx₅ h₅.
                Ends-widen (params_loop-Ends f (params ++ e ∷ []) lx₅ (omega arith) (omega arith))
                  (omega arith))

    pub parse_params-Ends : Takes m (parse_params fl n parse_expr)
    unfolding parse_params
    parse_params-Ends lx h =
        Ends-bind (skip_sep-Ends lx) λ _ lx₁ h₁.
          Ends-widen (params_loop-Ends n [] lx₁ (omega arith) (omega arith)) (omega arith)

    module _ (loop : Expr fl → Parser (Expr fl)) (lx : Lexer)
        (loop-Ends : (e : Expr fl) (lx' : Lexer)
          → weight lx' < weight lx
          → Ends (Under (suc (weight lx'))) (loop e lx'))
        (small : weight lx < m) where
      eval_at-Ends :
          (k : Kind) (before : Expr fl) {lm : Lexem}
          → lx.current ≡ some lm
          → Ends
              (Under (suc (weight lx)))
              (eval_at fl k loop (parse_params fl n parse_expr) before lx)
      unfolding eval_at
      eval_at-Ends identifier_compose before e = Ends-bind (next_held-Ends lx e) λ _ lx₁ h₁.
          Ends-bind (wanted-Ends identifier lx₁) λ name lx₂ h₂.
            Ends-widen (loop-Ends (field name before) lx₂ (omega arith)) (omega arith)
      eval_at-Ends identifier_execute before e = Ends-bind (next_held-Ends lx e) λ _ lx₁ h₁.
          Ends-bind (wanted-Ends identifier lx₁) λ name lx₂ h₂.
            Ends-bind (wanted-Ends identifier_param_beg lx₂) λ _ lx₃ h₃.
              Ends-bind (parse_params-Ends lx₃ (omega arith)) λ ps lx₄ h₄.
                Ends-widen (loop-Ends (method name before (expressions ps)) lx₄ (omega arith))
                  (omega arith)
      eval_at-Ends _ before e = returned {lx = lx} (omega arith)

      eval_round-Ends :
          (before : Expr fl) (o : Option Lexem)
          → Held o lx
          → Ends
              (Under (suc (weight lx)))
              (eval_round fl loop (parse_params fl n parse_expr) before o lx)
      unfolding eval_round
      eval_round-Ends before none e = returned {lx = lx} (omega arith)
      eval_round-Ends before (some cur) e =
          Ends-if (is_hard_sep cur) _ _ lx (returned {lx = lx} (omega arith))
            (eval_at-Ends cur.kind before e)

    eval_loop-Ends :
        (f : ℕ) (before : Expr fl) (lx : Lexer)
        → weight lx < f
        → weight lx < m
        → Ends (Under (suc (weight lx))) (eval_loop fl f (parse_params fl n parse_expr) before lx)
    unfolding eval_loop
    eval_loop-Ends zero before lx h g = absurd (omega arith)
    eval_loop-Ends (suc f) before lx h g = Ends-bind (peek-Ends lx) λ cur lx₁ h₁.
        Ends-widen
          (eval_round-Ends (eval_loop fl f (parse_params fl n parse_expr)) lx₁
            (λ e lx' h'. eval_loop-Ends f e lx' (omega arith) (omega arith)) (omega arith) before
            cur h₁.1)
          (omega arith)

    pub parse_eval-Ends :
        (lx : Lexer) {lm : Lexem}
        → lx.current ≡ some lm
        → weight lx ≤ m
        → Ends (Under (weight lx)) (parse_eval fl n parse_expr lx)
    unfolding parse_eval
    parse_eval-Ends lx e h = Ends-bind (next_present-Ends lx e) λ lm lx₁ h₁.
        Ends-widen (eval_loop-Ends n (variable lm.value) lx₁ (omega arith) (omega arith))
          (omega arith)

    close_param-Ends :
        (e : Expr fl) (o : Option Lexem) (lx : Lexer)
        → Ends (Under (suc (weight lx))) (close_param fl e o lx)
    unfolding close_param
    close_param-Ends e none lx = failed refl
    close_param-Ends e (some lm) lx =
        Ends-if (is_kind identifier_param_end lm) _ _ lx (returned {lx = lx} (omega arith))
          (failed refl)

    bracket-Ends :
        (lx : Lexer) {lm : Lexem}
        → lx.current ≡ some lm
        → weight lx ≤ m
        → Ends (Under (weight lx)) (literal_at fl identifier_param_beg n parse_expr lx)
    unfolding literal_at
    bracket-Ends lx e h = Ends-bind (next_held-Ends lx e) λ _ lx₁ h₁.
        Ends-bind (skip_sep-Ends lx₁) λ _ lx₂ h₂.
          Ends-bind (parse_expr-Takes lx₂ (omega arith)) λ expr lx₃ h₃.
            Ends-bind (skip_sep-Ends lx₃) λ _ lx₄ h₄. Ends-bind (next-Ends lx₄) λ o lx₅ h₅.
              Ends-widen (close_param-Ends expr o lx₅)
                (omega (arith, Fewer-le (weight lx₄) o lx₅ h₅))

    literal_at-Ends :
        (k : Kind) (lx : Lexer) {lm : Lexem}
        → lx.current ≡ some lm
        → weight lx ≤ m
        → Ends (Under (weight lx)) (literal_at fl k n parse_expr lx)
    unfolding literal_at
    literal_at-Ends identifier_param_beg lx e h = bracket-Ends lx e h
    literal_at-Ends identifier lx e h = parse_eval-Ends lx e h
    literal_at-Ends number lx e h =
        Ends-bind (parse_number-Ends lx e) λ x lx₁ h₁. returned {a = literal_number x} {lx = lx₁} h₁
    literal_at-Ends string_del lx e h =
        Ends-bind (parse_string-Ends n lx (omega arith) e)
          λ t lx₁ h₁. returned {a = literal_string t} {lx = lx₁} h₁
    literal_at-Ends _ lx e h = failed refl

    literal_of-Ends :
        (o : Option Lexem) (lx : Lexer)
        → Held o lx
        → weight lx ≤ m
        → Ends (Under (weight lx)) (literal_of fl n parse_expr o lx)
    unfolding literal_of
    literal_of-Ends none lx e h = failed refl
    literal_of-Ends (some cur) lx e h = literal_at-Ends cur.kind lx e h

    parse_expression_literal-Takes : Takes (suc m) (parse_expression_literal fl n parse_expr)
    unfolding parse_expression_literal
    parse_expression_literal-Takes lx h =
        Ends-bind (peek-Ends lx)
          λ cur lx₁ h₁. Ends-widen (literal_of-Ends cur lx₁ h₁.1 (omega arith)) (omega arith)

  parse_expression_high-Takes :
      (f : ℕ) (parse_expr : Parser (Expr fl))
      → Takes f parse_expr
      → Takes (suc f) (parse_expression_high fl (suc f) parse_expr)
  unfolding parse_expression_high
  parse_expression_high-Takes f parse_expr h =
      parse_operator-Takes (suc f) operator_high (parse_expression_low fl (suc f) parse_expr) (
        parse_operator-Takes (suc f) operator_low (parse_expression_literal fl (suc f) parse_expr)
          (parse_expression_literal-Takes (suc f) f (omega arith) parse_expr h))

  -- With fuel above what is left to read, `parseExpression` fails or returns an expression, for which
  -- it has taken at least a lexem.
  pub parse_expression-Takes :
      (f : ℕ) (lx : Lexer) → weight lx < f → Ends (Under (weight lx)) (parse_expression fl f lx)
  unfolding parse_expression
  parse_expression-Takes zero lx h = absurd (omega arith)
  parse_expression-Takes (suc f) lx h =
      parse_expression_high-Takes f (parse_expression fl f) (parse_expression-Takes f) lx h
