-- ===== src/Filter/Statements/Total.antt =====
-- `Parse` ends on every input: the fuel suffices, and no nil is dereferenced.
use atmail.Prelude.{
  ℕ, zero, suc, ◌≤◌, ◌<◌, ◌≡◌, refl, Option, none, some, List, [], ◌∷◌, ◌++◌, arith, not, ◌||◌,
  Bool-cases, inl, inr, length, text, Text, eq_text,
}
use atmail.Filter.Kind.{
  Kind, identifier, identifier_param_beg, string_del, number, operator_low, block_beg, block_end,
  block_filter, let_assign,
}
use atmail.Filter.Lexer.{Lexem, Lexer, is_hard_sep, new_lexer}
use atmail.Filter.Lexer.Weight.{weight}
use atmail.Filter.Outcome.{
  Outcome, ok, Parser, block_ended, parsing, bind_outcome, next_or_err, skip_sep, ◌>>◌, is_kind,
  is_block_ended, set_line,
}
use atmail.Filter.Outcome.Ends.{
  Ends, returned, failed, Under, Ends-bind, Ends-widen, Ends-if, add_line-Ends, set_line-Ends, Held,
  peek-Ends, next-Ends, next_held-Ends, skip_sep-Ends, next_or_err-Ends, peek_or_err-Ends,
}
use atmail.Filter.Floats.{Floats}
use atmail.Filter.Syntax.{
  Expression, expressions, action_statement, let_statement, filter_statement, statements,
}
use atmail.Filter.Parser.{parse_expression}
use atmail.Filter.Parser.Total.{
  Fewer-le, parse_string-Ends, parse_params-Ends, parse_expression-Takes,
}
use atmail.Filter.Statements.{
  Parsed, attempt, Stmt, want, end_expr, parse_expr_statement, parse_action_statement, want_equal,
  parse_let_statement, filter_name, want_block, end_filter, parse_filter, choose, round, round_at,
  parse_statements, parse,
}

module _ (fl : Floats) where
  open fl use {Float}

  want-Ends :
      (k : Kind) (lm : Lexem) (lx : Lexer) → Ends (Under (suc (weight lx))) (want fl k lm lx)
  unfolding want
  want-Ends k lm lx = Ends-if (is_kind k lm) _ _ lx (returned {lx = lx} (omega arith)) (failed refl)

  wanted-Ends :
      (k : Kind) (lx : Lexer) → Ends (Under (weight lx)) (bind_outcome (next_or_err lx) (want fl k))
  wanted-Ends k lx =
      Ends-bind (next_or_err-Ends lx) λ lm lx₁ h₁. Ends-widen (want-Ends k lm lx₁) (omega arith)

  want_equal-Ends : (lm : Lexem) (lx : Lexer) → Ends (Under (suc (weight lx))) (want_equal fl lm lx)
  unfolding want_equal
  want_equal-Ends lm lx =
      Ends-if (not (is_kind operator_low lm) || not (eq_text lm.value (text "="))) _ _ lx
        (failed refl) (returned {lx = lx} (omega arith))

  wanted_equal-Ends :
      (lx : Lexer) → Ends (Under (weight lx)) (bind_outcome (next_or_err lx) (want_equal fl))
  wanted_equal-Ends lx =
      Ends-bind (next_or_err-Ends lx) λ lm lx₁ h₁. Ends-widen (want_equal-Ends lm lx₁) (omega arith)

  end_expr-Ends :
      (e : Expression Float) (o : Option Lexem) (lx : Lexer)
      → Ends (Under (suc (weight lx))) (end_expr fl e o lx)
  unfolding end_expr
  end_expr-Ends e none lx = returned {lx = lx} (omega arith)
  end_expr-Ends e (some lm) lx =
      Ends-if (is_hard_sep lm) _ _ lx (returned {lx = lx} (omega arith)) (failed refl)

  -- The parsers of a statement, where less than `n` is left.
  module _ (n : ℕ) (lx : Lexer) (small : weight lx < n) where
    expr_statement-Ends : Ends (Under (weight lx)) (parse_expr_statement fl n lx)
    unfolding parse_expr_statement
    expr_statement-Ends = add_line-Ends (
        Ends-bind (parse_expression-Takes fl n lx small) λ e lx₁ h₁.
          Ends-bind (next-Ends lx₁) λ o lx₂ h₂.
            Ends-widen (end_expr-Ends e o lx₂) (omega (arith, Fewer-le (weight lx₁) o lx₂ h₂)))

    action_statement-Ends : Ends (Under (weight lx)) (parse_action_statement fl n lx)
    unfolding parse_action_statement
    action_statement-Ends = add_line-Ends (
        Ends-bind (skip_sep-Ends lx) λ _ lx₁ h₁.
          Ends-bind (wanted-Ends identifier lx₁) λ name lx₂ h₂.
            Ends-bind (wanted-Ends identifier_param_beg lx₂) λ _ lx₃ h₃.
              Ends-bind
                (parse_params-Ends fl n n (omega arith) (parse_expression fl n)
                  (parse_expression-Takes fl n) lx₃ (omega arith))
                λ params lx₄ h₄.
                  returned {a = action_statement name (expressions params)} {lx = lx₄}
                    (omega arith))

    let_statement-Ends : Ends (Under (weight lx)) (parse_let_statement fl n lx)
    unfolding parse_let_statement
    let_statement-Ends = add_line-Ends (
        Ends-bind (skip_sep-Ends lx) λ _ lx₁ h₁.
          Ends-bind (wanted-Ends identifier lx₁) λ name lx₂ h₂.
            Ends-bind (skip_sep-Ends lx₂) λ _ lx₃ h₃. Ends-bind (wanted_equal-Ends lx₃) λ _ lx₄ h₄.
              Ends-bind (skip_sep-Ends lx₄) λ _ lx₅ h₅.
                Ends-bind (parse_expression-Takes fl n lx₅ (omega arith))
                  λ e lx₆ h₆. returned {a = let_statement name e} {lx = lx₆} (omega arith))

    filter_name-Ends :
        (k : Kind) (line : ℕ) {lm : Lexem}
        → lx.current ≡ some lm
        → Ends (Under (suc (weight lx))) (filter_name fl n k line lx)
    unfolding filter_name
    filter_name-Ends block_beg line e = returned {lx = lx} (omega arith)
    filter_name-Ends string_del line e =
        Ends-bind (set_line-Ends line (parse_string-Ends n lx (omega arith) e)) λ name lx₁ h₁.
          Ends-bind (skip_sep-Ends lx₁) λ _ lx₂ h₂. returned {a = name} {lx = lx₂} (omega arith)
    filter_name-Ends _ line e = failed refl

  want_block-Ends : (lm : Lexem) (lx : Lexer) → Ends (Under (suc (weight lx))) (want_block fl lm lx)
  unfolding want_block
  want_block-Ends lm lx =
      Ends-if (is_kind block_beg lm) _ _ lx (returned {lx = lx} (omega arith)) (failed refl)

  wanted_block-Ends :
      (lx : Lexer)
      → Ends (Under (weight lx)) (bind_outcome (set_line 0 (next_or_err lx)) (want_block fl))
  wanted_block-Ends lx =
      Ends-bind (set_line-Ends 0 (next_or_err-Ends lx))
        λ lm lx₁ h₁. Ends-widen (want_block-Ends lm lx₁) (omega arith)

  end_filter-Ends :
      (name : Text) (p : Parsed Float) (lx : Lexer)
      → Ends (Under (suc (weight lx))) (end_filter fl name p lx)
  unfolding end_filter
  end_filter-Ends name (stmts, none) lx = failed refl
  end_filter-Ends name (stmts, some e) lx = elim (Bool-cases (is_block_ended e)) [
    | inl h ↦ rw h (
        Ends-bind (skip_sep-Ends lx) λ _ lx₁ h₁.
          returned {a = filter_statement name (statements stmts)} {lx = lx₁} (omega arith))
    | inr h ↦ rw h (failed h)
  ]

  -- After `ParseStatements`, whose errors but the end of a block are passed on.
  end_body-Ends :
      (name : Text) (b : ℕ) {o : Outcome (Parsed Float)}
      → Ends (Under b) o
      → Ends (Under b) (bind_outcome (attempt o) (end_filter fl name))
  unfolding attempt end_filter
  end_body-Ends name b (returned {a} {lx} h) = Ends-widen (end_filter-Ends name a lx) (omega arith)
  end_body-Ends name b (failed {e} {lx} h) = rw (h, end_filter) (failed h)

  module _ (n m : ℕ) (fits : m ≤ n) (body : Parser (Parsed Float))
      (body-Ends : (lx : Lexer) → weight lx < m → Ends (Under (suc (weight lx))) (body lx)) where
    parse_filter-Ends :
        (lx : Lexer) → weight lx < m → Ends (Under (weight lx)) (parse_filter fl n body lx)
    unfolding parse_filter
    parse_filter-Ends lx h = Ends-bind (skip_sep-Ends lx) λ _ lx₁ h₁.
        Ends-bind (peek_or_err-Ends lx₁) λ lm lx₂ h₂.
          Ends-bind (filter_name-Ends n lx₂ (omega arith) lm.kind lm.line h₂.1) λ name lx₃ h₃.
            Ends-bind (wanted_block-Ends lx₃) λ _ lx₄ h₄. Ends-bind (skip_sep-Ends lx₄) λ _ lx₅ h₅.
              Ends-widen (end_body-Ends name _ (body-Ends lx₅ (omega arith))) (omega arith)

    module _ (loop : List (Stmt fl) → Parser (Parsed Float)) (stmts : List (Stmt fl)) (lx : Lexer)
        (lm : Lexem) (held : lx.current ≡ some lm) (small : weight lx ≤ m) (room : weight lx < n)
        (loop-Ends : (ss : List (Stmt fl)) (lx' : Lexer)
          → weight lx' < weight lx
          → Ends (Under (suc (weight lx'))) (loop ss lx')) where
      statement-Ends :
          {o : Outcome (Stmt fl)}
          → Ends (Under (weight lx)) o
          → Ends
              (Under (suc (weight lx)))
              (bind_outcome o (λ stmt. skip_sep >> loop (stmts ++ stmt ∷ [])))
      statement-Ends h = Ends-bind h λ stmt lx₁ h₁.
          Ends-bind (skip_sep-Ends lx₁)
            λ _ lx₂ h₂. Ends-widen (loop-Ends (stmts ++ stmt ∷ []) lx₂ (omega arith)) (omega arith)

      choose-Ends :
          (k : Kind) → Ends (Under (suc (weight lx))) (round fl loop stmts (choose fl n body k) lx)
      unfolding choose round
      choose-Ends identifier = statement-Ends (expr_statement-Ends n lx room)
      choose-Ends number = statement-Ends (expr_statement-Ends n lx room)
      choose-Ends string_del = statement-Ends (expr_statement-Ends n lx room)
      choose-Ends block_filter = statement-Ends (
          Ends-bind (next_held-Ends lx held)
            λ _ lx₁ h₁. Ends-widen (parse_filter-Ends lx₁ (omega arith)) (omega arith))
      choose-Ends block_beg = statement-Ends (
          Ends-bind (next_held-Ends lx held)
            λ _ lx₁ h₁. Ends-widen (action_statement-Ends n lx₁ (omega arith)) (omega arith))
      choose-Ends let_assign = statement-Ends (
          Ends-bind (next_held-Ends lx held)
            λ _ lx₁ h₁. Ends-widen (let_statement-Ends n lx₁ (omega arith)) (omega arith))
      choose-Ends block_end = Ends-bind (next_held-Ends lx held) λ _ lx₁ h₁.
          returned {a = (stmts, some (parsing lx₁.line block_ended))} {lx = lx₁} (omega arith)
      choose-Ends _ = failed refl

    round_at-Ends :
        (loop : List (Stmt fl) → Parser (Parsed Float)) (stmts : List (Stmt fl)) (o : Option Lexem)
        (lx : Lexer)
        → Held o lx
        → weight lx ≤ m
        → weight lx < n
        → ((ss : List (Stmt fl)) (lx' : Lexer)
            → weight lx' < weight lx
            → Ends (Under (suc (weight lx'))) (loop ss lx'))
        → Ends (Under (suc (weight lx))) (round_at fl loop n body stmts o lx)
    unfolding round_at
    round_at-Ends loop stmts none lx e small room h =
        returned {a = (stmts, none)} {lx = lx} (omega arith)
    round_at-Ends loop stmts (some lm) lx e small room h =
        choose-Ends loop stmts lx lm e small room h lm.kind

  -- With fuel above what is left to read, `ParseStatements` fails or returns, and an error that it
  -- raises is not the end of a block.
  pub parse_statements-Ends :
      (f : ℕ) (stmts : List (Stmt fl)) (lx : Lexer)
      → weight lx < f
      → Ends (Under (suc (weight lx))) (parse_statements fl f stmts lx)
  unfolding parse_statements
  parse_statements-Ends zero stmts lx h = absurd (omega arith)
  parse_statements-Ends (suc f) stmts lx h = Ends-bind (peek-Ends lx) λ o lx₁ h₁.
      Ends-widen
        (round_at-Ends (suc f) f (omega arith) (parse_statements fl f [])
          (parse_statements-Ends f []) (parse_statements fl f) stmts o lx₁ h₁.1 (omega arith)
          (omega arith) λ ss lx' h'. parse_statements-Ends f ss lx' (omega arith))
        (omega arith)

  -- `Parse` returns on every input: it needs no more fuel than it has, and dereferences no nil.
  pub parse-ends : (t : Text) → (p : Parsed Float) × ((lx : Lexer) × (parse fl t ≡ ok p lx))
  unfolding parse attempt
  parse-ends t =
      go (parse_statements-Ends (suc (length t)) [] (new_lexer t) (unfold new_lexer in omega arith))
    where
      go :
          {b : ℕ} {o : Outcome (Parsed Float)}
          → Ends (Under b) o
          → (p : Parsed Float) × ((lx : Lexer) × (attempt o ≡ ok p lx))
      go (returned {a} {lx} h) = (a, (lx, refl))
      go (failed {e} {lx} h) = (([], some e), (lx, refl))
