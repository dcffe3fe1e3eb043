-- ===== src/Filter/Syntax.antt =====
-- filter/ast.go, filter/expression.go, filter/filter.go: the syntax trees. `F` is float64.
use atmail.Prelude.{Bool, List, [], ◌∷◌, Text}

-- Each type that implements `Expression` is a constructor. `Literal[T]` is one for each `T`.
mutual
  pub data Expression (F : Type 0) : Type 0 where
    literal_bool : Bool → Expression F
    literal_number : F → Expression F
    literal_string : Text → Expression F
    operator_expression : Text → Expression F → Expression F → Expression F
    variable : Text → Expression F
    field : Text → Expression F → Expression F
    method : Text → Expression F → Expressions F → Expression F

  pub data Expressions (F : Type 0) : Type 0 where
    nil : Expressions F
    cons : Expression F → Expressions F → Expressions F

unfoldable pub expressions : {F : Type 0} → List (Expression F) → Expressions F
expressions [] = nil
expressions (e ∷ es) = cons e (expressions es)

mutual
  pub data Statement (F : Type 0) : Type 0 where
    expression_statement : Expression F → Statement F
    action_statement : Text → Expressions F → Statement F
    let_statement : Text → Expression F → Statement F
    filter_statement : Text → Statements F → Statement F

  pub data Statements (F : Type 0) : Type 0 where
    done : Statements F
    then_do : Statement F → Statements F → Statements F

unfoldable pub statements : {F : Type 0} → List (Statement F) → Statements F
statements [] = done
statements (s ∷ ss) = then_do s (statements ss)
