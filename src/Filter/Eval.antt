-- ===== src/Filter/Eval.antt =====
-- filter/expression.go, filter/ast.go, filter/filter.go: the evaluation of expressions, statements,
-- filters and trees.
pub mod Trees
pub mod Scopes
pub mod Body
use atmail.Prelude.{
  ℕ, Bool, true, false, not, ◌||◌, ◌&&◌, Option, none, some, List, [], ◌∷◌, ◌++◌, if◌then◌else◌,
  Text, text, eq_text, lookup,
}
use atmail.Filter.Library.{Library}
use atmail.Filter.Syntax.{
  Expression, Expressions, Statement, Statements, literal_bool, literal_number, literal_string,
  operator_expression, variable, field, method, nil, cons, expression_statement, action_statement,
  let_statement, filter_statement, done, then_do,
}
use atmail.Filter.Value.{
  VariableType, type_number, type_bool, type_eq, Variable, Value, string, number, bool, by_string,
  by_number, Entries, type_of, value_of, methods_of, fields_of, get_entry, set_entry, new_string,
  new_number, new_bool,
}
use atmail.Filter.Evaluation.{
  EvalErr, Panic, Eval, ok, err, panic, ◌>>=◌, as_number, as_bool, incompatible_type, not_number,
  not_bool, variable_not_found, field_not_found, method_not_found, unsupported_operator,
  uncomparable,
}
use atmail.Filter.Methods.{Var, EvaluationMethod}
use atmail.Filter.Collections.{method_table, call}
use atmail.Filter.Context.{
  Result, Headers, Context, Run, ran, crashed, is_continue, Action, run_action,
}

module _ (lib : Library) where
  open lib use {Float, eq, lt, le}

  -- a.Value == b.Value on two values in an `any`: values of two types differ, and two maps panic.
  unfoldable pub equal_values : Value Float → Value Float → Eval Bool
  unfolding eq_text
  equal_values (string s) (string t) = ok (eq_text s t)
  equal_values (number x) (number y) = ok (eq x y)
  equal_values (bool true) (bool b) = ok b
  equal_values (bool false) (bool b) = ok (not b)
  equal_values (by_string m) (by_string n) = panic uncomparable
  equal_values (by_number m) (by_number n) = panic uncomparable
  equal_values _ _ = ok false

  -- The cases of a comparison by order.
  unfoldable pub compare_numbers : (Float → Float → Bool) → Var lib → Var lib → Eval (Var lib)
  unfolding type_eq as_number new_bool
  compare_numbers op a b =
      if not (type_eq (type_of a) type_number)
      then err not_number
      else (as_number (value_of a) >>= λ x. as_number (value_of b) >>= λ y. ok (new_bool (op x y)))

  unfoldable pub either : Bool → Value Float → Eval (Var lib)
  unfolding as_bool new_bool
  either true w = ok (new_bool true)
  either false w = as_bool w >>= λ c. ok (new_bool c)

  -- The switch of `OperatorExpression.Eval`, on two variables of one type.
  unfoldable pub apply_operator : Text → Var lib → Var lib → Eval (Var lib)
  unfolding eq_text equal_values compare_numbers either type_eq as_bool new_bool
  apply_operator op a b =
      if eq_text op (text "=")
      then (equal_values (value_of a) (value_of b) >>= λ c. ok (new_bool c))
      else if eq_text op (text "!=")
      then (equal_values (value_of a) (value_of b) >>= λ c. ok (new_bool (not c)))
      else if eq_text op (text ">=")
      then compare_numbers (λ x y. le y x) a b
      else if eq_text op (text "<=")
      then compare_numbers le a b
      else if eq_text op (text ">")
      then compare_numbers (λ x y. lt y x) a b
      else if eq_text op (text "<")
      then compare_numbers lt a b
      else if eq_text op (text "or")
      then (if not (type_eq (type_of a) type_bool)
          then err not_bool
          else (as_bool (value_of a) >>= λ c. either c (value_of b)))
      else panic unsupported_operator

  unfoldable pub operate : Text → Var lib → Var lib → Eval (Var lib)
  unfolding apply_operator type_eq
  operate op a b =
      if not (type_eq (type_of a) (type_of b)) then err incompatible_type else apply_operator op a b

  unfoldable pub find_variable : Text → Option (Var lib) → Eval (Var lib)
  find_variable name none = err (variable_not_found name)
  find_variable name (some v) = ok v

  unfoldable pub find_field : Text → Option (Var lib) → Eval (Var lib)
  find_field name none = err (field_not_found name)
  find_field name (some v) = ok v

  unfoldable pub find_method : Text → Option (EvaluationMethod lib) → Eval (EvaluationMethod lib)
  find_method name none = err (method_not_found name)
  find_method name (some m) = ok m

  -- `Expression.Eval` reads nothing of the context but its variables, and changes nothing.
  unfoldable mutual
    pub eval_expression : Entries Float → Expression Float → Eval (Var lib)
    eval_expression vars (literal_bool b) = ok (new_bool b)
    eval_expression vars (literal_number x) = ok (new_number x)
    eval_expression vars (literal_string s) = ok (new_string s)
    eval_expression vars (operator_expression op a b) =
        eval_expression vars a >>= λ x. eval_expression vars b >>= λ y. operate op x y
    eval_expression vars (variable name) = find_variable name (get_entry name vars)
    eval_expression vars (field name e) =
        eval_expression vars e >>= λ v. find_field name (get_entry name (fields_of v))
    eval_expression vars (method name e ps) = eval_expression vars e >>= λ v.
        find_method name (lookup name (method_table lib (methods_of v))) >>= λ m.
        eval_params vars ps >>= λ acc. call lib m v acc

    pub eval_params : Entries Float → Expressions Float → Eval (List (Var lib))
    eval_params vars nil = ok []
    eval_params vars (cons e es) =
        eval_expression vars e >>= λ v. eval_params vars es >>= λ vs. ok (v ∷ vs)

  -- A condition: true goes on, and false, an error or a value that is no bool stops.
  unfoldable pub condition : Eval (Var lib) → Context lib → Headers → Run lib
  unfolding type_eq as_bool
  condition (err e) ctx h = ran false ctx h
  condition (panic p) ctx h = crashed p
  condition (ok v) ctx h =
      if not (type_eq (type_of v) type_bool) then ran false ctx h else elim (as_bool (value_of v)) [
        | ok b ↦ ran b ctx h
        | err e ↦ ran false ctx h
        | panic p ↦ crashed p
      ]

  unfoldable pub perform : Option Action → Eval (List (Var lib)) → Context lib → Headers → Run lib
  unfolding run_action
  perform none ps ctx h = ran false ctx h
  perform (some a) (ok ps) ctx h = run_action lib a ps ctx h
  perform (some a) (err e) ctx h = ran false ctx h
  perform (some a) (panic p) ctx h = crashed p

  unfoldable pub assign : Text → Eval (Var lib) → Context lib → Headers → Run lib
  unfolding set_entry
  assign name (ok v) ctx h = ran true (record ctx { variables = set_entry name v ctx.variables }) h
  assign name (err e) ctx h = ran false ctx h
  assign name (panic p) ctx h = crashed p

  -- `parent.Clone()` with its LoggerKey.
  unfoldable pub enter_filter : Text → Context lib → Context lib
  enter_filter name parent = record parent {
    logger_key = parent.logger_key ++ (text " > " ++ name);
  }

  -- The end of `Filter.Eval`: the result is handed over if the last statement let it go on.
  unfoldable pub leave_filter : Context lib → Run lib → Run lib
  leave_filter parent (ran true ctx h) = ran true (record parent { result = ctx.result }) h
  leave_filter parent (ran false ctx h) = ran true parent h
  leave_filter parent (crashed p) = crashed p

  abbrev pub go_on : Run lib → (Context lib → Headers → Run lib) → Run lib
  go_on (ran true ctx h) k = k ctx h
  go_on (ran false ctx h) k = ran false ctx h
  go_on (crashed p) k = crashed p

  unfoldable mutual
    unfolding eval_expression condition perform assign enter_filter leave_filter

    pub eval_statement : Statement Float → Context lib → Headers → Run lib
    eval_statement (expression_statement e) ctx h =
        condition (eval_expression ctx.variables e) ctx h
    eval_statement (action_statement name ps) ctx h =
        perform (lookup name ctx.actions) (eval_params ctx.variables ps) ctx h
    eval_statement (let_statement name e) ctx h =
        assign name (eval_expression ctx.variables e) ctx h
    eval_statement (filter_statement name content) ctx h =
        leave_filter ctx (eval_content content (enter_filter name ctx) h)

    -- The loop of `Filter.Eval`.
    pub eval_content : Statements Float → Context lib → Headers → Run lib
    eval_content done ctx h = ran true ctx h
    eval_content (then_do s ss) ctx h =
        go_on (eval_statement s ctx h) λ ctx' h'. eval_content ss ctx' h'

  -- The loop of `Tree.Eval`. Where it ends with true, the result is that of the context.
  unfoldable pub eval_tree : List (Statement Float) → Context lib → Headers → Run lib
  unfolding eval_statement
  eval_tree [] ctx h = ran true ctx h
  eval_tree (s ∷ ss) ctx h =
      go_on (eval_statement s ctx h)
        λ ctx' h'. if is_continue ctx'.result.action then eval_tree ss ctx' h' else ran true ctx' h'
