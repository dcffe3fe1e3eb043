-- ===== src/Filter/Eval/Body.antt =====
-- filter/eval.go: what a filter can do with the body of an email.
use atmail.Prelude.{◌≡◌, refl, List, Text, text, lookup}
use atmail.Filter.Library.{Library}
use atmail.Filter.Syntax.{Expressions, method, variable}
use atmail.Filter.Evaluation.{err, method_not_found}
use atmail.Filter.Context.{Rcpt, init_context}
use atmail.Filter.Value.{get_entry}
use atmail.Filter.Collections.{method_table}
use atmail.Filter.Eval.{eval_expression, find_variable, find_method}

module _ (lib : Library) where
  open lib use {Float}

  -- In the context of any email, a call of any method on the variable `body` fails, because that
  -- method is not found.
  pub body-method :
      (logger name : Text) (from to : Rcpt) (header : List (Text × List Text)) (body : Text)
      (ps : Expressions Float)
      → eval_expression lib
          (init_context lib logger from to header body).variables
          (method name (variable (text "body")) ps)
        ≡ err (method_not_found name)
  unfolding eval_expression init_context find_variable get_entry find_method lookup method_table
  body-method logger name from to header body ps = refl
