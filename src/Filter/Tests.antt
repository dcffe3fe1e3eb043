-- ===== src/Filter/Tests.antt =====
-- filter/: the theorems on concrete programs, and runs of the lexer, the parser and the evaluation.
use atmail.Prelude.{◌≡◌, refl, false, none, [], ◌∷◌, ◌++◌, arith, All, Text, text, lookup}
use atmail.Prelude.Int.{ℤ}
use atmail.Filter.Lexer.{Lexer}
use atmail.Filter.Lexer.Lossless.{IsPlain, lexems, joined_values, joined_values-lexems}
use atmail.Filter.Examples.{integers, library}
use atmail.Filter.Outcome.{Outcome}
use atmail.Filter.Syntax.{
  Statement, action_statement, filter_statement, expression_statement, literal_bool, nil, then_do,
  done,
}
use atmail.Filter.Statements.{Parsed, parse}
use atmail.Filter.Statements.Total.{parse-ends}
use atmail.Filter.Value.{no_entries, new_bool}
use atmail.Filter.Context.{
  Rcpt, Context, set_result_action, action_reject, action_accept, set_header, zero_result,
}
use atmail.Filter.Eval.{enter_filter, eval_statement, eval_tree, go_on}
use atmail.Filter.Eval.Trees.{resume, eval_tree-append}
use atmail.Filter.Eval.Scopes.{eval_tree-filter_statement}

abbrev source : Text
source =
    text "from.domain:contains(\"exa\")"
    ++ 10 ∷ text "filter \"a\" do"
    ++ 10 ∷ text "do accept()"
    ++ 10 ∷ text "end"
    ++ 10 ∷ text "do spam()"

parse-ends_example : (p : Parsed ℤ) × ((lx : Lexer) × (parse integers source ≡ Outcome.ok p lx))
parse-ends_example = parse-ends integers source

abbrev words : Lexer
words = record { content = text "let x = 53"; current = none; line = 1; char = 0 }

words-IsPlain : All IsPlain words.content
words-IsPlain = ground arith

joined_values-lexems_example : joined_values (lexems 20 words) ≡ text "let x = 53"
joined_values-lexems_example = joined_values-lexems 20 words refl words-IsPlain (omega arith)

abbrev sender : Rcpt
sender = record { user = text "me"; domain = text "a.org"; folder = []; address = text "me@a.org" }

abbrev context : Context library
context = record {
  variables = no_entries;
  actions =
      (text "reject", set_result_action action_reject)
      ∷ (text "accept", set_result_action action_accept)
      ∷ (text "set_header", set_header)
      ∷ [];
  result = zero_result;
  verbose = false;
  logger_key = [];
}

abbrev accepting : Statement ℤ
accepting = action_statement (text "accept") nil

abbrev rejecting : Statement ℤ
rejecting = action_statement (text "reject") nil

eval_tree-append_example :
    eval_tree library (accepting ∷ rejecting ∷ []) context []
    ≡ go_on library
        (eval_tree library (accepting ∷ []) context [])
        (resume library (rejecting ∷ []))
eval_tree-append_example =
    eval_tree-append library (accepting ∷ []) (rejecting ∷ []) context [] refl

abbrev failing : Statement ℤ
failing = expression_statement (literal_bool false)

-- A sub-filter that accepts and then stops.
eval_tree-filter_statement_example :
    eval_tree library
      (filter_statement (text "f") (then_do accepting (then_do failing done)) ∷ rejecting ∷ [])
      context
      []
    ≡ eval_tree library (rejecting ∷ []) context []
unfolding eval_tree eval_statement lookup new_bool
eval_tree-filter_statement_example =
    eval_tree-filter_statement library [] (rejecting ∷ []) (text "f")
      (then_do accepting (then_do failing done)) false context context
      (record (enter_filter library (text "f") context) {
        result = record zero_result { action = action_accept };
      })
      [] [] [] refl refl refl refl
