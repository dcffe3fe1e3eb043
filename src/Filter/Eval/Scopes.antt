-- ===== src/Filter/Eval/Scopes.antt =====
-- filter/filter.go, filter/ast.go: what leaves a sub-filter, and when the tree around it goes on.
use atmail.Prelude.{◌≡◌, ◌∙◌, refl, ap, Bool, true, false, List, ◌∷◌, ◌++◌, if◌then◌else◌, Text}
use atmail.Filter.Library.{Library}
use atmail.Filter.Syntax.{Statement, Statements, filter_statement}
use atmail.Filter.Context.{Context, Result, Headers, ran, is_continue}
use atmail.Filter.Eval.{enter_filter, leave_filter, eval_statement, eval_content, eval_tree, go_on}
use atmail.Filter.Eval.Trees.{resume, eval_tree-append}

module _ (lib : Library) where
  open lib use {Float}

  -- The result after a sub-filter: its own if it ran to its end, and the one of before if it stopped.
  abbrev pub result_after : Bool → Context lib → Context lib → Result
  result_after to_end before inside = if to_end then inside.result else before.result

  leave_filter-result :
      (b : Bool) (parent c : Context lib) (h : Headers)
      → leave_filter lib parent (ran b c h)
        ≡ ran true (record parent { result = result_after b parent c }) h
  unfolding leave_filter
  leave_filter-result true parent c h = refl
  leave_filter-result false parent c h = refl

  -- A sub-filter in a tree, which runs to its end or stops, after statements that let it be reached
  -- and choose no action: the tree goes on after it, with the variables, actions and logger of before
  -- and the headers of the sub-filter, exactly if the result after it has chosen no action; and that
  -- result is the sub-filter's own if it ran to its end, and the one of before if it stopped.
  pub eval_tree-filter_statement :
      (ss ts : List (Statement Float)) (name : Text) (content : Statements Float) (to_end : Bool)
      (ctx before inside : Context lib) (h h' h'' : Headers)
      → is_continue ctx.result.action ≡ true
      → eval_tree lib ss ctx h ≡ ran true before h'
      → is_continue before.result.action ≡ true
      → eval_content lib content (enter_filter lib name before) h' ≡ ran to_end inside h''
      → eval_tree lib (ss ++ filter_statement name content ∷ ts) ctx h ≡ (
          if is_continue (result_after to_end before inside).action
          then eval_tree lib ts (record before { result = result_after to_end before inside }) h''
          else ran true (record before { result = result_after to_end before inside }) h'')
  unfolding eval_tree eval_statement
  eval_tree-filter_statement ss ts name content to_end ctx before inside h h' h'' e p c q =
      eval_tree-append lib ss (filter_statement name content ∷ ts) ctx h e
      ∙ ap (λ r. go_on lib r (resume lib (filter_statement name content ∷ ts))) p
      ∙ rw c (
          ap (λ r. go_on lib (leave_filter lib before r) (resume lib ts)) q
          ∙ ap (λ r. go_on lib r (resume lib ts)) (leave_filter-result to_end before inside h''))
