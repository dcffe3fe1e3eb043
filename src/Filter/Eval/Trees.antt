-- ===== src/Filter/Eval/Trees.antt =====
-- How the statements of a tree follow one another.
use atmail.Prelude.{
  ◌≡◌, refl, sym, ◌∙◌, true, false, List, [], ◌∷◌, ◌++◌, if◌then◌else◌, Bool-cases, inl, inr,
}
use atmail.Filter.Library.{Library}
use atmail.Filter.Syntax.{Statement}
use atmail.Filter.Context.{Context, Headers, Run, ran, crashed, is_continue}
use atmail.Filter.Eval.{go_on, eval_statement, eval_tree}

module _ (lib : Library) where
  open lib use {Float}

  -- What follows a part of a tree: the rest, unless an action was chosen.
  abbrev pub resume : List (Statement Float) → Context lib → Headers → Run lib
  resume ts ctx h = if is_continue ctx.result.action then eval_tree lib ts ctx h else ran true ctx h

  go_on_assoc :
      (r : Run lib) (f g : Context lib → Headers → Run lib)
      → go_on lib (go_on lib r f) g ≡ go_on lib r (λ c h. go_on lib (f c h) g)
  go_on_assoc (ran true c h) f g = refl
  go_on_assoc (ran false c h) f g = refl
  go_on_assoc (crashed p) f g = refl

  go_on-eq :
      (r : Run lib) {f g : Context lib → Headers → Run lib}
      → ((c : Context lib) (h : Headers) → f c h ≡ g c h)
      → go_on lib r f ≡ go_on lib r g
  go_on-eq (ran true c h) e = e c h
  go_on-eq (ran false c h) e = refl
  go_on-eq (crashed p) e = refl

  resumed :
      (s : Statement Float) (ss ts : List (Statement Float)) (c : Context lib) (k : Headers)
      → ((is_continue c.result.action ≡ true)
          → eval_tree lib (ss ++ ts) c k ≡ go_on lib (eval_tree lib ss c k) (resume ts))
      → resume (ss ++ ts) c k ≡ go_on lib (resume ss c k) (resume ts)
  resumed s ss ts c k ih = elim (Bool-cases (is_continue c.result.action)) [
    | inl e ↦ rw (e, ih e)
    | inr e ↦ rw e (rw e refl)
  ]

  -- A tree in two parts: where no action was chosen before, the second part runs on what the first
  -- left if the first let it go on and chose no action, and is passed over otherwise.
  pub eval_tree-append :
      (ss ts : List (Statement Float)) (ctx : Context lib) (h : Headers)
      → is_continue ctx.result.action ≡ true
      → eval_tree lib (ss ++ ts) ctx h ≡ go_on lib (eval_tree lib ss ctx h) (resume ts)
  unfolding eval_tree
  eval_tree-append [] ts ctx h e = rw e
  eval_tree-append (s ∷ ss) ts ctx h e =
      go_on-eq (eval_statement lib s ctx h)
        (λ c k. resumed s ss ts c k (eval_tree-append ss ts c k))
      ∙ sym (go_on_assoc (eval_statement lib s ctx h) (resume ss) (resume ts))
