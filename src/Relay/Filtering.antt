-- ===== src/Relay/Filtering.antt =====
-- relay/filter.go, and the part of relay/session.go that runs it: the filters on an email, and what
-- their result does to the session.
pub mod Results
pub mod Discarding
use atmail.Prelude.{
  ℕ, max, Bool, true, false, not, Option, none, some, List, [], ◌∷◌, ◌++◌, map, if◌then◌else◌,
  is_empty, Text, text, contains,
}
use atmail.Filter.Library.{Library}
use atmail.Filter.Syntax.{Statement}
use atmail.Filter.Evaluation.{Panic}
use atmail.Filter.Context.{
  Context, Result, Headers, Run, ran, crashed, zero_result, init_context, ResultAction,
  action_continue, action_accept, action_reject, action_temp_fail, action_discard,
  action_connection_fail, action_quarantine,
}
use atmail.Filter.Eval.{eval_tree}
use atmail.Relay.Session.{Rcpt, filter_rcpt, parse_address, bare_rcpt}

-- What relay/ takes from go-message and the learning client: a header with the update of a field and
-- the map of its fields, and the outcome of a learning, an error message for the client.
pub record Mailing : Type 1 where
  pub Header : Type 0
  pub set_field : Text → Text → Header → Header
  pub fields : Header → List (Text × List Text)
  pub learn : Text → List Rcpt → Header → Text → Option ℕ

-- 15*time.Minute, in nanoseconds.
abbrev pub quarter : ℕ
quarter = 900000000000

module _ (lib : Library) (mailing : Mailing) where
  open lib use {Float}
  open mailing use {Header, set_field, fields, learn}

  -- The email and what the session keeps for it: s.To and the wait. The body is read whole.
  pub record Mail : Type 0 where
    pub to : List Rcpt
    pub wait : ℕ
    pub header : Header
    pub body : Text

  -- The end of a step: the mail goes on, the client gets an error with this code, or the program
  -- panics.
  pub data Step : Type 0 where
    goes_on : Mail → Step
    refused : ℕ → Mail → Step
    panicked : Step

  abbrev pub then_step : Step → (Mail → Step) → Step
  then_step (goes_on m) k = k m
  then_step (refused c m) k = refused c m
  then_step panicked k = panicked

  -- A filter's result, beside the map of headers that its context has.
  pub data Found : Type 0 where
    found : Result → Headers → Found
    crash : Found

  abbrev pub with_logger : Text → Context lib → Context lib
  with_logger name ctx = record ctx { logger_key = name }

  -- The end of `Tree.Eval`: its result, or the next filter.
  abbrev pub tree_found : Run lib → (Headers → Found) → Found
  tree_found (ran true ctx h) next = found ctx.result h
  tree_found (ran false ctx h) next = next h
  tree_found (crashed p) next = crash

  -- `checkFilters`, on the filters in the order of its iteration.
  unfoldable pub check_filters :
      Context lib → List (Text × List (Statement Float)) → Headers → Found
  unfolding eval_tree
  check_filters ctx [] h = found zero_result []
  check_filters ctx ((name, tree) ∷ fs) h =
      tree_found (eval_tree lib tree (with_logger name ctx) h) (λ h'. check_filters ctx fs h')

  -- slices.DeleteFunc by the addresses that are removed.
  unfoldable pub remove : List Text → List Rcpt → List Rcpt
  unfolding contains
  remove addresses [] = []
  remove addresses (to ∷ tos) =
      let rest = remove addresses tos in if contains addresses to.address then rest else to ∷ rest

  -- to.Folder = *res.Mailbox, on each.
  abbrev pub in_folder : Option Text → List Rcpt → List Rcpt
  in_folder none tos = tos
  in_folder (some mailbox) tos = map {A = Rcpt} (λ to. record to { folder = mailbox }) tos

  unfoldable pub recipients : Result → List Rcpt → List Rcpt
  unfolding remove bare_rcpt
  recipients res tos =
      in_folder res.mailbox (remove res.remove_recipient tos ++ map bare_rcpt res.add_recipient)

  -- The loop over ModifyHeader.
  abbrev pub set_fields : Headers → Header → Header
  set_fields [] h = h
  set_fields ((k, v) ∷ m) h = set_fields m (set_field k v h)

  abbrev pub new_body : Option Text → Text → Text
  new_body none body = body
  new_body (some b) body = b

  abbrev pub learned : Option ℕ → Mail → Step
  learned none m = goes_on m
  learned (some e) m = refused e m

  -- `applyResult` after the switch.
  unfoldable pub apply_changes : Result → Headers → Mail → Step
  unfolding recipients
  apply_changes res h m =
      then_step
        (if res.spam then learned (learn (text "spam") m.to m.header m.body) m else goes_on m)
        (λ m'. goes_on (record m' {
          to = recipients res m'.to;
          header = set_fields h m'.header;
          body = new_body res.body m'.body;
        }))

  -- `applyResult`.
  unfoldable pub apply_result : Result → Headers → Mail → Step
  unfolding apply_changes
  apply_result res h m = elim (res.action) [
    | action_accept ↦
        then_step (learned (learn (text "ham") m.to m.header m.body) m) (apply_changes res h)
    | action_continue ↦ apply_changes res h m
    | action_discard ↦ goes_on m
    | action_quarantine ↦ apply_changes res h (record m { wait = max m.wait quarter })
    | action_reject ↦ refused 550 m
    | action_temp_fail ↦ refused 450 m
    | action_connection_fail ↦ panicked
  ]

  abbrev pub apply_found : Found → Mail → Step
  unfolding apply_result
  apply_found (found res h) m = apply_result res h m
  apply_found crash m = panicked

  -- The folder of s.To[i].
  unfoldable pub inbox_folder : Rcpt → Rcpt
  inbox_folder to =
      if is_empty to.folder then to else record to { folder = text "INBOX/" ++ to.folder }

  -- s.To[i] = to, or the panic of an index out of range.
  abbrev pub set_rcpt : ℕ → Rcpt → List Rcpt → Option (List Rcpt)
  set_rcpt i to [] = none
  set_rcpt ℕ.zero to (t ∷ tos) = some (to ∷ tos)
  set_rcpt (ℕ.suc i) to (t ∷ tos) = elim (set_rcpt i to tos) [
    | none ↦ none
    | some us ↦ some (t ∷ us)
  ]

  abbrev pub with_rcpts : Option (List Rcpt) → Mail → Step
  with_rcpts none m = panicked
  with_rcpts (some tos) m = goes_on (record m { to = tos })

  -- The first lines of the loop: s.To[i] is written where the folder is not empty.
  unfoldable pub place : ℕ → Rcpt → Mail → Step
  unfolding inbox_folder
  place i to m =
      if is_empty to.folder then goes_on m else with_rcpts (set_rcpt i (inbox_folder to) m.to) m

  -- One turn of the loop of `Data`, for recipient `i` of the copy `iter`.
  unfoldable pub filter_for : List (Text × List (Statement Float)) → Rcpt → ℕ → Rcpt → Mail → Step
  unfolding place inbox_folder check_filters apply_result init_context
  filter_for filters from i to m = then_step (place i to m) λ m'.
      apply_found
        (check_filters
          (init_context lib [] (filter_rcpt from) (filter_rcpt (inbox_folder to)) (fields m'.header)
            m'.body)
          filters [])
        m'

  -- The loop of `Data` from index `i`.
  unfoldable pub filter_each :
      List (Text × List (Statement Float)) → Rcpt → ℕ → List Rcpt → Mail → Step
  unfolding filter_for
  filter_each filters from i [] m = goes_on m
  filter_each filters from i (to ∷ tos) m =
      then_step (filter_for filters from i to m) λ m'. filter_each filters from (ℕ.suc i) tos m'
