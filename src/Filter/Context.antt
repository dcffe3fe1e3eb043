-- ===== src/Filter/Context.antt =====
-- filter/eval.go, filter/eval_actions.go: the context of an evaluation, and the actions.
use atmail.Prelude.{
  Bool, true, false, Option, none, some, List, [], ◌∷◌, ◌++◌, ◌&&◌, if◌then◌else◌, Text, text,
  insert,
}
use atmail.Filter.Value.{
  type_string, type_eq, no_methods, Variable, make, string, Entries, no_entries, entry, type_of,
  value_of, new_string, new_bool, new_collection, new_numbered, no_numbered, slice_to_map,
  set_entry,
}
use atmail.Filter.Evaluation.{Panic, ok, err, panic, as_string}
use atmail.Filter.Library.{Library}

pub data ResultAction : Type 0 where
  action_continue action_accept action_reject action_temp_fail action_discard : ResultAction
  action_connection_fail action_quarantine : ResultAction

abbrev pub is_continue : ResultAction → Bool
is_continue action_continue = true
is_continue _ = false

-- `filter.Rcpt`.
pub record Rcpt : Type 0 where
  pub user : Text
  pub domain : Text
  pub folder : Text
  pub address : Text

-- `Result` without ModifyHeader: that map is shared by every copy of a Result, so it stands beside the
-- contexts, as `Headers`.
pub record Result : Type 0 where
  pub action : ResultAction
  pub add_recipient : List Text
  pub remove_recipient : List Text
  pub sender_address : Option Rcpt
  pub mailbox : Option Text
  pub body : Option Text
  pub spam : Bool

abbrev pub Headers : Type 0
Headers = List (Text × Text)

-- The zero value of `Result`.
abbrev pub zero_result : Result
zero_result = record {
  action = action_continue;
  add_recipient = [];
  remove_recipient = [];
  sender_address = none;
  mailbox = none;
  body = none;
  spam = false;
}

pub data Action : Type 0 where
  set_result_action : ResultAction → Action
  forward mailbox set_header spam : Action

abbrev pub actions : List (Text × Action)
actions =
    (text "reject", set_result_action action_reject)
    ∷ (text "accept", set_result_action action_accept)
    ∷ (text "temp_reject", set_result_action action_temp_fail)
    ∷ (text "discard", set_result_action action_discard)
    ∷ (text "quarantine", set_result_action action_quarantine)
    ∷ (text "forward", forward)
    ∷ (text "mailbox", mailbox)
    ∷ (text "set_header", set_header)
    ∷ (text "spam", spam)
    ∷ []

module _ (lib : Library) where
  open lib use {Float, floats}

  pub record Context : Type 0 where
    pub variables : Entries Float
    pub actions : List (Text × Action)
    pub result : Result
    pub verbose : Bool
    pub logger_key : Text

  -- What the evaluation of a statement leaves: whether it can go on, the context, and the shared map
  -- of headers.
  pub data Run : Type 0 where
    ran : Bool → Context → Headers → Run
    crashed : Panic → Run

  -- An action on a context. An error of it stops the statements, as false does.
  unfoldable pub with_string : Variable Float → Context → Headers → (Text → Run) → Run
  unfolding as_string
  with_string p ctx h k = elim (as_string (value_of p)) [
    | ok s ↦ k s
    | err e ↦ ran false ctx h
    | panic x ↦ crashed x
  ]

  unfoldable pub is_string : Variable Float → Bool
  unfolding type_eq
  is_string p = type_eq (type_of p) type_string

  unfoldable pub run_forward : List (Variable Float) → Context → Headers → Run
  unfolding is_string with_string
  run_forward (p ∷ []) ctx h =
      if is_string p
      then with_string p ctx h (λ s.
        ran true
          (record ctx {
            result = record (ctx.result) { add_recipient = ctx.result.add_recipient ++ s ∷ [] };
          })
          h)
      else ran false ctx h
  run_forward _ ctx h = ran false ctx h

  unfoldable pub run_mailbox : List (Variable Float) → Context → Headers → Run
  unfolding is_string with_string
  run_mailbox (p ∷ []) ctx h =
      if is_string p
      then with_string p ctx h
          (λ s. ran true (record ctx { result = record (ctx.result) { mailbox = some s } }) h)
      else ran false ctx h
  run_mailbox _ ctx h = ran false ctx h

  unfoldable pub run_set_header : List (Variable Float) → Context → Headers → Run
  unfolding is_string with_string insert
  run_set_header (p ∷ q ∷ []) ctx h =
      if is_string p && is_string q
      then with_string p ctx h (λ k. with_string q ctx h (λ v. ran true ctx (insert k v h)))
      else ran false ctx h
  run_set_header _ ctx h = ran false ctx h

  unfoldable pub run_spam : Context → Headers → Run
  run_spam ctx h =
      ran true
        (record ctx {
          result = record (ctx.result) {
            mailbox = some (text "Junk");
            action = action_quarantine;
            spam = true;
          };
        })
        h

  unfoldable pub run_action : Action → List (Variable Float) → Context → Headers → Run
  unfolding run_forward run_mailbox run_set_header run_spam
  run_action (set_result_action a) ps ctx h =
      ran true (record ctx { result = record (ctx.result) { action = a } }) h
  run_action forward ps ctx h = run_forward ps ctx h
  run_action mailbox ps ctx h = run_mailbox ps ctx h
  run_action set_header ps ctx h = run_set_header ps ctx h
  run_action spam ps ctx h = run_spam ctx h

  -- val.Fields = fs.
  unfoldable pub with_fields : Variable Float → Entries Float → Variable Float
  with_fields (make t v m _) fs = make t v m fs

  -- `rcptVariable`.
  unfoldable pub rcpt_variable : Rcpt → Variable Float
  unfolding new_string with_fields
  rcpt_variable r = with_fields (new_string r.address) (
      entry (text "user") (new_string r.user)
        (entry (text "domain") (new_string r.domain) no_entries))

  -- A header of one value is a string, any other a collection.
  unfoldable pub header_value : List Text → Variable Float
  unfolding new_string new_numbered slice_to_map
  header_value (v ∷ []) = new_string v
  header_value vs = new_numbered (slice_to_map floats 0 vs no_numbered)

  unfoldable pub header_entries : List (Text × List Text) → Entries Float
  unfolding header_value set_entry
  header_entries [] = no_entries
  header_entries ((k, vs) ∷ m) = set_entry k (header_value vs) (header_entries m)

  -- `headerVariable`, from `header.Map()`.
  unfoldable pub header_variable : List (Text × List Text) → Variable Float
  unfolding header_entries new_collection
  header_variable m = new_collection (header_entries m)

  -- `InitEvalulationContext`: the context, beside an empty map of headers.
  unfoldable pub init_context : Text → Rcpt → Rcpt → List (Text × List Text) → Text → Context
  unfolding new_bool rcpt_variable header_variable
  init_context name from to header body = record {
    variables = entry (text "true") (new_bool true) (
        entry (text "false") (new_bool false) (
          entry (text "from") (rcpt_variable from) (
            entry (text "to") (rcpt_variable to) (
              entry (text "header") (header_variable header) (
                entry (text "body") (make type_string (string body) no_methods no_entries)
                  no_entries)))));
    actions = actions;
    result = zero_result;
    verbose = false;
    logger_key = name;
  }
