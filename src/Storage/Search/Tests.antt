-- ===== src/Storage/Search/Tests.antt =====
-- storage/search.go: the theorems on concrete criteria.
use atmail.Prelude.{
  ℕ, ◌≡◌, refl, true, false, Option, none, some, List, [], ◌∷◌, ◌++◌, Text, text, itoa,
}
use atmail.Prelude.Int.{pos}
use atmail.Storage.Search.{
  SearchDataSmall, Conditions, SearchCriteria, criteria, no_nots, not_of, no_ors, or_of,
  parse_criteria, SearchOptions, search, found, search_data, to_uid,
}
use atmail.Storage.Search.Joining.{where_of, parse_criteria-where_of}
use atmail.Storage.Search.Rows.{takes, has_simple, search-takes, search_simple_not}

abbrev anything : Conditions
anything = record {
  seq_num = [];
  uid = [];
  before = none;
  since = none;
  larger = pos 0;
  smaller = pos 0;
  flag = [];
  not_flag = [];
}

abbrev above_5 : SearchCriteria
above_5 = criteria (record anything { larger = pos 5 }) no_nots no_ors

abbrev two_ids : SearchCriteria
two_ids = criteria (record anything { uid = (7 ∷ 8 ∷ []) ∷ [] }) no_nots no_ors

abbrev either : SearchCriteria
either = criteria (record anything { larger = pos 5 }) no_nots (or_of above_5 two_ids no_ors)

parse_criteria-where_of_example :
    (parse_criteria either (text "x ")).0 ≡ text "x " ++ where_of either
parse_criteria-where_of_example = parse_criteria-where_of either (text "x ")

-- The Or has no parentheses around it.
parse_criteria-either : (parse_criteria either []).0 ≡ text "id > 5 AND (id > 5) OR (id IN ()7,8)"
unfolding parse_criteria itoa
parse_criteria-either = refl

abbrev row : SearchDataSmall
row = record { id = 7; filename = text "f"; offset = 0 }

abbrev options : SearchOptions
options = record { return_min = true; return_max = true; return_count = true; return_save = false }

abbrev query : Text → ℕ → Option (List (Option SearchDataSmall))
query t mailbox = some (some row ∷ [])

search-takes_example : search query 1 either options ≡ found (search_data options (7 ∷ []))
unfolding takes to_uid
search-takes_example = search-takes query 1 either options (row ∷ []) refl refl

search_simple_not_example :
    search query 1 (criteria anything (not_of above_5 no_nots) no_ors) options
    ≡ found (search_data options [])
unfolding has_simple
search_simple_not_example =
    search_simple_not query 1 anything (not_of above_5 no_nots) no_ors options (row ∷ []) refl refl
      refl
