-- ===== src/Storage/Search/Rows.antt =====
-- storage/search.go: which rows a search gives.
use atmail.Prelude.{
  ℕ, ◌≡◌, refl, ◌∙◌, arith, Bool, true, false, not, ◌&&◌, ◌||◌, Option, some, List, [], ◌∷◌, ◌++◌,
  map, if◌then◌else◌, Text, text, is_empty,
}
use atmail.Utils.Slices.{any, all}
use atmail.Storage.Search.{
  SearchDataSmall, Conditions, SearchCriteria, criteria, Nots, no_nots, not_of, Ors, no_ors, or_of,
  Check, Where, check_all, parse_criteria, parse_nots, parse_ors, SearchOptions, found,
  search_query, scan_rows, to_uid, search_data, search, add_conditions, add_condition,
}
use atmail.Storage.Search.Joining.{where_of, parse_criteria-where_of}

-- Whether the test of criteria takes a row, whatever the row.
unfoldable mutual
  pub takes : SearchCriteria → Bool
  takes (criteria c nots ors) = not (takes_one nots) && takes_each ors

  pub takes_one : Nots → Bool
  takes_one no_nots = false
  takes_one (not_of c nots) = takes c || takes_one nots

  pub takes_each : Ors → Bool
  takes_each no_ors = true
  takes_each (or_of c d ors) = (takes c || takes d) && takes_each ors

if-or : (a b : Bool) → (if a then true else b) ≡ a || b
if-or true b = refl
if-or false b = refl

if-and : (a b : Bool) → (if a then b else false) ≡ a && b
if-and true b = refl
if-and false b = refl

check_all-base :
    (not_fns : List Check) (or_fns : List (Check × Check)) (v : SearchDataSmall)
    → check_all not_fns or_fns v
      ≡ not (any (map (λ fn. fn v) not_fns)) && all (map (λ (f, g). f v || g v) or_fns)
unfolding check_all
check_all-base not_fns or_fns v = ground arith

mutual
  unfolding parse_criteria takes any all

  check-takes :
      (c : SearchCriteria) (sb : Text) (v : SearchDataSmall) → (parse_criteria c sb).1 v ≡ takes c
  check-takes (criteria c nots ors) sb v =
      let w = add_conditions c (sb, false) in
      check_all-base (parse_nots nots w).1 (parse_ors ors (parse_nots nots w).0).1 v
      ∙ rw (any-takes_one nots w v, all-takes_each ors (parse_nots nots w).0 v) refl

  any-takes_one :
      (nots : Nots) (w : Where) (v : SearchDataSmall)
      → any (map (λ fn. fn v) (parse_nots nots w).1) ≡ takes_one nots
  any-takes_one no_nots w v = refl
  any-takes_one (not_of c nots) w v =
      let sb = (add_condition (text "NOT (") w).0 in
      rw (check-takes c sb v, any-takes_one nots ((parse_criteria c sb).0 ++ text ")", true) v)
        (if-or (takes c) (takes_one nots))

  all-takes_each :
      (ors : Ors) (w : Where) (v : SearchDataSmall)
      → all (map (λ (f, g). f v || g v) (parse_ors ors w).1) ≡ takes_each ors
  all-takes_each no_ors w v = refl
  all-takes_each (or_of c d ors) w v =
      let sb = (add_condition (text "(") w).0 in
      let sb' = (parse_criteria c sb).0 ++ text ") OR (" in
      rw
        (
          check-takes c sb v,
          check-takes d sb' v,
          all-takes_each ors ((parse_criteria d sb').0 ++ text ")", true) v,
        )
        (if-and (takes c || takes d) (takes_each ors))

scan_rows-take :
    (check : Check) (b : Bool) (rows : List SearchDataSmall)
    → ((v : SearchDataSmall) → check v ≡ b)
    → scan_rows check (map some rows) ≡ some (if b then rows else [])
unfolding scan_rows
scan_rows-take check true [] h = refl
scan_rows-take check false [] h = refl
scan_rows-take check true (v ∷ rows) h = rw (scan_rows-take check true rows h, h v) refl
scan_rows-take check false (v ∷ rows) h = rw (scan_rows-take check false rows h, h v) refl

abbrev pub with_and : Text → Text
with_and t = if is_empty t then [] else t ++ text " AND"

-- Where the database answers the query of the conditions with rows that can be read, a search gives
-- all of them or none, by the shape of the criteria alone.
pub search-takes :
    (query : Text → ℕ → Option (List (Option SearchDataSmall))) (mailbox : ℕ) (c : SearchCriteria)
    (options : SearchOptions) (rows : List SearchDataSmall)
    → options.return_save ≡ false
    → query (search_query (with_and (where_of c))) mailbox ≡ some (map some rows)
    → search query mailbox c options
      ≡ found (search_data options (map (λ v. to_uid v.id) (if takes c then rows else [])))
unfolding search
search-takes query mailbox c options rows n q =
    rw
      (
        n,
        parse_criteria-where_of c [],
        q,
        scan_rows-take (parse_criteria c []).1 (takes c) rows (check-takes c []),
      )
      refl

-- There is no Not in the criteria, nor in those of an Or in them.
unfoldable mutual
  pub without_nots : SearchCriteria → Bool
  without_nots (criteria c no_nots ors) = none_in ors
  without_nots (criteria c (not_of d nots) ors) = false

  pub none_in : Ors → Bool
  none_in no_ors = true
  none_in (or_of c d ors) = without_nots c && without_nots d && none_in ors

mutual
  unfolding without_nots takes

  without_nots-takes : (c : SearchCriteria) → without_nots c ≡ true → takes c ≡ true
  without_nots-takes (criteria c no_nots ors) h = none_in-takes_each ors h
  without_nots-takes (criteria c (not_of d nots) ors) h = cc

  none_in-takes_each : (ors : Ors) → none_in ors ≡ true → takes_each ors ≡ true
  none_in-takes_each no_ors h = refl
  none_in-takes_each (or_of c d ors) h =
      ground (arith, without_nots-takes c, none_in-takes_each ors)

unfoldable pub has_simple : Nots → Bool
unfolding without_nots
has_simple no_nots = false
has_simple (not_of c nots) = without_nots c || has_simple nots

takes_one-simple : (nots : Nots) → has_simple nots ≡ true → takes_one nots ≡ true
unfolding takes has_simple
takes_one-simple no_nots h = cc
takes_one-simple (not_of c nots) h = ground (arith, without_nots-takes c, takes_one-simple nots)

-- Where the criteria have a Not of criteria that hold no Not themselves, a search finds nothing,
-- whatever rows that can be read the database answers.
pub search_simple_not :
    (query : Text → ℕ → Option (List (Option SearchDataSmall))) (mailbox : ℕ) (c : Conditions)
    (nots : Nots) (ors : Ors) (options : SearchOptions) (rows : List SearchDataSmall)
    → options.return_save ≡ false
    → query (search_query (with_and (where_of (criteria c nots ors)))) mailbox
      ≡ some (map some rows)
    → has_simple nots ≡ true
    → search query mailbox (criteria c nots ors) options ≡ found (search_data options [])
unfolding takes
search_simple_not query mailbox c nots ors options rows n q h =
    search-takes query mailbox (criteria c nots ors) options rows n q
    ∙ rw (takes_one-simple nots h) refl
