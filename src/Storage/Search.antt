-- ===== src/Storage/Search.antt =====
-- storage/search.go: a search as a query with the conditions of its criteria, and a test of the rows.
pub mod Joining
pub mod Rows
mod Tests
use atmail.Prelude.{
  ℕ, suc, ◌-◌, ◌%◌, Bool, true, false, not, ◌&&◌, ◌||◌, Option, none, some, List, [], ◌∷◌, ◌++◌,
  map, if◌then◌else◌, ◌==◌, length, is_empty, take, Text, text, itoa,
}
use atmail.Prelude.Int.{ℤ, pos, negsuc}
use atmail.Utils.Slices.{any, all}

-- `searchDataSmall`.
pub record SearchDataSmall : Type 0 where
  pub id : ℕ
  pub filename : Text
  pub offset : ℕ

-- The fields of `imap.SearchCriteria` that are read, but for the criteria in it. A set is what its Nums
-- gives; a time is its Unix time, or none if it is zero.
pub record Conditions : Type 0 where
  pub seq_num : List (List ℕ)
  pub uid : List (List ℕ)
  pub before : Option ℤ
  pub since : Option ℤ
  pub larger : ℤ
  pub smaller : ℤ
  pub flag : List Text
  pub not_flag : List Text

mutual
  pub data SearchCriteria : Type 0 where
    criteria : Conditions → Nots → Ors → SearchCriteria

  pub data Nots : Type 0 where
    no_nots : Nots
    not_of : SearchCriteria → Nots → Nots

  pub data Ors : Type 0 where
    no_ors : Ors
    or_of : SearchCriteria → SearchCriteria → Ors → Ors

-- strconv.Itoa of an int64.
unfoldable pub itoa_ℤ : ℤ → Text
itoa_ℤ (pos n) = itoa n
itoa_ℤ (negsuc n) = b'-' ∷ itoa (suc n)

-- The builder and `needAnd`.
abbrev pub Where : Type 0
Where = Text × Bool

-- A condition, after an AND if one is needed.
unfoldable pub add_condition : Text → Where → Where
add_condition t (sb, need_and) = (sb ++ ((if need_and then text " AND " else []) ++ t), true)

unfoldable pub concat_sets : List (List ℕ) → List ℕ
concat_sets [] = []
concat_sets (s ∷ ss) = s ++ concat_sets ss

unfoldable pub write_ids : List ℕ → Text
write_ids [] = []
write_ids (id ∷ ids) = itoa id ++ b',' ∷ write_ids ids

-- `idss`, without its last byte.
unfoldable pub ids_text : List ℕ → Text
unfolding write_ids
ids_text ids = let idss = text "()" ++ write_ids ids in take (length idss - 1) idss

unfoldable pub add_ids : List ℕ → Where → Where
unfolding ids_text
add_ids [] (sb, need_and) = (sb, need_and)
add_ids (id ∷ ids) (sb, need_and) = (sb ++ (text "id IN " ++ ids_text (id ∷ ids)), true)

unfoldable pub add_date : Text → Option ℤ → Where → Where
unfolding add_condition itoa_ℤ
add_date before none w = w
add_date before (some t) w = add_condition (before ++ itoa_ℤ t) w

unfoldable pub is_zero : ℤ → Bool
is_zero (pos n) = n == 0
is_zero (negsuc n) = false

unfoldable pub add_bound : Text → ℤ → Where → Where
unfolding add_condition itoa_ℤ is_zero
add_bound before n w = if is_zero n then w else add_condition (before ++ itoa_ℤ n) w

-- strings.ReplaceAll(flag, `'`, `\'`).
unfoldable pub replace_quotes : Text → Text
replace_quotes [] = []
replace_quotes (b ∷ bs) =
    let rest = replace_quotes bs in if b == b'\'' then b'\\' ∷ b'\'' ∷ rest else b ∷ rest

abbrev pub line : Text → Text
line t = 10 ∷ t

-- The EXISTS of the emails with a flag.
unfoldable pub flag_text : Text → Text → Text
unfolding replace_quotes
flag_text exists flag =
    exists
    ++ line (text "\t\t\t\tSELECT * FROM emails_flags WHERE email_id = id and flag_id = (")
    ++ line (text "\t\t\t\t\tSELECT id FROM flags WHERE name = '")
    ++ replace_quotes flag
    ++ text "'))"

unfoldable pub add_flags : Text → List Text → Where → Where
unfolding flag_text add_condition
add_flags exists [] w = w
add_flags exists (f ∷ fs) w = add_flags exists fs (add_condition (flag_text exists f) w)

-- `parseCriteria` up to its loop over Not.
unfoldable pub add_conditions : Conditions → Where → Where
unfolding concat_sets add_ids add_date add_bound add_flags
add_conditions c w = add_flags (text "NOT EXISTS (") c.not_flag (
    add_flags (text "EXISTS (") c.flag (
      add_bound (text "id < ") c.smaller (
        add_bound (text "id > ") c.larger (
          add_date (text "internal_date > ") c.since (
            add_date (text "internal_date < ") c.before
              (add_ids (concat_sets c.seq_num ++ concat_sets c.uid) w))))))

-- The closure that `parseCriteria` returns.
abbrev pub Check : Type 0
Check = SearchDataSmall → Bool

unfoldable pub check_all : List Check → List (Check × Check) → Check
unfolding any all
check_all not_fns or_fns v =
    let base = not (any (map (λ fn. fn v) not_fns)) && all (map (λ (f, g). f v || g v) or_fns) in
    if not base then false else true

unfoldable mutual
  unfolding add_conditions check_all add_condition

  -- `parseCriteria`.
  pub parse_criteria : SearchCriteria → Text → Text × Check
  parse_criteria (criteria c nots ors) sb =
      let (w, not_fns) = parse_nots nots (add_conditions c (sb, false)) in
      let (w', or_fns) = parse_ors ors w in (w'.0, check_all not_fns or_fns)

  pub parse_nots : Nots → Where → Where × List Check
  parse_nots no_nots w = (w, [])
  parse_nots (not_of c nots) w =
      let (sb, fn) = parse_criteria c (add_condition (text "NOT (") w).0 in
      let (w', fns) = parse_nots nots (sb ++ text ")", true) in (w', fn ∷ fns)

  pub parse_ors : Ors → Where → Where × List (Check × Check)
  parse_ors no_ors w = (w, [])
  parse_ors (or_of c d ors) w =
      let (sb, f) = parse_criteria c (add_condition (text "(") w).0 in
      let (sb', g) = parse_criteria d (sb ++ text ") OR (") in
      let (w', fns) = parse_ors ors (sb' ++ text ")", true) in (w', (f, g) ∷ fns)

pub record SearchOptions : Type 0 where
  pub return_min : Bool
  pub return_max : Bool
  pub return_count : Bool
  pub return_save : Bool

-- `imap.SearchData`; the set of All is the UIDs that it is made of.
pub record SearchData : Type 0 where
  pub all : List ℕ
  pub min : ℕ
  pub max : ℕ
  pub count : ℕ

pub data Searched : Type 0 where
  not_saved failed : Searched
  found : SearchData → Searched

-- `searchQuery`.
unfoldable pub search_query : Text → Text
search_query where_text =
    line (text "SELECT id, filename, offset FROM emails")
    ++ line (text "WHERE ")
    ++ where_text
    ++ text " EXISTS("
    ++ line (text "\tSELECT * FROM mailbox_emails WHERE mailbox_id = ? AND email_id = id")
    ++ line (text ")")

-- The loop over the rows; a row that is none cannot be scanned.
unfoldable pub scan_rows : Check → List (Option SearchDataSmall) → Option (List SearchDataSmall)
scan_rows check [] = some []
scan_rows check (none ∷ rows) = none
scan_rows check (some v ∷ rows) = elim (scan_rows check rows) [
  | none ↦ none
  | some raw_ids ↦ some (if check v then v ∷ raw_ids else raw_ids)
]

-- imap.UID(id).
unfoldable pub to_uid : ℕ → ℕ
to_uid id = id % 4294967296

unfoldable pub last_of : List ℕ → ℕ
last_of [] = 0
last_of (id ∷ []) = id
last_of (id ∷ j ∷ ids) = last_of (j ∷ ids)

unfoldable pub first_of : List ℕ → ℕ
first_of [] = 0
first_of (id ∷ ids) = id

unfoldable pub search_data : SearchOptions → List ℕ → SearchData
unfolding last_of first_of
search_data options ids = record {
  all = ids;
  min = if options.return_min then first_of ids else 0;
  max = if options.return_max then last_of ids else 0;
  count = if options.return_count then length ids % 4294967296 else 0;
}

abbrev pub found_rows : SearchOptions → Option (List SearchDataSmall) → Searched
found_rows options none = failed
found_rows options (some raw_ids) = found (search_data options (map (λ v. to_uid v.id) raw_ids))

abbrev pub scan_answer : SearchOptions → Check → Option (List (Option SearchDataSmall)) → Searched
scan_answer options check none = failed
scan_answer options check (some rows) = found_rows options (scan_rows check rows)

-- `Search`, where the database gives the rows of a query on a mailbox, or an error.
unfoldable pub search :
    (Text → ℕ → Option (List (Option SearchDataSmall)))
    → ℕ
    → SearchCriteria
    → SearchOptions
    → Searched
unfolding parse_criteria search_query scan_rows to_uid search_data
search query mailbox c options =
    if options.return_save
    then not_saved
    else let (where_text, check) = parse_criteria c [] in
      scan_answer options check (
        query (search_query (if is_empty where_text then [] else where_text ++ text " AND"))
          mailbox)
