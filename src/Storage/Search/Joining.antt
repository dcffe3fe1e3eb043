-- ===== src/Storage/Search/Joining.antt =====
-- storage/search.go: the text that parseCriteria writes is that of the conditions, put together by AND.
use atmail.Prelude.{
  ℕ, ◌-◌, ◌≡◌, refl, sym, ap, ◌∙◌, arith, true, false, Option, none, some, List, [], ◌∷◌, ◌++◌, map,
  append-nil, append_assoc, if◌then◌else◌, length, length-append, take, Text, text, itoa,
}
use atmail.Prelude.Int.{ℤ}
use atmail.Storage.Search.{
  Conditions, SearchCriteria, criteria, Nots, no_nots, not_of, Ors, no_ors, or_of, Where, itoa_ℤ,
  add_condition, concat_sets, write_ids, ids_text, add_ids, add_date, is_zero, add_bound, flag_text,
  add_flags, add_conditions, parse_criteria, parse_nots, parse_ors,
}

-- Texts, each after a separator; and with a separator between them.
unfoldable pub tail_of : Text → List Text → Text
tail_of sep [] = []
tail_of sep (t ∷ ts) = sep ++ (t ++ tail_of sep ts)

unfoldable pub join : Text → List Text → Text
unfolding tail_of
join sep [] = []
join sep (t ∷ ts) = t ++ tail_of sep ts

abbrev pub id_condition : List ℕ → List Text
id_condition [] = []
id_condition (id ∷ ids) = (text "id IN ()" ++ join (text ",") (map itoa (id ∷ ids))) ∷ []

abbrev pub date_condition : Text → Option ℤ → List Text
date_condition before none = []
date_condition before (some t) = (before ++ itoa_ℤ t) ∷ []

abbrev pub bound_condition : Text → ℤ → List Text
bound_condition before n = if is_zero n then [] else (before ++ itoa_ℤ n) ∷ []

-- The conditions but for Not and Or.
unfoldable pub conditions : Conditions → List Text
conditions c =
    id_condition (concat_sets c.seq_num ++ concat_sets c.uid)
    ++ date_condition (text "internal_date < ") c.before
    ++ date_condition (text "internal_date > ") c.since
    ++ bound_condition (text "id > ") c.larger
    ++ bound_condition (text "id < ") c.smaller
    ++ map (flag_text (text "EXISTS (")) c.flag
    ++ map (flag_text (text "NOT EXISTS (")) c.not_flag

unfoldable mutual
  unfolding conditions join

  pub where_of : SearchCriteria → Text
  where_of (criteria c nots ors) = join (text " AND ") (conditions c ++ nots_of nots ++ ors_of ors)

  pub nots_of : Nots → List Text
  nots_of no_nots = []
  nots_of (not_of c nots) = (text "NOT (" ++ where_of c ++ text ")") ∷ nots_of nots

  pub ors_of : Ors → List Text
  ors_of no_ors = []
  ors_of (or_of c d ors) =
      (text "(" ++ where_of c ++ text ") OR (" ++ where_of d ++ text ")") ∷ ors_of ors

-- Conditions added in turn.
unfoldable add_each : List Text → Where → Where
unfolding add_condition
add_each [] w = w
add_each (t ∷ ts) w = add_each ts (add_condition t w)

add_each-append :
    (ts us : List Text) (w : Where) → add_each (ts ++ us) w ≡ add_each us (add_each ts w)
unfolding add_each
add_each-append [] us w = refl
add_each-append (t ∷ ts) us w = add_each-append ts us (add_condition t w)

add_each-true :
    (ts : List Text) (sb : Text)
    → ◌≡◌ {A = Where} (add_each ts (sb, true)) (sb ++ tail_of (text " AND ") ts, true)
unfolding add_each add_condition tail_of
add_each-true [] sb = rw (append-nil sb) refl
add_each-true (t ∷ ts) sb =
    add_each-true ts (sb ++ (text " AND " ++ t))
    ∙ ap (λ sb. (sb, true)) (append_assoc sb (text " AND " ++ t) (tail_of (text " AND ") ts))

-- From the start, they are joined.
add_each-join :
    (ts : List Text) (sb : Text) → (add_each ts (sb, false)).0 ≡ sb ++ join (text " AND ") ts
unfolding add_each add_condition join
add_each-join [] sb = sym (append-nil sb)
add_each-join (t ∷ ts) sb =
    ap (λ w. w.0) (add_each-true ts (sb ++ t)) ∙ append_assoc sb t (tail_of (text " AND ") ts)

-- The loop of ids, without its last comma.
write_ids-join :
    (id : ℕ) (ids : List ℕ)
    → write_ids (id ∷ ids) ≡ join (text ",") (map itoa (id ∷ ids)) ++ text ","
unfolding write_ids join
write_ids-join id [] = rw (append-nil (itoa id)) refl
write_ids-join id (j ∷ ids) =
    rw
      (
        write_ids-join j ids,
        append_assoc (itoa id) (tail_of (text ",") (map itoa (j ∷ ids))) (text ","),
      )
      refl

take-length : (s t : Text) → take (length s) (s ++ t) ≡ s
take-length [] t = refl
take-length (a ∷ s) t = ap (λ s. a ∷ s) (take-length s t)

take-append : (s : Text) (b : ℕ) → take (length (s ++ b ∷ []) - 1) (s ++ b ∷ []) ≡ s
take-append s b =
    let n : length (s ++ b ∷ []) - 1 ≡ length s = omega (arith, length-append s (b ∷ [])) in
    rw n (take-length s (b ∷ []))

add_ids-each :
    (ids : List ℕ) (sb : Text) → add_ids ids (sb, false) ≡ add_each (id_condition ids) (sb, false)
unfolding add_ids add_each add_condition ids_text
add_ids-each [] sb = refl
add_ids-each (id ∷ ids) sb = rw (write_ids-join id ids) (
    ap (λ t. (sb ++ (text "id IN " ++ t), true))
      (take-append (text "()" ++ join (text ",") (map itoa (id ∷ ids))) b','))

add_date-each :
    (before : Text) (t : Option ℤ) (w : Where)
    → add_date before t w ≡ add_each (date_condition before t) w
unfolding add_date add_each
add_date-each before none w = refl
add_date-each before (some t) w = refl

add_bound-each :
    (before : Text) (n : ℤ) (w : Where)
    → add_bound before n w ≡ add_each (bound_condition before n) w
unfolding add_bound add_each
add_bound-each before n w = ground arith

add_flags-each :
    (exists : Text) (fs : List Text) (w : Where)
    → add_flags exists fs w ≡ add_each (map (flag_text exists) fs) w
unfolding add_flags add_each
add_flags-each exists [] w = refl
add_flags-each exists (f ∷ fs) w = add_flags-each exists fs (add_condition (flag_text exists f) w)

add_conditions-each :
    (c : Conditions) (sb : Text)
    → add_conditions c (sb, false) ≡ add_each (conditions c) (sb, false)
unfolding add_conditions conditions
add_conditions-each c sb =
    simp (add_each-append, add_flags-each, add_bound-each, add_date-each, add_ids-each)

closed :
    (t u v : Text) (w : Where)
    → ◌≡◌ {A = Where} ((add_condition t w).0 ++ u ++ v, true) (add_condition (t ++ u ++ v) w)
unfolding add_condition
closed t u v (sb, need_and) = ap (λ t. (t, true)) (simp append_assoc)

closed_or :
    (t u v x y : Text) (w : Where)
    → ◌≡◌ {A = Where}
        ((add_condition t w).0 ++ u ++ v ++ x ++ y, true)
        (add_condition (t ++ u ++ v ++ x ++ y) w)
unfolding add_condition
closed_or t u v x y (sb, need_and) = ap (λ t. (t, true)) (simp append_assoc)

mutual
  unfolding parse_criteria where_of add_each

  parse_criteria-each :
      (c : SearchCriteria) (sb : Text) → (parse_criteria c sb).0 ≡ sb ++ where_of c
  parse_criteria-each (criteria c nots ors) sb =
      rw
        (
          parse_ors-each ors (parse_nots nots (add_conditions c (sb, false))).0,
          parse_nots-each nots (add_conditions c (sb, false)),
          add_conditions-each c sb,
          sym (add_each-append (conditions c) (nots_of nots) (sb, false)),
          sym (add_each-append (conditions c ++ nots_of nots) (ors_of ors) (sb, false)),
        )
        (add_each-join (conditions c ++ nots_of nots ++ ors_of ors) sb)

  parse_nots-each : (nots : Nots) (w : Where) → (parse_nots nots w).0 ≡ add_each (nots_of nots) w
  parse_nots-each no_nots w = refl
  parse_nots-each (not_of c nots) w =
      rw
        (
          parse_nots-each nots
              ((parse_criteria c (add_condition (text "NOT (") w).0).0 ++ text ")", true),
          parse_criteria-each c (add_condition (text "NOT (") w).0,
          closed (text "NOT (") (where_of c) (text ")") w,
        )
        refl

  parse_ors-each : (ors : Ors) (w : Where) → (parse_ors ors w).0 ≡ add_each (ors_of ors) w
  parse_ors-each no_ors w = refl
  parse_ors-each (or_of c d ors) w =
      let sb = (add_condition (text "(") w).0 ++ where_of c ++ text ") OR (" in
      rw
        (
          parse_ors-each ors (
            (parse_criteria d
                  ((parse_criteria c (add_condition (text "(") w).0).0 ++ text ") OR (")).0
                ++ text ")",
            true,
          ),
          parse_criteria-each c (add_condition (text "(") w).0,
          parse_criteria-each d sb,
          closed_or (text "(") (where_of c) (text ") OR (") (where_of d) (text ")") w,
        )
        refl

-- The text that `parseCriteria` writes is, behind what was written, that of the conditions of the
-- criteria, with AND between them: those of each field, NOT (...) of each Not, and (...) OR (...),
-- without parentheses around it, of each Or.
pub parse_criteria-where_of :
    (c : SearchCriteria) (sb : Text) → (parse_criteria c sb).0 ≡ sb ++ where_of c
parse_criteria-where_of c sb = parse_criteria-each c sb
