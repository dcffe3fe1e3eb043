-- ===== src/Filter/Kind.antt =====
-- filter/lexer.go: the kinds of lexems, and `kindOf`.
use atmail.Prelude.{
  ℕ, Bool, true, false, ◌&&◌, ◌||◌, Option, none, some, List, [], ◌∷◌, ◌==◌, leb, if◌then◌else◌,
  is_some, is_none, Text, text,
}

-- `filter` and `let` of the source are `block_filter` and `let_assign`.
pub data Kind : Type 0 where
  identifier identifier_compose identifier_execute identifier_param_beg : Kind
  identifier_param_end identifier_param_sep string_del number operator_low operator_high : Kind
  super_operator block_beg block_end block_filter separator let_assign comment generic : Kind

-- The value of the constant, by iota.
abbrev pub ordinal : Kind → ℕ
ordinal identifier = 0
ordinal identifier_compose = 1
ordinal identifier_execute = 2
ordinal identifier_param_beg = 3
ordinal identifier_param_end = 4
ordinal identifier_param_sep = 5
ordinal string_del = 6
ordinal number = 7
ordinal operator_low = 8
ordinal operator_high = 9
ordinal super_operator = 10
ordinal block_beg = 11
ordinal block_end = 12
ordinal block_filter = 13
ordinal separator = 14
ordinal let_assign = 15
ordinal comment = 16
ordinal generic = 17

unfoldable pub kind_eq : Kind → Kind → Bool
kind_eq a b = ordinal a == ordinal b

abbrev pub valid_ops : List Text
valid_ops = text "=" ∷ text "!=" ∷ text ">=" ∷ text "<=" ∷ text ">" ∷ text "<" ∷ []

-- strings.ContainsRune, for a byte.
unfoldable pub contains_byte : Text → ℕ → Bool
contains_byte [] b = false
contains_byte (c ∷ t) b = if c == b then true else contains_byte t b

unfoldable pub is_digit : ℕ → Bool
is_digit r = leb b'0' r && leb r b'9'

unfoldable pub nil_or : Option Kind → Kind → Bool
unfolding kind_eq
nil_or none or = true
nil_or (some k) or = kind_eq k or

unfoldable pub next_is_digit : Option ℕ → Bool
unfolding is_digit
next_is_digit none = false
next_is_digit (some r) = is_digit r

-- The part of `kindOf` after its switch, with the case '-' of the switch first.
unfoldable pub kind_of_word : Option Kind → ℕ → Option ℕ → Kind
unfolding is_digit nil_or next_is_digit
kind_of_word before current next =
    if current == b'-' && (is_none before && next_is_digit next)
    then number
    else if is_digit current && nil_or before number
    then number
    else if current == b'.' && is_some next
    then (if next_is_digit next then number else identifier_compose)
    else if (nil_or before identifier && (leb b'A' current && leb current b'z'))
        || (is_some before && (current == b'_' || (current == b'-' || is_digit current)))
    then identifier
    else generic

unfoldable pub kind_of : Option Kind → ℕ → Option ℕ → Kind × Bool
unfolding kind_of_word
kind_of before current next =
    if current == b'#'
    then (comment, false)
    else if current == b'=' || (current == b'!' || (current == b'>' || current == b'<'))
    then (operator_low, false)
    else if current == b' ' || (current == 10 || (current == 13 || current == 9))
    then (separator, false)
    else if current == b':'
    then (identifier_execute, true)
    else if current == b'('
    then (identifier_param_beg, true)
    else if current == b')'
    then (identifier_param_end, true)
    else if current == b','
    then (identifier_param_sep, true)
    else if current == 34
    then (string_del, true)
    else (kind_of_word before current next, false)
