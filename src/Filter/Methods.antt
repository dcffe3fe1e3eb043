-- ===== src/Filter/Methods.antt =====
-- filter/eval_std.go, filter/eval.go: the methods of evaluation variables.
pub mod Slices
use atmail.Prelude.{
  ℕ, zero, suc, ◌-◌, min, Bool, true, false, not, Option, none, some, List, [], ◌∷◌, ◌==◌, ltb,
  if◌then◌else◌, length, take, drop, get_elem?, Text, text, lookup, write_rune, is_some, is_empty,
  ◌||◌, eq_text,
}
use atmail.Prelude.Int.{ℤ, pos, negsuc, ltb_ℤ}
use atmail.Filter.Strings.{contains_text, split_loop}
use atmail.Filter.Library.{Library}
use atmail.Filter.Value.{
  VariableType, type_string, type_number, type_any, type_eq, Key, key_string, key_number,
  type_of_key, Methods, no_methods, string_methods, bool_methods, collection_methods, Variable,
  make, Value, string, number, bool, by_string, by_number, Entries, no_entries, entry, Numbered,
  no_numbered, numbered, type_of, value_of, get_entry, set_entry, count_entries, count_numbered,
  new_string, new_number, new_bool, new_numbered, clone, get_numbered, set_numbered, slice_to_map,
}
use atmail.Filter.Evaluation.{
  Eval, ok, err, panic, ◌>>=◌, as_string, as_number, as_bool, index_out_of_range, wrong_type,
  missing_parameters, invalid_parameters_type, out_of_range, invalid_range, not_a_number,
  key_not_found,
}

module _ (lib : Library) where
  open lib use {Float, of_nat, to_int, eq, parse_float, explode, same_maps}

  abbrev pub Var : Type 0
  Var = Variable Float

  pub record EvaluationMethod : Type 0 where
    pub params_type : List VariableType
    pub action : Var → List Var → Eval Var

  -- params[i].Value.
  unfoldable pub param : List Var → ℕ → Eval (Value Float)
  param ps i = elim (get_elem? ps i) [ none ↦ panic index_out_of_range | some v ↦ ok (value_of v) ]

  -- strings.Split.
  unfoldable pub split : Text → Text → List Text
  unfolding split_loop
  split s [] = explode s
  split s (c ∷ sep) = split_loop (c ∷ sep) 0 [] s

  -- `get`: s[k], as a string of one character.
  unfoldable pub byte_at : Text → Option ℕ → Eval Var
  unfolding new_string write_rune
  byte_at s none = panic index_out_of_range
  byte_at s (some b) = ok (new_string (write_rune b))

  unfoldable pub get_byte : Text → ℤ → Eval Var
  unfolding byte_at ltb_ℤ
  get_byte s (negsuc k) = panic index_out_of_range
  get_byte s (pos k) =
      if not (ltb k (length s)) then err out_of_range else byte_at s (get_elem? s k)

  -- `sub`: s[k1:min(k2, len(s))].
  unfoldable pub slice : Text → ℕ → ℤ → Eval Var
  unfolding new_string
  slice s a (negsuc b) = panic index_out_of_range
  slice s a (pos b) = ok (new_string (take (min b (length s) - a) (drop a s)))

  unfoldable pub sub_string : Text → ℤ → ℤ → Eval Var
  unfolding slice ltb_ℤ new_string
  sub_string s (negsuc a) k2 = err invalid_range
  sub_string s (pos a) k2 =
      if ltb_ℤ k2 (pos a)
      then err invalid_range
      else if ltb (length s) a
      then ok (new_string [])
      else slice s a k2

  unfoldable pub parsed_number : Option Float → Eval Var
  unfolding new_number
  parsed_number none = err not_a_number
  parsed_number (some x) = ok (new_number x)

  unfoldable pub string_method_table : List (Text × EvaluationMethod)
  unfolding new_number new_bool new_numbered as_string as_number param contains_text split
      slice_to_map get_byte sub_string parsed_number
  string_method_table =
      (
        text "len",
        record {
          params_type = [];
          action =
              λ parent ps. as_string (value_of parent) >>= λ s. ok (new_number (of_nat (length s)));
        },
      )
      ∷ (
        text "contains",
        record {
          params_type = type_string ∷ [];
          action = λ parent ps. as_string (value_of parent) >>= λ s.
              param ps 0 >>= λ p. as_string p >>= λ t. ok (new_bool (contains_text s t));
        },
      )
      ∷ (
        text "split",
        record {
          params_type = type_string ∷ [];
          action = λ parent ps. as_string (value_of parent) >>= λ s. param ps 0 >>= λ p.
              as_string p >>= λ t.
              ok (new_numbered (slice_to_map floats 0 (split s t) no_numbered));
        },
      )
      ∷ (
        text "get",
        record {
          params_type = type_number ∷ [];
          action = λ parent ps. as_string (value_of parent) >>= λ s.
              param ps 0 >>= λ p. as_number p >>= λ x. get_byte s (to_int x);
        },
      )
      ∷ (
        text "sub",
        record {
          params_type = type_number ∷ type_number ∷ [];
          action = λ parent ps. as_string (value_of parent) >>= λ s. param ps 0 >>= λ p.
              as_number p >>= λ x.
              param ps 1 >>= λ q. as_number q >>= λ y. sub_string s (to_int x) (to_int y);
        },
      )
      ∷ (
        text "number",
        record {
          params_type = [];
          action = λ parent ps. as_string (value_of parent) >>= λ s. parsed_number (parse_float s);
        },
      )
      ∷ []
    where
      open lib use {floats}

  unfoldable pub bool_method_table : List (Text × EvaluationMethod)
  unfolding new_bool as_bool
  bool_method_table =
      (
        text "not",
        record {
          params_type = [];
          action = λ parent ps. as_bool (value_of parent) >>= λ b. ok (new_bool (not b));
        },
      )
      ∷ []
