-- ===== src/Filter/Collections.antt =====
-- filter/eval_std.go, filter/eval.go: the methods of collections, and the call of a method.
use atmail.Prelude.{
  ℕ, Bool, true, false, not, ◌||◌, ◌&&◌, Option, none, some, List, [], ◌∷◌, ◌==◌, if◌then◌else◌,
  length, Text, text, eq_text, is_some,
}
use atmail.Filter.Library.{Library}
use atmail.Filter.Value.{
  VariableType, type_any, type_eq, Key, key_string, key_number, type_of_key, Methods, no_methods,
  string_methods, bool_methods, collection_methods, make, Value, string, number, bool, by_string,
  by_number, Entries, no_entries, entry, Numbered, no_numbered, numbered, type_of, value_of,
  get_entry, set_entry, count_entries, count_numbered, new_number, new_bool, clone, get_numbered,
  set_numbered,
}
use atmail.Filter.Evaluation.{
  Eval, ok, err, panic, ◌>>=◌, as_string, as_number, wrong_type, index_out_of_range,
  missing_parameters, invalid_parameters_type, key_not_found,
}
use atmail.Filter.Methods.{EvaluationMethod, Var, param, string_method_table, bool_method_table}

module _ (lib : Library) where
  open lib use {Float, of_nat, eq, same_maps, floats}

  abbrev pub Val : Type 0
  Val = Value Float

  -- parent.Value.(map[string]*EvaluationVariable) and parent.Value.(map[float64]*EvaluationVariable).
  unfoldable pub as_entries : Val → Eval (Entries Float)
  as_entries (by_string m) = ok m
  as_entries _ = panic wrong_type

  unfoldable pub as_numbered : Val → Eval (Numbered Float)
  as_numbered (by_number m) = ok m
  as_numbered _ = panic wrong_type

  -- The read at a key of type K, from the key's value and the map's.
  unfoldable pub get_key : Key → Val → Val → Eval (Option (Var lib))
  unfolding as_string as_number as_entries as_numbered get_entry get_numbered
  get_key key_string k m = as_string k >>= λ s. as_entries m >>= λ es. ok (get_entry s es)
  get_key key_number k m =
      as_number k >>= λ x. as_numbered m >>= λ ns. ok (get_numbered floats x ns)

  unfoldable pub found : Option (Var lib) → Eval (Var lib)
  found none = err key_not_found
  found (some v) = ok v

  unfoldable pub count : Key → Val → Eval ℕ
  unfolding as_entries as_numbered count_entries count_numbered
  count key_string m = as_entries m >>= λ es. ok (count_entries es)
  count key_number m = as_numbered m >>= λ ns. ok (count_numbered ns)

  -- The write, on the clone: the clone's map is a copy.
  unfoldable pub with_value : Var lib → Val → Var lib
  with_value (make t v m fs) w = make t w m fs

  unfoldable pub set_key : Key → Var lib → Val → Var lib → Eval (Var lib)
  unfolding as_string as_number as_entries as_numbered set_entry set_numbered with_value
  set_key key_string parent k v = as_entries (value_of parent) >>= λ es.
      as_string k >>= λ s. ok (with_value parent (by_string (set_entry s v es)))
  set_key key_number parent k v = as_numbered (value_of parent) >>= λ ns.
      as_number k >>= λ x. ok (with_value parent (by_number (set_numbered floats x v ns)))

  -- reflect.DeepEqual on the values of two variables.
  unfoldable pub deep_equal : Val → Val → Bool
  unfolding eq_text
  deep_equal (string s) (string t) = eq_text s t
  deep_equal (number x) (number y) = eq x y
  deep_equal (bool true) (bool b) = b
  deep_equal (bool false) (bool b) = not b
  deep_equal (by_string m) (by_string n) = same_maps (by_string m) (by_string n)
  deep_equal (by_number m) (by_number n) = same_maps (by_number m) (by_number n)
  deep_equal _ _ = false

  unfoldable pub any_entry : Entries Float → Val → Bool
  unfolding deep_equal
  any_entry no_entries w = false
  any_entry (entry k v m) w = if deep_equal (value_of v) w then true else any_entry m w

  unfoldable pub any_numbered : Numbered Float → Val → Bool
  unfolding deep_equal
  any_numbered no_numbered w = false
  any_numbered (numbered k v m) w = if deep_equal (value_of v) w then true else any_numbered m w

  unfoldable pub has_value : Key → Val → Val → Eval Bool
  unfolding as_entries as_numbered any_entry any_numbered
  has_value key_string m w = as_entries m >>= λ es. ok (any_entry es w)
  has_value key_number m w = as_numbered m >>= λ ns. ok (any_numbered ns w)

  -- params[1].
  unfoldable pub second : List (Var lib) → Eval (Var lib)
  second (v ∷ w ∷ ps) = ok w
  second _ = panic index_out_of_range

  -- `collectionMethods[K, V]()`, with `typeOf[V]()`.
  unfoldable pub collection_method_table : Key → VariableType → List (Text × EvaluationMethod lib)
  unfolding get_key found count set_key has_value param second new_number new_bool clone
  collection_method_table key elem =
      (
        text "get",
        record {
          params_type = type_of_key key ∷ [];
          action = λ parent ps. param lib ps 0 >>= λ k. get_key key k (value_of parent) >>= found;
        },
      )
      ∷ (
        text "len",
        record {
          params_type = [];
          action = λ parent ps. count key (value_of parent) >>= λ n. ok (new_number (of_nat n));
        },
      )
      ∷ (
        text "set",
        record {
          params_type = type_of_key key ∷ elem ∷ [];
          action = λ parent ps.
              param lib ps 0 >>= λ k. second ps >>= λ v. set_key key (clone parent) k v;
        },
      )
      ∷ (
        text "has_value",
        record {
          params_type = elem ∷ [];
          action = λ parent ps.
              param lib ps 0 >>= λ w. has_value key (value_of parent) w >>= λ b. ok (new_bool b);
        },
      )
      ∷ (
        text "has_key",
        record {
          params_type = type_of_key key ∷ [];
          action = λ parent ps. param lib ps 0 >>= λ k.
              get_key key k (value_of parent) >>= λ o. ok (new_bool (is_some o));
        },
      )
      ∷ []

  -- The map of methods of a variable.
  unfoldable pub method_table : Methods → List (Text × EvaluationMethod lib)
  unfolding string_method_table bool_method_table collection_method_table
  method_table no_methods = []
  method_table string_methods = string_method_table lib
  method_table bool_methods = bool_method_table lib
  method_table (collection_methods key elem) = collection_method_table key elem

  -- The loop over the parameters in `EvaluationMethod.Eval`, from the types and the variables.
  unfoldable pub types_fit : List VariableType → List (Var lib) → Bool
  unfolding type_eq
  types_fit [] ps = true
  types_fit (t ∷ ts) [] = true
  types_fit (t ∷ ts) (p ∷ ps) = (type_eq t type_any || type_eq t (type_of p)) && types_fit ts ps

  unfoldable pub call : EvaluationMethod lib → Var lib → List (Var lib) → Eval (Var lib)
  unfolding types_fit
  call m parent ps =
      if not (length m.params_type == length ps)
      then err missing_parameters
      else if not (types_fit m.params_type ps)
      then err invalid_parameters_type
      else m.action parent ps
