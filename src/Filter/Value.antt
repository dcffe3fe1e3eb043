-- ===== src/Filter/Value.antt =====
-- filter/eval.go, filter/eval_std.go: evaluation variables and how they are made.
pub mod Lookup
use atmail.Prelude.{
  ℕ, zero, suc, ◌+◌, Bool, true, false, Option, none, some, List, [], ◌∷◌, ◌==◌, if◌then◌else◌,
  Text, text, eq_text, is_some,
}
use atmail.Filter.Floats.{Floats}

pub data VariableType : Type 0 where
  type_string type_number type_bool type_collection type_any : VariableType

-- The value of the constant, by iota.
abbrev pub type_ordinal : VariableType → ℕ
type_ordinal type_string = 0
type_ordinal type_number = 1
type_ordinal type_bool = 2
type_ordinal type_collection = 3
type_ordinal type_any = 4

unfoldable pub type_eq : VariableType → VariableType → Bool
type_eq a b = type_ordinal a == type_ordinal b

-- The type argument `K` of a collection: string or float64.
pub data Key : Type 0 where
  key_string key_number : Key

-- `typeOf[K]()`.
abbrev pub type_of_key : Key → VariableType
type_of_key key_string = type_string
type_of_key key_number = type_number

-- The maps of methods that the program makes: none (nil), `stringMethods()`, the map in `newBool`,
-- and `collectionMethods[K, V]()` with `typeOf[V]()`.
pub data Methods : Type 0 where
  no_methods string_methods bool_methods : Methods
  collection_methods : Key → VariableType → Methods

-- A variable: Type, Value, Methods, Fields. A value is one of the dynamic types that the program
-- stores in the `any`; a map is the list of its entries.
mutual
  pub data Variable (F : Type 0) : Type 0 where
    make : VariableType → Value F → Methods → Entries F → Variable F

  pub data Value (F : Type 0) : Type 0 where
    string : Text → Value F
    number : F → Value F
    bool : Bool → Value F
    by_string : Entries F → Value F
    by_number : Numbered F → Value F

  pub data Entries (F : Type 0) : Type 0 where
    no_entries : Entries F
    entry : Text → Variable F → Entries F → Entries F

  pub data Numbered (F : Type 0) : Type 0 where
    no_numbered : Numbered F
    numbered : F → Variable F → Numbered F → Numbered F

module _ {F : Type 0} where
  abbrev pub type_of : Variable F → VariableType
  type_of (make t v m fs) = t

  abbrev pub value_of : Variable F → Value F
  value_of (make t v m fs) = v

  abbrev pub methods_of : Variable F → Methods
  methods_of (make t v m fs) = m

  abbrev pub fields_of : Variable F → Entries F
  fields_of (make t v m fs) = fs

  -- m[k] and m[k] = v on a map with string keys.
  unfoldable pub get_entry : Text → Entries F → Option (Variable F)
  unfolding eq_text
  get_entry k no_entries = none
  get_entry k (entry j v m) = if eq_text j k then some v else get_entry k m

  unfoldable pub set_entry : Text → Variable F → Entries F → Entries F
  unfolding eq_text
  set_entry k v no_entries = entry k v no_entries
  set_entry k v (entry j w m) = if eq_text j k then entry k v m else entry j w (set_entry k v m)

  unfoldable pub count_entries : Entries F → ℕ
  count_entries no_entries = 0
  count_entries (entry k v m) = suc (count_entries m)

  unfoldable pub count_numbered : Numbered F → ℕ
  count_numbered no_numbered = 0
  count_numbered (numbered k v m) = suc (count_numbered m)

  unfoldable pub new_string : Text → Variable F
  new_string s = make type_string (string s) string_methods no_entries

  unfoldable pub new_number : F → Variable F
  new_number x = make type_number (number x) no_methods no_entries

  unfoldable pub new_bool : Bool → Variable F
  new_bool b = make type_bool (bool b) bool_methods no_entries

  -- `newCollection[string, any]` and `newCollection[float64, string]`.
  unfoldable pub new_collection : Entries F → Variable F
  new_collection m =
      make type_collection (by_string m) (collection_methods key_string type_any) no_entries

  unfoldable pub new_numbered : Numbered F → Variable F
  new_numbered m =
      make type_collection (by_number m) (collection_methods key_number type_string) no_entries

  -- `Clone` leaves the Type of its result at its zero value, TypeString.
  unfoldable pub clone : Variable F → Variable F
  clone (make t v m fs) = make type_string v m fs

module _ (fl : Floats) where
  open fl use {Float, of_nat, eq}

  unfoldable pub get_numbered : Float → Numbered Float → Option (Variable Float)
  get_numbered k no_numbered = none
  get_numbered k (numbered j v m) = if eq j k then some v else get_numbered k m

  unfoldable pub set_numbered : Float → Variable Float → Numbered Float → Numbered Float
  set_numbered k v no_numbered = numbered k v no_numbered
  set_numbered k v (numbered j w m) =
      if eq j k then numbered k v m else numbered j w (set_numbered k v m)

  -- The loop of `sliceToMap` at conv = newString, from index `i`.
  unfoldable pub slice_to_map : ℕ → List Text → Numbered Float → Numbered Float
  unfolding set_numbered new_string
  slice_to_map i [] m = m
  slice_to_map i (s ∷ ss) m = slice_to_map (suc i) ss (set_numbered (of_nat i) (new_string s) m)
