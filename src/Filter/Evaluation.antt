-- ===== src/Filter/Evaluation.antt =====
-- filter/expression.go, filter/eval.go: outcomes of an evaluation.
use atmail.Prelude.{Bool, Text}
use atmail.Filter.Value.{Value, string, number, bool}

-- The errors of an evaluation.
pub data EvalErr : Type 0 where
  incompatible_type not_number not_bool : EvalErr
  variable_not_found field_not_found method_not_found : Text → EvalErr
  missing_parameters invalid_parameters_type out_of_range invalid_range not_a_number key_not_found :
      EvalErr

-- The panics: an operator that the switch does not know, a comparison of two maps by ==, an index
-- out of range, and a type assertion on a value of another type.
pub data Panic : Type 0 where
  unsupported_operator uncomparable index_out_of_range wrong_type : Panic

pub data Eval {ℓ} (A : Type ℓ) : Type ℓ where
  ok : A → Eval A
  err : EvalErr → Eval A
  panic : Panic → Eval A

infixl 1 ◌>>=◌
abbrev pub ◌>>=◌ {ℓ κ} : {A : Type ℓ} {B : Type κ} → Eval A → (A → Eval B) → Eval B
ok a >>= f = f a
err e >>= f = err e
panic p >>= f = panic p

module _ {F : Type 0} where
  -- The type assertions v.(string), v.(float64), v.(bool).
  unfoldable pub as_string : Value F → Eval Text
  as_string (string s) = ok s
  as_string _ = panic wrong_type

  unfoldable pub as_number : Value F → Eval F
  as_number (number x) = ok x
  as_number _ = panic wrong_type

  unfoldable pub as_bool : Value F → Eval Bool
  as_bool (bool b) = ok b
  as_bool _ = panic wrong_type
