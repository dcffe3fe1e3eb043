-- ===== src/Filter/Library.antt =====
-- What filter/ takes from the language's libraries beside float64: `explode` is strings.Split with an
-- empty separator, and `same_maps` is reflect.DeepEqual on two values that are both maps, which
-- depends on their identity.
use atmail.Prelude.{Bool, List, Text}
use atmail.Filter.Floats.{Floats}
use atmail.Filter.Value.{Value}

pub record Library : Type 1 where
  pub floats : Floats
  pub open floats use *
  pub explode : Text → List Text
  pub same_maps : Value Float → Value Float → Bool
