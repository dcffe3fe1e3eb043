-- ===== src/Filter/Floats.antt =====
-- float64 and strconv, which are the language's and not the repository's: what filter/ uses of
-- them. `parse_float` is `strconv.ParseFloat(s, 64)`, `none` where it answers an error; `to_int` is
-- the conversion int(f).
use atmail.Prelude.{ℕ, Bool, Option, Text}
use atmail.Prelude.Int.{ℤ}

pub record Floats : Type 1 where
  pub Float : Type 0
  pub of_nat : ℕ → Float
  pub to_int : Float → ℤ
  pub eq : Float → Float → Bool
  pub lt : Float → Float → Bool
  pub le : Float → Float → Bool
  pub parse_float : Text → Option Float
