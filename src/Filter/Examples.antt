-- ===== src/Filter/Examples.antt =====
-- Floats that count, to run the filter language on.
use Prim.Native.Nat.{◌*◌}
use atmail.Prelude.{
  ℕ, ◌+◌, ◌-◌, Bool, false, ◌&&◌, Option, none, some, [], ◌∷◌, leb, ◌==◌, if◌then◌else◌, Text,
}
use atmail.Prelude.Int.{ℤ, pos, negsuc, ltb_ℤ}
use atmail.Prelude.{not}
use atmail.Filter.Floats.{Floats}
use atmail.Filter.Library.{Library}

abbrev eq_ℤ : ℤ → ℤ → Bool
eq_ℤ a b = not (ltb_ℤ a b) && not (ltb_ℤ b a)

abbrev digits : ℕ → Text → Option ℕ
digits n [] = some n
digits n (c ∷ t) = if leb b'0' c && leb c b'9' then digits (n * 10 + (c - b'0')) t else none

abbrev negate : Option ℕ → Option ℤ
negate none = none
negate (some n) = some (if n == 0 then pos 0 else negsuc (n - 1))

abbrev whole : Text → Option ℤ
whole [] = none
whole (c ∷ t) =
    if c == b'-'
    then negate (digits 0 t)
    else elim (digits 0 (c ∷ t)) [ none ↦ none | some n ↦ some (pos n) ]

-- Whole numbers in place of float64.
abbrev pub integers : Floats
integers = record {
  Float = ℤ;
  of_nat = pos;
  to_int = λ x. x;
  eq = eq_ℤ;
  lt = ltb_ℤ;
  le = λ a b. not (ltb_ℤ b a);
  parse_float = whole;
}

-- The libraries that do not occur in the examples give nothing.
abbrev pub library : Library
library = record { floats = integers; explode = λ t. []; same_maps = λ a b. false }
