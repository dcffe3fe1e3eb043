-- ===== src/Prelude/Texts.antt =====
-- Go strings: lists of bytes, their equality, and maps keyed by them.
use Prim.Native.Nat.{ℕ, zero, suc, ◌+◌, ◌/◌, ◌%◌}
use Prim.Native.Char.{code}
use Prim.Native.String.{String}
use mathlib.Core.Path.{◌≡◌, refl}
use mathlib.Core.Logic.{◌↔◌}
use mathlib.Core.Bool.{Bool, true, false, ◌&&◌}
use mathlib.Core.List.{List, [], ◌∷◌}
use mathlib.Core.Option.{Option, none, some}
use native.Mathlib.Omega.{arith}
use mathlib.Core.Logic.{◌≢◌}
use mathlib.Core.List.{◌++◌}
use atmail.Prelude.Lists.{All}
use mathlib.Core.Bool.{false}
use atmail.Prelude.Tests.{◌==◌, ltb, if◌then◌else◌, ==_iff}

-- A Go `string`: its bytes.
abbrev pub Text : Type 0
Text = List ℕ

-- An ASCII literal of the source as its bytes.
abbrev pub text : String → Text
text String.[] = []
text (String.◌∷◌ c s) = code c ∷ text s

unfoldable pub eq_text : Text → Text → Bool
eq_text [] [] = true
eq_text [] (c ∷ t) = false
eq_text (b ∷ s) [] = false
eq_text (b ∷ s) (c ∷ t) = b == c && eq_text s t

pub eq_text_iff : (s t : Text) → (eq_text s t ≡ true) ↔ (s ≡ t)
unfolding eq_text
eq_text_iff [] [] = ((λ _. refl), λ _. refl)
eq_text_iff [] (c ∷ t) = ((λ h. cc), λ h. cc)
eq_text_iff (b ∷ s) [] = ((λ h. cc), λ h. cc)
eq_text_iff (b ∷ s) (c ∷ t) =
    ((λ h. ground (arith, eq_text_iff s t)), λ h. ground (arith, eq_text_iff s t))

pub eq_text_self : (s : Text) → eq_text s s ≡ true
eq_text_self s = (eq_text_iff s s).1 refl

-- slices.Contains on strings.
unfoldable pub contains : List Text → Text → Bool
unfolding eq_text
contains [] t = false
contains (s ∷ ss) t = if eq_text s t then true else contains ss t

-- A Go map with string keys, as the list of its entries in the order of an iteration over it.
module _ {ℓ} {V : Type ℓ} where
  unfoldable pub lookup : Text → List (Text × V) → Option V
  unfolding eq_text
  lookup k [] = none
  lookup k ((j, v) ∷ m) = if eq_text j k then some v else lookup k m

  unfoldable pub insert : Text → V → List (Text × V) → List (Text × V)
  unfolding eq_text
  insert k v [] = (k, v) ∷ []
  insert k v ((j, w) ∷ m) = if eq_text j k then (k, v) ∷ m else (j, w) ∷ insert k v m

-- Reads after a write of one key.
pub lookup-insert {ℓ} :
    {V : Type ℓ} (k j : Text) (v : V) (m : List (Text × V))
    → lookup j (insert k v m) ≡ (if eq_text k j then some v else lookup j m)
unfolding lookup insert
lookup-insert k j v [] = refl
lookup-insert k j v ((i, w) ∷ m) =
    ground (arith, eq_text_iff k j, eq_text_iff i k, eq_text_iff i j, lookup-insert k j v m)

-- strings.Builder.WriteRune(rune(b)) and string(b) for a byte b: from 128 on, two bytes of UTF-8.
unfoldable pub write_rune : ℕ → Text
write_rune b = if ltb b 128 then b ∷ [] else (192 + b / 64) ∷ (128 + b % 64) ∷ []

-- strings.Cut(t, string(c)): before, after, found.
unfoldable pub cut : ℕ → Text → Text × Text × Bool
cut c [] = ([], [], false)
cut c (d ∷ t) =
    let (before, after, found) = cut c t in
    if d == c then ([], t, true) else (d ∷ before, after, found)

pub cut-append : (c : ℕ) (s t : Text) → All (λ b. b ≢ c) s → cut c (s ++ c ∷ t) ≡ (s, t, true)
unfolding cut
cut-append c [] t h = ground arith
cut-append c (b ∷ s) t (n, h) = rw (cut-append c s t h, ==_iff b c) (ground (arith, n))

-- The decimal digits of a number, in front of a text; each unit of fuel is a digit.
unfoldable pub digits : ℕ → ℕ → Text → Text
digits zero n t = t
digits (suc f) n t =
    let d = 48 + n % 10 in elim (ltb n 10) [ true ↦ d ∷ t | false ↦ digits f (n / 10) (d ∷ t) ]

-- strconv.Itoa, for numbers below 2 ^ 64.
unfoldable pub itoa : ℕ → Text
unfolding digits
itoa n = digits 20 n []
