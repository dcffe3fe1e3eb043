-- ===== src/Filter/Strings.antt =====
-- strings.HasPrefix, strings.Contains, strings.Split with a separator, strings.Cut, on bytes.
use atmail.Prelude.{
  ℕ, zero, suc, ◌-◌, Bool, true, false, List, [], ◌∷◌, ◌++◌, ◌==◌, ◌&&◌, if◌then◌else◌, length,
  Text,
}

unfoldable pub has_prefix : Text → Text → Bool
has_prefix [] t = true
has_prefix (b ∷ s) [] = false
has_prefix (b ∷ s) (c ∷ t) = b == c && has_prefix s t

-- strings.Contains(t, s).
unfoldable pub contains_text : Text → Text → Bool
unfolding has_prefix
contains_text [] s = has_prefix s []
contains_text (c ∷ t) s = if has_prefix s (c ∷ t) then true else contains_text t s

-- The pieces between the occurrences of `sep`, which is not empty. `skip` bytes of an occurrence are
-- still to be passed over, and `piece` is what the piece at hand has.
unfoldable pub split_loop : Text → ℕ → Text → Text → List Text
unfolding has_prefix
split_loop sep skip piece [] = piece ∷ []
split_loop sep (suc skip) piece (c ∷ t) = split_loop sep skip piece t
split_loop sep zero piece (c ∷ t) =
    let cut = piece ∷ split_loop sep (length sep - 1) [] t in
    let on = split_loop sep zero (piece ++ c ∷ []) t in if has_prefix sep (c ∷ t) then cut else on
