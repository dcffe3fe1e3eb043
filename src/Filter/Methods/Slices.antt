-- ===== src/Filter/Methods/Slices.antt =====
-- filter/eval_std.go: the methods of strings that take a part of one.
use atmail.Prelude.{
  ℕ, zero, suc, ◌-◌, ◌≤◌, ◌≡◌, refl, sym, ap, ◌∙◌, min, true, false, List, [], ◌∷◌, arith,
  if◌then◌else◌, ltb, length, take, drop, Text, Bool-cases, inl, inr, ◌⊎◌,
}
use atmail.Prelude.Int.{pos}
use atmail.Filter.Library.{Library}
use atmail.Filter.Value.{new_string}
use atmail.Filter.Evaluation.{ok, err, invalid_range}
use atmail.Filter.Methods.{slice, sub_string}

module _ {A : Type 0} where
  take-all : (n : ℕ) (xs : List A) → length xs ≤ n → take n xs ≡ xs
  take-all zero [] h = refl
  take-all zero (x ∷ xs) h = ground (arith, h)
  take-all (suc n) [] h = refl
  take-all (suc n) (x ∷ xs) h = rw (take-all n xs (omega (arith, h))) refl

  length-drop : (n : ℕ) (xs : List A) → length (drop n xs) ≡ length xs - n
  length-drop zero xs = omega arith
  length-drop (suc n) [] = omega arith
  length-drop (suc n) (x ∷ xs) = omega (arith, length-drop n xs)

  take-nil : (n : ℕ) → take {A = A} n [] ≡ []
  take-nil zero = refl
  take-nil (suc n) = refl

  -- Taking to the end of the list, or beyond, from `a`.
  take-drop-min :
      (a b : ℕ) (xs : List A) → take (min b (length xs) - a) (drop a xs) ≡ take (b - a) (drop a xs)
  take-drop-min a b xs = elim (Bool-cases (ltb b (length xs))) [
    | inl e ↦ ap (λ n. take (n - a) (drop a xs)) (ground (arith, e))
    | inr e ↦
        let l = length-drop a xs in
        let i : length xs ≤ b = ground (arith, e) in
        take-all (min b (length xs) - a) (drop a xs) (omega (arith, l, i))
        ∙ sym (take-all (b - a) (drop a xs) (omega (arith, l, i)))
  ]

  drop-all : (n : ℕ) (xs : List A) → length xs ≤ n → drop n xs ≡ []
  drop-all zero [] h = refl
  drop-all zero (x ∷ xs) h = ground (arith, h)
  drop-all (suc n) [] h = refl
  drop-all (suc n) (x ∷ xs) h = drop-all n xs (omega (arith, h))

module _ (lib : Library) where
  -- `sub` from `a` to `b`: the bytes of the string from `a` on that come before `b`, as many as there
  -- are, and an error where `b` is less than `a`.
  pub sub_string-slice :
      (s : Text) (a b : ℕ)
      → sub_string lib s (pos a) (pos b)
        ≡ (if ltb b a then err invalid_range else ok (new_string (take (b - a) (drop a s))))
  unfolding sub_string
  sub_string-slice s a b = elim (Bool-cases (ltb b a)) [
    | inl e ↦ rw e
    | inr e ↦ rw e (past (Bool-cases (ltb (length s) a)))
  ]
    where
      past :
          ((ltb (length s) a) ≡ true) ⊎ ((ltb (length s) a) ≡ false)
          → (if ltb (length s) a then ok (new_string []) else slice lib s a (pos b))
            ≡ ok (new_string (take (b - a) (drop a s)))
      past (inl e) = rw (e, drop-all a s (ground (arith, e)), take-nil (b - a)) refl
      past (inr e) = rw (e, take-drop-min a b s) refl
