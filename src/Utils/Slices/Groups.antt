-- ===== src/Utils/Slices/Groups.antt =====
-- utils/slices.go: what the groups of `GroupBy` hold.
use atmail.Prelude.{
  ℕ, ◌+◌, ◌≡◌, refl, sym, ap, ◌∙◌, Option, none, some, List, [], ◌∷◌, ◌++◌, append_assoc,
  append-nil, if◌then◌else◌, Text, eq_text, eq_text_iff, lookup, insert, lookup-insert, Bool-cases,
  Option-cases, inl, inr, arith,
}
use atmail.Utils.Slices.{extended, group_loop, group_by}

module _ {A : Type 0} where
  -- The elements with a key, in their order.
  unfoldable pub with_key : (A → Text) → Text → List A → List A
  unfolding eq_text
  with_key fn k [] = []
  with_key fn k (a ∷ xs) = if eq_text (fn a) k then a ∷ with_key fn k xs else with_key fn k xs

  -- A group, and none where there is no element.
  abbrev pub non_empty : List A → Option (List A)
  non_empty [] = none
  non_empty (a ∷ xs) = some (a ∷ xs)

  abbrev joined : Option (List A) → List A → Option (List A)
  joined none xs = non_empty xs
  joined (some ys) xs = some (ys ++ xs)

  joined-extended :
      (o : Option (List A)) (a : A) (xs : List A)
      → joined (some (extended o a)) xs ≡ joined o (a ∷ xs)
  unfolding extended
  joined-extended none a xs = refl
  joined-extended (some ys) a xs = ap some (append_assoc ys (a ∷ []) xs)

  lookup-group_loop :
      (fn : A → Text) (k : Text) (mp : List (Text × List A)) (xs : List A)
      → lookup k (group_loop fn mp xs) ≡ joined (lookup k mp) (with_key fn k xs)
  unfolding group_loop with_key
  lookup-group_loop fn k mp [] = elim (Option-cases (lookup k mp)) [
    | inl e ↦ rw e
    | inr (ys, e) ↦ rw e (ap some (sym (append-nil ys)))
  ]
  lookup-group_loop fn k mp (a ∷ xs) =
      let ih = lookup-group_loop fn k (insert (fn a) (extended (lookup (fn a) mp) a) mp) xs in
      let i = lookup-insert (fn a) k (extended (lookup (fn a) mp) a) mp in
      elim (Bool-cases (eq_text (fn a) k)) [
        | inl e ↦
            ih
            ∙ rw (i, e)
                (joined-extended (lookup (fn a) mp) a (with_key fn k xs)
                  ∙ ap (λ j. joined (lookup j mp) (a ∷ with_key fn k xs))
                      ((eq_text_iff (fn a) k).0 e))
        | inr e ↦ ih ∙ rw (i, e) refl
      ]

  -- The group of a key is the elements with that key, in their order, and a key of no element has no
  -- group.
  pub lookup-group_by :
      (fn : A → Text) (k : Text) (xs : List A)
      → lookup k (group_by xs fn) ≡ non_empty (with_key fn k xs)
  unfolding group_by
  lookup-group_by fn k xs = lookup-group_loop fn k [] xs

  -- The sum of the elements' weights, in a list and in groups.
  unfoldable pub tally : (A → ℕ) → List A → ℕ
  tally w [] = 0
  tally w (x ∷ xs) = w x + tally w xs

  unfoldable pub tally_groups : (A → ℕ) → List (Text × List A) → ℕ
  unfolding tally
  tally_groups w [] = 0
  tally_groups w ((k, xs) ∷ mp) = tally w xs + tally_groups w mp

  pub tally-append : (w : A → ℕ) (xs ys : List A) → tally w (xs ++ ys) ≡ tally w xs + tally w ys
  unfolding tally
  tally-append w [] ys = omega arith
  tally-append w (x ∷ xs) ys = omega (arith, tally-append w xs ys)

  tally-extended :
      (w : A → ℕ) (a : A) (o : Option (List A)) (xs : List A)
      → some xs ≡ o
      → tally w (extended o a) ≡ w a + tally w xs
  unfolding extended tally
  tally-extended w a none xs h = cc
  tally-extended w a (some ys) xs h =
      let e : xs ≡ ys = cc in omega (arith, tally-append w ys (a ∷ []), ap (tally w) e)

  tally_groups-insert :
      (w : A → ℕ) (k : Text) (a : A) (o : Option (List A)) (mp : List (Text × List A))
      → lookup k mp ≡ o
      → tally_groups w (insert k (extended o a) mp) ≡ w a + tally_groups w mp
  unfolding tally_groups tally insert lookup extended
  tally_groups-insert w k a none [] h = omega arith
  tally_groups-insert w k a (some ys) [] h = cc
  tally_groups-insert w k a o ((j, xs) ∷ mp) h = elim (Bool-cases (eq_text j k)) [
    | inl e ↦ rw e (omega (arith, tally-extended w a o xs (rw e at h)))
    | inr e ↦ rw e (omega (arith, tally_groups-insert w k a o mp (rw e at h)))
  ]

  tally_groups-group_loop :
      (w : A → ℕ) (fn : A → Text) (mp : List (Text × List A)) (xs : List A)
      → tally_groups w (group_loop fn mp xs) ≡ tally_groups w mp + tally w xs
  unfolding group_loop tally
  tally_groups-group_loop w fn mp [] = omega arith
  tally_groups-group_loop w fn mp (a ∷ xs) = omega (
    arith,
    tally_groups-group_loop w fn (insert (fn a) (extended (lookup (fn a) mp) a) mp) xs,
    tally_groups-insert w (fn a) a (lookup (fn a) mp) mp refl,
  )

  -- The groups hold each element as often as the list does.
  pub tally_groups-group_by :
      (w : A → ℕ) (fn : A → Text) (xs : List A) → tally_groups w (group_by xs fn) ≡ tally w xs
  unfolding group_by tally_groups
  tally_groups-group_by w fn xs = omega (arith, tally_groups-group_loop w fn [] xs)
