-- ===== src/Utils/Slices/Full.antt =====
-- utils/slices.go: no group of `GroupBy` is empty, and what holds of the elements holds in the groups.
use atmail.Prelude.{
  ℕ, ◌≡◌, Option, none, some, List, [], ◌∷◌, ◌++◌, All, Text, eq_text, lookup, insert, Bool-cases,
  inl, inr,
}
use atmail.Utils.Slices.{extended, group_loop, group_by}

module _ {A : Type 0} where
  -- A list of elements with `P`, which is not empty.
  abbrev pub Full : (A → Type 0) → List A → Type 0
  Full P [] = ◌≡◌ {A = ℕ} 0 1
  Full P (x ∷ xs) = P x × All P xs

  abbrev pub AllFull : (A → Type 0) → List (Text × List A) → Type 0
  AllFull P [] = Unit
  AllFull P ((k, xs) ∷ mp) = Full P xs × AllFull P mp

  abbrev IfSome : (A → Type 0) → Option (List A) → Type 0
  IfSome P none = Unit
  IfSome P (some xs) = Full P xs

  All-snoc : (P : A → Type 0) (xs : List A) (a : A) → All P xs → P a → All P (xs ++ a ∷ [])
  All-snoc P [] a h p = (p, tt)
  All-snoc P (x ∷ xs) a (q, h) p = (q, All-snoc P xs a h p)

  extended-Full :
      (P : A → Type 0) (o : Option (List A)) (a : A) → IfSome P o → P a → Full P (extended o a)
  unfolding extended
  extended-Full P none a h p = (p, tt)
  extended-Full P (some []) a h p = (p, tt)
  extended-Full P (some (x ∷ xs)) a (q, h) p = (q, All-snoc P xs a h p)

  lookup-IfSome :
      (P : A → Type 0) (k : Text) (mp : List (Text × List A))
      → AllFull P mp
      → IfSome P (lookup k mp)
  unfolding lookup
  lookup-IfSome P k [] h = tt
  lookup-IfSome P k ((j, xs) ∷ mp) (f, h) =
      elim (Bool-cases (eq_text j k)) as (λ _. IfSome P (lookup k ((j, xs) ∷ mp))) [
        | inl e ↦ rw e f
        | inr e ↦ rw e (lookup-IfSome P k mp h)
      ]

  insert-AllFull :
      (P : A → Type 0) (k : Text) (v : List A) (mp : List (Text × List A))
      → Full P v
      → AllFull P mp
      → AllFull P (insert k v mp)
  unfolding insert
  insert-AllFull P k v [] f h = (f, tt)
  insert-AllFull P k v ((j, xs) ∷ mp) f (g, h) =
      elim (Bool-cases (eq_text j k)) as (λ _. AllFull P (insert k v ((j, xs) ∷ mp))) [
        | inl e ↦ rw e (f, h)
        | inr e ↦ rw e (g, insert-AllFull P k v mp f h)
      ]

  group_loop-AllFull :
      (P : A → Type 0) (fn : A → Text) (mp : List (Text × List A)) (xs : List A)
      → AllFull P mp
      → All P xs
      → AllFull P (group_loop fn mp xs)
  unfolding group_loop
  group_loop-AllFull P fn mp [] h q = h
  group_loop-AllFull P fn mp (x ∷ xs) h (p, q) =
      group_loop-AllFull P fn (insert (fn x) (extended (lookup (fn x) mp) x) mp) xs
        (insert-AllFull P (fn x) _ mp
          (extended-Full P (lookup (fn x) mp) x (lookup-IfSome P (fn x) mp h) p) h)
        q

  pub group_by-AllFull :
      (P : A → Type 0) (fn : A → Text) (xs : List A) → All P xs → AllFull P (group_by xs fn)
  unfolding group_by
  group_by-AllFull P fn xs q = group_loop-AllFull P fn [] xs tt q
