-- ===== src/Utils/Slices.antt =====
-- utils/slices.go. `Map` is the library's `map`, on a list.
pub mod Groups
pub mod Full
use atmail.Prelude.{
  Bool, true, false, Option, none, some, List, [], ◌∷◌, ◌++◌, map, if◌then◌else◌, Text, lookup,
  insert,
}

-- What `fn` gives for an element is added to the list, if it gives anything.
abbrev pub add_some {κ} : {V : Type κ} → Option V → List V → List V
add_some none vs = vs
add_some (some v) vs = v ∷ vs

module _ {ℓ} {A : Type ℓ} where
  unfoldable pub map_filter {κ} : {V : Type κ} → List A → (A → Option V) → List V
  map_filter [] fn = []
  map_filter (a ∷ xs) fn = add_some (fn a) (map_filter xs fn)

  -- The pairs that `Zip` yields to a consumer that takes them all.
  unfoldable pub zip {κ} : {B : Type κ} → List A → List B → List (A × B)
  zip [] ys = []
  zip (a ∷ xs) ys = map (λ b. (a, b)) ys ++ zip xs ys

  -- mp[key] = []A{a}, or append(arr, a).
  unfoldable pub extended : Option (List A) → A → List A
  extended none a = a ∷ []
  extended (some xs) a = xs ++ a ∷ []

  unfoldable pub group_loop : (A → Text) → List (Text × List A) → List A → List (Text × List A)
  unfolding lookup insert extended
  group_loop fn mp [] = mp
  group_loop fn mp (a ∷ xs) = group_loop fn (insert (fn a) (extended (lookup (fn a) mp) a) mp) xs

  -- `GroupBy` by a key that is a string.
  unfoldable pub group_by : List A → (A → Text) → List (Text × List A)
  unfolding group_loop
  group_by xs fn = group_loop fn [] xs

-- `Any` and `All`.
unfoldable pub any : List Bool → Bool
any [] = false
any (v ∷ vs) = if v then true else any vs

unfoldable pub all : List Bool → Bool
all [] = true
all (v ∷ vs) = if v then all vs else false
