-- ===== src/Storage/Mailbox/Sequences.antt =====
-- storage/mailbox.go, storage/store/query/mailbox.sql: sequence numbers and the emails that they stand
-- for.
use atmail.Prelude.{
  ℕ, zero, suc, ◌+◌, ◌-◌, ◌≤◌, ◌<◌, ◌≡◌, ◌≢◌, refl, sym, some, List, [], ◌∷◌, leb, length,
  get_elem?, All, Bool-cases, inl, inr, arith, subst,
}
use atmail.Storage.Database.{
  Database, ids_of, sort_in, descending, count_le, count_mailbox_emails, get_sequence,
  from_sequence,
}
use atmail.Storage.Mailbox.{to_sequence}

-- No id is twice in a list, and a list that falls.
unfoldable pub Distinct : List ℕ → Type 0
Distinct [] = Unit
Distinct (a ∷ xs) = All (λ b. b ≢ a) xs × Distinct xs

Falls : List ℕ → Type 0
Falls [] = Unit
Falls (a ∷ xs) = All (λ b. b < a) xs × Falls xs

All-weaker : {P Q : ℕ → Type 0} → ((b : ℕ) → P b → Q b) → (xs : List ℕ) → All P xs → All Q xs
All-weaker f [] h = tt
All-weaker f (x ∷ xs) (p, h) = (f x p, All-weaker f xs h)

All-sort_in : (P : ℕ → Type 0) (a : ℕ) (xs : List ℕ) → P a → All P xs → All P (sort_in a xs)
unfolding sort_in
All-sort_in P a [] p h = (p, tt)
All-sort_in P a (b ∷ xs) p (q, h) = elim (Bool-cases (leb b a)) [
  | inl e ↦ rw e (p, (q, h))
  | inr e ↦ rw e (q, All-sort_in P a xs p h)
]

All-descending : (P : ℕ → Type 0) (xs : List ℕ) → All P xs → All P (descending xs)
unfolding descending
All-descending P [] h = tt
All-descending P (a ∷ xs) (p, h) = All-sort_in P a (descending xs) p (All-descending P xs h)

Falls-sort_in : (a : ℕ) (xs : List ℕ) → All (λ b. b ≢ a) xs → Falls xs → Falls (sort_in a xs)
unfolding sort_in Falls
Falls-sort_in a [] n f = (tt, tt)
Falls-sort_in a (b ∷ xs) (n, ns) (l, f) = elim (Bool-cases (leb b a)) [
  | inl e ↦
      let below : b < a = ground (arith, e, n) in
      rw e ((below, All-weaker (λ c h. omega (arith, h, below)) xs l), (l, f))
  | inr e ↦ rw e (All-sort_in (λ c. c < b) a xs (ground (arith, e)) l, Falls-sort_in a xs ns f)
]

Falls-descending : (xs : List ℕ) → Distinct xs → Falls (descending xs)
unfolding descending Distinct Falls
Falls-descending [] d = tt
Falls-descending (a ∷ xs) (n, d) =
    Falls-sort_in a (descending xs) (All-descending (λ b. b ≢ a) xs n) (Falls-descending xs d)

count_le-sort_in : (x a : ℕ) (xs : List ℕ) → count_le x (sort_in a xs) ≡ count_le x (a ∷ xs)
unfolding count_le sort_in
count_le-sort_in x a [] = refl
count_le-sort_in x a (b ∷ xs) = elim (Bool-cases (leb b a)) [
  | inl e ↦ rw e refl
  | inr e ↦ rw e (omega (arith, count_le-sort_in x a xs))
]

count_le-descending : (x : ℕ) (xs : List ℕ) → count_le x (descending xs) ≡ count_le x xs
unfolding count_le descending
count_le-descending x [] = refl
count_le-descending x (a ∷ xs) =
    omega (arith, count_le-sort_in x a (descending xs), count_le-descending x xs)

length-sort_in : (a : ℕ) (xs : List ℕ) → length (sort_in a xs) ≡ suc (length xs)
unfolding sort_in
length-sort_in a [] = refl
length-sort_in a (b ∷ xs) = elim (Bool-cases (leb b a)) [
  | inl e ↦ rw e refl
  | inr e ↦ rw e (omega (arith, length-sort_in a xs))
]

length-descending : (xs : List ℕ) → length (descending xs) ≡ length xs
unfolding descending
length-descending [] = refl
length-descending (a ∷ xs) = omega (arith, length-sort_in a (descending xs), length-descending xs)

count_le-all : (x : ℕ) (xs : List ℕ) → All (λ b. b < x) xs → count_le x xs ≡ length xs
unfolding count_le
count_le-all x [] h = refl
count_le-all x (b ∷ xs) (p, h) = ground (arith, p, count_le-all x xs h)

nth-All : (P : ℕ → Type 0) (xs : List ℕ) (i x : ℕ) → All P xs → get_elem? xs i ≡ some x → P x
nth-All P [] i x h e = cc
nth-All P (a ∷ xs) zero x (p, h) e = let q : a ≡ x = cc in subst P q p
nth-All P (a ∷ xs) (suc i) x (p, h) e = nth-All P xs i x h e

nth-some : (xs : List ℕ) (i : ℕ) → i < length xs → (x : ℕ) × (get_elem? xs i ≡ some x)
nth-some [] i h = absurd (omega (arith, h))
nth-some (a ∷ xs) zero h = (a, refl)
nth-some (a ∷ xs) (suc i) h = nth-some xs i (omega (arith, h))

-- In a list that falls, those that are not above an element are those from its place on.
count_le-nth :
    (xs : List ℕ) (i x : ℕ) → Falls xs → get_elem? xs i ≡ some x → count_le x xs + i ≡ length xs
unfolding count_le Falls
count_le-nth [] i x f e = cc
count_le-nth (a ∷ xs) zero x (l, f) e =
    let q : a ≡ x = cc in rw (sym q) (ground (arith, count_le-all a xs l))
count_le-nth (a ∷ xs) (suc i) x (l, f) e =
    ground (arith, nth-All (λ b. b < a) xs i x l e, count_le-nth xs i x f e)

-- A sequence number of a mailbox with fewer than 2 ^ 32 emails stands for an email, of which the
-- sequence number counts from the other end: together they are one more than the emails.
pub to_sequence-from_sequence :
    (m s : ℕ) (db : Database)
    → Distinct (ids_of m db.mailbox_emails)
    → count_mailbox_emails m db < 4294967296
    → 1 ≤ s
    → s ≤ count_mailbox_emails m db
    → (id : ℕ) × ((from_sequence m s db ≡ some id)
        × (to_sequence m id db + s ≡ suc (count_mailbox_emails m db)))
unfolding from_sequence to_sequence get_sequence count_mailbox_emails
to_sequence-from_sequence m s db d w p l =
    let ids = ids_of m db.mailbox_emails in
    let (id, e) = nth-some (descending ids) (s - 1) (omega (arith, p, l, length-descending ids)) in
    (
      id,
      (
        e,
        omega (
          arith,
          w,
          p,
          l,
          length-descending ids,
          count_le-descending id ids,
          count_le-nth (descending ids) (s - 1) id (Falls-descending ids d) e,
        ),
      ),
    )
