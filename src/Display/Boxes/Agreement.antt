-- ===== src/Display/Boxes/Agreement.antt =====
-- display/session_auth.go: the mailboxes that the sessions share against the table.
use atmail.Prelude.{
  ℕ, ◌<◌, ◌≤◌, ◌≡◌, ◌≢◌, refl, sym, ap, ◌∙◌, true, false, Option, none, some, List, [], ◌∷◌, ◌++◌,
  if◌then◌else◌, ◌==◌, ==_iff, Text, eq_text, eq_text_iff, eq_text_self, lookup, All, Bool-cases,
  inl, inr, arith,
}
use atmail.Display.Selected.{View}
use atmail.Display.Boxes.{Server, find_id, new_id, delete_id, delete_box}

-- No id and no name is twice in the table.
unfoldable pub Unique : List (ℕ × Text) → Type 0
Unique [] = Unit
Unique ((i, n) ∷ rows) = All (λ (j, m). (i ≢ j) × (n ≢ m)) rows × Unique rows

abbrev pub id_of : Option View → Option ℕ
id_of none = none
id_of (some v) = some v.id

-- A name has a mailbox exactly if the table has it, with the same id.
pub record Agrees (s : Server) : Type 0 where
  pub unique : Unique s.mailboxes
  pub same : (name : Text) → id_of (lookup name s.boxes) ≡ find_id name s.mailboxes

pub eq_other : (s t : Text) → s ≢ t → eq_text s t ≡ false
eq_other s t n = elim (Bool-cases (eq_text s t)) [
  | inl e ↦ absurd (n ((eq_text_iff s t).0 e))
  | inr e ↦ e
]

pub find_id-append :
    (name other : Text) (i : ℕ) (rows : List (ℕ × Text))
    → find_id name rows ≡ none
    → find_id other (rows ++ (i, name) ∷ [])
      ≡ (if eq_text name other then some i else find_id other rows)
unfolding find_id
find_id-append name other i [] h = refl
find_id-append name other i ((j, n) ∷ rows) h = elim (Bool-cases (eq_text n name)) [
  | inl e ↦ let k = rw e at h in cc
  | inr e ↦
      let ih = find_id-append name other i rows (rw e at h) in
      elim (Bool-cases (eq_text n other)) [
        | inl f ↦
            let g : eq_text name other ≡ false =
              eq_other name other
                λ q. let r = rw ((eq_text_iff n other).0 f, sym q, eq_text_self name) at e in cc in
            rw (f, g) refl
        | inr f ↦ rw f ih
      ]
]

pub below : (rows : List (ℕ × Text)) (k : ℕ) → new_id rows ≤ k → All (λ (j, m). j < k) rows
unfolding new_id
below [] k h = tt
below ((i, n) ∷ rows) k h = (omega (arith, h), below rows k (omega (arith, h)))

All-last :
    (P : ℕ × Text → Type 0) (rows : List (ℕ × Text)) (r : ℕ × Text)
    → All P rows
    → P r
    → All P (rows ++ r ∷ [])
All-last P [] r h p = (p, tt)
All-last P (q ∷ rows) r (x, h) p = (x, All-last P rows r h p)

pub Unique-append :
    (name : Text) (i : ℕ) (rows : List (ℕ × Text))
    → Unique rows
    → All (λ (j, m). j < i) rows
    → find_id name rows ≡ none
    → Unique (rows ++ (i, name) ∷ [])
unfolding Unique find_id
Unique-append name i [] u a h = (tt, tt)
Unique-append name i ((j, n) ∷ rows) (x, u) (y, a) h = elim (Bool-cases (eq_text n name)) [
  | inl e ↦ let k = rw e at h in cc
  | inr e ↦ (
    All-last (λ (k, m). (j ≢ k) × (n ≢ m)) rows (i, name) x
        ((λ q. absurd (omega (arith, q, y))), λ q. let r = rw (q, eq_text_self name) at e in cc),
    Unique-append name i rows u a (rw e at h),
  )
]

delete_id-none :
    (i : ℕ) (n : Text) (rows : List (ℕ × Text))
    → All (λ (j, m). (i ≢ j) × (n ≢ m)) rows
    → delete_id i rows ≡ rows
unfolding delete_id
delete_id-none i n [] h = refl
delete_id-none i n ((j, m) ∷ rows) ((x, y), h) =
    let d : (j == i) ≡ false = ground (arith, x) in
    rw d (ap (λ r. (j, m) ∷ r) (delete_id-none i n rows h))

pub find_id-none :
    (i : ℕ) (n : Text) (rows : List (ℕ × Text))
    → All (λ (j, m). (i ≢ j) × (n ≢ m)) rows
    → find_id n rows ≡ none
unfolding find_id
find_id-none i n [] h = refl
find_id-none i n ((j, m) ∷ rows) ((x, y), h) =
    rw (eq_other m n λ q. y (sym q)) (find_id-none i n rows h)

-- An id that is not in the table is not found.
pub find_id-other :
    (i : ℕ) (n name : Text) (rows : List (ℕ × Text))
    → All (λ (j, m). (i ≢ j) × (n ≢ m)) rows
    → find_id name rows ≢ some i
unfolding find_id
find_id-other i n name [] h e = cc
find_id-other i n name ((j, m) ∷ rows) ((x, y), h) e = elim (Bool-cases (eq_text m name)) [
  | inl f ↦ let k = rw f at e in x (let l : j ≡ i = cc in sym l)
  | inr f ↦ find_id-other i n name rows h (rw f at e)
]

pub find_id-delete_id :
    (name other : Text) (id : ℕ) (rows : List (ℕ × Text))
    → Unique rows
    → find_id name rows ≡ some id
    → find_id other (delete_id id rows) ≡ (if eq_text name other then none else find_id other rows)
unfolding find_id delete_id Unique
find_id-delete_id name other id [] u h = cc
find_id-delete_id name other id ((i, n) ∷ rows) (x, u) h = elim (Bool-cases (eq_text n name)) [
  | inl e ↦
      let q = (eq_text_iff n name).0 e in
      let k : i ≡ id = let z = rw e at h in cc in
      let d : (i == id) ≡ true = (==_iff i id).1 k in
      let gone : delete_id id rows ≡ rows =
        ap (λ j. delete_id j rows) (sym k) ∙ delete_id-none i n rows x in
      rw (d, gone, sym q)
        (elim (Bool-cases (eq_text n other)) [
          | inl f ↦
              rw f (
                ap (λ m. find_id m rows) (sym ((eq_text_iff n other).0 f))
                ∙ find_id-none i n rows x)
          | inr f ↦ rw f refl
        ])
  | inr e ↦
      let h' = rw e at h in
      let d : (i == id) ≡ false = elim (Bool-cases (i == id)) [
        | inl y ↦ absurd (find_id-other i n name rows x (h' ∙ ap some (sym ((==_iff i id).0 y))))
        | inr y ↦ y
      ] in
      let ih = find_id-delete_id name other id rows u h' in
      rw d (elim (Bool-cases (eq_text n other)) [
        | inl f ↦
            let g : eq_text name other ≡ false =
              eq_other name other
                λ q. let r = rw ((eq_text_iff n other).0 f, sym q, eq_text_self name) at e in cc in
            rw (f, g) refl
        | inr f ↦ rw f ih
      ])
]

All-delete_id :
    (P : ℕ × Text → Type 0) (id : ℕ) (rows : List (ℕ × Text))
    → All P rows
    → All P (delete_id id rows)
unfolding delete_id
All-delete_id P id [] h = tt
All-delete_id P id ((i, n) ∷ rows) (p, h) = elim (Bool-cases (i == id)) [
  | inl e ↦ rw e (All-delete_id P id rows h)
  | inr e ↦ rw e (p, All-delete_id P id rows h)
]

pub Unique-delete_id : (id : ℕ) (rows : List (ℕ × Text)) → Unique rows → Unique (delete_id id rows)
unfolding delete_id Unique
Unique-delete_id id [] u = tt
Unique-delete_id id ((i, n) ∷ rows) (x, u) = elim (Bool-cases (i == id)) [
  | inl e ↦ rw e (Unique-delete_id id rows u)
  | inr e ↦ rw e (All-delete_id (λ (j, m). (i ≢ j) × (n ≢ m)) id rows x, Unique-delete_id id rows u)
]

pub lookup-delete_box :
    (name other : Text) (boxes : List (Text × View))
    → lookup other (delete_box name boxes)
      ≡ (if eq_text name other then none else lookup other boxes)
unfolding lookup delete_box
lookup-delete_box name other [] = elim (Bool-cases (eq_text name other)) [
  | inl e ↦ rw e refl
  | inr e ↦ rw e refl
]
lookup-delete_box name other ((k, v) ∷ m) = ground (
  arith,
  eq_text_iff k name,
  eq_text_iff k other,
  eq_text_iff name other,
  lookup-delete_box name other m,
)
