-- ===== src/Display/Boxes/Renames.antt =====
-- display/session_auth.go: a mailbox that is renamed.
use atmail.Prelude.{
  ℕ, ◌≡◌, ◌≢◌, refl, sym, ap, ◌∙◌, true, false, none, some, List, [], ◌∷◌, ◌==◌, ==_iff, All, Text,
  is_empty, eq_text, eq_text_iff, eq_text_self, lookup, Bool-cases, inl, inr, arith,
}
use atmail.Display.Selected.{View}
use atmail.Display.Boxes.{ok, Server, find_id, rename_id, rename_mailbox, rename}
use atmail.Display.Boxes.Agreement.{Unique, id_of, Agrees, find_id-none, find_id-other, eq_other}

rename_id-none :
    (i : ℕ) (n to : Text) (rows : List (ℕ × Text))
    → All (λ (j, m). (i ≢ j) × (n ≢ m)) rows
    → rename_id i to rows ≡ rows
unfolding rename_id
rename_id-none i n to [] h = refl
rename_id-none i n to ((j, m) ∷ rows) ((x, y), h) =
    let d : (j == i) ≡ false = ground (arith, x) in
    rw d (ap (λ r. (j, m) ∷ r) (rename_id-none i n to rows h))

find_id-rename_id :
    (name to : Text) (id : ℕ) (rows : List (ℕ × Text))
    → Unique rows
    → find_id name rows ≡ some id
    → find_id to rows ≡ none
    → (find_id name (rename_id id to rows) ≡ none) × (find_id to (rename_id id to rows) ≡ some id)
unfolding find_id rename_id Unique
find_id-rename_id name to id [] u h k = cc
find_id-rename_id name to id ((i, n) ∷ rows) (x, u) h k = elim (Bool-cases (eq_text n name)) [
  | inl e ↦
      let q = (eq_text_iff n name).0 e in
      let j : i ≡ id = let z = rw e at h in cc in
      let d : (i == id) ≡ true = (==_iff i id).1 j in
      let gone : rename_id id to rows ≡ rows =
        ap (λ j. rename_id j to rows) (sym j) ∙ rename_id-none i n to rows x in
      let other : eq_text to name ≡ false =
        eq_other to name
          λ r. let z : eq_text n to ≡ true = rw (r, e) refl in let y = rw z at k in cc in
      (
        rw (d, gone, other) (ap (λ m. find_id m rows) (sym q) ∙ find_id-none i n rows x),
        rw (d, gone, eq_text_self to) (ap some j),
      )
  | inr e ↦
      let h' = rw e at h in
      let d : (i == id) ≡ false = elim (Bool-cases (i == id)) [
        | inl y ↦ absurd (find_id-other i n name rows x (h' ∙ ap some (sym ((==_iff i id).0 y))))
        | inr y ↦ y
      ] in
      elim (Bool-cases (eq_text n to)) [
        | inl f ↦ let y = rw f at k in cc
        | inr f ↦
            let (a, b) = find_id-rename_id name to id rows u h' (rw f at k) in
            (rw (d, e) a, rw (d, f) b)
      ]
]

-- Where the shared mailboxes agree with the table, a mailbox is renamed to a name that is not empty and
-- not taken: then the table has it under the new name only, and the sessions under the old name only.
pub rename-disagrees :
    (name to : Text) (s : Server) (v : View)
    → Agrees s
    → lookup name s.boxes ≡ some v
    → is_empty to ≡ false
    → lookup to s.boxes ≡ none
    → ((rename name to s).1 ≡ ok)
      × (((find_id name (rename name to s).0.mailboxes ≡ none)
            × (find_id to (rename name to s).0.mailboxes ≡ some v.id))
          × ((lookup name (rename name to s).0.boxes ≡ some v)
              × (lookup to (rename name to s).0.boxes ≡ none)))
unfolding rename rename_mailbox
rename-disagrees name to s v a e m n =
    let f : find_id name s.mailboxes ≡ some v.id = sym (a.same name) ∙ ap id_of e in
    let g : find_id to s.mailboxes ≡ none = sym (a.same to) ∙ ap id_of n in
    let r = find_id-rename_id name to v.id s.mailboxes a.unique f g in
    rw (rename, e, rename_mailbox, m, g) (refl, (r, (e, n)))
