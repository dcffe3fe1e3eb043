-- ===== src/Display/Selected/Moves.antt =====
-- display/session_selected.go: no email is lost by a move.
use atmail.Prelude.{
  ℕ, ◌≡◌, refl, sym, ap, ◌∙◌, ◌≢◌, ◌⊎◌, inl, inr, Bool, true, false, ◌&&◌, some, List, [], ◌∷◌,
  ◌==◌, ==_iff, Text, eq_text, lookup, Bool-cases, Option-cases, arith, subst, map,
}
use atmail.Storage.Files.{Email}
use atmail.Storage.Database.{
  Database, has_row, has_id, has_email, ids_of, from_sequence, get_mailbox_emails,
}
use atmail.Storage.Mailbox.{
  NumSet, every, seqs, uids, dynamic_seqs, dynamic_uids, ids_of_seqs, get_ids, list_emails,
  add_mailbox_emails, remove_mailbox_emails,
}
use atmail.Storage.Mailbox.Alive.{
  Alive, Added, add_mailbox_emails-Added, remove_mailbox_emails-Alive, has_row-mailbox,
  mailbox-has_row, has_email-select,
}
use atmail.Display.Selected.{View, copy, removed, move}

ids_of_seqs-same :
    (m : ℕ) (ss : List ℕ) (db db' : Database)
    → ids_of m db'.mailbox_emails ≡ ids_of m db.mailbox_emails
    → ids_of_seqs m ss db' ≡ ids_of_seqs m ss db
unfolding ids_of_seqs from_sequence
ids_of_seqs-same m [] db db' e = refl
ids_of_seqs-same m (s ∷ ss) db db' e = rw (e, ids_of_seqs-same m ss db db' e) refl

-- The ids that are removed are of the emails that were copied.
listed :
    (m : ℕ) (set : NumSet) (db db' : Database) (es : List Email) (ids : List ℕ)
    → ids_of m db'.mailbox_emails ≡ ids_of m db.mailbox_emails
    → list_emails m set db ≡ some es
    → get_ids m set db' ≡ some ids
    → get_mailbox_emails m ids db ≡ es
unfolding list_emails get_ids
listed m every db db' es ids e l g = cc
listed m (seqs ss) db db' es ids e l g =
    let k : ids_of_seqs m ss db ≡ some ids = sym (ids_of_seqs-same m ss db db' e) ∙ g in
    let n = rw k at l in cc
listed m (uids is) db db' es ids e l g = let k : is ≡ ids = cc in let n = rw k at l in cc
listed m (dynamic_seqs p) db db' es ids e l g = cc
listed m (dynamic_uids p) db db' es ids e l g = cc

removed_first : (ids : List ℕ) (p : Database × Bool) → (removed ids p).0 ≡ p.0
removed_first ids (db, true) = refl
removed_first ids (db, false) = refl

Alive-Added :
    {m : ℕ} {es : List Email} {db db' : Database} (id : ℕ)
    → Added m es db db'
    → Alive db id
    → Alive db' id
Alive-Added {db} {db'} id d a =
    let (x, r) = mailbox-has_row db.mailbox_emails id a.boxed in
    record {
      boxed = has_row-mailbox db'.mailbox_emails x id (d.old_rows x id r);
      kept = ap (λ es. has_email es id) d.same_emails ∙ a.kept;
    }

-- After the copy, the emails are removed from the selected mailbox.
remove-Alive :
    (erase : Email → Bool) (m target : ℕ) (set : NumSet) (db db' : Database) (es : List Email)
    (ids : List ℕ) (id : ℕ)
    → target ≢ m
    → list_emails m set db ≡ some es
    → get_ids m set db' ≡ some ids
    → Added target es db db'
    → Alive db id
    → Alive (remove_mailbox_emails erase m ids db').0 id
unfolding get_mailbox_emails
remove-Alive erase m target set db db' es ids id n l g d a =
    let kept = ap (λ es. has_email es id) d.same_emails ∙ a.kept in
    let (x, r) = mailbox-has_row db.mailbox_emails id a.boxed in
    elim (Bool-cases (x == m && has_id ids id)) [
      | inr q ↦
          remove_mailbox_emails-Alive erase m ids db' id x kept (d.old_rows x id r) (other x q)
      | inl q ↦
          let same : x ≡ m = (==_iff x m).0 (ground (arith, q)) in
          let row : has_row db.mailbox_emails m id ≡ true =
            ap (λ y. has_row db.mailbox_emails y id) (sym same) ∙ r in
          let copied : has_email es id ≡ true =
            ap (λ es. has_email es id)
              (sym (listed m set db db' es ids (d.other_ids m (λ h. n (sym h))) l g))
            ∙ has_email-select db.emails (λ i. has_row db.mailbox_emails m i && has_id ids i) id
            ∙ ground (arith, row, q, a.kept) in
          remove_mailbox_emails-Alive erase m ids db' id target kept (d.new_rows id copied) (inl n)
    ]
  where
    other : (x : ℕ) → (x == m && has_id ids id) ≡ false → (x ≢ m) ⊎ (has_id ids id ≡ false)
    other x q = elim (Bool-cases (has_id ids id)) [
      | inl i ↦ inl (ground (arith, q, i))
      | inr i ↦ inr i
    ]

-- A move loses no email, whatever it ends with: an email that is in some mailbox is in some mailbox
-- after it, if the mailbox that the name stands for is not the selected one.
pub move-Alive :
    (erase : Email → Bool) (boxes : List (Text × View)) (selected : View) (set : NumSet)
    (dest : Text) (db : Database) (id : ℕ)
    → ((v : View) → lookup dest boxes ≡ some v → v.id ≢ selected.id)
    → Alive db id
    → Alive (move erase boxes selected set dest db).0 id
unfolding move copy
move-Alive erase boxes selected set dest db id n a =
    elim (Bool-cases (eq_text dest selected.name)) [
      | inl e ↦ rw e a
      | inr e ↦ elim (Option-cases (lookup dest boxes)) [
        | inl f ↦ rw (e, f) a
        | inr (v, f) ↦ elim (Option-cases (list_emails selected.id set db)) [
          | inl l ↦ rw (e, f, l) a
          | inr (es, l) ↦ elim (Option-cases (add_mailbox_emails v.id es db)) [
            | inl c ↦ rw (e, f, l, c) a
            | inr (db', c) ↦
                let d = add_mailbox_emails-Added v.id es db db' c in
                elim (Option-cases (get_ids selected.id set db')) [
                  | inl g ↦ rw (e, f, l, c, g) (Alive-Added id d a)
                  | inr (ids, g) ↦
                      rw (e, f, l, c, g)
                        (subst (λ r. Alive r id)
                          (sym (
                            removed_first (map (λ (e : Email). e.id) es)
                              (remove_mailbox_emails erase selected.id ids db')))
                          (remove-Alive erase selected.id v.id set db db' es ids id (n v f) l g d
                            a))
                ]
          ]
        ]
      ]
    ]
