-- ===== src/Display/Listing/Complete.antt =====
-- display/session_auth.go: a listing of the mailboxes that the sessions share.
use atmail.Prelude.{
  ℕ, ◌≡◌, refl, sym, true, false, Option, none, some, List, [], ◌∷◌, ◌++◌, map, is_some, Text,
  eq_text, eq_text_self, lookup, All, Bool-cases, inl, inr,
}
use atmail.Utils.Slices.{zip}
use atmail.Storage.Database.{select_from}
use atmail.Display.Selected.{View}
use atmail.Display.Boxes.{Server, Session, find_id, get_or_create}
use atmail.Display.Boxes.Agreement.{Agrees, id_of}
use atmail.Display.Status.{Attribute, get_mailbox_attributes}
use atmail.Display.Listing.{
  ListData, done, Listing, Listed, write_list, attributes_of, list_each, list_box, list,
}

abbrev keys : List (Text × View) → List Text
keys boxes = map (λ (k, v). k) boxes

-- The table has the mailbox.
abbrev Has : Server → Text → Type 0
Has s box = (i : ℕ) × (find_id box s.mailboxes ≡ some i)

All-weaker :
    {A : Type 0} {P Q : A → Type 0} → ((a : A) → P a → Q a) → (xs : List A) → All P xs → All Q xs
All-weaker f [] h = tt
All-weaker f (x ∷ xs) (p, h) = (f x p, All-weaker f xs h)

All-append : {A : Type 0} (P : A → Type 0) (xs ys : List A) → All P xs → All P ys → All P (xs ++ ys)
All-append P [] ys h k = k
All-append P (x ∷ xs) ys (p, h) k = (p, All-append P xs ys h k)

lookup-keys : (boxes : List (Text × View)) → All (λ k. is_some (lookup k boxes) ≡ true) (keys boxes)
unfolding lookup
lookup-keys [] = tt
lookup-keys ((j, v) ∷ boxes) = (
  rw (eq_text_self j) refl,
  All-weaker
      (λ k h. elim (Bool-cases (eq_text j k)) as (λ _. is_some (lookup k ((j, v) ∷ boxes)) ≡ true) [
        | inl e ↦ rw e refl
        | inr e ↦ rw e h
      ])
      (keys boxes) (lookup-keys boxes),
)

some_id :
    (s : Server) (box : Text) (o : Option View)
    → id_of o ≡ find_id box s.mailboxes
    → is_some o ≡ true
    → Has s box
some_id s box none e h = cc
some_id s box (some v) e h = (v.id, sym e)

keys-Has : (s : Server) → Agrees s → All (Has s) (keys s.boxes)
keys-Has s a =
    All-weaker (λ box h. some_id s box (lookup box s.boxes) (a.same box) h) (keys s.boxes)
      (lookup-keys s.boxes)

All-pairs :
    (s : Server) (p : Text) (boxes : List Text)
    → All (Has s) boxes
    → All (λ (p, box). Has s box) (map (λ b. (p, b)) boxes)
All-pairs s p [] h = tt
All-pairs s p (b ∷ boxes) (x, h) = (x, All-pairs s p boxes h)

zip-Has :
    (s : Server) (patterns boxes : List Text)
    → All (Has s) boxes
    → All (λ (p, box). Has s box) (zip patterns boxes)
unfolding zip
zip-Has s [] boxes h = tt
zip-Has s (p ∷ patterns) boxes h =
    All-append (λ (p, box). Has s box) (map (λ b. (p, b)) boxes) (zip patterns boxes)
      (All-pairs s p boxes h) (zip-Has s patterns boxes h)

get_or_create-Has :
    (s : Server) (box : Text)
    → Has s box
    → record s { mailboxes = (get_or_create box s.mailboxes).1 } ≡ s
unfolding get_or_create
get_or_create-Has s box (i, e) = rw (get_or_create, e) refl

module _ (env : Listed) where
  open env use {match_list, like, writes}

  -- What is written of a mailbox.
  abbrev pub entry : Session → Server → Text → ListData
  unfolding get_mailbox_attributes
  entry u s box = record {
    mailbox = box;
    attrs = attributes_of env u box (get_mailbox_attributes like box s).1;
    status = none;
  }

  attributes-Has : (s : Server) (box : Text) → Has s box → (get_mailbox_attributes like box s).0 ≡ s
  unfolding get_mailbox_attributes
  attributes-Has s box h = get_or_create-Has s box h

  list_box-written :
      (u : Session) (box : Text) (a : Server × List Attribute) (rest : Server → Listing)
      → ((d : ListData) → writes d ≡ true)
      → list_box env none u box a rest ≡ (
        (rest a.0).0,
        record { mailbox = box; attrs = attributes_of env u box a.1; status = none } ∷ (rest a.0).1,
        (rest a.0).2,
      )
  unfolding list_box
  list_box-written u box a rest w =
      rw
        (
          list_box,
          write_list,
          w (record { mailbox = box; attrs = attributes_of env u box a.1; status = none }),
        )
        refl

  list_each-entries :
      (ref : Text) (u : Session) (s : Server) (pairs : List (Text × Text))
      → ((d : ListData) → writes d ≡ true)
      → All (λ (p, box). Has s box) pairs
      → list_each env ref none u pairs s ≡ (
        s,
        map (λ (p, box). entry u s box) (select_from pairs λ (p, box). match_list box ref p),
        done,
      )
  unfolding list_each select_from
  list_each-entries ref u s [] w h = refl
  list_each-entries ref u s ((p, box) ∷ pairs) w (b, h) = elim (Bool-cases (match_list box ref p)) [
    | inr e ↦ rw (list_each, e) (list_each-entries ref u s pairs w h)
    | inl e ↦
        rw
          (
            list_each,
            e,
            list_box-written u box (get_mailbox_attributes like box s)
                (λ s'. list_each env ref none u pairs s') w,
            attributes-Has s box b,
            list_each-entries ref u s pairs w h,
          )
          refl
  ]

  -- Where the shared mailboxes agree with the table and no write fails, a listing of them without
  -- their status changes nothing and writes, for each pattern in turn, each mailbox that matches it.
  pub list-entries :
      (ref : Text) (patterns : List Text) (u : Session) (s : Server)
      → ((d : ListData) → writes d ≡ true)
      → Agrees s
      → list env ref patterns false none u s ≡ (
        s,
        map
            (λ (p, box). entry u s box)
            (select_from
              (zip patterns (map (λ (k, v). k) s.boxes))
              λ (p, box). match_list box ref p),
        done,
      )
  unfolding list
  list-entries ref patterns u s w a =
      list_each-entries ref u s (zip patterns (keys s.boxes)) w
        (zip-Has s patterns (keys s.boxes) (keys-Has s a))
