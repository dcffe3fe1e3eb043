-- ===== src/Display/Status/Numbers.antt =====
-- storage/mailbox.go: the numbers of DescribeMailbox and StatusMailbox.
use atmail.Prelude.{
  ℕ, suc, ◌+◌, ◌-◌, ◌%◌, ◌≤◌, ◌<◌, ◌≡◌, ◌≢◌, ◌∙◌, refl, sym, arith, Bool, true, ◌&&◌, none, some,
  List, [], ◌∷◌, if◌then◌else◌, ◌==◌, leb, length, All, Text, Bool-cases, inl, inr,
}
use atmail.Storage.Database.{Database, has_row, has_id, ids_of, select_from, count_mailbox_emails}
use atmail.Display.Status.{
  count_with_flag, latest_email, uid_after, StatusOptions, seen_flag, deleted_flag, minus_uint32,
  to_uint32, status_of,
}

-- No email has a flag twice.
unfoldable pub Keyed : List (ℕ × ℕ) → Type 0
Keyed [] = Unit
Keyed ((e, f) ∷ rows) = All (λ (x, y). e ≡ x → f ≢ y) rows × Keyed rows

All-both :
    {P Q R : ℕ × ℕ → Type 0}
    → ((x : ℕ × ℕ) → P x → Q x → R x)
    → (xs : List (ℕ × ℕ)) → All P xs
    → All Q xs
    → All R xs
All-both f [] p q = tt
All-both f (x ∷ xs) (p, ps) (q, qs) = (f x p q, All-both f xs ps qs)

-- A list without the first element that is a number.
without : ℕ → List ℕ → List ℕ
without x [] = []
without x (y ∷ ys) = let rest = without x ys in if y == x then ys else y ∷ rest

length-without :
    (x : ℕ) (ys : List ℕ) → has_id ys x ≡ true → suc (length (without x ys)) ≡ length ys
unfolding without has_id
length-without x [] h = cc
length-without x (y ∷ ys) h = ground (arith, length-without x ys)

has_id-without :
    (x z : ℕ) (ys : List ℕ) → x ≢ z → has_id ys z ≡ true → has_id (without x ys) z ≡ true
unfolding without has_id
has_id-without x z [] n h = h
has_id-without x z (y ∷ ys) n h = ground (arith, n, has_id-without x z ys n)

has_row-ids_of :
    (m e : ℕ) (rows : List (ℕ × ℕ)) → has_row rows m e ≡ true → has_id (ids_of m rows) e ≡ true
unfolding has_row ids_of has_id
has_row-ids_of m e [] h = h
has_row-ids_of m e ((x, y) ∷ rows) h = ground (arith, has_row-ids_of m e rows)

-- Rows of one flag, all of whose emails are in a list, are no more than the list holds.
length-select :
    (flag : ℕ) (p : ℕ × ℕ → Bool) (rows : List (ℕ × ℕ)) (ys : List ℕ)
    → Keyed rows
    → All (λ (e, f). p (e, f) ≡ true → (f ≡ flag) × (has_id ys e ≡ true)) rows
    → length (select_from rows p) ≤ length ys
unfolding Keyed select_from
length-select flag p [] ys k h = omega arith
length-select flag p ((e, f) ∷ rows) ys (n, k) (h, hs) = elim (Bool-cases (p (e, f))) [
  | inr q ↦ rw q (length-select flag p rows ys k hs)
  | inl q ↦
      let (same, there) = h q in
      let rest = length-select flag p rows (without e ys) k (
        All-both
          (λ (x, y) other at r.
            ((at r).0, has_id-without e x ys (λ s. other s (same ∙ sym (at r).0)) (at r).1))
          rows n hs) in
      rw q (omega (arith, rest, length-without e ys there))
]

all_rows : {P : ℕ × ℕ → Type 0} → ((x : ℕ × ℕ) → P x) → (xs : List (ℕ × ℕ)) → All P xs
all_rows f [] = tt
all_rows f (x ∷ xs) = (f x, all_rows f xs)

-- The emails of a mailbox with a flag are no more than the emails of it.
pub count_with_flag-bound :
    (flag m : ℕ) (db : Database)
    → Keyed db.emails_flags
    → count_with_flag flag m db ≤ count_mailbox_emails m db
unfolding count_with_flag count_mailbox_emails
count_with_flag-bound flag m db k =
    length-select flag (λ (e, f). f == flag && has_row db.mailbox_emails m e) db.emails_flags
      (ids_of m db.mailbox_emails) k
      (all_rows
        (λ (e, f) h. (ground (arith, h), has_row-ids_of m e db.mailbox_emails (ground (arith, h))))
        db.emails_flags)

-- What NumDeleted takes off the messages.
abbrev pub deleted_of : StatusOptions → ℕ → Database → ℕ
deleted_of opt id db = if opt.num_deleted then count_with_flag deleted_flag id db else 0

fits : (c : ℕ) → c < 4294967296 → to_uint32 c ≡ c
fits c h = omega (arith, h)

exact : (c d : ℕ) → d ≤ c → c < 4294967296 → minus_uint32 c (to_uint32 d) ≡ c - d
exact c d l h = omega (arith, l, h)

wraps :
    (c d s : ℕ)
    → d ≤ c
    → s ≤ c
    → c < 4294967296
    → minus_uint32 (c - d) (to_uint32 s)
      ≡ (if leb (d + s) c then c - (d + s) else c + 4294967296 - (d + s))
wraps c d s l m h = ground (arith, l, m, h)

fits_less : (c : ℕ) → c < 4294967296 → to_uint32 c ≡ c - 0
fits_less c h = omega (arith, h)

-- Where the number of messages is asked for, no email has a flag twice, and a mailbox has less than
-- 2 ^ 32 emails: what is taken off the messages, that is the deleted ones if they are asked for, are no
-- more than there are, and the unseen ones are what is left without the seen ones; where those that are
-- deleted and those that are seen are counted to more than all, that number wraps around.
pub status_of-numbers :
    (mailbox : Text) (opt : StatusOptions) (id : ℕ) (db : Database)
    → opt.num_messages ≡ true
    → Keyed db.emails_flags
    → count_mailbox_emails id db < 4294967296
    → (deleted_of opt id db ≤ count_mailbox_emails id db)
      × (status_of mailbox opt id db
          ≡ some (record {
            mailbox = mailbox;
            num_messages = some (count_mailbox_emails id db - deleted_of opt id db);
            uid_validity = if opt.uid_validity then id % 4294967296 else 0;
            num_recent = if opt.num_recent then some 0 else none;
            num_unseen =
                if opt.num_unseen
                then some (
                    if leb
                      (deleted_of opt id db + count_with_flag seen_flag id db)
                      (count_mailbox_emails id db)
                    then count_mailbox_emails id db
                      - (deleted_of opt id db + count_with_flag seen_flag id db)
                    else count_mailbox_emails id db
                      + 4294967296
                      - (deleted_of opt id db + count_with_flag seen_flag id db))
                else none;
            uid_next = if opt.uid_next then uid_after (latest_email id db) else 0;
          }))
unfolding status_of
status_of-numbers mailbox opt id db n k b =
    let c = count_mailbox_emails id db in
    let d = count_with_flag deleted_flag id db in
    let s = count_with_flag seen_flag id db in
    let dl : d ≤ c = count_with_flag-bound deleted_flag id db k in
    let sl : s ≤ c = count_with_flag-bound seen_flag id db k in
    elim (Bool-cases opt.num_deleted) [
      | inl e ↦ elim (Bool-cases opt.num_unseen) [
        | inl f ↦ rw (n, e, f, fits c b, exact c d dl b, wraps c d s dl sl b) (dl, refl)
        | inr f ↦ rw (n, e, f, fits c b, exact c d dl b) (dl, refl)
      ]
      | inr e ↦ elim (Bool-cases opt.num_unseen) [
        | inl f ↦ rw (n, e, f, fits_less c b, wraps c 0 s (omega arith) sl b) (omega arith, refl)
        | inr f ↦ rw (n, e, f, fits_less c b) (omega arith, refl)
      ]
    ]
