-- ===== src/Display/Status/Next.antt =====
-- storage/mailbox.go: the UIDNEXT of DescribeMailbox and StatusMailbox.
use atmail.Prelude.{
  ℕ, ◌+◌, ◌≤◌, min, ◌≡◌, refl, arith, Bool, true, false, Option, none, some, List, [], ◌∷◌, ◌==◌,
  Text, Bool-cases, inl, inr,
}
use atmail.Storage.Files.{Email}
use atmail.Storage.Database.{has_email, list_mailbox_emails}
use atmail.Display.Boxes.{Server, get_or_create}
use atmail.Display.Status.{lowest, latest_email, uid_after, status_mailbox, describe_mailbox}

-- A bound that holds of none.
abbrev AtMost : ℕ → Option ℕ → Type 0
AtMost b none = ⊥
AtMost b (some i) = i ≤ b

min-AtMost :
    (i a : ℕ) (o : Option ℕ)
    → AtMost a o
    → AtMost a (elim o [ none ↦ some i | some j ↦ some (min i j) ])
min-AtMost i a none h = absurd h
min-AtMost i a (some j) h = omega (arith, h)

first-AtMost :
    (i a : ℕ) (o : Option ℕ) → i ≤ a → AtMost a (elim o [ none ↦ some i | some j ↦ some (min i j) ])
first-AtMost i a none h = h
first-AtMost i a (some j) h = omega (arith, h)

lowest-AtMost : (es : List Email) (a : ℕ) → has_email es a ≡ true → AtMost a (lowest es)
unfolding lowest has_email
lowest-AtMost [] a h = cc
lowest-AtMost (e ∷ es) a h = elim (Bool-cases (e.id == a)) [
  | inl n ↦ first-AtMost e.id a (lowest es) (ground (arith, n))
  | inr n ↦ min-AtMost e.id a (lowest es) (lowest-AtMost es a (rw n at h))
]

uid_after-AtMost : (o : Option ℕ) (a : ℕ) → AtMost a o → uid_after o ≤ a + 1
uid_after-AtMost none a h = absurd h
uid_after-AtMost (some i) a h = omega (arith, h)

-- The UIDNEXT of a mailbox is at most one more than the UID of each email in it: where there are two,
-- it is not above that of the later one.
pub describe_mailbox-uid_next :
    (list_mailbox_flags : ℕ → List (Text × Bool)) (name : Text) (s : Server) (a : ℕ)
    → has_email (list_mailbox_emails (get_or_create name s.mailboxes).0 s.tables) a ≡ true
    → (describe_mailbox list_mailbox_flags name s).1.uid_next ≤ a + 1
unfolding describe_mailbox
describe_mailbox-uid_next list_mailbox_flags name s a h =
    let m = (get_or_create name s.mailboxes).0 in
    uid_after-AtMost (latest_email m s.tables) a
      (lowest-AtMost (list_mailbox_emails m s.tables) a h)

-- Selecting a mailbox and asking for its status do the same to the table, and give the same number of
-- messages, UIDNEXT and UIDVALIDITY, where the status is not asked for deleted messages.
pub describe_mailbox-status_mailbox :
    (list_mailbox_flags : ℕ → List (Text × Bool)) (name : Text) (s : Server)
    → status_mailbox name
        (record {
          num_messages = true;
          uid_validity = true;
          num_deleted = false;
          num_recent = false;
          num_unseen = false;
          uid_next = true;
        })
        s
      ≡ (
        (describe_mailbox list_mailbox_flags name s).0,
        some (record {
          mailbox = name;
          num_messages = some (describe_mailbox list_mailbox_flags name s).1.num_messages;
          uid_validity = (describe_mailbox list_mailbox_flags name s).1.uid_validity;
          num_recent = none;
          num_unseen = none;
          uid_next = (describe_mailbox list_mailbox_flags name s).1.uid_next;
        }),
      )
unfolding describe_mailbox status_mailbox
describe_mailbox-status_mailbox list_mailbox_flags name s = refl
