-- ===== src/Relay/Filtering/Results.antt =====
-- relay/filter.go: what the results of filters do to the recipients and the wait.
use atmail.Prelude.{
  ℕ, suc, ◌≤◌, ◌≡◌, refl, subst, max, true, false, Option, none, some, List, [], ◌∷◌, ◌++◌, map,
  All, arith, is_empty, if◌then◌else◌, Text, text, contains, eq_text_self, Bool-cases, inl, inr,
  ◌⊎◌,
}
use atmail.Filter.Library.{Library}
use atmail.Filter.Syntax.{Statement}
use atmail.Filter.Context.{
  Result, Headers, ResultAction, action_continue, action_accept, action_reject, action_temp_fail,
  action_discard, action_connection_fail, action_quarantine,
}
use atmail.Relay.Session.{Rcpt, bare_rcpt}
use atmail.Relay.Filtering.{
  Mailing, Mail, Step, goes_on, refused, panicked, Found, found, crash, apply_result, apply_changes,
  apply_found, learned, then_step, quarter, filter_each, filter_for, remove, recipients, in_folder,
  with_rcpts, place,
}

All-append : {A : Type 0} (P : A → Type 0) (xs ys : List A) → All P xs → All P ys → All P (xs ++ ys)
All-append P [] ys h k = k
All-append P (x ∷ xs) ys (p, h) k = (p, All-append P xs ys h k)

module _ (lib : Library) (mailing : Mailing) where
  -- If the step goes on, `P` holds of the mail.
  data Keeps (P : Mail lib mailing → Type 0) : Step lib mailing → Type 0 where
    keeps : {m : Mail lib mailing} → P m → Keeps P (goes_on m)
    on_refusal : {c : ℕ} {m : Mail lib mailing} → Keeps P (refused c m)
    on_panic : Keeps P panicked

  kept : {P : Mail lib mailing → Type 0} {m : Mail lib mailing} → Keeps P (goes_on m) → P m
  kept (keeps h) = h

  Keeps-then :
      {P Q : Mail lib mailing → Type 0} {s : Step lib mailing}
      {k : Mail lib mailing → Step lib mailing}
      → Keeps P s
      → ((m : Mail lib mailing) → P m → Keeps Q (k m))
      → Keeps Q (then_step lib mailing s k)
  Keeps-then (keeps {m} h) f = f m h
  Keeps-then on_refusal f = on_refusal
  Keeps-then on_panic f = on_panic

  -- The wait of a mail lies between `w` and the longer of it and a quarter of an hour.
  abbrev WaitsFrom : ℕ → Mail lib mailing → Type 0
  WaitsFrom w m = (w ≤ m.wait) × (m.wait ≤ max w quarter)

  learned-Keeps :
      {P : Mail lib mailing → Type 0} (o : Option ℕ) (m : Mail lib mailing)
      → P m
      → Keeps P (learned lib mailing o m)
  learned-Keeps none m h = keeps h
  learned-Keeps (some e) m h = on_refusal

  apply_changes-Keeps :
      (w : ℕ) (res : Result) (h : Headers) (m : Mail lib mailing)
      → WaitsFrom w m
      → Keeps (WaitsFrom w) (apply_changes lib mailing res h m)
  unfolding apply_changes
  apply_changes-Keeps w res h m b =
      Keeps-then {P = WaitsFrom w}
        (elim (Bool-cases res.spam)
          as (λ _. Keeps (WaitsFrom w) (
            if res.spam
            then learned lib mailing (mailing.learn (text "spam") m.to m.header m.body) m
            else goes_on m)) [
              | inl e ↦ rw e (learned-Keeps (mailing.learn (text "spam") m.to m.header m.body) m b)
              | inr e ↦ rw e (keeps b)
            ])
        λ m' b'. keeps b'

  apply_result-Keeps :
      (w : ℕ) (a : ResultAction) (res : Result) (h : Headers) (m : Mail lib mailing)
      → res.action ≡ a
      → WaitsFrom w m
      → Keeps (WaitsFrom w) (apply_result lib mailing res h m)
  unfolding apply_result
  apply_result-Keeps w action_continue res h m e b = rw e (apply_changes-Keeps w res h m b)
  apply_result-Keeps w action_accept res h m e b = rw e (
      Keeps-then {P = WaitsFrom w}
        (learned-Keeps (mailing.learn (text "ham") m.to m.header m.body) m b)
        λ m' b'. apply_changes-Keeps w res h m' b')
  apply_result-Keeps w action_reject res h m e b = rw e on_refusal
  apply_result-Keeps w action_temp_fail res h m e b = rw e on_refusal
  apply_result-Keeps w action_discard res h m e b = rw e (keeps b)
  apply_result-Keeps w action_connection_fail res h m e b = rw e on_panic
  apply_result-Keeps w action_quarantine res h m e (b, c) = rw e (
      apply_changes-Keeps w res h (record m { wait = max m.wait quarter })
        (omega (arith, b, c), omega (arith, b, c)))

  place-Keeps :
      (w i : ℕ) (to : Rcpt) (m : Mail lib mailing)
      → WaitsFrom w m
      → Keeps (WaitsFrom w) (place lib mailing i to m)
  unfolding place
  place-Keeps w i to m b =
      elim (Bool-cases (is_empty to.folder))
        as (λ _. Keeps (WaitsFrom w) (place lib mailing i to m)) [
          | inl e ↦ rw e (keeps b)
          | inr e ↦ rw e (put _)
        ]
    where
      put : (o : Option (List Rcpt)) → Keeps (WaitsFrom w) (with_rcpts lib mailing o m)
      put none = on_panic
      put (some tos) = keeps b

  apply_found-Keeps :
      (w : ℕ) (f : Found lib mailing) (m : Mail lib mailing)
      → WaitsFrom w m
      → Keeps (WaitsFrom w) (apply_found lib mailing f m)
  unfolding apply_found apply_result
  apply_found-Keeps w (found res h) m b = apply_result-Keeps w res.action res h m refl b
  apply_found-Keeps w crash m b = on_panic

  filter_each-Keeps :
      (w : ℕ) (filters : List (Text × List (Statement lib.Float))) (from : Rcpt) (i : ℕ)
      (tos : List Rcpt) (m : Mail lib mailing)
      → WaitsFrom w m
      → Keeps (WaitsFrom w) (filter_each lib mailing filters from i tos m)
  unfolding filter_each filter_for
  filter_each-Keeps w filters from i [] m b = keeps b
  filter_each-Keeps w filters from i (to ∷ tos) m b =
      Keeps-then {P = WaitsFrom w}
        (Keeps-then {P = WaitsFrom w} (place-Keeps w i to m b) λ m' b'. apply_found-Keeps w _ m' b')
        λ m' b'. filter_each-Keeps w filters from (suc i) tos m' b'

  -- Where the filters let a mail go on, for all of its recipients, the wait of the mail is not
  -- shortened, and it is at most the longer of what it was and a quarter of an hour.
  pub filter_each-wait :
      (filters : List (Text × List (Statement lib.Float))) (from : Rcpt) (tos : List Rcpt)
      (m m' : Mail lib mailing)
      → filter_each lib mailing filters from 0 tos m ≡ goes_on m'
      → (m.wait ≤ m'.wait) × (m'.wait ≤ max m.wait quarter)
  filter_each-wait filters from tos m m' h = kept (
      subst (Keeps (WaitsFrom m.wait)) h
        (filter_each-Keeps m.wait filters from 0 tos m (omega arith, omega arith)))

  -- What `applyResult` makes of the recipients.
  abbrev pub Kept : Result → Rcpt → Type 0
  Kept res t =
      (contains res.remove_recipient t.address ≡ false)
      ⊎ (contains res.add_recipient t.address ≡ true)

  remove-All :
      (addresses : List Text) (tos : List Rcpt)
      → All (λ t. contains addresses t.address ≡ false) (remove lib mailing addresses tos)
  unfolding remove
  remove-All addresses [] = tt
  remove-All addresses (t ∷ tos) =
      elim (Bool-cases (contains addresses t.address))
        as (λ _.
          All (λ t. contains addresses t.address ≡ false)
            (remove lib mailing addresses (t ∷ tos))) [
              | inl e ↦ rw e (remove-All addresses tos)
              | inr e ↦ rw e (e, remove-All addresses tos)
            ]

  bare-All :
      (xs ys : List Text)
      → ((t : Text) → contains xs t ≡ true → contains ys t ≡ true)
      → All (λ t. contains ys t.address ≡ true) (map bare_rcpt xs)
  unfolding contains bare_rcpt
  bare-All [] ys h = tt
  bare-All (x ∷ xs) ys h =
      (h x (rw (eq_text_self x) refl), bare-All xs ys λ t c. h t (ground (arith, c)))

  All-imp :
      {A : Type 0} (P Q : A → Type 0) (xs : List A) → ((a : A) → P a → Q a) → All P xs → All Q xs
  All-imp P Q [] f h = tt
  All-imp P Q (x ∷ xs) f (p, h) = (f x p, All-imp P Q xs f h)

  in_folder-Kept :
      (res : Result) (o : Option Text) (tos : List Rcpt)
      → All (Kept res) tos
      → All (Kept res) (in_folder lib mailing o tos)
  in_folder-Kept res none tos h = h
  in_folder-Kept res (some f) [] h = tt
  in_folder-Kept res (some f) (t ∷ tos) (k, h) = (k, in_folder-Kept res (some f) tos h)

  -- After a result, every recipient has an address that the result does not remove, or one that it
  -- adds.
  pub recipients-Kept :
      (res : Result) (tos : List Rcpt) → All (Kept res) (recipients lib mailing res tos)
  unfolding recipients
  recipients-Kept res tos = in_folder-Kept res res.mailbox _ (
      All-append (Kept res) (remove lib mailing res.remove_recipient tos)
        (map bare_rcpt res.add_recipient)
        (All-imp (λ t. contains res.remove_recipient t.address ≡ false) (Kept res) _ (λ a. inl)
          (remove-All res.remove_recipient tos))
        (All-imp (λ t. contains res.add_recipient t.address ≡ true) (Kept res) _ (λ a. inr)
          (bare-All res.add_recipient res.add_recipient λ t c. c)))
