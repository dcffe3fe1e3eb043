-- ===== src/Relay/Data/Sent.antt =====
-- relay/session.go, relay/rspamd.go: which emails are sent, and when.
use atmail.Prelude.{
  ℕ, ◌≤◌, ◌≡◌, refl, subst, ◌⊎◌, inl, inr, Bool, true, false, Option, none, some, List,
  if◌then◌else◌, Text, text, eq_text, Bool-cases, Option-cases, arith,
}
use atmail.Filter.Library.{Library}
use atmail.Filter.Syntax.{Statement}
use atmail.Relay.Session.{Rcpt, Session}
use atmail.Relay.Filtering.{Mailing, Mail, Step, goes_on, refused, panicked, quarter, filter_each}
use atmail.Relay.Filtering.Results.{filter_each-wait}
use atmail.Relay.Spam
use atmail.Relay.Spam.{
  Response, Rspamd, Analyzed, passed, rejected, internal, metadata, mark, act, smtp_message, judge,
  judged, analyze, signed, spam_header,
}
use atmail.Relay.Data.{
  Answered, sending, answered, crashed, after_filters, filtered, after_analysis, data_of,
}

-- rspamd has skipped the email, or it has neither a message for the sender nor rejected the email.
abbrev pub Accepts : {S : Type 0} → Response S → Type 0
Accepts resp =
    (resp.skipped ≡ true)
    ⊎ ((smtp_message resp.messages ≡ none)
        × ((eq_text resp.action (text "reject") ≡ false)
            × (eq_text resp.action (text "soft reject") ≡ false)))

module _ (lib : Library) (mailing : Mailing) (rspamd : Rspamd mailing) where
  open mailing use {Header}
  open rspamd use {Score, verify, add_field, del_field, format_score}

  -- An email that passes does so with this, and with a wait of at most a quarter of an hour.
  data Passes (P : Type 0) : Analyzed mailing rspamd → Type 0 where
    passes :
        {sc : Score} {w : ℕ} {h : Header} {b : Text} → w ≤ quarter → P → Passes P (passed sc w h b)
    on_rejected : {c : ℕ} → Passes P (rejected c)
    on_internal : Passes P internal
    on_panicked : Passes P Spam.panicked

  branch :
      {P : Type 0} (b : Bool) {x y : Analyzed mailing rspamd}
      → Passes P x
      → Passes P y
      → Passes P (if b then x else y)
  branch true p q = p
  branch false p q = q

  mark-Passes :
      (P : Type 0) (resp : Response Score) (h : Header) (b : Text)
      → P
      → Passes P (mark mailing rspamd resp h b)
  unfolding mark
  mark-Passes P resp h b p =
      branch (eq_text resp.action (text "add header")) (passes (omega arith) p) (
        branch (eq_text resp.action (text "rewrite subject")) (passes (omega arith) p) (
          branch (eq_text resp.action (text "greylist")) (passes (omega arith) p)
            (branch (eq_text resp.action (text "no action")) (passes (omega arith) p) on_panicked)))

  act-Passes :
      (P : Type 0) (resp : Response Score) (h : Header) (b : Text)
      → (eq_text resp.action (text "reject") ≡ false
          → eq_text resp.action (text "soft reject") ≡ false
          → P)
      → Passes P (act mailing rspamd resp h b)
  unfolding act
  act-Passes P resp h b k =
      elim (Bool-cases (eq_text resp.action (text "reject")))
        as (λ _. Passes P (act mailing rspamd resp h b)) [
          | inl e ↦ rw (act, e) on_rejected
          | inr e ↦
              elim (Bool-cases (eq_text resp.action (text "soft reject")))
                as (λ _. Passes P (act mailing rspamd resp h b)) [
                  | inl f ↦ rw (act, e, f) on_rejected
                  | inr f ↦ rw (act, e, f) (mark-Passes P resp h b (k e f))
                ]
        ]

  judge-Passes :
      (P : Type 0) (resp : Response Score) (h : Header) (b : Text)
      → (Accepts resp → P)
      → Passes P (judge mailing rspamd resp h b)
  unfolding judge
  judge-Passes P resp h b k =
      elim (Bool-cases resp.skipped) as (λ _. Passes P (judge mailing rspamd resp h b)) [
        | inl e ↦ rw (judge, e) (passes (omega arith) (k (inl e)))
        | inr e ↦
            elim (Option-cases (smtp_message resp.messages))
              as (λ _. Passes P (judge mailing rspamd resp h b)) [
                | inl n ↦
                    rw (judge, e, n)
                      (act-Passes P resp
                        (del_field (text "X-Spam-Score")
                          (signed mailing rspamd resp.dkim_signature h))
                        b λ x y. k (inr (n, (x, y))))
                | inr (m, n) ↦ rw (judge, e, n) on_rejected
              ]
      ]

  -- The answer of rspamd to the email lets it pass.
  unfoldable pub Accepted : Text → Session → Header → Text → Type 0
  unfolding metadata
  Accepted ip s h b =
      (resp : Response Score) × ((body : Text) × ((verify (metadata mailing rspamd ip s) h b
            ≡ some (resp, body))
          × Accepts resp))

  analyze-Passes :
      (P : Type 0) (ip : Text) (s : Session) (h : Header) (b : Text)
      → ((resp : Response Score) (body : Text)
          → verify (metadata mailing rspamd ip s) h b ≡ some (resp, body)
          → Accepts resp
          → P)
      → Passes P (analyze mailing rspamd ip s h b)
  unfolding analyze
  analyze-Passes P ip s h b k =
      elim (Option-cases (verify (metadata mailing rspamd ip s) h b))
        as (λ _. Passes P (analyze mailing rspamd ip s h b)) [
          | inl n ↦ rw (analyze, n) on_internal
          | inr ((resp, body), n) ↦ rw (analyze, n) (judge-Passes P resp h body (k resp body n))
        ]

  -- An email that is sent is so after at most a quarter of an hour, and with `P`.
  data Sends (P : Type 0) : Answered lib mailing rspamd → Type 0 where
    sends :
        {from : Text} {score : Option Score} {m : Mail lib mailing}
        → m.wait ≤ quarter
        → P
        → Sends P (sending from score m)
    on_answer : {c : ℕ} → Sends P (answered c)
    on_crash : Sends P crashed

  after_filters-Sends :
      (P : Type 0) (filters : List (Text × List (Statement lib.Float))) (from : Rcpt)
      (tos : List Rcpt) (sender : Text) (score : Option Score) (m : Mail lib mailing)
      (r : Step lib mailing)
      → m.wait ≤ quarter
      → P
      → filter_each lib mailing filters from 0 tos m ≡ r
      → Sends P (after_filters lib mailing rspamd sender score r)
  after_filters-Sends P filters from tos sender score m (goes_on m') w p e =
      sends (omega (arith, w, (filter_each-wait lib mailing filters from tos m m' e).1)) p
  after_filters-Sends P filters from tos sender score m (refused c m') w p e = on_answer
  after_filters-Sends P filters from tos sender score m panicked w p e = on_crash

  filtered-Sends :
      (P : Type 0) (filters : List (Text × List (Statement lib.Float))) (s : Session)
      (score : Option Score) (w : ℕ) (h : Header) (b : Text)
      → w ≤ quarter
      → P
      → Sends P (filtered lib mailing rspamd filters s score w h b)
  unfolding filtered
  filtered-Sends P filters s score w h b l p =
      after_filters-Sends P filters s.from s.to s.from.address score
        (record { to = s.to; wait = w; header = h; body = b })
        (filter_each lib mailing filters s.from 0 s.to
          (record { to = s.to; wait = w; header = h; body = b }))
        l p refl

  analysis-Sends :
      (P : Type 0) (filters : List (Text × List (Statement lib.Float))) (s : Session)
      (a : Analyzed mailing rspamd)
      → Passes P a
      → Sends P (after_analysis lib mailing rspamd filters s a)
  unfolding after_analysis filtered
  analysis-Sends P filters s (passed sc w h b) (passes l p) =
      filtered-Sends P filters s (some sc) w h b l p
  analysis-Sends P filters s (rejected c) on_rejected = on_answer
  analysis-Sends P filters s internal on_internal = on_answer
  analysis-Sends P filters s Spam.panicked on_panicked = on_crash

  sent :
      {P : Type 0} {from : Text} {score : Option Score} {m : Mail lib mailing}
      → Sends P (sending from score m)
      → (m.wait ≤ quarter) × P
  sent (sends w p) = (w, p)

  -- If an email that is read is sent, it is after at most a quarter of an hour, whatever the filters and
  -- rspamd say of it; and if rspamd is asked, it has answered, and it has skipped the email, or has
  -- neither a message for the sender nor the action "reject" or "soft reject".
  pub data-Accepted :
      (read : Text → Option (Header × Text)) (filters : List (Text × List (Statement lib.Float)))
      (spam : Bool) (ip : Text) (s : Session) (t : Text) (h : Header) (b from : Text)
      (score : Option Score) (m : Mail lib mailing)
      → read t ≡ some (h, b)
      → data_of lib mailing rspamd read filters spam ip s t ≡ sending from score m
      → (m.wait ≤ quarter) × ((spam ≡ false) ⊎ Accepted ip s h b)
  unfolding data_of Accepted
  data-Accepted read filters true ip s t h b from score m r e =
      let p =
        analysis-Sends (Accepted ip s h b) filters s (analyze mailing rspamd ip s h b)
          (analyze-Passes (Accepted ip s h b) ip s h b λ resp body v a. (resp, (body, (v, a)))) in
      let e' = rw (data_of, r) at e in
      let (w, a) = sent (subst (Sends (Accepted ip s h b)) e' p) in (w, inr a)
  data-Accepted read filters false ip s t h b from score m r e =
      let p = filtered-Sends Unit filters s none 0 h b (omega arith) tt in
      let e' = rw (data_of, r) at e in let (w, a) = sent (subst (Sends Unit) e' p) in (w, inl refl)
