-- ===== src/Relay/Filtering/Discarding.antt =====
-- relay/filter.go, relay/session.go: what becomes of an email that a filter discards or rejects.
use atmail.Prelude.{ℕ, suc, ◌≡◌, refl, true, List, [], ◌∷◌, All, is_empty, Text, text, lookup}
use atmail.Filter.Library.{Library}
use atmail.Filter.Syntax.{Statement, action_statement, nil}
use atmail.Relay.Session.{Rcpt}
use atmail.Relay.Filtering.{
  Mailing, Mail, goes_on, refused, apply_result, apply_found, filter_for, filter_each, place,
}

module _ (lib : Library) (mailing : Mailing) where
  open lib use {Float}

  -- The filter that has one statement, an action without parameters.
  abbrev pub only : Text → List (Text × List (Statement Float))
  only action = (text "all", action_statement action nil ∷ []) ∷ []

  -- Under a filter that discards every email, an email to recipients without folders goes on as it was:
  -- to all of its recipients, without delay.
  pub filter_each-discard :
      (from : Rcpt) (i : ℕ) (tos : List Rcpt) (m : Mail lib mailing)
      → All (λ to. is_empty to.folder ≡ true) tos
      → filter_each lib mailing (only (text "discard")) from i tos m ≡ goes_on m
  unfolding filter_each filter_for place apply_found apply_result lookup
  filter_each-discard from i [] m h = refl
  filter_each-discard from i (to ∷ tos) m (e, h) = rw e (filter_each-discard from (suc i) tos m h)

  -- Under a filter that rejects every email, an email whose first recipient has no folder is refused
  -- with 550, whoever else it is for.
  pub filter_each-reject :
      (from to : Rcpt) (tos : List Rcpt) (m : Mail lib mailing)
      → is_empty to.folder ≡ true
      → filter_each lib mailing (only (text "reject")) from 0 (to ∷ tos) m ≡ refused 550 m
  unfolding filter_each filter_for place apply_found apply_result lookup
  filter_each-reject from to tos m e = rw e refl
