-- ===== src/Relay/Spam.antt =====
-- relay/rspamd.go: what the verdict of rspamd does to an email.
use atmail.Prelude.{
  ℕ, Bool, Option, none, some, List, [], map, if◌then◌else◌, Text, text, eq_text, lookup,
}
use atmail.Relay.Session.{Rcpt, Session}
use atmail.Relay.Filtering.{Mailing, quarter}

-- `RspamdMetadata`, without the flags, which are constant.
pub record Metadata : Type 0 where
  pub ip : Text
  pub from : Text
  pub rcpt : List Text
  pub user : Text

-- `RspamdResponse`.
pub record Response (Score : Type 0) : Type 0 where
  pub skipped : Bool
  pub score : Score
  pub action : Text
  pub subject : Text
  pub messages : Option (List (Text × Text))
  pub dkim_signature : Option Text

-- What relay/rspamd.go takes from rspamd and go-message: the scores with 0 and their two decimals, two
-- more updates of a header, the replacement of a line break and tab by a space, and `Verify`: the answer
-- with the body that it leaves, none for an error.
pub record Rspamd (mailing : Mailing) : Type 1 where
  pub Score : Type 0
  pub no_score : Score
  pub format_score : Score → Text
  pub add_field : Text → Text → mailing.Header → mailing.Header
  pub del_field : Text → mailing.Header → mailing.Header
  pub unfolded : Text → Text
  pub verify : Metadata → mailing.Header → Text → Option (Response Score × Text)

unfoldable pub smtp_message : Option (List (Text × Text)) → Option Text
unfolding lookup
smtp_message none = none
smtp_message (some messages) = lookup (text "smtp_message") messages

module _ (mailing : Mailing) (rspamd : Rspamd mailing) where
  open mailing use {Header, set_field}
  open rspamd use {Score, no_score, format_score, add_field, del_field, unfolded, verify}

  -- What `Analyze` gives: the score and the wait with the email, an error for the client, or the panic
  -- of an unknown action.
  pub data Analyzed : Type 0 where
    passed : Score → ℕ → Header → Text → Analyzed
    rejected : ℕ → Analyzed
    internal panicked : Analyzed

  unfoldable pub metadata : Text → Session → Metadata
  metadata ip s = record {
    ip = ip;
    from = s.from.address;
    rcpt = map {A = Rcpt} (λ r. r.address) s.to;
    user = if s.from.is_local then s.username else [];
  }

  abbrev pub spam_header : Text
  spam_header = text "X-Spam-Score"

  -- The switch, from its third case on.
  unfoldable pub mark : Response Score → Header → Text → Analyzed
  unfolding eq_text
  mark resp h body =
      if eq_text resp.action (text "add header")
      then passed resp.score 0 (add_field spam_header (format_score resp.score) h) body
      else if eq_text resp.action (text "rewrite subject")
      then passed resp.score 0 (set_field (text "Subject") resp.subject h) body
      else if eq_text resp.action (text "greylist")
      then passed resp.score quarter h body
      else if eq_text resp.action (text "no action")
      then passed resp.score 0 h body
      else panicked

  -- The switch.
  unfoldable pub act : Response Score → Header → Text → Analyzed
  unfolding eq_text mark
  act resp h body =
      if eq_text resp.action (text "reject")
      then rejected 550
      else if eq_text resp.action (text "soft reject")
      then rejected 450
      else mark resp h body

  abbrev pub signed : Option Text → Header → Header
  signed none h = h
  signed (some signature) h = add_field (text "DKIM-Signature") (unfolded signature) h

  unfoldable pub judge : Response Score → Header → Text → Analyzed
  unfolding act
  judge resp h body =
      if resp.skipped then passed no_score 0 h body else elim (smtp_message resp.messages) [
        | some m ↦ rejected 550
        | none ↦ act resp (del_field spam_header (signed resp.dkim_signature h)) body
      ]

  abbrev pub judged : Option (Response Score × Text) → Header → Analyzed
  judged none h = internal
  judged (some (resp, body)) h = judge resp h body

  -- `Analyze`, for the address `ip` of the connection.
  unfoldable pub analyze : Text → Session → Header → Text → Analyzed
  unfolding metadata judge
  analyze ip s h body = judged (verify (metadata ip s) h body) h
