-- ===== src/Lib.antt =====
-- atmail: models of the mail server's filter language, of its users, rate limiter and configuration, of
-- its SMTP sessions, relaying and queue, of its files and tables of emails, and of what IMAP sessions do
-- to them, with the theorems about them.
--
-- The parts. A session of the relay (relay/session.go) takes a sender and recipients, which it looks
-- up in the users of a domain (auth/domain.go); a failed login goes to the rate limiter
-- (auth/ratelimit.go). For each recipient of an email the filters run (relay/filter.go), which are
-- parsed and evaluated by the filter language (filter/). Then the email goes to its recipients
-- (relay/relay.go): for another host into a queue (relay/queue.go), for a local one into the files and
-- tables of its user (storage/), which the IMAP sessions (display/) read and change; a view
-- (mailbox/view.go) tells these of changes.
--
-- Filter: the filter language.
--   Filter.Kind, Filter.Lexer: filter/lexer.go. A `Lexer` record holds the bytes that are left, the
--     lexem that `Peek` has stored, the line and the character; `next`, `peek`, `skip_sep` are its
--     methods.
--   Filter.Outcome, Filter.Parser, Filter.Statements: filter/literal.go, and the parsers of
--     filter/expression.go, filter/ast.go and filter/filter.go. A parser passes the lexer on and
--     gives a value, an error, a nil dereference, or runs out of fuel.
--   Filter.Value, Filter.Methods, Filter.Collections: filter/eval.go, filter/eval_std.go, the
--     variables of an evaluation and their methods. The maps of a variable are lists of entries.
--   Filter.Context: filter/eval.go, filter/eval_actions.go, the context and the actions. The map of
--     headers that a result shares with its copies is passed along beside the context.
--   Filter.Eval: the evaluation of expressions, statements, filters and trees.
--   Filter.Strings: the string functions of Go that those use.
--   Filter.Floats, Filter.Library: the parameters, float64 arithmetic, strings.Split by an empty
--     separator, and the comparison of maps by identity.
-- Auth.Domain: auth/domain.go. The file system, the password algorithm, the connections of system
--   users and den are the record `Services`.
-- Auth.Limiter: auth/ratelimit.go, a map of addresses; the goroutines of `increase` are the events
--   `calm` and `clean` of Auth.Limiter.Trace.
-- Relay.Session: relay/session.go, logins, senders and recipients; Relay.Session.Commands, those in any order.
-- Relay.Data: relay/session.go, the whole of `Data`, with Relay.Spam: relay/rspamd.go, what the verdict of
--   rspamd does to an email; rspamd is the record `Rspamd`.
-- Relay.Filtering: relay/filter.go and the loop of `Data`; go-message and the learning client of rspamd
--   are the record `Mailing`.
-- Relay.Dispatch: relay/relay.go, `send` and `relayInside`: where an accepted email goes. What it is
--   given to, the queue or the storage, is a list of deliveries. Auth.Crypto: auth/crypto.go, the
--   encryption, with OpenPGP and go-message as the record `Cryptography`.
-- Relay.Outside: the rest of relay/relay.go, the hosts of another domain, with DNS and SMTP as the
--   record `Network`.
-- Relay.Queue: relay/queue.go, the tries of one email; `Relayed` is what `relayOutside` gives.
-- Relay.Queue.Workers: the loop and the goroutines of relay/queue.go, as steps in any order.
-- Utils.Slices: utils/slices.go.
-- Storage.Format: storage/store/format.go, on a file as its bytes; gzip is the record `Gzip`.
-- Storage.Files: storage/store/email.go and storage/email.go, the files of a user, the place of the next
--   email (storage/meta.go), and the rows of the emails.
-- Storage.Database: the queries of storage/store/query/ on the tables of emails, of the emails of a
--   mailbox, and of the flags of an email. Storage.Mailbox, Storage.Flags:
--   storage/mailbox.go, storage/flags.go.
-- Storage.Cache: storage/meta.go, the saving of the place of the next email, and the cache of the users.
-- Storage.Search: storage/search.go, the text of the query, and the test of its rows.
-- Storage.Delivery: storage/email.go, StoreEmail with its callbacks, on the files and the tables at once. The unique
--   index of storage/store/migrations/ refuses a second row at a place (Storage.Files.new_email, is_taken).
-- Display.Boxes: display/session_auth.go and display/server.go, the mailboxes that the sessions of a user
--   share, and the table of mailboxes.
-- Display.Selected, Display.Storing: display/session_selected.go, what a session does to a mailbox on
--   those tables.
-- Display.Status: storage/mailbox.go and storage/mailbox_attributes.go, what a session is told of a mailbox.
-- Display.Listing, Display.Appending: display/session_auth.go, List, Status and Append.
-- Display.Fetching: display/session_selected.go, Fetch, with what go-imap extracts from an email as the record
--   `Fetching`.
-- Display.Login: display/session.go, a login and the mailboxes that it finds or loads.
-- Display.Receiving: cmd/atmaild/main.go, what a delivery does to the mailboxes that sessions share.
-- Mailbox: mailbox/view.go, a mailbox with those that wait for its changes.
-- Config: config.go, the checks of the domains; Config.Loading: config.go, the files of a configuration, as
--   the record `Disk`, and those of the filters.
--
-- Strings are lists of bytes, in Prelude.Texts, with maps keyed by strings as lists of entries in the
-- order of an iteration. An `int` is unbounded (Prelude.Int); it comes from a float64, by a parameter.
--
-- Fuel. `Parse` starts with one more unit than there are bytes, and each round of a loop of the parser
-- takes at least one lexem; Filter.Parser.Total and Filter.Statements.Total carry the bound. The loops
-- of the lexer take their fuel from the bytes left, and Filter.Lexer.Progress carries that bound. The
-- queue takes a unit for a retry, and `relayInside` one for a group in a group.
--
-- Not modelled: the migrations of storage/; the programs (cmd/) but for OnReceive; the connections of the
-- configuration; the HTTP calls of relay/rspamd.go, and sockets. Of the database, errors other than those
-- of its constraints, and of the file system, errors other than a file that is not there, are left out,
-- but where a parameter gives them. The table of mailboxes is not consulted where emails are copied from
-- one to another, nor is the length of a name where GetOrCreateMailbox gets it. Logging has no
-- part in the models, nor has time but for the waits.
pub mod Prelude
pub mod Filter
pub mod Auth
pub mod Relay
pub mod Storage
pub mod Utils
pub mod Display
pub mod Config
pub mod Mailbox
