-- ===== src/Display/Listing/Tests.antt =====
-- display/session_auth.go: the theorem on two mailboxes.
use atmail.Prelude.{◌≡◌, refl, true, false, none, [], ◌∷◌, text, eq_text}
use atmail.Utils.Slices.{zip}
use atmail.Storage.Database.{select_from}
use atmail.Display.Boxes.Examples.{server, session, Agrees-server}
use atmail.Display.Listing.{Listed, done, list}
use atmail.Display.Listing.Complete.{entry, list-entries}

-- Names match themselves, and nothing has children.
abbrev env : Listed
env = record { match_list = λ box ref p. eq_text box p; like = λ n p. false; writes = λ d. true }

list-entries_example :
    list env [] (text "Junk" ∷ []) false none session server
    ≡ (server, entry env session server (text "Junk") ∷ [], done)
unfolding select_from zip eq_text
list-entries_example =
    list-entries env [] (text "Junk" ∷ []) session server (λ d. refl) Agrees-server
