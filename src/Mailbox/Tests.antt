-- ===== src/Mailbox/Tests.antt =====
-- mailbox/view.go: the theorem on a view with two that wait.
use atmail.Prelude.{ℕ, ◌≡◌, refl, false, none, [], ◌∷◌, map, text, arith}
use atmail.Mailbox.{Update, View, write_new_messages}
use atmail.Mailbox.Counts.{write_new_messages-count}

abbrev inbox : View
inbox = record { id = 1; name = text "INBOX"; count = 5; writers = 8 ∷ 9 ∷ [] }

write_new_messages-count_example :
    ((write_new_messages (λ w u. false) 1 inbox).0.count ≡ 7)
    × (((write_new_messages (λ w u. false) 1 inbox).1.failed ≡ none)
        × (map (λ (u : ℕ × Update). u.0) (write_new_messages (λ w u. false) 1 inbox).1.updates
            ≡ 8 ∷ 9 ∷ []))
write_new_messages-count_example =
    write_new_messages-count (λ w u. false) (λ w u. refl) 1 inbox (omega arith)
