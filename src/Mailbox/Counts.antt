-- ===== src/Mailbox/Counts.antt =====
-- mailbox/view.go: the count of a mailbox when messages arrive.
use native.Mathlib.Numerals.{unary_clauses}
use atmail.Prelude.{
  ℕ, ◌+◌, ◌*◌, ◌%◌, ◌<◌, ◌≡◌, refl, Bool, false, none, List, [], ◌∷◌, length, map, arith, ap,
}
use atmail.Mailbox.{Update, num_messages, View, write_counts, write_new_messages}

module _ (fails : ℕ → Update → Bool) (works : (w : ℕ) (u : Update) → fails w u ≡ false) where
  counted :
      (n count : ℕ) (ws : List ℕ)
      → count < 4294967296
      → ((write_counts fails n count ws).0 ≡ (count + n * length ws) % 4294967296)
        × (((write_counts fails n count ws).1.failed ≡ none)
            × (map (λ (u : ℕ × Update). u.0) (write_counts fails n count ws).1.updates ≡ ws))
  unfolding write_counts
  counted n count [] h = (simp unary_clauses (omega (arith, h)), (refl, refl))
  counted n count (w ∷ ws) h =
      let (a, (b, c)) = counted n ((count + n) % 4294967296) ws (omega arith) in
      rw (works w (num_messages ((count + n) % 4294967296)))
        (simp unary_clauses (omega (arith, a)), (b, ap (λ l. w ∷ l) c))

  -- Where no write fails, n new messages raise the count by n for each that waits for changes, not by n;
  -- each of them is written to, in turn.
  pub write_new_messages-count :
      (n : ℕ) (v : View)
      → v.count < 4294967296
      → ((write_new_messages fails n v).0.count ≡ (v.count + n * length v.writers) % 4294967296)
        × (((write_new_messages fails n v).1.failed ≡ none)
            × (map (λ (u : ℕ × Update). u.0) (write_new_messages fails n v).1.updates ≡ v.writers))
  unfolding write_new_messages
  write_new_messages-count n v h = counted n v.count v.writers h
