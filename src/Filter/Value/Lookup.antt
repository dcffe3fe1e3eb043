-- ===== src/Filter/Value/Lookup.antt =====
-- Laws of the maps with string keys.
use atmail.Prelude.{◌≡◌, refl, some, arith, if◌then◌else◌, Text, eq_text, eq_text_iff}
use atmail.Filter.Value.{Variable, Entries, no_entries, entry, get_entry, set_entry}

module _ {F : Type 0} where
  -- A read after a write of one key.
  pub get_entry-set_entry :
      (k j : Text) (v : Variable F) (m : Entries F)
      → get_entry j (set_entry k v m) ≡ (if eq_text k j then some v else get_entry j m)
  unfolding get_entry set_entry
  get_entry-set_entry k j v no_entries = refl
  get_entry-set_entry k j v (entry i w m) =
      ground (arith, eq_text_iff k j, eq_text_iff i k, eq_text_iff i j, get_entry-set_entry k j v m)
