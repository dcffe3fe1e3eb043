-- ===== src/Auth/Crypto.antt =====
-- auth/crypto.go: the encryption of an email for a recipient's key.
use atmail.Prelude.{Bool, Option, none, some, [], ◌∷◌, ◌++◌, if◌then◌else◌, Text, text}

-- What the program takes from go-message, the OpenPGP library and mime/multipart: a header with the
-- first value of a field, whether it has one, and its update; whether a text is an OpenPGP message;
-- and the body in PGP/MIME with its boundary, from a key and the text to encrypt, none for an error.
pub record Cryptography : Type 1 where
  pub Header : Type 0
  pub field : Text → Header → Text
  pub has_field : Text → Header → Bool
  pub set_field : Text → Text → Header → Header
  pub is_pgp : Text → Bool
  pub encrypt : Text → Text → Option (Text × Text)

module _ (cr : Cryptography) where
  open cr use {Header, field, has_field, set_field, is_pgp, encrypt}

  -- The text that is encrypted: two fields of the header, and the body.
  unfoldable pub plain : Header → Text → Text
  plain h body =
      let encoding =
        if has_field (text "Content-Transfer-Encoding") h
        then text "Content-Transfer-Encoding: "
          ++ (field (text "Content-Transfer-Encoding") h ++ 10 ∷ [])
        else [] in
      text "Content-Type: " ++ (field (text "Content-Type") h ++ (10 ∷ encoding ++ (10 ∷ body)))

  -- The email after `EncryptEmail`: its header and what is left to read of its body, with whether
  -- there was no error.
  pub data Encrypted : Type 0 where
    email : Bool → Header → Text → Encrypted

  unfoldable pub sealed : Header → Text → Option (Text × Text) → Encrypted
  sealed h body none = email Bool.false h body
  sealed h body (some (boundary, mime)) =
      email Bool.true
        (set_field (text "Content-Transfer-Encoding") (text "7bit") (
          set_field (text "Content-Type")
            (text "multipart/encrypted; boundary="
              ++ (boundary ++ text "; protocol=\"application/pgp-encrypted\""))
            h))
        mime

  -- `EncryptEmail`. The body has been read to its end, and it is put back after an error only.
  unfoldable pub encrypt_email : Text → Header → Text → Encrypted
  unfolding plain sealed
  encrypt_email key h body =
      if is_pgp body then email Bool.true h [] else sealed h body (encrypt key (plain h body))
