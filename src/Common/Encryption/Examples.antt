-- ===== src/Common/Encryption/Examples.antt =====
-- One encryption, with algorithms that are right for it.
use backend_core_platform.Common.Errors.{ok, throws, error}
use backend_core_platform.Common.Encryption.{Bytes, Crypto, IsUndone, encrypt, decrypt}
use backend_core_platform.Common.Encryption.RoundTrip.{decrypt-encrypt}
use backend_core_platform.Base.{
  ℕ, ◌≡◌, refl, [], ◌∷◌, ◌++◌, arith, ◌==◌, Eq_ℕ, Eq_String, if◌then◌else◌,
}

abbrev sixteen : ℕ → Bytes
sixteen b = b ∷ b ∷ b ∷ b ∷ b ∷ b ∷ b ∷ b ∷ b ∷ b ∷ b ∷ b ∷ b ∷ b ∷ b ∷ b ∷ []

-- The cipher adds nothing but the tag; the one text has the bytes 1 and 2.
abbrev crypto : Crypto
crypto = record {
  scrypt = λ password salt. salt;
  seal = λ key iv plain. (plain, sixteen 9);
  unseal = λ key iv tag enc. ok enc;
  utf8 = λ s. 1 ∷ 2 ∷ [];
  from_utf8 = λ bytes. "code";
  base64 = λ bytes. "c2FsdA==";
  from_base64 = λ s.
      if s == "c2FsdA==" then sixteen 7 ++ (sixteen 8 ++ (sixteen 9 ++ 1 ∷ 2 ∷ [])) else 1 ∷ [];
}

undone : IsUndone crypto (sixteen 7) (sixteen 8) "code" "key"
undone = record { in_tag = refl; unsealed = refl; decoded = refl; text_back = refl }

decrypt-encrypt_example :
    (decrypt crypto (encrypt crypto (sixteen 7) (sixteen 8) "code" "key") "key" ≡ ok "code")
    × (decrypt crypto "AQ==" "key"
        ≡ throws (error "Invalid cipher text: too short (expected salt+iv+authTag+enc)"))
decrypt-encrypt_example =
    decrypt-encrypt crypto (sixteen 7) (sixteen 8) "code" "key" "AQ==" refl refl undone
      (omega arith)
