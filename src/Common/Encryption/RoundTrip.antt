-- ===== src/Common/Encryption/RoundTrip.antt =====
-- Decryption undoes encryption.
use backend_core_platform.Common.Errors.{ok, throws, error}
use backend_core_platform.Common.Encryption.{Bytes, take, drop, Crypto, IsUndone, encrypt, decrypt}
use backend_core_platform.Base.{
  ℕ, zero, suc, ◌+◌, ◌<◌, String, ◌≡◌, refl, ap, ◌∙◌, false, [], ◌∷◌, ◌++◌, arith, ltb, lt→ltb,
  length, length-append,
}

take-append : (xs ys : Bytes) (m k : ℕ) → m ≡ length xs + k → take m (xs ++ ys) ≡ xs ++ take k ys
take-append [] ys m k h = ap (λ j. take j ys) (omega (arith, h))
take-append (x ∷ xs) ys zero k h = absurd (omega (arith, h))
take-append (x ∷ xs) ys (suc m) k h = ap (λ l. x ∷ l) (take-append xs ys m k (omega (arith, h)))

drop-append : (xs ys : Bytes) (m k : ℕ) → m ≡ length xs + k → drop m (xs ++ ys) ≡ drop k ys
drop-append [] ys m k h = ap (λ j. drop j ys) (omega (arith, h))
drop-append (x ∷ xs) ys zero k h = absurd (omega (arith, h))
drop-append (x ∷ xs) ys (suc m) k h = drop-append xs ys m k (omega (arith, h))

append-nil : (xs : Bytes) → xs ++ [] ≡ xs
append-nil [] = refl
append-nil (x ∷ xs) = ap (λ l. x ∷ l) (append-nil xs)

-- Four parts, of which the first three have 16 bytes, are found again.
module _ (salt iv tag enc : Bytes) (in_salt : length salt ≡ 16) (in_iv : length iv ≡ 16)
    (in_tag : length tag ≡ 16) where
  abbrev buf : Bytes
  buf = salt ++ (iv ++ (tag ++ enc))

  salt_part : take 16 buf ≡ salt
  salt_part = take-append salt _ 16 0 (omega (arith, in_salt)) ∙ append-nil salt

  iv_part : drop 16 (take 32 buf) ≡ iv
  iv_part =
      ap (drop 16) (take-append salt _ 32 16 (omega (arith, in_salt)))
      ∙ drop-append salt _ 16 0 (omega (arith, in_salt))
      ∙ take-append iv _ 16 0 (omega (arith, in_iv))
      ∙ append-nil iv

  tag_part : drop 32 (take 48 buf) ≡ tag
  tag_part =
      ap (drop 32) (take-append salt _ 48 32 (omega (arith, in_salt)))
      ∙ drop-append salt _ 32 16 (omega (arith, in_salt))
      ∙ ap (drop 16) (take-append iv _ 32 16 (omega (arith, in_iv)))
      ∙ drop-append iv _ 16 0 (omega (arith, in_iv))
      ∙ take-append tag _ 16 0 (omega (arith, in_tag))
      ∙ append-nil tag

  enc_part : drop 48 buf ≡ enc
  enc_part =
      drop-append salt _ 48 32 (omega (arith, in_salt))
      ∙ drop-append iv _ 32 16 (omega (arith, in_iv))
      ∙ drop-append tag enc 16 0 (omega (arith, in_tag))

  long_enough : ltb (length buf) 48 ≡ false
  long_enough = ground (
    arith,
    length-append salt (iv ++ (tag ++ enc)),
    length-append iv (tag ++ enc),
    length-append tag enc,
    in_salt,
    in_iv,
    in_tag,
  )

-- With a salt and an initial vector of 16 bytes each, decrypting what a text was encrypted to, with
-- the same password, gives the text back, where the algorithms keep their promise for it; a text
-- that decodes to fewer than 48 bytes is refused as too short.
pub decrypt-encrypt :
    (crypto : Crypto) (salt iv : Bytes) (plain_text password short : String)
    → length salt ≡ 16
    → length iv ≡ 16
    → IsUndone crypto salt iv plain_text password
    → length (crypto.from_base64 short) < 48
    → (decrypt crypto (encrypt crypto salt iv plain_text password) password ≡ ok plain_text)
      × (decrypt crypto short password
          ≡ throws (error "Invalid cipher text: too short (expected salt+iv+authTag+enc)"))
unfolding encrypt decrypt
decrypt-encrypt crypto salt iv plain_text password short in_salt in_iv undone few =
    let key = crypto.scrypt password salt in
    let plain = crypto.utf8 plain_text in
    let (enc, tag) = crypto.seal key iv plain in
    let in_tag = undone.in_tag in
    (
      rw undone.decoded (
          rw (long_enough salt iv tag enc in_salt in_iv in_tag) (
            rw
              (
                salt_part salt iv tag enc in_salt in_iv in_tag,
                iv_part salt iv tag enc in_salt in_iv in_tag,
                tag_part salt iv tag enc in_salt in_iv in_tag,
                enc_part salt iv tag enc in_salt in_iv in_tag,
              )
              (rw undone.unsealed (ap ok undone.text_back)))),
      rw (lt→ltb (length (crypto.from_base64 short)) 48 few) refl,
    )
