-- ===== src/Common/Encryption.antt =====
-- packages/common/src/security/crypto.util.ts: getEncryptKey, encrypt and decrypt. Bytes are numbers;
-- scrypt, AES-256-GCM, UTF-8 and base64 are parameters.
pub mod RoundTrip
pub mod Examples
use backend_core_platform.Common.Errors.ErrorCodes
use backend_core_platform.Common.Errors.{Result, ok, throws, fail, error}
use backend_core_platform.Base.{
  ℕ, zero, suc, String, ◌≡◌, Option, none, some, List, [], ◌∷◌, ◌++◌, ltb, if◌then◌else◌, is_empty,
  length,
}

abbrev pub Bytes : Type 0
Bytes = List ℕ

-- `subarray` up to an index, and from one.
abbrev pub take : ℕ → Bytes → Bytes
take zero bytes = []
take (suc n) [] = []
take (suc n) (b ∷ bytes) = b ∷ take n bytes

abbrev pub drop : ℕ → Bytes → Bytes
drop zero bytes = bytes
drop (suc n) [] = []
drop (suc n) (b ∷ bytes) = drop n bytes

pub record Crypto : Type 0 where
  pub scrypt : String → Bytes → Bytes
  -- The ciphertext and the authentication tag, by the key, the initial vector and the plain bytes.
  pub seal : Bytes → Bytes → Bytes → Bytes × Bytes
  -- By the key, the initial vector, the tag and the ciphertext: what `final` throws, or the plain
  -- bytes.
  pub unseal : Bytes → Bytes → Bytes → Bytes → Result Bytes
  pub utf8 : String → Bytes
  pub from_utf8 : Bytes → String
  pub base64 : Bytes → String
  pub from_base64 : String → Bytes

-- `missing` is the message; the key is trimmed by `trim`.
unfoldable pub get_encrypt_key : (String → String) → String → Option String → Result String
get_encrypt_key trim missing setting = elim setting [
  | none ↦ fail ErrorCodes.internal 500 missing
  | some key ↦ if is_empty (trim key) then fail ErrorCodes.internal 500 missing else ok (trim key)
]

module _ (crypto : Crypto) where
  -- `salt` and `iv` are 16 random bytes each.
  unfoldable pub encrypt : Bytes → Bytes → String → String → String
  encrypt salt iv plain_text password =
      let key = crypto.scrypt password salt in
      let (enc, tag) = crypto.seal key iv (crypto.utf8 plain_text) in
      crypto.base64 (salt ++ (iv ++ (tag ++ enc)))

  abbrev text_of : Result Bytes → Result String
  text_of (ok bytes) = ok (crypto.from_utf8 bytes)
  text_of (throws t) = throws t

  unfoldable pub decrypt : String → String → Result String
  decrypt cipher_text password =
      let buf = crypto.from_base64 cipher_text in
      let salt = take 16 buf in
      let iv = drop 16 (take 32 buf) in
      let tag = drop 32 (take 48 buf) in
      let enc = drop 48 buf in
      if ltb (length buf) 48
      then throws (error "Invalid cipher text: too short (expected salt+iv+authTag+enc)")
      else text_of (crypto.unseal (crypto.scrypt password salt) iv tag enc)

  -- What the algorithms promise of one encryption: the tag has 16 bytes, and each step is undone by
  -- its opposite.
  pub record IsUndone (salt iv : Bytes) (plain_text password : String) : Type 0 where
    pub in_tag :
        length (crypto.seal (crypto.scrypt password salt) iv (crypto.utf8 plain_text)).1 ≡ 16
    pub unsealed :
        let key = crypto.scrypt password salt in
        let (enc, tag) = crypto.seal key iv (crypto.utf8 plain_text) in
        crypto.unseal key iv tag enc ≡ ok (crypto.utf8 plain_text)
    pub decoded :
        let (enc, tag) = crypto.seal (crypto.scrypt password salt) iv (crypto.utf8 plain_text) in
        let bytes = salt ++ (iv ++ (tag ++ enc)) in crypto.from_base64 (crypto.base64 bytes) ≡ bytes
    pub text_back : crypto.from_utf8 (crypto.utf8 plain_text) ≡ plain_text
