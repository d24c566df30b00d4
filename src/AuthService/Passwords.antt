-- ===== src/AuthService/Passwords.antt =====
-- packages/common/src/security/password.util.ts calls argon2: what it promises.
use backend_core_platform.Base.{String, ◌≡◌, Bool, true}

-- `hash salt password`, with the salt that argon2 draws.
pub record Passwords : Type 0 where
  pub hash : String → String → String
  pub verify : String → String → Bool
  pub verify-hash : (salt p : String) → verify (hash salt p) p ≡ true
