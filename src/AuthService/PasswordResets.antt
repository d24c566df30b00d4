-- ===== src/AuthService/PasswordResets.antt =====
-- apps/auth-service/src/modules/users/users.service.ts: the reset of a forgotten password, in three
-- steps. The tables of users and of resets, argon2 and the encryption are parameters.
pub mod Flow
pub mod Examples
use backend_core_platform.External.Table.{Table}
use backend_core_platform.Common.Errors.ErrorCodes
use backend_core_platform.Common.Errors.{Result, ok, throws, fail}
use backend_core_platform.AuthService.Passwords.{Passwords}
use backend_core_platform.AuthService.Sessions.{User, user_id_of, Fresh}
use backend_core_platform.Base.{
  ℕ, ◌+◌, String, Bool, true, false, not, ◌&&◌, none, some, ltb, ◌==◌, Eq_ℕ, Eq_String,
  if◌then◌else◌,
}

pub record PasswordReset : Type 0 where
  pub id : String
  pub user_id : String
  pub token_hash : String
  pub expires_at : ℕ
  pub used : Bool

abbrev pub reset_id : PasswordReset → String
reset_id r = r.id

-- `where: { userId, expiresAt: { gt: new Date() }, used: false }`
abbrev pub is_pending : ℕ → String → PasswordReset → Bool
is_pending now user_id r = r.user_id == user_id && ltb now r.expires_at && not r.used

-- `where: { userId, used: true }`
abbrev pub is_verified : String → PasswordReset → Bool
is_verified user_id r = r.user_id == user_id && r.used

abbrev pub marked_used : PasswordReset → PasswordReset
marked_used r = record r { used = true }

abbrev pub with_password : String → User → User
with_password hash u = record u { password_hash = hash }

abbrev quarter_hour : ℕ
quarter_hour = 900000

abbrev pub bad_request : {A : Type 0} → String → Result A
bad_request message = fail ErrorCodes.bad_request 400 message

abbrev pub new_reset : Passwords → Fresh → String → String → PasswordReset
new_reset passwords at user_id token = record {
  id = at.id;
  user_id = user_id;
  token_hash = passwords.hash at.salt token;
  expires_at = at.now + quarter_hour;
  used = false;
}

module _ (passwords : Passwords) (users : Table User user_id_of)
    (resets : Table PasswordReset reset_id) where
  pub record State : Type 0 where
    pub user_db : users.Db
    pub reset_db : resets.Db

  -- `token` is the random text; what is returned of it is the encryption of its hash.
  unfoldable pub create_password_reset :
      (String → String) → Fresh → String → String → State → State × (String × ℕ)
  create_password_reset encrypt at user_id token st = (
    record {
      user_db = st.user_db;
      reset_db = resets.create (new_reset passwords at user_id token) st.reset_db;
    },
    (encrypt (passwords.hash at.salt token), at.now + quarter_hour),
  )

  unfoldable pub verify_password_reset : ℕ → String → String → State → State × Result Bool
  verify_password_reset now user_id code st =
      elim (resets.find_first (is_pending now user_id) st.reset_db) [
        | none ↦ (st, bad_request "expired or already used")
        | some reset ↦
            if not (passwords.verify reset.token_hash code)
            then (st, bad_request "Invalid code")
            else (
              record {
                user_db = st.user_db;
                reset_db = resets.update reset.id marked_used st.reset_db;
              },
              ok true,
            )
      ]

  unfoldable pub reset_password : String → String → String → String → State → State × Result Bool
  reset_password salt user_id password code st =
      elim (resets.find_first (is_verified user_id) st.reset_db) [
        | none ↦ (st, bad_request "The code has not been verified")
        | some reset ↦
            if not (passwords.verify reset.token_hash code)
            then (st, bad_request "Invalid code")
            else (
              record {
                user_db =
                    users.update user_id (with_password (passwords.hash salt password)) st.user_db;
                reset_db = resets.delete reset.id st.reset_db;
              },
              ok true,
            )
      ]
