-- ===== src/AuthService/Sessions.antt =====
-- apps/auth-service/src/modules/users/users.service.ts: the refresh tokens, one for each device of a
-- user. The tables of users and of refresh tokens are parameters.
pub mod OnePerDevice
pub mod Rotation
pub mod Logout
pub mod Examples
use backend_core_platform.External.Table.{Table}
use backend_core_platform.Common.Errors.ErrorCodes
use backend_core_platform.Common.Errors.{Result, ok, throws, fail}
use backend_core_platform.AuthService.Passwords.{Passwords}
use backend_core_platform.Base.{
  ℕ, ◌+◌, ◌*◌, String, Bool, false, not, ◌&&◌, Option, none, some, ltb, ◌==◌, Eq_ℕ, Eq_String,
  if◌then◌else◌, is_empty, is_some, ℤ, pos, negsuc,
}

pub record User : Type 0 where
  pub id : String
  pub email : String
  pub password_hash : String
  pub perm_version : ℕ
  pub name : Option String
  pub phone : Option String
  pub is_active : Bool
  pub created_at : ℕ
  pub updated_at : ℕ

abbrev pub user_id_of : User → String
user_id_of u = u.id

pub record RefreshToken : Type 0 where
  pub id : String
  pub user_id : String
  pub token_hash : String
  pub revoked_at : Option ℕ
  pub expires_at : ℕ
  pub device_id : String
  pub device_name : Option String
  pub ip_address : Option String
  pub user_agent : Option String

abbrev pub token_id : RefreshToken → String
token_id r = r.id

pub record DataDevice : Type 0 where
  pub device_name : Option String
  pub ip : Option String
  pub user_agent : Option String

-- `where: { userId, deviceId, revokedAt: null }`
abbrev pub is_session : String → String → RefreshToken → Bool
is_session user_id device_id r =
    r.user_id == user_id && r.device_id == device_id && not (is_some r.revoked_at)

-- `where: { revokedAt: null, userId }`
abbrev pub is_open : String → RefreshToken → Bool
is_open user_id r = r.user_id == user_id && not (is_some r.revoked_at)

abbrev pub has_perm_version : ℕ → Option User → Bool
has_perm_version v none = false
has_perm_version v (some u) = u.perm_version == v

abbrev pub revoked : ℕ → RefreshToken → RefreshToken
revoked now r = record r { revoked_at = some now }

abbrev pub rotated : String → ℕ → RefreshToken → RefreshToken
rotated hash expires_at r = record r { token_hash = hash; expires_at = expires_at }

-- `Number(process.env.JWT_REFRESH_EXPIRES_IN)` where that is a whole number, and none where it is not
-- a finite number; 30 days where it is not positive.
abbrev pub refresh_ttl_seconds : Option ℤ → ℕ
refresh_ttl_seconds none = 2592000
refresh_ttl_seconds (some (pos n)) = if ltb 0 n then n else 2592000
refresh_ttl_seconds (some (negsuc n)) = 2592000

abbrev pub new_token : String → String → String → String → DataDevice → ℕ → RefreshToken
new_token id user_id hash device_id device expires_at = record {
  id = id;
  user_id = user_id;
  token_hash = hash;
  revoked_at = none;
  expires_at = expires_at;
  device_id = device_id;
  device_name = device.device_name;
  ip_address = device.ip;
  user_agent = device.user_agent;
}

abbrev pub invalid_token : {A : Type 0} → Result A
invalid_token = fail ErrorCodes.auth_refresh_token_invalid 401 "Invalid refresh token"

-- What `findByRefreshToken` returns of the user.
pub record UserAuthResponse : Type 0 where
  pub id : String
  pub email : String
  pub perm_version : ℕ
  pub is_active : Bool
  pub created_at : ℕ
  pub updated_at : ℕ

abbrev pub auth_response : User → UserAuthResponse
auth_response u = record {
  id = u.id;
  email = u.email;
  perm_version = u.perm_version;
  is_active = u.is_active;
  created_at = u.created_at;
  updated_at = u.updated_at;
}

-- `if (refreshTokenOld)`
abbrev pub refuses_old : Passwords → RefreshToken → Option String → Bool
refuses_old passwords existing none = false
refuses_old passwords existing (some old) =
    not (is_empty old) && not (passwords.verify existing.token_hash old)

-- `now` in milliseconds, the id of a new row, and the salt of the hash.
pub record Fresh : Type 0 where
  pub now : ℕ
  pub id : String
  pub salt : String

abbrev pub expiry : Option ℤ → Fresh → ℕ
expiry ttl at = at.now + refresh_ttl_seconds ttl * 1000

-- The `where` of `findByRefreshToken`, with the user of the row.
abbrev pub is_live_session : ℕ → (String → Option User) → String → ℕ → String → RefreshToken → Bool
is_live_session now user_of user_id perm_version device_id r =
    is_session user_id device_id r
    && ltb now r.expires_at
    && has_perm_version perm_version (user_of r.user_id)

module _ (passwords : Passwords) (tokens : Table RefreshToken token_id) where
  open tokens use {Db, find_first, count, create, update, update_many}

  unfoldable pub save_refresh_token :
      Option ℤ
      → Fresh
      → String
      → String
      → DataDevice
      → String
      → Option String
      → Db
      → Db × Result RefreshToken
  save_refresh_token ttl at user_id token device device_id old db =
      let hash = passwords.hash at.salt token in
      let row = new_token at.id user_id hash device_id device (expiry ttl at) in
      elim (find_first (is_session user_id device_id) db) [
        | some existing ↦ if refuses_old passwords existing old then (db, invalid_token) else (
          update existing.id (rotated hash (expiry ttl at)) db,
          ok (rotated hash (expiry ttl at) existing),
        )
        | none ↦ (create row db, ok row)
      ]

  unfoldable pub find_by_refresh_token :
      ℕ → (String → Option User) → String → ℕ → String → String → Db → Result UserAuthResponse
  find_by_refresh_token now user_of user_id perm_version token device_id db =
      elim (find_first (is_live_session now user_of user_id perm_version device_id) db) [
        | none ↦ invalid_token
        | some session ↦
            if not (passwords.verify session.token_hash token)
            then invalid_token
            else elim (user_of session.user_id) [
              | none ↦ invalid_token
              | some u ↦ ok (auth_response u)
            ]
      ]

  -- The result is the number of revoked rows.
  unfoldable pub logout_device : ℕ → String → String → String → Db → Db × ℕ
  logout_device now device_id user_id token db =
      elim (find_first (is_session user_id device_id) db) [
        | none ↦ (db, 0)
        | some session ↦ if not (passwords.verify session.token_hash token) then (db, 0) else (
          update_many (λ r. r.id == session.id) (revoked now) db,
          count (λ r. r.id == session.id) db,
        )
      ]

  unfoldable pub logout_all_devices : ℕ → String → Db → Db × ℕ
  logout_all_devices now user_id db =
      (update_many (is_open user_id) (revoked now) db, count (is_open user_id) db)
